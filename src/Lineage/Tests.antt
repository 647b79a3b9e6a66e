-- ===== src/Lineage/Tests.antt =====
-- A model that was promoted from a checkpoint of a run, and the theorems applied there.
use forebay.Prelude.{some, ◌≡◌, refl, List, [], ◌∷◌, All, true}
use forebay.Prelude.Text.{bytes, text_eq}
use forebay.Lineage.{
  version, job_run, checkpoint, model, declared, observed, read, produced, promoted, Node,
  new_graph, ancestor_edges, add, link, find_node, holds_between, allowed, Answer, ancestry,
  answered,
}
use forebay.Lineage.Ends.{IsCounted, ancestry_answers}
use forebay.Lineage.Laws.{Call, adding, linking, build, Descends, ancestor_edges_descend}

abbrev calls : List Call
calls =
    adding (record { id = bytes "corpus"; kind = version; digest = bytes "d1"; retrievable = true })
    ∷ adding (record { id = bytes "train"; kind = job_run; digest = []; retrievable = true })
    ∷ adding
        (record { id = bytes "step9"; kind = checkpoint; digest = bytes "d2"; retrievable = true })
    ∷ adding (record { id = bytes "chat"; kind = model; digest = bytes "d3"; retrievable = true })
    ∷ linking (record {
      from_id = bytes "train";
      to_id = bytes "corpus";
      relation = read;
      basis = observed;
    })
    ∷ linking (record {
      from_id = bytes "train";
      to_id = bytes "step9";
      relation = produced;
      basis = observed;
    })
    ∷ linking (record {
      from_id = bytes "step9";
      to_id = bytes "chat";
      relation = promoted;
      basis = declared;
    })
    ∷ linking (record {
      from_id = bytes "chat";
      to_id = bytes "train";
      relation = read;
      basis = observed;
    })
    ∷ []

ancestor_edges_descend_example :
    All
      (Descends (build new_graph calls).nodes (bytes "chat"))
      (ancestor_edges (build new_graph calls) (bytes "chat"))
ancestor_edges_descend_example = ancestor_edges_descend calls (bytes "chat")

abbrev chat : Node
chat = record { id = bytes "chat"; kind = model; digest = bytes "d3"; retrievable = true }

chat_found : find_node (bytes "chat") (build new_graph calls).nodes ≡ some chat
unfolding build add link find_node text_eq holds_between allowed
chat_found = refl

ancestry_answers_example :
    (a : Answer) × (ancestry (build new_graph calls) (bytes "chat") ≡ answered a) × IsCounted a
ancestry_answers_example = ancestry_answers calls (bytes "chat") chat chat_found

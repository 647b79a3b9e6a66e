-- ===== src/Lineage.antt =====
-- internal/lineage/lineage.go: what produced what, and how each of those claims is known. A kind, a
-- basis and a relation are integers; a map is an association list that holds each key once.
pub mod Laws
pub mod Ends
mod Tests
use forebay.Prelude.{
  ℕ, zero, suc, ◌+◌, Bool, true, false, not, ◌&&◌, ◌||◌, Option, none, some, List, [], ◌∷◌, ◌++◌,
  length, ◌==◌, if◌then◌else◌,
}
use forebay.Prelude.Int.{ℤ, pos, eqb_ℤ}
use forebay.Prelude.Text.{Text, bytes, text_eq, text_lt}

abbrev pub version : ℤ
version = pos 0

abbrev pub job_run : ℤ
job_run = pos 1

abbrev pub checkpoint : ℤ
checkpoint = pos 2

abbrev pub model : ℤ
model = pos 3

abbrev pub declared : ℤ
declared = pos 0

abbrev pub observed : ℤ
observed = pos 1

abbrev pub read : ℤ
read = pos 0

abbrev pub produced : ℤ
produced = pos 1

abbrev pub promoted : ℤ
promoted = pos 2

unfoldable pub kind_name : ℤ → Text
kind_name k =
    if eqb_ℤ k version
    then bytes "version"
    else if eqb_ℤ k job_run
    then bytes "run"
    else if eqb_ℤ k checkpoint
    then bytes "checkpoint"
    else if eqb_ℤ k model
    then bytes "model"
    else bytes "unknown"

unfoldable pub basis_name : ℤ → Text
basis_name b = if eqb_ℤ b observed then bytes "observed" else bytes "declared"

unfoldable pub relation_name : ℤ → Text
relation_name r =
    if eqb_ℤ r read
    then bytes "read"
    else if eqb_ℤ r produced
    then bytes "produced"
    else if eqb_ℤ r promoted
    then bytes "promoted"
    else bytes "unknown"

pub record Node : Type 0 where
  pub id : Text
  pub kind : ℤ
  pub digest : Text
  pub retrievable : Bool

pub record Edge : Type 0 where
  pub from_id : Text
  pub to_id : Text
  pub relation : ℤ
  pub basis : ℤ

pub data Error : Type 0 where
  no_identity no_such_node duplicate wrong_kinds not_observable : Error

-- The kinds that a relation runs between, where it is known.
unfoldable pub allowed : ℤ → Option (ℤ × ℤ)
allowed r =
    if eqb_ℤ r read
    then some (job_run, version)
    else if eqb_ℤ r produced
    then some (job_run, checkpoint)
    else if eqb_ℤ r promoted
    then some (checkpoint, model)
    else none

-- A node stands under its own identity, and `out` has the edges that leave each node.
pub record Graph : Type 0 where
  pub nodes : List Node
  pub out : List (Text × List Edge)

abbrev pub new_graph : Graph
new_graph = record { nodes = []; out = [] }

unfoldable pub find_node : Text → List Node → Option Node
find_node k [] = none
find_node k (n ∷ ns) = if text_eq k n.id then some n else find_node k ns

unfoldable pub edges_of : Text → List (Text × List Edge) → List Edge
edges_of k [] = []
edges_of k ((j, es) ∷ out) = if text_eq k j then es else edges_of k out

unfoldable pub add_edge : Edge → List (Text × List Edge) → List (Text × List Edge)
add_edge e [] = (e.from_id, e ∷ []) ∷ []
add_edge e ((j, es) ∷ out) =
    if text_eq e.from_id j then (j, es ++ e ∷ []) ∷ out else (j, es) ∷ add_edge e out

unfoldable pub add : Graph → Node → Graph × Option Error
add g n = if text_eq n.id [] then (g, some no_identity) else elim (find_node n.id g.nodes) [
  | some _ ↦ (g, some duplicate)
  | none ↦ (record g { nodes = n ∷ g.nodes }, none)
]

-- Whether a relation holds between two kinds.
unfoldable pub holds_between : ℤ → ℤ → ℤ → Bool
holds_between r from to = elim (allowed r) [
  | none ↦ false
  | some (a, b) ↦ eqb_ℤ from a && eqb_ℤ to b
]

unfoldable pub link : Graph → Edge → Graph × Option Error
link g e = elim (find_node e.from_id g.nodes) [
  | none ↦ (g, some no_such_node)
  | some from ↦ elim (find_node e.to_id g.nodes) [
    | none ↦ (g, some no_such_node)
    | some to ↦
        if not (holds_between e.relation from.kind to.kind)
        then (g, some wrong_kinds)
        else if eqb_ℤ e.relation promoted && eqb_ℤ e.basis observed
        then (g, some not_observable)
        else (record g { out = add_edge e g.out }, none)
  ]
]

unfoldable pub all_edges : List (Text × List Edge) → List Edge
all_edges [] = []
all_edges ((j, es) ∷ out) = es ++ all_edges out

-- The edges of a node that say what it read.
unfoldable pub reads_among : List Edge → List Edge
reads_among [] = []
reads_among (e ∷ es) = if eqb_ℤ e.relation read then e ∷ reads_among es else reads_among es

-- The edges into a node that say what produced or promoted it.
unfoldable pub makers_of : Text → List Edge → List Edge
makers_of k [] = []
makers_of k (e ∷ es) =
    let rest = makers_of k es in
    if text_eq e.to_id k && not (eqb_ℤ e.relation read) then e ∷ rest else rest

unfoldable pub ancestor_edges : Graph → Text → List Edge
ancestor_edges g at_ = reads_among (edges_of at_ g.out) ++ makers_of at_ (all_edges g.out)

-- Where an edge leads when ancestry follows it.
unfoldable pub next_of : Edge → Text
next_of e = if eqb_ℤ e.relation read then e.to_id else e.from_id

-- The lookup of an id in the map `seen`.
unfoldable pub is_seen : Text → List Text → Bool
is_seen k [] = false
is_seen k (j ∷ js) = text_eq k j || is_seen k js

pub record Answer : Type 0 where
  pub nodes : List Node
  pub edges : List Edge
  pub observed_claims : ℕ
  pub asserted_claims : ℕ
  pub unretrievable : List Text

abbrev pub no_answer : Answer
no_answer = record {
  nodes = [];
  edges = [];
  observed_claims = 0;
  asserted_claims = 0;
  unretrievable = [];
}

unfoldable pub is_complete : Answer → Bool
is_complete a = (a.asserted_claims == 0) && not (a.observed_claims == 0)

-- One node of the traversal in the answer.
unfoldable pub note_node : Option Node → Answer → Answer
note_node none a = a
note_node (some n) a =
    let b = record a { nodes = a.nodes ++ n ∷ [] } in
    if eqb_ℤ n.kind version && not n.retrievable
    then record b { unretrievable = a.unretrievable ++ n.id ∷ [] }
    else b

unfoldable pub note_edge : Edge → Answer → Answer
note_edge e a =
    let b = record a { edges = a.edges ++ e ∷ [] } in
    if eqb_ℤ e.basis observed
    then record b { observed_claims = suc a.observed_claims }
    else record b { asserted_claims = suc a.asserted_claims }

-- The state of the traversal: the stack, its top first, the ids seen, and the answer built up.
pub record Walk : Type 0 where
  pub stack : List Text
  pub seen : List Text
  pub answer : Answer

-- The loop over the edges of one node.
unfoldable pub follow : List Edge → Walk → Walk
follow [] w = w
follow (e ∷ es) w =
    let noted = record w { answer = note_edge e w.answer } in
    let pushed = record noted { stack = next_of e ∷ w.stack; seen = next_of e ∷ w.seen } in
    follow es (if is_seen (next_of e) w.seen then noted else pushed)

-- The traversal, with as much fuel as the graph has nodes; none where that is not enough.
unfoldable pub walk : Graph → ℕ → List Text → List Text → Answer → Option Answer
walk g fuel [] seen a = some a
walk g zero (at_ ∷ stack) seen a = none
walk g (suc fuel) (at_ ∷ stack) seen a =
    let w =
      follow (ancestor_edges g at_)
        (record { stack = stack; seen = seen; answer = note_node (find_node at_ g.nodes) a }) in
    walk g fuel w.stack w.seen w.answer

unfoldable pub insert_node : Node → List Node → List Node
insert_node n [] = n ∷ []
insert_node n (m ∷ ms) = if text_lt m.id n.id then m ∷ insert_node n ms else n ∷ m ∷ ms

unfoldable pub sort_nodes : List Node → List Node
sort_nodes [] = []
sort_nodes (n ∷ ns) = insert_node n (sort_nodes ns)

-- The order of the edges: by where they come from, then by where they lead.
unfoldable pub edge_before : Edge → Edge → Bool
edge_before d e =
    if not (text_eq d.from_id e.from_id)
    then text_lt d.from_id e.from_id
    else text_lt d.to_id e.to_id

unfoldable pub insert_edge : Edge → List Edge → List Edge
insert_edge e [] = e ∷ []
insert_edge e (d ∷ ds) = if edge_before d e then d ∷ insert_edge e ds else e ∷ d ∷ ds

unfoldable pub sort_edges : List Edge → List Edge
sort_edges [] = []
sort_edges (e ∷ es) = insert_edge e (sort_edges es)

unfoldable pub insert_id : Text → List Text → List Text
insert_id k [] = k ∷ []
insert_id k (j ∷ js) = if text_lt j k then j ∷ insert_id k js else k ∷ j ∷ js

unfoldable pub sort_ids : List Text → List Text
sort_ids [] = []
sort_ids (k ∷ ks) = insert_id k (sort_ids ks)

pub data Ancestry : Type 0 where
  refused : Error → Ancestry
  unfinished : Ancestry
  answered : Answer → Ancestry

unfoldable pub ancestry : Graph → Text → Ancestry
ancestry g id = elim (find_node id g.nodes) [
  | none ↦ refused no_such_node
  | some _ ↦ elim (walk g (length g.nodes) (id ∷ []) (id ∷ []) no_answer) [
    | none ↦ unfinished
    | some a ↦ answered (record a {
      nodes = sort_nodes a.nodes;
      edges = sort_edges a.edges;
      unretrievable = sort_ids a.unretrievable;
    })
  ]
]

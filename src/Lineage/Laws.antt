-- ===== src/Lineage/Laws.antt =====
-- Graphs of internal/lineage/lineage.go that `Add` and `Link` build.
use forebay.Prelude.{
  ℕ, ◌<◌, ◌≡◌, ◌∙◌, true, false, ◌&&◌, none, some, List, [], ◌∷◌, All, All-map, All-append,
  if◌then◌else◌, arith, inl, inr, Bool-cases, Option-cases,
}
use forebay.Prelude.Int.{ℤ, eqb_ℤ}
use forebay.Prelude.Text.{Text, text_eq, text_eq→eq, text_eq_refl, text_eq_sym}
use forebay.Lineage.{
  job_run, checkpoint, model, observed, read, promoted, Node, Edge, allowed, Graph, new_graph,
  find_node, edges_of, add_edge, add, holds_between, link, all_edges, reads_among, makers_of,
  ancestor_edges, next_of,
}

-- What an edge says holds: both its ends are recorded, its relation runs between their kinds, and a
-- promotion is not called observed.
pub record IsLawful (ns : List Node) (e : Edge) : Type 0 where
  pub from : Node
  pub to : Node
  pub from_found : find_node e.from_id ns ≡ some from
  pub to_found : find_node e.to_id ns ≡ some to
  pub holds : holds_between e.relation from.kind to.kind ≡ true
  pub decided : (eqb_ℤ e.relation promoted && eqb_ℤ e.basis observed) ≡ false

-- Every edge is lawful and is kept with the node that it leaves.
abbrev pub IsLawfulGraph : Graph → Type 0
IsLawfulGraph g =
    All (λ x. All (λ e. IsLawful g.nodes e × (text_eq x.0 e.from_id ≡ true)) x.1) g.out

find_node-cons :
    (k : Text) (n m : Node) (ns : List Node)
    → find_node n.id ns ≡ none
    → find_node k ns ≡ some m
    → find_node k (n ∷ ns) ≡ some m
unfolding find_node
find_node-cons k n m ns new_ h = elim (Bool-cases (text_eq k n.id)) [
  | inr off ↦ ground (arith, off, h)
  | inl hit ↦ absurd (ground (arith, new_, h, text_eq→eq k n.id hit))
]

IsLawful-cons :
    (n : Node) (ns : List Node) (e : Edge)
    → find_node n.id ns ≡ none
    → IsLawful ns e
    → IsLawful (n ∷ ns) e
IsLawful-cons n ns e new_ h = record {
  from = h.from;
  to = h.to;
  from_found = find_node-cons e.from_id n h.from ns new_ h.from_found;
  to_found = find_node-cons e.to_id n h.to ns new_ h.to_found;
  holds = h.holds;
  decided = h.decided;
}

add-IsLawfulGraph : (g : Graph) (n : Node) → IsLawfulGraph g → IsLawfulGraph (add g n).0
unfolding add
add-IsLawfulGraph g n h = elim (Bool-cases (text_eq n.id [])) [
  | inl blank ↦ rw (add, blank) h
  | inr named ↦ elim (Option-cases (find_node n.id g.nodes)) [
    | inr (m, dup) ↦ rw (add, named, dup) h
    | inl new_ ↦
        rw (add, named, new_)
          (All-map g.out (λ x es. All-map x.1 (λ e l. (IsLawful-cons n g.nodes e new_ l.0, l.1)) es)
            h)
  ]
]

add_edge-All :
    (ns : List Node) (e : Edge) (out : List (Text × List Edge))
    → IsLawful ns e
    → All (λ x. All (λ e. IsLawful ns e × (text_eq x.0 e.from_id ≡ true)) x.1) out
    → All (λ x. All (λ e. IsLawful ns e × (text_eq x.0 e.from_id ≡ true)) x.1) (add_edge e out)
unfolding add_edge
add_edge-All ns e [] l h = (((l, text_eq_refl e.from_id), tt), tt)
add_edge-All ns e ((j, es) ∷ out) l h = elim (Bool-cases (text_eq e.from_id j)) [
  | inl here ↦ rw here (
    All-append (λ f. IsLawful ns f × (text_eq j f.from_id ≡ true)) es (e ∷ []) h.0
        ((l, text_eq_sym j e.from_id ∙ here), tt),
    h.1,
  )
  | inr there ↦ rw there (h.0, add_edge-All ns e out l h.1)
]

link-IsLawfulGraph : (g : Graph) (e : Edge) → IsLawfulGraph g → IsLawfulGraph (link g e).0
unfolding link
link-IsLawfulGraph g e h = elim (Option-cases (find_node e.from_id g.nodes)) [
  | inl no_ ↦ rw (link, no_) h
  | inr (from, a) ↦ elim (Option-cases (find_node e.to_id g.nodes)) [
    | inl no_ ↦ rw (link, a, no_) h
    | inr (to, b) ↦ elim (Bool-cases (holds_between e.relation from.kind to.kind)) [
      | inr wrong ↦ rw (link, a, b, wrong) h
      | inl right ↦ elim (Bool-cases (eqb_ℤ e.relation promoted && eqb_ℤ e.basis observed)) [
        | inl seen ↦ rw (link, a, b, right, seen) h
        | inr fine ↦
            rw (link, a, b, right, fine)
              (add_edge-All g.nodes e g.out
                (record {
                  from = from;
                  to = to;
                  from_found = a;
                  to_found = b;
                  holds = right;
                  decided = fine;
                })
                h)
      ]
    ]
  ]
]

-- How far a kind stands from the versions that everything comes from.
abbrev pub rank : ℤ → ℕ
rank k =
    if eqb_ℤ k job_run then 1 else if eqb_ℤ k checkpoint then 2 else if eqb_ℤ k model then 3 else 0

-- An edge leads ancestry from one recorded node to another one of a lower rank.
pub record Descends (ns : List Node) (at_ : Text) (e : Edge) : Type 0 where
  pub here : Node
  pub next : Node
  pub here_found : find_node at_ ns ≡ some here
  pub next_found : find_node (next_of e) ns ≡ some next
  pub lower : rank next.kind < rank here.kind

reading_kinds :
    (r from to : ℤ) → holds_between r from to ≡ true → eqb_ℤ r read ≡ true → rank to < rank from
unfolding holds_between allowed
reading_kinds r from to h e = ground (arith, h, e)

making_kinds :
    (r from to : ℤ) → holds_between r from to ≡ true → eqb_ℤ r read ≡ false → rank from < rank to
unfolding holds_between allowed
making_kinds r from to h e = ground (arith, h, e)

reads_among-Descends :
    (ns : List Node) (k : Text) (es : List Edge)
    → All (λ e. IsLawful ns e × (text_eq k e.from_id ≡ true)) es
    → All (Descends ns k) (reads_among es)
unfolding reads_among next_of
reads_among-Descends ns k [] h = tt
reads_among-Descends ns k (e ∷ es) h = elim (Bool-cases (eqb_ℤ e.relation read)) [
  | inr other ↦ rw (reads_among, other) (reads_among-Descends ns k es h.1)
  | inl reads ↦
      let l = h.0.0 in
      let step : Descends ns k e = record {
        here = l.from;
        next = l.to;
        here_found = rw (text_eq→eq k e.from_id h.0.1) (l.from_found);
        next_found = rw reads (l.to_found);
        lower = reading_kinds e.relation l.from.kind l.to.kind l.holds reads;
      } in
      rw (reads_among, reads) (step, reads_among-Descends ns k es h.1)
]

makers_of-Descends :
    (ns : List Node) (k : Text) (es : List Edge)
    → All (IsLawful ns) es
    → All (Descends ns k) (makers_of k es)
unfolding makers_of next_of
makers_of-Descends ns k [] h = tt
makers_of-Descends ns k (e ∷ es) h = elim (Bool-cases (text_eq e.to_id k)) [
  | inr off ↦ rw (makers_of, off) (makers_of-Descends ns k es h.1)
  | inl hit ↦ elim (Bool-cases (eqb_ℤ e.relation read)) [
    | inl reads ↦ rw (makers_of, hit, reads) (makers_of-Descends ns k es h.1)
    | inr makes ↦
        let l = h.0 in
        let step : Descends ns k e = record {
          here = l.to;
          next = l.from;
          here_found = rw (← text_eq→eq e.to_id k hit) (l.to_found);
          next_found = rw makes (l.from_found);
          lower = making_kinds e.relation l.from.kind l.to.kind l.holds makes;
        } in
        rw (makers_of, hit, makes) (step, makers_of-Descends ns k es h.1)
  ]
]

edges_of-IsLawful :
    (ns : List Node) (k : Text) (out : List (Text × List Edge))
    → All (λ x. All (λ e. IsLawful ns e × (text_eq x.0 e.from_id ≡ true)) x.1) out
    → All (λ e. IsLawful ns e × (text_eq k e.from_id ≡ true)) (edges_of k out)
unfolding edges_of
edges_of-IsLawful ns k [] h = tt
edges_of-IsLawful ns k ((j, es) ∷ out) h = elim (Bool-cases (text_eq k j)) [
  | inl hit ↦ rw hit (rw (text_eq→eq k j hit) (h.0))
  | inr miss ↦ rw miss (edges_of-IsLawful ns k out h.1)
]

all_edges-IsLawful :
    (ns : List Node) (out : List (Text × List Edge))
    → All (λ x. All (λ e. IsLawful ns e × (text_eq x.0 e.from_id ≡ true)) x.1) out
    → All (IsLawful ns) (all_edges out)
unfolding all_edges
all_edges-IsLawful ns [] h = tt
all_edges-IsLawful ns ((j, es) ∷ out) h =
    All-append (IsLawful ns) es (all_edges out) (All-map es (λ e x. x.0) h.0)
      (all_edges-IsLawful ns out h.1)

pub ancestor_edges-Descends :
    (g : Graph) (k : Text) → IsLawfulGraph g → All (Descends g.nodes k) (ancestor_edges g k)
unfolding ancestor_edges
ancestor_edges-Descends g k h =
    All-append (Descends g.nodes k) (reads_among (edges_of k g.out)) (makers_of k (all_edges g.out))
      (reads_among-Descends g.nodes k (edges_of k g.out) (edges_of-IsLawful g.nodes k g.out h))
      (makers_of-Descends g.nodes k (all_edges g.out) (all_edges-IsLawful g.nodes g.out h))

-- Calls of `Add` and `Link`, one after the other, whatever each returns.
pub data Call : Type 0 where
  adding : Node → Call
  linking : Edge → Call

unfoldable pub build : Graph → List Call → Graph
build g [] = g
build g (adding n ∷ cs) = build (add g n).0 cs
build g (linking e ∷ cs) = build (link g e).0 cs

pub build-IsLawfulGraph :
    (g : Graph) (cs : List Call) → IsLawfulGraph g → IsLawfulGraph (build g cs)
unfolding build
build-IsLawfulGraph g [] h = h
build-IsLawfulGraph g (adding n ∷ cs) h =
    build-IsLawfulGraph (add g n).0 cs (add-IsLawfulGraph g n h)
build-IsLawfulGraph g (linking e ∷ cs) h =
    build-IsLawfulGraph (link g e).0 cs (link-IsLawfulGraph g e h)

-- In a graph that any sequence of Add and Link built, every edge that Ancestry follows from a node
-- leads from that recorded node to another recorded one whose kind ranks strictly lower, so that
-- no cycle can be followed.
pub ancestor_edges_descend :
    (cs : List Call) (k : Text)
    → All (Descends (build new_graph cs).nodes k) (ancestor_edges (build new_graph cs) k)
ancestor_edges_descend cs k =
    ancestor_edges-Descends (build new_graph cs) k (build-IsLawfulGraph new_graph cs tt)

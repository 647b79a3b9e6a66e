-- ===== src/Lineage/Ends.antt =====
-- `Ancestry` of internal/lineage/lineage.go comes to an end.
use forebay.Prelude.{
  ℕ, zero, suc, ◌+◌, ◌≤◌, ◌≡◌, refl, ap, sym, ◌∙◌, false, not, ◌&&◌, Option, none, some, List, [],
  ◌∷◌, All, length, length-append, if◌then◌else◌, arith, inl, inr, Bool-cases,
}
use forebay.Prelude.Int.{eqb_ℤ}
use forebay.Prelude.Text.{Text, text_eq, text_eq→eq, text_eq_refl}
use forebay.Lineage.{
  version, observed, Node, Edge, Graph, new_graph, find_node, ancestor_edges, next_of, is_seen,
  Answer, no_answer, note_node, note_edge, Walk, follow, walk, insert_edge, sort_edges, sort_nodes,
  sort_ids, answered, ancestry,
}
use forebay.Lineage.Laws.{
  IsLawfulGraph, Descends, ancestor_edges-Descends, Call, build, build-IsLawfulGraph,
}

-- How many nodes were not seen.
abbrev unseen : List Node → List Text → ℕ
unseen [] seen = 0
unseen (n ∷ ns) seen = if is_seen n.id seen then unseen ns seen else suc (unseen ns seen)

unseen-le : (ns : List Node) (k : Text) (seen : List Text) → unseen ns (k ∷ seen) ≤ unseen ns seen
unfolding is_seen
unseen-le [] k seen = omega arith
unseen-le (n ∷ ns) k seen = ground (arith, unseen-le ns k seen)

-- Seeing a recorded node leaves one less.
unseen-less :
    (ns : List Node) (k : Text) (seen : List Text) (n : Node)
    → find_node k ns ≡ some n
    → is_seen k seen ≡ false
    → suc (unseen ns (k ∷ seen)) ≤ unseen ns seen
unfolding is_seen find_node
unseen-less [] k seen n h new_ = absurd (ground (arith, h))
unseen-less (m ∷ ns) k seen n h new_ = elim (Bool-cases (text_eq k m.id)) [
  | inl hit ↦ ground (arith, hit, new_, unseen-le ns k seen, text_eq→eq k m.id hit, text_eq_refl k)
  | inr miss ↦ ground (arith, miss, h, unseen-less ns k seen n, new_)
]

unseen-length : (ns : List Node) → unseen ns [] ≡ length ns
unfolding is_seen
unseen-length [] = refl
unseen-length (n ∷ ns) = omega (arith, unseen-length ns)

-- What is left to do: the nodes that were not seen and those that wait.
abbrev work : List Node → Walk → ℕ
work ns w = unseen ns w.seen + length w.stack

work-follow :
    (ns : List Node) (k : Text) (es : List Edge) (w : Walk)
    → All (Descends ns k) es
    → work ns (follow es w) ≤ work ns w
unfolding follow
work-follow ns k [] w h = omega arith
work-follow ns k (e ∷ es) w h = elim (Bool-cases (is_seen (next_of e) w.seen)) [
  | inl old ↦ rw (follow, old) (work-follow ns k es _ h.1)
  | inr new_ ↦
      let d = h.0 in
      let less = unseen-less ns (next_of e) w.seen d.next d.next_found new_ in
      let rest =
        work-follow ns k es
          (record {
            stack = next_of e ∷ w.stack;
            seen = next_of e ∷ w.seen;
            answer = note_edge e w.answer;
          })
          h.1 in
      rw (follow, new_) (omega (arith, less, rest))
]

-- The claims are counted by how they are known.
abbrev pub IsCounted : Answer → Type 0
IsCounted a = a.observed_claims + a.asserted_claims ≡ length a.edges

note_edge-IsCounted : (e : Edge) (a : Answer) → IsCounted a → IsCounted (note_edge e a)
unfolding note_edge
note_edge-IsCounted e a h = elim (Bool-cases (eqb_ℤ e.basis observed)) [
  | inl o ↦ rw (note_edge, o) (omega (arith, h, length-append a.edges (e ∷ [])))
  | inr o ↦ rw (note_edge, o) (omega (arith, h, length-append a.edges (e ∷ [])))
]

note_node-IsCounted : (n : Option Node) (a : Answer) → IsCounted a → IsCounted (note_node n a)
unfolding note_node
note_node-IsCounted none a h = h
note_node-IsCounted (some n) a h = elim (Bool-cases (eqb_ℤ n.kind version && not n.retrievable)) [
  | inl o ↦ rw (note_node, o) h
  | inr o ↦ rw (note_node, o) h
]

follow-IsCounted :
    (es : List Edge) (w : Walk) → IsCounted (w.answer) → IsCounted ((follow es w).answer)
unfolding follow
follow-IsCounted [] w h = h
follow-IsCounted (e ∷ es) w h = elim (Bool-cases (is_seen (next_of e) w.seen)) [
  | inl old ↦ rw (follow, old) (follow-IsCounted es _ (note_edge-IsCounted e w.answer h))
  | inr new_ ↦ rw (follow, new_) (follow-IsCounted es _ (note_edge-IsCounted e w.answer h))
]

module _ (g : Graph) (lawful : IsLawfulGraph g) where
  walk_ends :
      (fuel : ℕ) (stack seen : List Text) (a : Answer)
      → unseen g.nodes seen + length stack ≤ fuel
      → IsCounted a
      → (b : Answer) × (walk g fuel stack seen a ≡ some b) × IsCounted b
  unfolding walk
  walk_ends fuel [] seen a h c = (a, refl, c)
  walk_ends zero (k ∷ stack) seen a h c = absurd (omega (arith, h))
  walk_ends (suc fuel) (k ∷ stack) seen a h c =
      let w : Walk = record {
        stack = stack;
        seen = seen;
        answer = note_node (find_node k g.nodes) a;
      } in
      let es = ancestor_edges g k in
      let less = work-follow g.nodes k es w (ancestor_edges-Descends g k lawful) in
      walk_ends fuel (follow es w).stack (follow es w).seen (follow es w).answer
        (omega (arith, less, h))
        (follow-IsCounted es w (note_node-IsCounted (find_node k g.nodes) a c))

length-insert_edge : (e : Edge) (es : List Edge) → length (insert_edge e es) ≡ suc (length es)
unfolding insert_edge
length-insert_edge e [] = refl
length-insert_edge e (d ∷ es) = ground (arith, length-insert_edge e es)

length-sort_edges : (es : List Edge) → length (sort_edges es) ≡ length es
unfolding sort_edges
length-sort_edges [] = refl
length-sort_edges (e ∷ es) =
    length-insert_edge e (sort_edges es) ∙ ap (λ n. suc n) (length-sort_edges es)

-- In a graph that any sequence of Add and Link built, whatever each returned, Ancestry of a
-- recorded node returns an answer, with as much fuel as the graph has nodes, and its observed and
-- asserted claims together are the edges it returns.
pub ancestry_answers :
    (cs : List Call) (k : Text) (n : Node)
    → find_node k (build new_graph cs).nodes ≡ some n
    → (a : Answer) × (ancestry (build new_graph cs) k ≡ answered a) × IsCounted a
unfolding ancestry is_seen
ancestry_answers cs k n h =
    let g = build new_graph cs in
    let lawful = build-IsLawfulGraph new_graph cs tt in
    let enough = unseen-less g.nodes k [] n h refl in
    let (b, e, c) =
      walk_ends g lawful (length g.nodes) (k ∷ []) (k ∷ []) no_answer
        (omega (arith, enough, unseen-length g.nodes)) refl in
    let sorted : Answer = record b {
      nodes = sort_nodes b.nodes;
      edges = sort_edges b.edges;
      unretrievable = sort_ids b.unretrievable;
    } in
    (sorted, ground (arith, h, e), c ∙ sym (length-sort_edges b.edges))

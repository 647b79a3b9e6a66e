-- ===== src/Agent/Layout/Laws.antt =====
-- Which places of the journal `Config.Validate` of internal/agent/agent.go refuses.
use forebay.Prelude.{
  ◌≡◌, refl, ap, ◌∙◌, true, false, not, ◌&&◌, ◌||◌, Option, some, List, [], ◌∷◌, ◌++◌, arith, inl,
  inr, Bool-cases,
}
use forebay.Prelude.Text.{Text, bytes, text_eq, text_eq_refl, text_eq→eq}
use forebay.Agent.Names.{has_prefix, elements}
use forebay.Agent.Layout.{
  nested_pools, abs_path, parent_dir, names_in, steps_between, join_path, relative,
  has_dot_dot_prefix, is_within, Layout, validate_layout,
}

-- The names of a path.
abbrev pub names : Text → List Text
names path = names_in (elements path)

steps_between-below : (b t : List Text) → steps_between b (b ++ t) ≡ t
unfolding steps_between
steps_between-below [] t = refl
steps_between-below (x ∷ b) t = ground (arith, text_eq_refl x, steps_between-below b t)

has_prefix-join_path :
    (e : Text) (es : List Text)
    → has_prefix e (bytes "..") ≡ false
    → has_prefix (join_path (e ∷ es)) (bytes "..") ≡ false
unfolding has_prefix join_path text_eq
has_prefix-join_path e [] h = h
has_prefix-join_path [] (f ∷ es) h = refl
has_prefix-join_path (a ∷ []) (f ∷ es) h = ground (arith, h)
has_prefix-join_path (a ∷ b ∷ e) (f ∷ es) h = h

not_up :
    (r : Text)
    → has_prefix r (bytes "..") ≡ false
    → (not (text_eq r (bytes "..")) && not (has_prefix r (bytes ".."))) ≡ true
unfolding has_prefix
not_up r h = elim (Bool-cases (text_eq r (bytes ".."))) [
  | inl same ↦ absurd (ground (arith, h, text_eq→eq r (bytes "..") same))
  | inr other ↦ ground (arith, h, other)
]

-- A configuration that gives both paths, and whose journal is anywhere below the pool through a
-- directory whose name does not start with two dots, is refused as nested.
pub validate_layout-below :
    (cwd : Option Text) (c : Layout) (b j e : Text) (es : List Text)
    → (text_eq c.borrowed_dir [] || text_eq c.journal_path []) ≡ false
    → abs_path cwd c.borrowed_dir ≡ some b
    → abs_path cwd (parent_dir c.journal_path) ≡ some j
    → names j ≡ names b ++ e ∷ es
    → has_prefix e (bytes "..") ≡ false
    → validate_layout cwd c ≡ some nested_pools
unfolding validate_layout is_within relative has_dot_dot_prefix
validate_layout-below cwd c b j e es given hb hj below plain =
    let rel : relative b j ≡ join_path (e ∷ es) =
      ap join_path (ap (steps_between (names b)) below ∙ steps_between-below (names b) (e ∷ es)) in
    let off = has_prefix-join_path e es plain in
    let inside : is_within b j ≡ true =
      ap (λ r. not (text_eq r (bytes "..")) && not (has_prefix r (bytes ".."))) rel
      ∙ not_up (join_path (e ∷ es)) off in
    ground (arith, given, hb, hj, inside)

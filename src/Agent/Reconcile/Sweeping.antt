-- ===== src/Agent/Reconcile/Sweeping.antt =====
-- The sweep of `reconcile` in internal/agent/agent.go: which names it finds, drops and keeps.
use forebay.Prelude.{
  ◌≡◌, refl, ◌∙◌, Bool, true, not, ◌&&◌, ◌||◌, Option, none, some, List, [], ◌∷◌, if◌then◌else◌,
  arith, inl, inr, Bool-cases, Option-cases,
}
use forebay.Prelude.Int.{ℤ}
use forebay.Prelude.Text.{Text, text_eq, text_eq→eq}
use forebay.Lease.Types.{Lease}
use forebay.Lease.Table.{lookup}
use forebay.Agent.Names.{agent_file_prefix, lock_name, heartbeat_name, has_prefix}
use forebay.Agent.Files.{Files, Os, find_file, drop_file}
use forebay.Agent.Files.Laws.{find_file-drop, find_file-drop_ne}
use forebay.Agent.Reconcile.{
  names_of, ids_of, is_in, insert_name, sort_names, Swept, sweep_one, sweep, missing_of,
}

-- The two files that are live state of the agent.
abbrev pub is_own : Text → Bool
is_own name = text_eq name lock_name || text_eq name heartbeat_name

abbrev pub is_extent : Text → Bool
is_extent name = not (is_own name) && not (has_prefix name agent_file_prefix)

abbrev pub stays : List Text → Text → Bool
stays live name = is_own name || (not (has_prefix name agent_file_prefix) && is_in name live)

pub is_in-names_of :
    (k : Text) (fs : Files) (n : ℤ) → find_file k fs ≡ some n → is_in k (names_of fs) ≡ true
unfolding is_in names_of find_file
is_in-names_of k [] n h = absurd (ground (arith, h))
is_in-names_of k ((j, m) ∷ fs) n h = ground (arith, is_in-names_of k fs n)

pub names_of-find_file :
    (k : Text) (fs : Files) → is_in k (names_of fs) ≡ true → (n : ℤ) × (find_file k fs ≡ some n)
unfolding is_in names_of find_file
names_of-find_file k [] h = absurd (ground (arith, h))
names_of-find_file k ((j, m) ∷ fs) h = elim (Bool-cases (text_eq k j)) [
  | inl here ↦ (m, ground (arith, here))
  | inr there ↦
      let (n, e) = names_of-find_file k fs (ground (arith, h, there)) in
      (n, ground (arith, there, e))
]

pub is_in-ids_of :
    (k : Text) (ls : List Lease) (l : Lease) → lookup k ls ≡ some l → is_in k (ids_of ls) ≡ true
unfolding is_in ids_of lookup
is_in-ids_of k [] l h = absurd (ground (arith, h))
is_in-ids_of k (x ∷ ls) l h = ground (arith, is_in-ids_of k ls l)

pub ids_of-lookup :
    (k : Text) (ls : List Lease) → is_in k (ids_of ls) ≡ true → (l : Lease) × (lookup k ls ≡ some l)
unfolding is_in ids_of lookup
ids_of-lookup k [] h = absurd (ground (arith, h))
ids_of-lookup k (x ∷ ls) h = elim (Bool-cases (text_eq k x.id)) [
  | inl here ↦ (x, ground (arith, here))
  | inr there ↦
      let (l, e) = ids_of-lookup k ls (ground (arith, h, there)) in (l, ground (arith, there, e))
]

is_in-insert_name : (k j : Text) (ks : List Text) → is_in k (insert_name j ks) ≡ is_in k (j ∷ ks)
unfolding is_in insert_name
is_in-insert_name k j [] = refl
is_in-insert_name k j (i ∷ ks) = ground (arith, is_in-insert_name k j ks)

pub is_in-sort_names : (k : Text) (ks : List Text) → is_in k (sort_names ks) ≡ is_in k ks
unfolding is_in sort_names
is_in-sort_names k [] = refl
is_in-sort_names k (j ∷ ks) =
    is_in-insert_name k j (sort_names ks) ∙ ground (arith, is_in-sort_names k ks)

pub is_in-missing_of :
    (k : Text) (on_disk ids : List Text)
    → is_in k (missing_of on_disk ids) ≡ (is_in k ids && not (is_in k on_disk))
unfolding is_in missing_of
is_in-missing_of k on_disk [] = refl
is_in-missing_of k on_disk (id ∷ ids) =
    ground (arith, is_in-missing_of k on_disk ids, text_eq→eq k id)

twice :
    (a b s : Bool) (x y : Option ℤ)
    → y ≡ (if a && not s then none else x)
    → (if b && not s then none else y) ≡ (if (a || b) && not s then none else x)
twice a b s x y h = ground (arith, h)

either : (a b e d d' : Bool) → d' ≡ ((a && e) || d) → ((b && e) || d') ≡ (((a || b) && e) || d)
either a b e d d' h = ground (arith, h)

module _ (os : Os) (live : List Text) where
  sweep_one-dropped :
      (name : Text) (s : Swept)
      → (sweep_one os live name s).failed ≡ none
      → (sweep_one os live name s).files
        ≡ (if stays live name then s.files else drop_file name s.files)
  unfolding sweep_one
  sweep_one-dropped name s h = ground (arith, h)

  sweep_one-files :
      (name j : Text) (s : Swept)
      → (sweep_one os live name s).failed ≡ none
      → find_file j (sweep_one os live name s).files
        ≡ (if text_eq j name && not (stays live j) then none else find_file j s.files)
  sweep_one-files name j s h =
      rw (sweep_one-dropped name s h) (elim (Bool-cases (stays live name)) [
        | inl keep ↦ ground (arith, keep, text_eq→eq j name)
        | inr go ↦ elim (Bool-cases (text_eq j name)) [
          | inl same ↦ ground (arith, go, same, text_eq→eq j name same, find_file-drop name s.files)
          | inr apart ↦ ground (arith, go, apart, find_file-drop_ne j name s.files apart)
        ]
      ])

  sweep_one-on_disk :
      (name j : Text) (s : Swept)
      → (sweep_one os live name s).failed ≡ none
      → is_in j (sweep_one os live name s).on_disk
        ≡ ((text_eq j name && is_extent j) || is_in j s.on_disk)
  unfolding sweep_one is_in
  sweep_one-on_disk name j s h = ground (arith, h, text_eq→eq j name)

  -- A name that goes, among those that are listed.
  abbrev pub goes : List Text → Text → Bool
  goes names j = is_in j names && not (stays live j)

  pub sweep-lem :
      (names : List Text) (j : Text) (s : Swept)
      → s.failed ≡ none
      → (sweep os live names s).failed ≡ none
      → (find_file j (sweep os live names s).files
          ≡ (if goes names j then none else find_file j s.files))
        × (is_in j (sweep os live names s).on_disk
            ≡ ((is_in j names && is_extent j) || is_in j s.on_disk))
  unfolding sweep is_in
  sweep-lem [] j s ok h = (refl, refl)
  sweep-lem (name ∷ names) j s ok h =
      let t = sweep_one os live name s in
      elim (Option-cases t.failed) [
        | inr (x, bad) ↦ absurd (ground (arith, h, bad))
        | inl fine ↦
            let a = sweep_one-files name j s fine in
            let b = sweep_one-on_disk name j s fine in
            let (c, d) = sweep-lem names j t fine (ground (arith, h, fine)) in
            rw (sweep, fine)
              (
                c ∙ twice (text_eq j name) (is_in j names) (stays live j) _ _ a,
                d ∙ either (text_eq j name) (is_in j names) (is_extent j) _ _ b,
              )
      ]

-- ===== src/Residence/Laws.antt =====
-- `Permits` and `Breaches` of internal/residence.
use forebay.Prelude.{
  List-cases, ◌≡◌, refl, ap, sym, ◌∙◌, ◌↔◌, ◌⊎◌, Bool, true, false, not, ◌&&◌, ◌||◌, none, some,
  List, [], ◌∷◌, arith, inl, inr, Bool-cases, Option-cases,
}
use mathlib.Core.List.{Memᴰ as Mem}
use forebay.Prelude.Text.{Text, text_eq, text_eq→eq, text_eq_refl}
use forebay.Residence.Blank.{IsBlank, is_blank_iff}
use forebay.Residence.{
  Policy, is_blank, is_listed, permits, in_breach, insert_region, sort_regions, breaches,
}

is_listed-Mem : (r : Text) (rs : List Text) → is_listed r rs ≡ true → Mem r rs
unfolding is_listed
is_listed-Mem r [] h = absurd (ground (arith, h))
is_listed-Mem r (s ∷ rs) h = elim (Bool-cases (text_eq s r)) [
  | inl same ↦ Mem.head (sym (text_eq→eq s r same))
  | inr other ↦ Mem.tail (is_listed-Mem r rs (ground (arith, h, other)))
]

Mem-is_listed : (r : Text) (rs : List Text) → Mem r rs → is_listed r rs ≡ true
unfolding is_listed
Mem-is_listed r [] m = elim m [ ]
Mem-is_listed r (s ∷ rs) (Mem.head e) = rw (e, text_eq_refl s) refl
Mem-is_listed r (s ∷ rs) (Mem.tail m) = ground (arith, Mem-is_listed r rs m)

is_listed_iff : (r : Text) (rs : List Text) → (is_listed r rs ≡ true) ↔ Mem r rs
is_listed_iff r rs = (is_listed-Mem r rs, Mem-is_listed r rs)

-- A test that fails.
fails_iff : {P : Type 0} (b : Bool) → ((b ≡ true) ↔ P) → (b ≡ false) ↔ (¬ P)
fails_iff true h = (λ e. absurd (ground (arith, e)), λ n. absurd (n (h.0 refl)))
fails_iff false h = (λ _ p. absurd (ground (arith, h.1 p)), λ _. refl)

permits_tests :
    (p : Policy) (r : Text)
    → (permits p r ≡ none) ↔ (
        (is_blank r ≡ false)
        × (is_listed r p.forbidden ≡ false)
        × ((p.allowed ≡ []) ⊎ (is_listed r p.allowed ≡ true)))
unfolding permits
permits_tests p r = elim (List-cases p.allowed) [
  | inl open_ ↦ ground (arith, open_)
  | inr (a, more, closed) ↦ ground (arith, closed)
]

-- A policy permits a region exactly when its name is not the UTF-8 of white space code points
-- only, it is not a member of the denied list, and the allowed list is empty or has it as a
-- member.
pub permits-none_iff :
    (p : Policy) (r : Text)
    → (permits p r ≡ none)
      ↔ ((¬ IsBlank r) × (¬ Mem r p.forbidden) × ((p.allowed ≡ []) ⊎ Mem r p.allowed))
permits-none_iff p r =
    let named = fails_iff (is_blank r) (is_blank_iff r) in
    let free = fails_iff (is_listed r p.forbidden) (is_listed_iff r p.forbidden) in
    let listed = is_listed_iff r p.allowed in
    let tests = permits_tests p r in
    (
      λ h.
          let (n, f, a) = tests.0 h in
          (named.0 n, free.0 f, elim a [ inl e ↦ inl e | inr m ↦ inr (listed.0 m) ]),
      λ (n, f, a).
          tests.1 (named.1 n, free.1 f, elim a [ inl e ↦ inl e | inr m ↦ inr (listed.1 m) ]),
    )

-- Whether a policy permits a region.
abbrev pub is_permitted : Policy → Text → Bool
is_permitted p r = elim (permits p r) [ none ↦ true | some _ ↦ false ]

is_listed-insert_region :
    (r s : Text) (rs : List Text) → is_listed r (insert_region s rs) ≡ text_eq s r || is_listed r rs
unfolding is_listed insert_region
is_listed-insert_region r s [] = refl
is_listed-insert_region r s (x ∷ rs) = ground (arith, is_listed-insert_region r s rs)

is_listed-sort_regions :
    (r : Text) (rs : List Text) → is_listed r (sort_regions rs) ≡ is_listed r rs
unfolding is_listed sort_regions
is_listed-sort_regions r [] = refl
is_listed-sort_regions r (s ∷ rs) =
    is_listed-insert_region r s (sort_regions rs)
    ∙ ap (λ z. text_eq s r || z) (is_listed-sort_regions r rs)

is_listed-in_breach :
    (p : Policy) (r : Text) (rs : List Text)
    → is_listed r (in_breach p rs) ≡ is_listed r rs && not (is_permitted p r)
unfolding is_listed in_breach
is_listed-in_breach p r [] = refl
is_listed-in_breach p r (s ∷ rs) =
    let ih = is_listed-in_breach p r rs in
    elim (Bool-cases (text_eq s r)) [
      | inl same ↦
          let e = ap (permits p) (text_eq→eq s r same) in
          elim (Option-cases (permits p s)) [
            | inl ok ↦ ground (arith, ih, same, e, ok)
            | inr (x, bad) ↦ ground (arith, ih, same, e, bad)
          ]
      | inr other ↦ elim (Option-cases (permits p s)) [
        | inl ok ↦ ground (arith, ih, other, ok)
        | inr (x, bad) ↦ ground (arith, ih, other, bad)
      ]
    ]

-- A region is among the reported breaches exactly when the version is in it and the policy does
-- not permit it.
breaches_lem :
    (p : Policy) (r : Text) (rs : List Text)
    → is_listed r (breaches p rs) ≡ is_listed r rs && not (is_permitted p r)
unfolding breaches
breaches_lem p r rs = is_listed-sort_regions r (in_breach p rs) ∙ is_listed-in_breach p r rs

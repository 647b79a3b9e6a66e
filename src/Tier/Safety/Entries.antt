-- ===== src/Tier/Safety/Entries.antt =====
-- The table of resident blocks under the operations that take blocks out of it.
use forebay.Prelude.{
  All-map, ℕ, ◌≡◌, refl, subst, true, false, none, some, [], ◌∷◌, All, arith, inl, inr, Bool-cases,
  ◌==◌,
}
use forebay.Prelude.Int.{ℤ, pos, negsuc, eqb_ℤ}
use forebay.Prelude.Text.{text_eq→eq, text_eq_sym}
use forebay.Tier.Types.{Key, key_eq, Placement}
use forebay.Tier.Cache.{placed, unplace, keep_off}
use forebay.Tier.Safety.{Table, Clear, Apart, is_at}

eqb_ℤ→eq : (a b : ℤ) → eqb_ℤ a b ≡ true → a ≡ b
eqb_ℤ→eq (pos a) (pos b) h = ground arith
eqb_ℤ→eq (pos a) (negsuc b) h = ground arith
eqb_ℤ→eq (negsuc a) (pos b) h = ground arith
eqb_ℤ→eq (negsuc a) (negsuc b) h = ground arith

pub key_eq→eq : (a b : Key) → key_eq a b ≡ true → a ≡ b
unfolding key_eq
key_eq→eq a b h = ground (
  arith,
  text_eq→eq a.tenant b.tenant,
  text_eq→eq a.block.backend b.block.backend,
  text_eq→eq a.block.object b.block.object,
  eqb_ℤ→eq a.block.index b.block.index,
)

eqb_ℤ_sym : (a b : ℤ) → eqb_ℤ a b ≡ eqb_ℤ b a
eqb_ℤ_sym (pos a) (pos b) = ground arith
eqb_ℤ_sym (pos a) (negsuc b) = ground arith
eqb_ℤ_sym (negsuc a) (pos b) = ground arith
eqb_ℤ_sym (negsuc a) (negsuc b) = ground arith

pub key_eq_sym : (a b : Key) → key_eq a b ≡ key_eq b a
unfolding key_eq
key_eq_sym a b =
    rw
      (
        text_eq_sym a.tenant b.tenant,
        text_eq_sym a.block.backend b.block.backend,
        text_eq_sym a.block.object b.block.object,
        eqb_ℤ_sym a.block.index b.block.index,
      )
      refl

module _ {κ} (P : Key × Placement → Type κ) where
  pub unplace-All : (k : Key) (ps : Table) → All P ps → All P (unplace k ps)
  unfolding unplace
  unplace-All k [] h = tt
  unplace-All k ((j, p) ∷ ps) h = elim (Bool-cases (key_eq k j)) [
    | inl e ↦ rw e (h.1)
    | inr e ↦ rw e (h.0, unplace-All k ps h.1)
  ]

  pub keep_off-All : (i : ℕ) (ps : Table) → All P ps → All P (keep_off i ps).0
  unfolding keep_off
  keep_off-All i [] h = tt
  keep_off-All i ((j, p) ∷ ps) h = elim (Bool-cases (p.slab == i)) [
    | inl e ↦ rw e (keep_off-All i ps h.1)
    | inr e ↦ rw e (h.0, keep_off-All i ps h.1)
  ]

  pub placed-All :
      (k : Key) (ps : Table) (p : Placement)
      → All P ps
      → placed k ps ≡ some p
      → (j : Key) × (key_eq k j ≡ true) × P (j, p)
  unfolding placed
  placed-All k [] p h e = cc
  placed-All k ((j, q) ∷ ps) p h e = elim (Bool-cases (key_eq k j)) [
    | inl hit ↦ let same : q ≡ p = ground arith in (j, hit, subst (λ z. P (j, z)) same h.0)
    | inr miss ↦ placed-All k ps p h.1 (ground arith)
  ]

pub unplace-Apart : (k : Key) (ps : Table) → Apart ps → Apart (unplace k ps)
unfolding unplace
unplace-Apart k [] a = tt
unplace-Apart k ((j, p) ∷ ps) a = elim (Bool-cases (key_eq k j)) [
  | inl e ↦ rw e (a.1)
  | inr e ↦ rw e (unplace-All _ k ps a.0, unplace-Apart k ps a.1)
]

pub keep_off-Apart : (i : ℕ) (ps : Table) → Apart ps → Apart (keep_off i ps).0
unfolding keep_off
keep_off-Apart i [] a = tt
keep_off-Apart i ((j, p) ∷ ps) a = elim (Bool-cases (p.slab == i)) [
  | inl e ↦ rw e (keep_off-Apart i ps a.1)
  | inr e ↦ rw e (keep_off-All _ i ps a.0, keep_off-Apart i ps a.1)
]

is_at_sym : (q p : Placement) → is_at q.slab q.slot p ≡ false → is_at p.slab p.slot q ≡ false
is_at_sym q p h = ground arith

-- The slot of a block that is taken out is clear afterwards.
pub unplace-Clear :
    (k : Key) (ps : Table) (p : Placement)
    → Apart ps
    → placed k ps ≡ some p
    → Clear p.slab p.slot (unplace k ps)
unfolding unplace placed
unplace-Clear k [] p a h = tt
unplace-Clear k ((j, q) ∷ ps) p a h = elim (Bool-cases (key_eq k j)) [
  | inl hit ↦ let same : q ≡ p = ground arith in rw (hit, ← same) (All-map ps (λ x e. e.1) a.0)
  | inr miss ↦ rw miss (
    is_at_sym q p
        (placed-All (λ x. is_at q.slab q.slot x.1 ≡ false) k ps p (All-map ps (λ x e. e.1) a.0)
          (ground arith)).2,
    unplace-Clear k ps p a.1 (ground arith),
  )
]

-- No block of a table has a given key.
abbrev pub Absent : Key → Table → Type 0
Absent k = All (λ x. key_eq k x.0 ≡ false)

pub placed-Absent : (k : Key) (ps : Table) → placed k ps ≡ none → Absent k ps
unfolding placed
placed-Absent k [] h = tt
placed-Absent k ((j, p) ∷ ps) h = ground (arith, placed-Absent k ps)

trade : (k j : Key) (x : Key) → key_eq k j ≡ true → key_eq j x ≡ false → key_eq k x ≡ false
trade k j x e h = rw (key_eq→eq k j e) h

pub unplace-Absent : (k : Key) (ps : Table) → Apart ps → Absent k (unplace k ps)
unfolding unplace
unplace-Absent k [] a = tt
unplace-Absent k ((j, p) ∷ ps) a = elim (Bool-cases (key_eq k j)) [
  | inl hit ↦ rw hit (All-map ps (λ x e. trade k j x.0 hit e.0) a.0)
  | inr miss ↦ rw miss (miss, unplace-Absent k ps a.1)
]

-- ===== src/Lease/Table/Laws.antt =====
-- Laws of the map of leases: look-ups, deletions and sums.
use forebay.Prelude.{
  ◌≡◌, refl, subst, false, none, some, List, [], ◌∷◌, All, arith, inl, inr, Bool-cases,
}
use forebay.Prelude.Int.{ℤ, pos, ◌+ℤ◌, ◌≤ℤ◌, int_laws}
use forebay.Prelude.Text.{Text, text_eq, text_eq→eq, text_eq_refl, text_eq_sym}
use forebay.Lease.Types.{Lease}
use forebay.Lease.Table.{lookup, erase}

-- The sum of the sizes, as integers.
abbrev pub total : List Lease → ℤ
total [] = pos 0
total (l ∷ ls) = l.size +ℤ total ls

abbrev pub Sized : List Lease → Type 0
Sized = All (λ l. pos 0 ≤ℤ l.size)

-- No member has a given identifier.
abbrev pub Fresh : Text → List Lease → Type 0
Fresh k = All (λ l. text_eq k l.id ≡ false)

-- No two members have one identifier.
abbrev pub Distinct : List Lease → Type 0
Distinct [] = Unit
Distinct (l ∷ ls) = Fresh l.id ls × Distinct ls

-- A lease that the map holds under its identifier.
abbrev pub Held : List Lease → Lease → Type 0
Held ms l = lookup l.id ms ≡ some l

pub lookup-Fresh : (k : Text) (ls : List Lease) → lookup k ls ≡ none → Fresh k ls
unfolding lookup
lookup-Fresh k [] h = tt
lookup-Fresh k (l ∷ ls) h = ground (arith, lookup-Fresh k ls)

pub Fresh-lookup : (k : Text) (ls : List Lease) → Fresh k ls → lookup k ls ≡ none
unfolding lookup
Fresh-lookup k [] h = refl
Fresh-lookup k (l ∷ ls) h = rw (h.0) (Fresh-lookup k ls h.1)

module _ {ℓ} (P : Lease → Type ℓ) where
  pub erase-All : (k : Text) (ls : List Lease) → All P ls → All P (erase k ls)
  unfolding erase
  erase-All k [] h = tt
  erase-All k (l ∷ ls) h = elim (Bool-cases (text_eq k l.id)) [
    | inl e ↦ rw e (h.1)
    | inr e ↦ rw e (h.0, erase-All k ls h.1)
  ]

  pub lookup-All : (k : Text) (ls : List Lease) (l : Lease) → All P ls → lookup k ls ≡ some l → P l
  unfolding lookup
  lookup-All k [] l h e = cc
  lookup-All k (x ∷ ls) l h e = elim (Bool-cases (text_eq k x.id)) [
    | inl hit ↦ let same : x ≡ l = ground arith in subst P same (h.0)
    | inr miss ↦ lookup-All k ls l h.1 (ground arith)
  ]

pub erase-Distinct : (k : Text) (ls : List Lease) → Distinct ls → Distinct (erase k ls)
unfolding erase
erase-Distinct k [] h = tt
erase-Distinct k (l ∷ ls) h =
    ground (arith, erase-Distinct k ls, erase-All (λ x. text_eq l.id x.id ≡ false) k ls h.0)

pub lookup-id : (k : Text) (ls : List Lease) (l : Lease) → lookup k ls ≡ some l → k ≡ l.id
unfolding lookup
lookup-id k [] l h = cc
lookup-id k (x ∷ ls) l h = ground (arith, lookup-id k ls l, text_eq→eq k x.id)

-- A deletion takes away the lease that was found, and nothing else.
pub erase-Fresh : (k : Text) (ls : List Lease) → Distinct ls → Fresh k (erase k ls)
unfolding erase
erase-Fresh k [] h = tt
erase-Fresh k (l ∷ ls) h = ground (arith, erase-Fresh k ls h.1, text_eq→eq k l.id)

pub lookup-erase_ne :
    (j k : Text) (ls : List Lease) → text_eq j k ≡ false → lookup j (erase k ls) ≡ lookup j ls
unfolding erase lookup
lookup-erase_ne j k [] h = refl
lookup-erase_ne j k (l ∷ ls) h = ground (arith, lookup-erase_ne j k ls h, text_eq→eq k l.id)

pub total-erase :
    (k : Text) (ls : List Lease) (l : Lease)
    → lookup k ls ≡ some l
    → total ls ≡ l.size +ℤ total (erase k ls)
unfolding erase lookup
total-erase k [] l h = cc
total-erase k (x ∷ ls) l h = grind (int_laws, total-erase k ls l)

pub total_nonneg : (ls : List Lease) → Sized ls → pos 0 ≤ℤ total ls
total_nonneg [] h = omega arith
total_nonneg (l ∷ ls) h = omega (int_laws, total_nonneg ls h.1)

pub erase-missing : (k : Text) (ls : List Lease) → lookup k ls ≡ none → erase k ls ≡ ls
unfolding erase lookup
erase-missing k [] h = refl
erase-missing k (l ∷ ls) h = ground (arith, erase-missing k ls)

-- On distinct identifiers every member is the one that its identifier finds.
All-Held_cons :
    (x : Lease) (ms ls : List Lease) → Fresh x.id ls → All (Held ms) ls → All (Held (x ∷ ms)) ls
unfolding lookup
All-Held_cons x ms [] f h = tt
All-Held_cons x ms (y ∷ ls) f h =
    (rw (text_eq_sym y.id x.id, f.0) (h.0), All-Held_cons x ms ls f.1 h.1)

pub All-Held : (ls : List Lease) → Distinct ls → All (Held ls) ls
unfolding lookup
All-Held [] h = tt
All-Held (l ∷ ls) h = (rw (text_eq_refl l.id), All-Held_cons l ls ls h.0 (All-Held ls h.1))

pub lookup-erase-none :
    (j k : Text) (ls : List Lease) → lookup j ls ≡ none → lookup j (erase k ls) ≡ none
unfolding erase lookup
lookup-erase-none j k [] h = refl
lookup-erase-none j k (l ∷ ls) h = ground (arith, lookup-erase-none j k ls)

pub lookup-erase-some :
    (j k : Text) (ls : List Lease) (l : Lease)
    → Distinct ls
    → lookup j (erase k ls) ≡ some l
    → lookup j ls ≡ some l
unfolding erase lookup
lookup-erase-some j k [] l d h = cc
lookup-erase-some j k (x ∷ ls) l d h = elim (Bool-cases (text_eq k x.id)) [
  | inl hit ↦
      let found : lookup j ls ≡ some l = ground (arith, hit) in
      let apart : text_eq j x.id ≡ false =
        ground (arith, found, text_eq→eq j x.id, Fresh-lookup x.id ls d.0) in
      ground arith
  | inr miss ↦ ground (arith, lookup-erase-some j k ls l d.1)
]

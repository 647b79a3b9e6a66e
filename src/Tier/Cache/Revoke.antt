-- ===== src/Tier/Cache/Revoke.antt =====
-- `Revoke` of internal/fasttier/cache.go.
use forebay.Prelude.{
  ℕ, ◌+◌, ◌≡◌, refl, Bool, false, none, some, List, [], ◌∷◌, length, All, arith, inl, inr,
  Bool-cases, ◌==◌,
}
use forebay.Prelude.Text.{Text}
use forebay.Tier.Types.{Key, key_eq, Placement, Cache}
use forebay.Tier.Slab.{read_slot, revoke_slab, close_slab}
use forebay.Tier.Cache.{slab_of, placed, keep_off, revoke, fetch}

keep_off_lem :
    (i : ℕ) (ps : List (Key × Placement))
    → All (λ x. (x.1.slab == i) ≡ false) (keep_off i ps).0
      × (length (keep_off i ps).0 + (keep_off i ps).1 ≡ length ps)
unfolding keep_off
keep_off_lem i [] = (tt, refl)
keep_off_lem i ((k, p) ∷ ps) =
    let (off, n) = keep_off_lem i ps in
    elim (Bool-cases (p.slab == i)) [
      | inl on ↦ ground (arith, on, off, n)
      | inr away ↦ ground (arith, away, off, n)
    ]

-- Revoke of a lease that is held leaves no resident block on its slab, reports exactly how many
-- went, and no placement on that slab can be read afterwards, also not one that a reader took
-- before.
pub revoke_lem :
    (c : Cache) (lease : Text) (i : ℕ) (p : Placement) (fails : Bool)
    → slab_of lease c.slabs ≡ some i
    → p.slab ≡ i
    → All (λ x. (x.1.slab == i) ≡ false) (revoke c lease).0.resident
      × (length (revoke c lease).0.resident + (revoke c lease).1 ≡ length c.resident)
      × (fetch (revoke c lease).0 p fails ≡ none)
unfolding revoke fetch read_slot revoke_slab close_slab
revoke_lem c lease i p fails h e =
    let (off, n) = keep_off_lem i c.resident in ground (arith, h, e, off, n)

keep_off-placed :
    (i : ℕ) (k : Key) (p : Placement) (ps : List (Key × Placement))
    → placed k ps ≡ some p
    → (p.slab == i) ≡ false
    → placed k (keep_off i ps).0 ≡ some p
unfolding keep_off placed
keep_off-placed i k p [] h away = absurd (ground (arith, h))
keep_off-placed i k p ((j, q) ∷ ps) h away = elim (Bool-cases (key_eq k j)) [
  | inl hit ↦ ground (arith, h, hit, away)
  | inr miss ↦
      let ih = keep_off-placed i k p ps in
      elim (Bool-cases (q.slab == i)) [
        | inl on ↦ ground (arith, h, miss, on, ih, away)
        | inr off ↦ ground (arith, h, miss, off, ih, away)
      ]
]

-- Revoke of a lease that is held leaves every block on another slab resident exactly where it was.
revoke-placed :
    (c : Cache) (lease : Text) (i : ℕ) (k : Key) (p : Placement)
    → slab_of lease c.slabs ≡ some i
    → placed k c.resident ≡ some p
    → (p.slab == i) ≡ false
    → placed k (revoke c lease).0.resident ≡ some p
unfolding revoke
revoke-placed c lease i k p h e away =
    let kept = keep_off-placed i k p c.resident e away in ground (arith, h, kept)

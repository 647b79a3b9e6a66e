-- ===== src/Tier/Safety/Later.antt =====
-- What a method of `Cache` leaves of the table of resident blocks.
use forebay.Prelude.{
  ℕ, suc, ◌+◌, ◌%◌, ◌≤◌, ◌<◌, ◌≡◌, sym, subst, Bool, Option, none, some, List, All, arith, inl, inr,
  Bool-cases, Option-cases,
}
use forebay.Prelude.Int64.{two64}
use forebay.Prelude.Text.{Text}
use forebay.Tier.Types.{Key, Placement, Extent, Cache}
use forebay.Tier.Slab.{open_slab}
use forebay.Tier.Cache.{
  slab_of, placed, add_capacity, revoke, reclaim_order, begin_read, is_current, finish_read, admit,
  close,
}
use forebay.Tier.Safety.{IsKept}
use forebay.Tier.Safety.Entries.{unplace-All, keep_off-All, placed-All, key_eq→eq}
use forebay.Tier.Safety.Fill.{admit-All, admit-generation}

-- A fact of blocks that noting a use keeps.
abbrev pub Steady : (Key × Placement → Type 0) → Type 0
Steady P = (k : Key) (p : Placement) (now : ℕ) → P (k, p) → P (k, record p { used = now })

-- Every block of `d` was one of `c`, or has a generation that `c` had not given out; `more`
-- generations were given out at most.
abbrev pub Later : ℕ → Cache → Cache → Type 1
Later more c d =
    (c.generation ≤ d.generation)
    × (d.generation ≤ c.generation + more)
    × ((P : Key × Placement → Type 0)
        → Steady P
        → ((k : Key) (p : Placement) → c.generation < p.gen → P (k, p))
        → All P c.resident
        → All P d.resident)

pub add_capacity-Later :
    (c : Cache) (lease : Text) (extent : Option Extent) → Later 0 c (add_capacity c lease extent).0
unfolding add_capacity
add_capacity-Later c lease extent = elim (Option-cases (open_slab lease extent c.cfg.block_size)) [
  | inl no_ ↦ rw (add_capacity, no_) (omega arith, omega arith, λ P steady fresh all. all)
  | inr (t, opened) ↦ elim (Option-cases (slab_of lease c.slabs)) [
    | inr (i, held) ↦
        rw (add_capacity, opened, held) (omega arith, omega arith, λ P steady fresh all. all)
    | inl new_ ↦
        rw (add_capacity, opened, new_) (omega arith, omega arith, λ P steady fresh all. all)
  ]
]

pub revoke-Later : (c : Cache) (lease : Text) → Later 0 c (revoke c lease).0
unfolding revoke
revoke-Later c lease = elim (Option-cases (slab_of lease c.slabs)) [
  | inl no_ ↦ rw (revoke, no_) (omega arith, omega arith, λ P steady fresh all. all)
  | inr (i, held) ↦
      rw (revoke, held)
        (omega arith, omega arith, λ P steady fresh all. keep_off-All P i c.resident all)
]

pub reclaim_order-Later : (c : Cache) (leases : List Text) → Later 0 c (reclaim_order c leases)
unfolding reclaim_order
reclaim_order-Later c leases = (omega arith, omega arith, λ P steady fresh all. all)

pub close-Later : (c : Cache) → Later 0 c (close c)
unfolding close
close-Later c = (omega arith, omega arith, λ P steady fresh all. tt)

pub begin_read-Later : (c : Cache) (k : Key) → Later 0 c (begin_read c k).0
unfolding begin_read
begin_read-Later c k = elim (Option-cases (placed k c.resident)) [
  | inl no_ ↦ rw (begin_read, no_) (omega arith, omega arith, λ P steady fresh all. all)
  | inr (p, here) ↦
      rw (begin_read, here)
        (
          omega arith,
          omega arith,
          λ P steady fresh all.
              let (j, same, e) = placed-All P k c.resident p all here in
              (
                steady k p _ (subst (λ z. P (z, p)) (sym (key_eq→eq k j same)) e),
                unplace-All P k c.resident all,
              ),
        )
]

pub finish_read-Later :
    (c : Cache) (k : Key) (p : Placement) (r : Option Text) → Later 0 c (finish_read c k p r).0
unfolding finish_read
finish_read-Later c k p (some block) = elim (Bool-cases (is_current c k p)) [
  | inl e ↦ rw (finish_read, e) (omega arith, omega arith, λ P steady fresh all. all)
  | inr e ↦ rw (finish_read, e) (omega arith, omega arith, λ P steady fresh all. all)
]
finish_read-Later c k p none = elim (Bool-cases (is_current c k p)) [
  | inr e ↦ rw (finish_read, e) (omega arith, omega arith, λ P steady fresh all. all)
  | inl e ↦ elim (Bool-cases (c.heap p.slab).revoked) [
    | inl gone ↦
        rw (finish_read, e, gone)
          (omega arith, omega arith, λ P steady fresh all. unplace-All P k c.resident all)
    | inr live ↦
        rw (finish_read, e, live)
          (omega arith, omega arith, λ P steady fresh all. unplace-All P k c.resident all)
  ]
]

pub admit-Later :
    (content : Key → Text) (c : Cache) (k : Key) (block : Text) (prefetched : Bool)
    (damage : Option Text)
    → IsKept content c
    → suc c.generation < two64
    → Later 1 c (admit c k block prefetched damage).0
admit-Later content c k block prefetched damage s lt =
    let gen : (c.generation + 1) % two64 ≡ suc c.generation = omega arith in
    let g : (c.generation ≤ (admit c k block prefetched damage).0.generation)
        × ((admit c k block prefetched damage).0.generation ≤ c.generation + 1) =
      elim (admit-generation content c k block prefetched damage s) [
        | inl e ↦ (omega arith, omega arith)
        | inr e ↦ (omega arith, omega arith)
      ] in
    (
      g.0,
      g.1,
      λ P steady fresh all.
          admit-All content c k block prefetched damage s P (λ p e. fresh k p (omega arith)) all,
    )

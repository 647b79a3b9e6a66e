-- ===== src/Checkpoint/Laws.antt =====
-- `Check` of internal/checkpoint against `GuaranteedFree` and the guards of `Accept` of
-- internal/lease/lease.go.
use forebay.Prelude.{◌≡◌, subst, true, false, none, arith, if◌then◌else◌}
use forebay.Prelude.Int.{ℤ, pos, ◌-ℤ◌, ◌≤ℤ◌, ltb_ℤ, parts_of_eq, int_laws}
use forebay.Prelude.Int64.{IsInt64, add64, add64_exact, sub64, sub64_exact}
use forebay.Pool.{can_lend, free}
use forebay.Lease.Types.{Manager}
use forebay.Lease.Table.{is_guaranteed}
use forebay.Lease.Manager.{guaranteed_total, guaranteed_free}
use forebay.Lease.Invariant.{IsSound}
use forebay.Lease.Limits.{sum_of_bounds, sum64_exact}
use forebay.Checkpoint.{Reservation, check}

module _ {Disk : Type 0} (m : Manager Disk) (s : IsSound m) where
  total_room : (pos 0 ≤ℤ guaranteed_total m) × (guaranteed_total m ≤ℤ m.acct.capacity)
  unfolding guaranteed_total
  total_room =
      let e =
        sum64_exact is_guaranteed m.leases s.sized
          (omega (int_laws, s.balanced, parts_of_eq s.lent)) in
      let b = sum_of_bounds is_guaranteed m.leases s.sized in
      omega (int_laws, parts_of_eq e, b, s.balanced, parts_of_eq s.lent)

  -- What the free guarantee is at most, where it is positive.
  guaranteed_free_bound :
      (n : ℤ)
      → IsInt64 (m.cfg.guaranteed_share m.acct.capacity)
      → pos 0 ≤ℤ m.cfg.guaranteed_share m.acct.capacity
      → pos 1 ≤ℤ n
      → n ≤ℤ guaranteed_free m
      → (n ≤ℤ free m.acct) × (n ≤ℤ m.cfg.guaranteed_share m.acct.capacity -ℤ guaranteed_total m)
  unfolding guaranteed_free
  guaranteed_free_bound n i p one h =
      let share = m.cfg.guaranteed_share m.acct.capacity in
      let room = total_room in
      let left : sub64 share (guaranteed_total m) ≡ share -ℤ guaranteed_total m =
        sub64_exact share (guaranteed_total m) (omega (int_laws, room, s.balanced)) in
      let h' =
        subst
          (λ z. n ≤ℤ (
            let small = if ltb_ℤ (free m.acct) z then free m.acct else z in
            if ltb_ℤ small (pos 0) then pos 0 else small))
          left h in
      ground (arith, h')

  -- On a sound manager whose guaranteed share of the capacity is a non-negative int64, a
  -- reservation that Check passes against GuaranteedFree fits the accounting and, added to the
  -- guaranteed leases held, stays within the share, so neither the accounting nor the guarantee
  -- cap of Accept refuses that size.
  pub check-guaranteed_free :
      (r : Reservation)
      → IsInt64 (m.cfg.guaranteed_share m.acct.capacity)
      → pos 0 ≤ℤ m.cfg.guaranteed_share m.acct.capacity
      → check r (guaranteed_free m) ≡ none
      → (can_lend m.acct r.size ≡ true)
        × (ltb_ℤ (m.cfg.guaranteed_share m.acct.capacity) (add64 (guaranteed_total m) r.size)
            ≡ false)
  unfolding check can_lend
  check-guaranteed_free r i p h =
      let share = m.cfg.guaranteed_share m.acct.capacity in
      let room = total_room in
      let asked : (pos 1 ≤ℤ r.size) × (r.size ≤ℤ guaranteed_free m) =
        (ground (arith, h), ground (arith, h)) in
      let b = guaranteed_free_bound r.size i p asked.0 asked.1 in
      let sum = add64_exact (guaranteed_total m) r.size (omega (int_laws, room, b, i, asked)) in
      (ground (arith, asked, b), rw sum (grind (int_laws, b)))

-- ===== src/Lease/Reclaim/Soundness.antt =====
-- `Reclaim`, `Expire` and `Release` of internal/lease/lease.go and the invariant.
use forebay.Prelude.{◌≡◌, sym, subst, some, none, All, arith, inl, inr, Bool-cases, Option-cases}
use forebay.Prelude.Int.{ℤ, pos, ◌≤ℤ◌, leb_ℤ}
use forebay.Prelude.Text.{Text}
use forebay.Lease.Types.{Error, Lease, Manager, no_result}
use forebay.Lease.Table.{lookup}
use forebay.Lease.Table.Laws.{Distinct, Held, lookup-id}
use forebay.Lease.Manager.{leases_locked, persist_locked, reclaim, release, expire}
use forebay.Lease.Invariant.{IsSound}
use forebay.Lease.Invariant.Release.{without, release_locked_lem, without-IsSound}
use forebay.Lease.Invariant.Loops.{with_victims, without_all, without_all-IsSound}
use forebay.Lease.Invariant.Accept.{SameBooks, IsSound-same, persist_locked-IsSound}
use forebay.Lease.Invariant.Methods.{
  after_expiry, expiry_result, taken_now, leases_locked-Held, after_expiry-IsSound, victims-All,
  victims-Distinct, reclaim_lem, settle-same, expire_locked_lem, persist_dropped-same,
}

module _ {Disk : Type 0} where
  pub taken_now-Held :
      (m : Manager Disk) (need now : ℤ)
      → IsSound m
      → All (Held (after_expiry m now).leases) (taken_now m need now)
        × Distinct (taken_now m need now)
  taken_now-Held m need now s =
      let (h, d) = leases_locked-Held (after_expiry m now) (after_expiry-IsSound m now s) in
      (
        victims-All (Held (after_expiry m now).leases) need (expiry_result m now).reclaimed
            (leases_locked (after_expiry m now)) h,
        victims-Distinct need (expiry_result m now).reclaimed (leases_locked (after_expiry m now))
            d,
      )

  -- The manager whose books `Reclaim` leaves.
  abbrev pub reclaimed_books : Manager Disk → ℤ → ℤ → Manager Disk
  reclaimed_books m need now = without_all (after_expiry m now) (taken_now m need now)

  pub reclaim-same :
      (m : Manager Disk) (need now : ℤ)
      → IsSound m
      → pos 1 ≤ℤ need
      → SameBooks (reclaimed_books m need now) (reclaim m need now).0
  reclaim-same m need now s p =
      subst (λ r. SameBooks (reclaimed_books m need now) (r.0)) (sym (reclaim_lem m need now s p))
        (settle-same need now (reclaimed_books m need now)
          (with_victims (expiry_result m now) (taken_now m need now)))

  pub reclaim-nothing :
      (m : Manager Disk) (need now : ℤ) → need ≤ℤ pos 0 → reclaim m need now ≡ (m, no_result)
  unfolding reclaim
  reclaim-nothing m need now h = ground arith

  -- Reclaim, for any amount asked for and whatever the journal answers, leaves a sound manager
  -- sound: the accounting is balanced, what it counts as borrowed is the total of the leases held,
  -- no lease has a negative size, and the identifiers are distinct.
  pub reclaim-IsSound :
      (m : Manager Disk) (need now : ℤ) → IsSound m → IsSound (reclaim m need now).0
  reclaim-IsSound m need now s = elim (Bool-cases (leb_ℤ need (pos 0))) [
    | inl none_asked ↦ rw (reclaim-nothing m need now (ground arith)) s
    | inr asked ↦
        let (h, d) = taken_now-Held m need now s in
        IsSound-same (reclaimed_books m need now) (reclaim m need now).0
          (reclaim-same m need now s (ground arith))
          (without_all-IsSound (after_expiry m now) (taken_now m need now)
            (after_expiry-IsSound m now s) h d)
  ]

  -- Expire leaves a sound manager sound, at any time and whatever the journal answers.
  expire-IsSound : (m : Manager Disk) (now : ℤ) → IsSound m → IsSound (expire m now).0
  unfolding expire
  expire-IsSound m now s = rw (expire_locked_lem m now s) (
      IsSound-same (after_expiry m now) _
        (persist_dropped-same (after_expiry m now) (expiry_result m now))
        (after_expiry-IsSound m now s))

  -- A lease that is held is released with its size, and the result journalled.
  pub release_lem :
      (m : Manager Disk) (id : Text) (l : Lease)
      → IsSound m
      → lookup id m.leases ≡ some l
      → release m id ≡ ((persist_locked (without m l)).0, l.size, (persist_locked (without m l)).1)
  unfolding release
  release_lem m id l s e =
      let h : Held m.leases l =
        subst (λ t. lookup t m.leases ≡ some l) (lookup-id id m.leases l e) e in
      ground (arith, e, release_locked_lem m l s h)

  pub release-missing :
      (m : Manager Disk) (id : Text)
      → lookup id m.leases ≡ none
      → release m id ≡ (m, pos 0, some Error.no_such_lease)
  unfolding release
  release-missing m id e = ground arith

  -- Release leaves a sound manager sound, for an identifier that is held or not and whatever the
  -- journal answers.
  pub release-IsSound : (m : Manager Disk) (id : Text) → IsSound m → IsSound (release m id).0
  release-IsSound m id s = elim (Option-cases (lookup id m.leases)) [
    | inl e ↦ rw (release-missing m id e) s
    | inr (l, e) ↦
        let h : Held m.leases l =
          subst (λ t. lookup t m.leases ≡ some l) (lookup-id id m.leases l e) e in
        rw (release_lem m id l s e) (persist_locked-IsSound (without m l) (without-IsSound m l s h))
  ]

-- ===== src/Lease/Invariant/Accept.antt =====
-- `Manager.Accept` of internal/lease/lease.go on every branch, a failing journal included.
use forebay.Prelude.{
  ◌≡◌, refl, sym, ap, subst, some, none, Option, ◌∷◌, arith, inl, inr, Option-cases,
}
use forebay.Prelude.Int.{ℤ, pos, ◌+ℤ◌, ◌-ℤ◌, ◌≤ℤ◌, parts_of_eq, int_laws}
use forebay.Prelude.Text.{text_eq_refl}
use forebay.Pool.{Outcome, done, failed, lend}
use forebay.Pool.Laws.{IsBalanced, lend-done_inv}
use forebay.Lease.Types.{Error, Lease, Manager}
use forebay.Lease.Table.{lookup, erase, insert}
use forebay.Lease.Table.Laws.{Sized, Distinct, Held, erase-missing, lookup-Fresh}
use forebay.Lease.Manager.{
  persist_locked, prune, refusal, admit, accept, release_locked, undo_if_failed,
}
use forebay.Lease.Invariant.{IsSound}
use forebay.Lease.Invariant.Release.{release_locked_lem}

-- The lease as it is recorded.
abbrev pub granted : Lease → ℤ → Lease
granted l now = record l { granted_at = now }

module _ {Disk : Type 0} where
  -- Journalling changes the disk alone.
  pub persist_locked_frame :
      (m : Manager Disk)
      → persist_locked m ≡ (record m { disk = (persist_locked m).0.disk }, (persist_locked m).1)
  unfolding persist_locked
  persist_locked_frame m = elim (Option-cases m.journal) [
    | inl e ↦ ground arith
    | inr (j, e) ↦ ground arith
  ]

  -- A manager with one more lease.
  abbrev pub with_lease : Manager Disk → Lease → Manager Disk
  with_lease m l = record m {
    acct = record (m.acct) { borrowed = m.acct.borrowed +ℤ l.size };
    leases = l ∷ m.leases;
  }

  pub with_lease-IsSound :
      (m : Manager Disk) (l : Lease)
      → IsSound m
      → lookup l.id m.leases ≡ none
      → pos 0 ≤ℤ l.size
      → m.acct.reserved +ℤ m.acct.borrowed +ℤ l.size ≤ℤ m.acct.capacity
      → IsSound (with_lease m l)
  with_lease-IsSound m l s new p fit = record {
    balanced = omega (int_laws, s.balanced);
    lent = omega (int_laws, parts_of_eq s.lent);
    sized = (p, s.sized);
    distinct = (lookup-Fresh l.id m.leases new, s.distinct);
  }

  -- The new manager `m'` has the leases and the accounting of `m`.
  abbrev pub SameBooks : Manager Disk → Manager Disk → Type 0
  SameBooks m m' = (m'.leases ≡ m.leases) × (m'.acct ≡ m.acct)

  pub IsSound-same : (m m' : Manager Disk) → SameBooks m m' → IsSound m → IsSound m'
  IsSound-same m m' (a, b) s = record {
    balanced = subst IsBalanced (sym b) s.balanced;
    lent = rw (a, b) s.lent;
    sized = subst Sized (sym a) s.sized;
    distinct = subst Distinct (sym a) s.distinct;
  }

  -- What `Accept` promises of its outcome, from the manager that `prune` left.
  abbrev pub Accepts : Manager Disk → Lease → ℤ → Manager Disk × Option Error → Type 0
  Accepts m l now (m', some e) = SameBooks m m'
  Accepts m l now (m', none) =
      (refusal m l now ≡ none)
      × (pos 0 ≤ℤ l.size)
      × (m.acct.reserved +ℤ m.acct.borrowed +ℤ l.size ≤ℤ m.acct.capacity)
      × SameBooks (with_lease m (granted l now)) m'

  refusal-lookup :
      (m : Manager Disk) (l : Lease) (now : ℤ)
      → refusal m l now ≡ none
      → lookup l.id m.leases ≡ none
  unfolding refusal
  refusal-lookup m l now h = elim (Option-cases (lookup l.id m.leases)) [
    | inl e ↦ e
    | inr (x, e) ↦ ground arith
  ]

  IsSound-disk : (m : Manager Disk) (d : Disk) → IsSound m → IsSound (record m { disk = d })
  IsSound-disk m d s = record {
    balanced = s.balanced;
    lent = s.lent;
    sized = s.sized;
    distinct = s.distinct;
  }

  -- Persisting keeps the invariant.
  pub persist_locked-IsSound : (m : Manager Disk) → IsSound m → IsSound (persist_locked m).0
  persist_locked-IsSound m s =
      subst (λ r. IsSound (r.0)) (sym (persist_locked_frame m))
        (IsSound-disk m (persist_locked m).0.disk s)

  -- A lease that was just added and is released again leaves the books as they were.
  release_added :
      (m : Manager Disk) (l : Lease) (d : Disk)
      → IsSound (with_lease m l)
      → SameBooks m (release_locked (record (with_lease m l) { disk = d }) l).0
  unfolding erase lookup
  release_added m l d s =
      let m1 : Manager Disk = record (with_lease m l) { disk = d } in
      let held : Held m1.leases l = rw (text_eq_refl l.id) in
      let back : m.acct.borrowed +ℤ l.size -ℤ l.size ≡ m.acct.borrowed = omega int_laws in
      rw (release_locked_lem m1 l (IsSound-disk (with_lease m l) d s) held)
        (rw (text_eq_refl l.id), ap (λ z. record (m.acct) { borrowed = z }) back)

  undo_if_failed-Accepts :
      (m : Manager Disk) (l : Lease) (now : ℤ) (d : Disk) (e : Option Error)
      → IsSound m
      → refusal m l now ≡ none
      → pos 0 ≤ℤ l.size
      → m.acct.reserved +ℤ m.acct.borrowed +ℤ l.size ≤ℤ m.acct.capacity
      → Accepts m l now
          (undo_if_failed (granted l now) (record (with_lease m (granted l now)) { disk = d }, e))
  unfolding undo_if_failed
  undo_if_failed-Accepts m l now d none s ok p fit = (ok, p, fit, (refl, refl))
  undo_if_failed-Accepts m l now d (some x) s ok p fit =
      release_added m (granted l now) d
        (with_lease-IsSound m (granted l now) s (refusal-lookup m l now ok) p fit)

  admit-Accepts :
      (m : Manager Disk) (l : Lease) (now : ℤ)
      → IsSound m
      → refusal m l now ≡ none
      → Accepts m l now (admit m l now)
  unfolding admit insert undo_if_failed
  admit-Accepts m l now s ok = go (lend m.acct l.size) refl
    where
      go : (o : Outcome) → lend m.acct l.size ≡ o → Accepts m l now (admit m l now)
      go (failed e) h = rw (h, admit) (refl, refl)
      go (done a) h =
          let inv = lend-done_inv m.acct a l.size s.balanced h in
          rw (h, admit, inv.2, erase-missing l.id m.leases (refusal-lookup m l now ok), insert)
            (rw (persist_locked_frame (with_lease m (granted l now)))
              (undo_if_failed-Accepts m l now _ _ s ok inv.0 inv.1))

  prune-IsSound : (m : Manager Disk) (now : ℤ) → IsSound m → IsSound (prune m now)
  unfolding prune
  prune-IsSound m now s = record {
    balanced = s.balanced;
    lent = s.lent;
    sized = s.sized;
    distinct = s.distinct;
  }

  -- On a sound manager Accept either refuses with an error and leaves the leases and the
  -- accounting as they were, also where the grant could not be journalled, or passed every guard
  -- and left exactly one lease more, stamped with the time, whose non-negative size fits the
  -- device and is added to what is borrowed.
  pub accept_lem :
      (m : Manager Disk) (l : Lease) (now : ℤ)
      → IsSound m
      → Accepts (prune m now) l now (accept m l now)
  unfolding accept
  accept_lem m l now s = elim (Option-cases (refusal (prune m now) l now)) [
    | inl ok ↦ rw (ok, accept) (admit-Accepts (prune m now) l now (prune-IsSound m now s) ok)
    | inr (e, no_) ↦ rw (no_, accept) (refl, refl)
  ]

  Accepts-IsSound :
      (m : Manager Disk) (l : Lease) (now : ℤ) (r : Manager Disk × Option Error)
      → IsSound m
      → Accepts m l now r
      → IsSound r.0
  Accepts-IsSound m l now (m', some e) s same = IsSound-same m m' same s
  Accepts-IsSound m l now (m', none) s (ok, p, fit, same) =
      IsSound-same (with_lease m (granted l now)) m' same
        (with_lease-IsSound m (granted l now) s (refusal-lookup m l now ok) p fit)

  -- Accept leaves a sound manager sound, whatever the lease offered and the journal's answer.
  pub accept-IsSound :
      (m : Manager Disk) (l : Lease) (now : ℤ) → IsSound m → IsSound (accept m l now).0
  accept-IsSound m l now s =
      Accepts-IsSound (prune m now) l now (accept m l now) (prune-IsSound m now s)
        (accept_lem m l now s)

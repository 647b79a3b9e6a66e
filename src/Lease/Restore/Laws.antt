-- ===== src/Lease/Restore/Laws.antt =====
-- `Restore` of internal/lease/lease.go with any journal.
use forebay.Prelude.{
  ◌≡◌, refl, ap, subst, ◌∙◌, true, false, ◌⊎◌, some, none, List, [], ◌∷◌, ◌++◌, All, arith, inl,
  inr, Bool-cases,
}
use forebay.Prelude.Int.{ℤ, pos, ◌+ℤ◌}
use forebay.Prelude.Text.{text_eq_sym}
use forebay.Pool
use forebay.Pool.{Accounting, Outcome, done, failed, lend}
use forebay.Pool.Laws.{IsBalanced, lend-done_inv}
use forebay.Lease.Types.{
  Error, Lease, Journal, Loaded, loaded, unreadable, Manager, Result, no_result, is_expired,
}
use forebay.Lease.Table.{lookup, insert}
use forebay.Lease.Table.Laws.{Distinct, Fresh, Fresh-lookup, erase-missing}
use forebay.Lease.Invariant.{IsSound}
use forebay.Lease.Invariant.Accept.{
  SameBooks, IsSound-same, with_lease, with_lease-IsSound, persist_locked_frame,
}
use forebay.Lease.Restore.{emptied, replay, adopt, start_empty, restore}

-- No identifier of one list stands in the other.
abbrev pub Apart : List Lease → List Lease → Type 0
Apart ls ms = All (λ l. Fresh l.id ms) ls

Apart-cons : (x : Lease) (ls ms : List Lease) → Fresh x.id ls → Apart ls ms → Apart ls (x ∷ ms)
Apart-cons x [] ms f a = tt
Apart-cons x (l ∷ ls) ms f a = ((text_eq_sym l.id x.id ∙ f.0, a.0), Apart-cons x ls ms f.1 a.1)

-- The device, apart from what was lent before, is consistent.
abbrev pub IsMeasured : Accounting → Type 0
IsMeasured a = IsBalanced (record a { borrowed = pos 0 })

Outcome-cases :
    (o : Outcome) → ((e : Pool.Error) × (o ≡ failed e)) ⊎ ((a : Accounting) × (o ≡ done a))
Outcome-cases (failed e) = inl (e, refl)
Outcome-cases (done a) = inr (a, refl)

Loaded-cases :
    (o : Loaded) → ((ls : List Lease) × (o ≡ loaded ls)) ⊎ ((e : Error) × (o ≡ unreadable e))
Loaded-cases (loaded ls) = inl (ls, refl)
Loaded-cases (unreadable e) = inr (e, refl)

-- The leases that a journal returned, if it could be read.
abbrev pub readable : Loaded → List (List Lease)
readable (loaded ls) = ls ∷ []
readable (unreadable e) = []

module _ {Disk : Type 0} where
  emptied-IsSound : (m : Manager Disk) → IsMeasured m.acct → IsSound (emptied m)
  unfolding emptied
  emptied-IsSound m b = record { balanced = b; lent = refl; sized = tt; distinct = tt }

  Apart-nil : (ls : List Lease) (m : Manager Disk) → Apart ls (emptied m).leases
  unfolding emptied
  Apart-nil [] m = tt
  Apart-nil (l ∷ ls) m = (tt, Apart-nil ls m)

  replay-expired :
      (l : Lease) (ls : List Lease) (now : ℤ) (m : Manager Disk) (res : Result)
      → is_expired l now ≡ true
      → replay (l ∷ ls) now m res
        ≡ replay ls now m (record res { dropped = res.dropped ++ l.id ∷ [] })
  unfolding replay
  replay-expired l ls now m res h = ground arith

  replay-unfit :
      (l : Lease) (ls : List Lease) (now : ℤ) (m : Manager Disk) (res : Result) (e : Pool.Error)
      → is_expired l now ≡ false
      → lend m.acct l.size ≡ failed e
      → replay (l ∷ ls) now m res
        ≡ replay ls now m (record res { unfittable = res.unfittable ++ l.id ∷ [] })
  unfolding replay
  replay-unfit l ls now m res e h k = ground arith

  replay-lent :
      (l : Lease) (ls : List Lease) (now : ℤ) (m : Manager Disk) (res : Result)
      → IsSound m
      → is_expired l now ≡ false
      → lookup l.id m.leases ≡ none
      → lend m.acct l.size ≡ done (record (m.acct) { borrowed = m.acct.borrowed +ℤ l.size })
      → replay (l ∷ ls) now m res ≡ replay ls now (with_lease m l) res
  unfolding replay insert
  replay-lent l ls now m res s h f k = ground (arith, erase-missing l.id m.leases f)

  replay-IsSound :
      (ls : List Lease) (now : ℤ) (m : Manager Disk) (res : Result)
      → IsSound m
      → Distinct ls
      → Apart ls m.leases
      → IsSound (replay ls now m res).0
  unfolding replay
  replay-IsSound [] now m res s d a = s
  replay-IsSound (l ∷ ls) now m res s d a = elim (Bool-cases (is_expired l now)) [
    | inl gone ↦ rw (replay-expired l ls now m res gone) (replay-IsSound ls now m _ s d.1 a.1)
    | inr live ↦ elim (Outcome-cases (lend m.acct l.size)) [
      | inl (e, no_) ↦
          rw (replay-unfit l ls now m res e live no_) (replay-IsSound ls now m _ s d.1 a.1)
      | inr (b, ok_) ↦
          let (p, fit, e) = lend-done_inv m.acct b l.size s.balanced ok_ in
          let new = Fresh-lookup l.id m.leases a.0 in
          rw (replay-lent l ls now m res s live new (ok_ ∙ ap done e)) (
            replay-IsSound ls now (with_lease m l) res (with_lease-IsSound m l s new p fit) d.1
              (Apart-cons l ls m.leases d.0 a.1))
    ]
  ]

  adopt-same : (m : Manager Disk) (res : Result) → SameBooks m (adopt m res).0
  unfolding adopt
  adopt-same m res = ground (arith, persist_locked_frame m)

  start_empty-same : (m : Manager Disk) (e : Error) → SameBooks (emptied m) (start_empty m e).0
  unfolding start_empty
  start_empty-same m e = ground (arith, persist_locked_frame (emptied m))

  -- Which of the two ways `Restore` goes.
  restore-loaded :
      (m : Manager Disk) (j : Journal Disk) (now : ℤ) (ls : List Lease)
      → m.journal ≡ some j
      → j.load m.disk ≡ loaded ls
      → restore m now
        ≡ adopt (replay ls now (emptied m) no_result).0 (replay ls now (emptied m) no_result).1
  unfolding restore
  restore-loaded m j now ls e h = ground arith

  restore-unreadable :
      (m : Manager Disk) (j : Journal Disk) (now : ℤ) (x : Error)
      → m.journal ≡ some j
      → j.load m.disk ≡ unreadable x
      → restore m now ≡ start_empty m x
  unfolding restore
  restore-unreadable m j now x e h = ground arith

  -- Restore with any journal whose loaded list, if it loads, has distinct identifiers leaves a
  -- sound manager, whether the list could be read or written back or not, as long as the device
  -- apart from what was lent is consistent.
  pub restore-IsSound :
      (m : Manager Disk) (j : Journal Disk) (now : ℤ)
      → m.journal ≡ some j
      → IsMeasured m.acct
      → All Distinct (readable (j.load m.disk))
      → IsSound (restore m now).0
  unfolding emptied
  restore-IsSound m j now e b d = elim (Loaded-cases (j.load m.disk)) [
    | inl (ls, h) ↦
        let r = replay ls now (emptied m) no_result in
        let ds : All Distinct (ls ∷ []) = subst (λ z. All Distinct (readable z)) h d in
        rw (restore-loaded m j now ls e h) (
          IsSound-same (r.0) (adopt (r.0) (r.1)).0 (adopt-same (r.0) (r.1)) (
            replay-IsSound ls now (emptied m) no_result (emptied-IsSound m b) ds.0
              (Apart-nil ls (emptied m))))
    | inr (x, h) ↦
        rw (restore-unreadable m j now x e h) (
          IsSound-same (emptied m) (start_empty m x).0 (start_empty-same m x) (emptied-IsSound m b))
  ]

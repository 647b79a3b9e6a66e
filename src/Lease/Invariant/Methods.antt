-- ===== src/Lease/Invariant/Methods.antt =====
-- `Expire` and `Reclaim` of internal/lease/lease.go as what they compute on a sound manager.
use forebay.Prelude.{
  ◌≡◌, refl, false, List, [], ◌∷◌, ◌++◌, All, arith, inl, inr, Bool-cases, if◌then◌else◌,
}
use forebay.Prelude.Int.{ℤ, pos, ◌+ℤ◌, ◌≤ℤ◌, ltb_ℤ, leb_ℤ, parts_of_eq, int_laws}
use forebay.Prelude.Int64.{sub64}
use forebay.Prelude.Text.{text_eq}
use forebay.Lease.Types.{Lease, Manager, Result, no_result, is_expired}
use forebay.Lease.Table.{is_guaranteed}
use forebay.Lease.Table.Laws.{Distinct, Held, Sized, lookup-All, total, total_nonneg}
use forebay.Lease.Order.Laws.{sort-Held, sort-Distinct}
use forebay.Lease.Manager.{leases_locked, prune, expire_locked, persist_dropped, settle, reclaim}
use forebay.Lease.Invariant.{IsSound}
use forebay.Lease.Invariant.Loops.{
  expired_of, victims, with_expired, with_victims, without_all, Room, expire_loop_lem,
  reclaim_loop_lem, without_all-IsSound, borrowed-without_all, reclaimed-with_expired,
}
use forebay.Lease.Invariant.Accept.{SameBooks, persist_locked_frame}

err-with_expired : (ls : List Lease) (res : Result) → (with_expired res ls).err ≡ res.err
err-with_expired [] res = refl
err-with_expired (l ∷ ls) res = err-with_expired ls _

expired_of-All {ℓ} :
    (P : Lease → Type ℓ) (now : ℤ) (ls : List Lease) → All P ls → All P (expired_of now ls)
expired_of-All P now [] h = tt
expired_of-All P now (l ∷ ls) h = elim (Bool-cases (is_expired l now)) [
  | inl e ↦ rw e (h.0, expired_of-All P now ls h.1)
  | inr e ↦ rw e (expired_of-All P now ls h.1)
]

expired_of-Distinct : (now : ℤ) (ls : List Lease) → Distinct ls → Distinct (expired_of now ls)
expired_of-Distinct now [] h = tt
expired_of-Distinct now (l ∷ ls) h = elim (Bool-cases (is_expired l now)) [
  | inl e ↦
      rw e
        (expired_of-All (λ x. text_eq l.id x.id ≡ false) now ls h.0, expired_of-Distinct now ls h.1)
  | inr e ↦ rw e (expired_of-Distinct now ls h.1)
]

pub victims-All {ℓ} :
    (P : Lease → Type ℓ) (need got : ℤ) (ls : List Lease) → All P ls → All P (victims need got ls)
victims-All P need got [] h = tt
victims-All P need got (l ∷ ls) h = elim (Bool-cases (leb_ℤ need got)) [
  | inl e ↦ rw e tt
  | inr e ↦ elim (Bool-cases (is_guaranteed l)) [
    | inl g ↦ rw (e, g) (victims-All P need got ls h.1)
    | inr g ↦ rw (e, g) (h.0, victims-All P need (got +ℤ l.size) ls h.1)
  ]
]

pub victims-Distinct :
    (need got : ℤ) (ls : List Lease) → Distinct ls → Distinct (victims need got ls)
victims-Distinct need got [] h = tt
victims-Distinct need got (l ∷ ls) h = elim (Bool-cases (leb_ℤ need got)) [
  | inl e ↦ rw e tt
  | inr e ↦ elim (Bool-cases (is_guaranteed l)) [
    | inl g ↦ rw (e, g) (victims-Distinct need got ls h.1)
    | inr g ↦
        rw (e, g)
          (
            victims-All (λ x. text_eq l.id x.id ≡ false) need (got +ℤ l.size) ls h.0,
            victims-Distinct need (got +ℤ l.size) ls h.1,
          )
  ]
]

pub Held-Sized : (ms ls : List Lease) → Sized ms → All (Held ms) ls → Sized ls
Held-Sized ms [] s h = tt
Held-Sized ms (l ∷ ls) s h =
    (lookup-All (λ x. pos 0 ≤ℤ x.size) l.id ms l s h.0, Held-Sized ms ls s h.1)

module _ {Disk : Type 0} where
  -- The leases whose term is over, in reclaim order, and those that the ladder then takes.
  abbrev pub expired_now : Manager Disk → ℤ → List Lease
  expired_now m now = expired_of now (leases_locked m)

  abbrev pub after_expiry : Manager Disk → ℤ → Manager Disk
  after_expiry m now = without_all m (expired_now m now)

  abbrev pub expiry_result : Manager Disk → ℤ → Result
  expiry_result m now = with_expired no_result (expired_now m now)

  abbrev pub taken_now : Manager Disk → ℤ → ℤ → List Lease
  taken_now m need now =
      victims need (expiry_result m now).reclaimed (leases_locked (after_expiry m now))

  pub leases_locked-Held :
      (m : Manager Disk)
      → IsSound m
      → All (Held m.leases) (leases_locked m) × Distinct (leases_locked m)
  unfolding leases_locked
  leases_locked-Held m s = (sort-Held m.leases s.distinct, sort-Distinct m.leases s.distinct)

  pub expired_now-Held :
      (m : Manager Disk) (now : ℤ)
      → IsSound m
      → All (Held m.leases) (expired_now m now) × Distinct (expired_now m now)
  expired_now-Held m now s =
      let (h, d) = leases_locked-Held m s in
      (
        expired_of-All (Held m.leases) now (leases_locked m) h,
        expired_of-Distinct now (leases_locked m) d,
      )

  pub after_expiry-IsSound : (m : Manager Disk) (now : ℤ) → IsSound m → IsSound (after_expiry m now)
  after_expiry-IsSound m now s =
      let (h, d) = expired_now-Held m now s in without_all-IsSound m (expired_now m now) s h d

  -- `expireLocked` releases exactly the leases whose term is over.
  pub expire_locked_lem :
      (m : Manager Disk) (now : ℤ)
      → IsSound m
      → expire_locked m now ≡ (after_expiry m now, expiry_result m now)
  unfolding expire_locked
  expire_locked_lem m now s =
      let (h, d) = leases_locked-Held m s in
      expire_loop_lem (leases_locked m) now m no_result s h d
        (omega int_laws, omega (int_laws, s.balanced))

  expiry-Room :
      (m : Manager Disk) (now : ℤ)
      → IsSound m
      → Room (after_expiry m now) (expiry_result m now).reclaimed
  expiry-Room m now s =
      let (h, d) = expired_now-Held m now s in
      let sized : pos 0 ≤ℤ total (expired_now m now) =
        total_nonneg (expired_now m now) (Held-Sized m.leases (expired_now m now) s.sized h) in
      (
        omega (int_laws, parts_of_eq (reclaimed-with_expired no_result (expired_now m now))),
        omega (
          int_laws,
          s.balanced,
          parts_of_eq (reclaimed-with_expired no_result (expired_now m now)),
          parts_of_eq (borrowed-without_all m (expired_now m now)),
        ),
      )

  -- `Reclaim` releases those, and then what the ladder takes.
  pub reclaim_lem :
      (m : Manager Disk) (need now : ℤ)
      → IsSound m
      → pos 1 ≤ℤ need
      → reclaim m need now
        ≡ settle need now
            (without_all (after_expiry m now) (taken_now m need now))
            (with_victims (expiry_result m now) (taken_now m need now))
  unfolding reclaim
  reclaim_lem m need now s p =
      let s1 = after_expiry-IsSound m now s in
      let (h, d) = leases_locked-Held (after_expiry m now) s1 in
      ground (
        arith,
        expire_locked_lem m now s,
        err-with_expired (expired_now m now) no_result,
        reclaim_loop_lem (leases_locked (after_expiry m now)) need (after_expiry m now)
            (expiry_result m now) s1 h d (expiry-Room m now s),
      )

  pub persist_dropped-same :
      (m : Manager Disk) (res : Result) → SameBooks m (persist_dropped m res).0
  unfolding persist_dropped
  persist_dropped-same m res = ground (arith, persist_locked_frame m)

  pub settle-same :
      (need now : ℤ) (m : Manager Disk) (res : Result) → SameBooks m (settle need now m res).0
  unfolding settle prune
  settle-same need now m res = ground (
    arith,
    persist_dropped-same (prune (record m { reclaims = m.reclaims ++ now ∷ [] }) now) (record res {
      shortfall = if ltb_ℤ res.reclaimed need then sub64 need res.reclaimed else res.shortfall;
    }),
  )

  persist_dropped-amounts :
      (m : Manager Disk) (res : Result)
      → ((persist_dropped m res).1.reclaimed ≡ res.reclaimed)
        × ((persist_dropped m res).1.shortfall ≡ res.shortfall)
  unfolding persist_dropped
  persist_dropped-amounts m res = ground arith

  pub settle-amounts :
      (need now : ℤ) (m : Manager Disk) (res : Result)
      → ((settle need now m res).1.reclaimed ≡ res.reclaimed)
        × ((settle need now m res).1.shortfall
            ≡ (if ltb_ℤ res.reclaimed need then sub64 need res.reclaimed else res.shortfall))
  unfolding settle
  settle-amounts need now m res = ground (
    arith,
    persist_dropped-amounts (prune (record m { reclaims = m.reclaims ++ now ∷ [] }) now)
        (record res {
          shortfall = if ltb_ℤ res.reclaimed need then sub64 need res.reclaimed else res.shortfall;
        }),
  )

pub shortfall-with_expired :
    (ls : List Lease) (res : Result) → (with_expired res ls).shortfall ≡ res.shortfall
shortfall-with_expired [] res = refl
shortfall-with_expired (l ∷ ls) res = shortfall-with_expired ls _

pub shortfall-with_victims :
    (ls : List Lease) (res : Result) → (with_victims res ls).shortfall ≡ res.shortfall
shortfall-with_victims [] res = refl
shortfall-with_victims (l ∷ ls) res = shortfall-with_victims ls _

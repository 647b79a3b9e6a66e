-- ===== src/Lease/Reclaim/Amount.antt =====
-- What `Reclaim` of internal/lease/lease.go reports.
use forebay.Prelude.{◌≡◌, ap, ◌∙◌, ◌⊎◌, arith, inl, inr, Bool-cases}
use forebay.Prelude.Int.{ℤ, pos, ◌+ℤ◌, ◌≤ℤ◌, ◌<ℤ◌, ltb_ℤ, parts_of_eq, int_laws}
use forebay.Prelude.Int64.{IsInt64, sub64_exact}
use forebay.Lease.Types.{Manager, Result, no_result}
use forebay.Lease.Table.Laws.{total, total_nonneg}
use forebay.Lease.Manager.{settle, reclaim}
use forebay.Lease.Invariant.{IsSound}
use forebay.Lease.Invariant.Loops.{
  with_victims, borrowed-without_all, reclaimed-with_expired, reclaimed-with_victims,
}
use forebay.Lease.Invariant.Methods.{
  expired_now, after_expiry, expiry_result, taken_now, expired_now-Held, after_expiry-IsSound,
  reclaim_lem, settle-amounts, shortfall-with_expired, shortfall-with_victims, Held-Sized,
}
use forebay.Lease.Reclaim.Soundness.{reclaimed_books, taken_now-Held, reclaim-same}

-- The two halves of an amount that fits: nothing is missing, or the shortfall is what is.
abbrev pub Meets : ℤ → Result → Type 0
Meets need res =
    ((need ≤ℤ res.reclaimed) × (res.shortfall ≡ pos 0))
    ⊎ ((res.reclaimed <ℤ need) × (res.reclaimed +ℤ res.shortfall ≡ need))

module _ {Disk : Type 0} where
  settle-Meets :
      (need now : ℤ) (m : Manager Disk) (res : Result)
      → IsInt64 need
      → pos 0 ≤ℤ res.reclaimed
      → res.shortfall ≡ pos 0
      → Meets need (settle need now m res).1
  settle-Meets need now m res n r z =
      let (a, b) = settle-amounts need now m res in
      elim (Bool-cases (ltb_ℤ res.reclaimed need)) [
        | inl short ↦
            let lt : res.reclaimed <ℤ need = ground arith in
            let c = sub64_exact need res.reclaimed (omega int_laws) in
            inr (rw a lt, rw (a, b, short, c) (omega int_laws))
        | inr enough ↦ inl (rw a (ground arith), rw (b, enough) z)
      ]

  pub reclaimed_total :
      (m : Manager Disk) (need now : ℤ)
      → IsSound m
      → pos 1 ≤ℤ need
      → (reclaim m need now).1.reclaimed ≡ total (expired_now m now) +ℤ total (taken_now m need now)
  reclaimed_total m need now s p = rw (reclaim_lem m need now s p) (
      (settle-amounts need now (reclaimed_books m need now)
        (with_victims (expiry_result m now) (taken_now m need now))).0
      ∙ omega (
        int_laws,
        parts_of_eq (reclaimed-with_victims (expiry_result m now) (taken_now m need now)),
        parts_of_eq (reclaimed-with_expired no_result (expired_now m now)),
      ))

  amount-Meets :
      (m : Manager Disk) (need now : ℤ)
      → IsSound m
      → pos 1 ≤ℤ need
      → IsInt64 need
      → Meets need (reclaim m need now).1
  amount-Meets m need now s p n =
      let res = with_victims (expiry_result m now) (taken_now m need now) in
      let (h, _) = expired_now-Held m now s in
      let (k, _) = taken_now-Held m need now s in
      let e =
        total_nonneg (expired_now m now) (Held-Sized m.leases (expired_now m now) s.sized h) in
      let t = total_nonneg (taken_now m need now) (
        Held-Sized (after_expiry m now).leases (taken_now m need now)
          ((after_expiry-IsSound m now s).sized) k) in
      let r : pos 0 ≤ℤ res.reclaimed = omega (
        int_laws,
        parts_of_eq (reclaimed-with_victims (expiry_result m now) (taken_now m need now)),
        parts_of_eq (reclaimed-with_expired no_result (expired_now m now)),
        e,
        t,
      ) in
      let z : res.shortfall ≡ pos 0 =
        shortfall-with_victims (taken_now m need now) (expiry_result m now)
        ∙ shortfall-with_expired (expired_now m now) no_result in
      rw (reclaim_lem m need now s p) (settle-Meets need now (reclaimed_books m need now) res n r z)

  -- On a sound manager, for a positive int64 amount asked for, what Reclaim reports as reclaimed
  -- is what left the borrowed total, and either it covers the amount with no shortfall, or it is
  -- less and the shortfall is the exact difference.
  pub reclaim_amount :
      (m : Manager Disk) (need now : ℤ)
      → IsSound m
      → pos 1 ≤ℤ need
      → IsInt64 need
      → ((reclaim m need now).0.acct.borrowed +ℤ (reclaim m need now).1.reclaimed ≡ m.acct.borrowed)
        × Meets need (reclaim m need now).1
  reclaim_amount m need now s p n = (
    omega (
      int_laws,
      parts_of_eq (ap (λ a. a.borrowed) ((reclaim-same m need now s p).1)),
      parts_of_eq (reclaimed_total m need now s p),
      parts_of_eq (borrowed-without_all m (expired_now m now)),
      parts_of_eq (borrowed-without_all (after_expiry m now) (taken_now m need now)),
    ),
    amount-Meets m need now s p n,
  )

-- ===== src/Lease/Reclaim/Guarantee.antt =====
-- What `Reclaim` of internal/lease/lease.go leaves.
use forebay.Prelude.{
  ◌≡◌, refl, ◌∙◌, ◌⊎◌, Bool, true, false, not, some, none, List, [], ◌∷◌, All, arith, inl, inr,
  Bool-cases,
}
use forebay.Prelude.Int.{ℤ, pos, ◌+ℤ◌, ◌≤ℤ◌, ◌<ℤ◌, leb_ℤ, parts_of_eq, int_laws}
use forebay.Prelude.Text.{Text, text_eq, text_eq→eq}
use forebay.Lease.Types.{Lease, Manager, no_result, is_expired}
use forebay.Lease.Table.{lookup, is_guaranteed}
use forebay.Lease.Table.Laws.{Held, Fresh, lookup-id, lookup-All, total}
use forebay.Lease.Order.Laws.{lookup-sort}
use forebay.Lease.Manager.{leases_locked, reclaim}
use forebay.Lease.Invariant.{IsSound}
use forebay.Lease.Invariant.Loops.{
  expired_of, victims, without_all-missing, lookup-without_all, lookup-without_all-some,
  reclaimed-with_expired,
}
use forebay.Lease.Invariant.Methods.{
  expired_now, after_expiry, expiry_result, taken_now, expired_now-Held, after_expiry-IsSound,
}
use forebay.Lease.Reclaim.Soundness.{reclaimed_books, taken_now-Held, reclaim-same, reclaim-nothing}
use forebay.Lease.Reclaim.Amount.{reclaimed_total}

settled {ℓ} :
    {P : Type ℓ} (k : Text) (ms : List Lease) (l : Lease)
    → lookup k ms ≡ some l
    → P ⊎ (lookup l.id ms ≡ none)
    → P
settled k ms l h (inl p) = p
settled k ms l h (inr gone) = cc (lookup-id k ms l h)

-- Two leases of one map that a test tells apart have two identifiers.
Held-ne :
    (q : Lease → Bool) (ms : List Lease) (l x : Lease)
    → Held ms l
    → Held ms x
    → q l ≡ true
    → q x ≡ false
    → text_eq l.id x.id ≡ false
Held-ne q ms l x hl hx ql qx = elim (Bool-cases (text_eq l.id x.id)) [
  | inl e ↦ cc (text_eq→eq l.id x.id e)
  | inr e ↦ e
]

Fresh-untaken :
    (q : Lease → Bool) (ms : List Lease) (l : Lease) (ls : List Lease)
    → Held ms l
    → q l ≡ true
    → All (Held ms) ls
    → All (λ x. q x ≡ false) ls
    → Fresh l.id ls
Fresh-untaken q ms l [] h ql hs qs = tt
Fresh-untaken q ms l (x ∷ ls) h ql hs qs =
    (Held-ne q ms l x h hs.0 ql qs.0, Fresh-untaken q ms l ls h ql hs.1 qs.1)

victims-loose :
    (need got : ℤ) (ls : List Lease) → All (λ x. is_guaranteed x ≡ false) (victims need got ls)
victims-loose need got [] = tt
victims-loose need got (l ∷ ls) = elim (Bool-cases (leb_ℤ need got)) [
  | inl e ↦ rw e tt
  | inr e ↦ elim (Bool-cases (is_guaranteed l)) [
    | inl g ↦ rw (e, g) (victims-loose need got ls)
    | inr g ↦ rw (e, g) (g, victims-loose need (got +ℤ l.size) ls)
  ]
]

expired_of-expired :
    (now : ℤ) (ls : List Lease) → All (λ x. not (is_expired x now) ≡ false) (expired_of now ls)
expired_of-expired now [] = tt
expired_of-expired now (l ∷ ls) = elim (Bool-cases (is_expired l now)) [
  | inl e ↦ rw e (rw e, expired_of-expired now ls)
  | inr e ↦ rw e (expired_of-expired now ls)
]

-- Where the ladder falls short it passed over guaranteed leases only.
victims-short :
    (Q : Lease → Type 0) (need got : ℤ) (ls : List Lease)
    → got +ℤ total (victims need got ls) <ℤ need
    → All Q (victims need got ls)
    → All (λ x. (is_guaranteed x ≡ true) ⊎ Q x) ls
victims-short Q need got [] = λ h q. tt
victims-short Q need got (l ∷ ls) = elim (Bool-cases (leb_ℤ need got)) [
  | inl e ↦ rw e (λ h q. absurd (grind int_laws))
  | inr e ↦ elim (Bool-cases (is_guaranteed l)) [
    | inl g ↦ rw (e, g) (λ h q. (inl refl, victims-short Q need got ls h q))
    | inr g ↦
        rw (e, g) (λ h q. (inr (q.0), victims-short Q need (got +ℤ l.size) ls (omega int_laws) q.1))
  ]
]

expired_of-split :
    (Q : Lease → Type 0) (now : ℤ) (ls : List Lease)
    → All Q (expired_of now ls)
    → All (λ x. (is_expired x now ≡ false) ⊎ Q x) ls
expired_of-split Q now [] = λ q. tt
expired_of-split Q now (l ∷ ls) = elim (Bool-cases (is_expired l now)) [
  | inl e ↦ rw e (λ q. (inr (q.0), expired_of-split Q now ls q.1))
  | inr e ↦ rw e (λ q. (inl refl, expired_of-split Q now ls q))
]

module _ {Disk : Type 0} where
  -- On a sound manager a guaranteed lease that is held and not expired is still held, unchanged,
  -- after any Reclaim.
  pub reclaim_keeps_guaranteed :
      (m : Manager Disk) (need now : ℤ) (l : Lease)
      → IsSound m
      → Held m.leases l
      → is_guaranteed l ≡ true
      → is_expired l now ≡ false
      → Held (reclaim m need now).0.leases l
  reclaim_keeps_guaranteed m need now l s h g live = elim (Bool-cases (leb_ℤ need (pos 0))) [
    | inl none_asked ↦ rw (reclaim-nothing m need now (ground arith)) h
    | inr asked ↦
        let (hs, d) = expired_now-Held m now s in
        let (ks, e) = taken_now-Held m need now s in
        let kept : Held (after_expiry m now).leases l =
          lookup-without_all l.id m (expired_now m now) (
            Fresh-untaken (λ x. not (is_expired x now)) m.leases l (expired_now m now) h (rw live)
              hs (expired_of-expired now (leases_locked m)))
          ∙ h in
        rw ((reclaim-same m need now s (ground arith)).0) (
          lookup-without_all l.id (after_expiry m now) (taken_now m need now) (
            Fresh-untaken is_guaranteed (after_expiry m now).leases l (taken_now m need now) kept g
              ks
              (victims-loose need (expiry_result m now).reclaimed
                (leases_locked (after_expiry m now))))
          ∙ kept)
  ]

  lookup-leases_locked :
      (k : Text) (m : Manager Disk) → IsSound m → lookup k (leases_locked m) ≡ lookup k m.leases
  unfolding leases_locked
  lookup-leases_locked k m s = lookup-sort k m.leases s.distinct

  exhausted :
      (m : Manager Disk) (need now : ℤ) (k : Text) (l : Lease)
      → IsSound m
      → pos 1 ≤ℤ need
      → (reclaim m need now).1.reclaimed <ℤ need
      → lookup k (reclaim m need now).0.leases ≡ some l
      → (is_guaranteed l ≡ true) × (is_expired l now ≡ false)
  exhausted m need now k l s p short h =
      let m1 = after_expiry m now in
      let m2 = reclaimed_books m need now in
      let s1 = after_expiry-IsSound m now s in
      let found2 : lookup k m2.leases ≡ some l = rw (← (reclaim-same m need now s p).0) h in
      let found1 : lookup k m1.leases ≡ some l =
        lookup-without_all-some k m1 (taken_now m need now) l s1.distinct found2 in
      let found0 : lookup k m.leases ≡ some l =
        lookup-without_all-some k m (expired_now m now) l s.distinct found1 in
      let (_, dt) = taken_now-Held m need now s in
      let (_, de) = expired_now-Held m now s in
      let short' : (expiry_result m now).reclaimed +ℤ total (taken_now m need now) <ℤ need = omega (
        int_laws,
        parts_of_eq (reclaimed_total m need now s p),
        parts_of_eq (reclaimed-with_expired no_result (expired_now m now)),
      ) in
      (
        settled k m2.leases l found2 (
            lookup-All (λ x. (is_guaranteed x ≡ true) ⊎ (lookup x.id m2.leases ≡ none)) k
              (leases_locked m1) l
              (victims-short (λ x. lookup x.id m2.leases ≡ none) need
                (expiry_result m now).reclaimed (leases_locked m1) short'
                (without_all-missing m1 (taken_now m need now) s1.distinct dt))
              (lookup-leases_locked k m1 s1 ∙ found1)),
        settled k m1.leases l found1 (
            lookup-All (λ x. (is_expired x now ≡ false) ⊎ (lookup x.id m1.leases ≡ none)) k
              (leases_locked m) l
              (expired_of-split (λ x. lookup x.id m1.leases ≡ none) now (leases_locked m)
                (without_all-missing m (expired_now m now) s.distinct de))
              (lookup-leases_locked k m s ∙ found0)),
      )

  -- On a sound manager, where Reclaim reports less than was asked for, every lease that is still
  -- found is guaranteed and not expired.
  pub reclaim_exhausts :
      (m : Manager Disk) (need now : ℤ) (k : Text) (l : Lease)
      → IsSound m
      → (reclaim m need now).1.reclaimed <ℤ need
      → lookup k (reclaim m need now).0.leases ≡ some l
      → (is_guaranteed l ≡ true) × (is_expired l now ≡ false)
  reclaim_exhausts m need now k l s short h = elim (Bool-cases (leb_ℤ need (pos 0))) [
    | inl none_asked ↦ absurd (ground (arith, reclaim-nothing m need now (ground arith)))
    | inr asked ↦ exhausted m need now k l s (ground arith) short h
  ]

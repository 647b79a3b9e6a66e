-- ===== src/Tier/Admission/Laws.antt =====
-- The record of first reads of internal/fasttier/admission.go.
use forebay.Prelude.{
  suc, ◌≡◌, refl, true, false, List, [], ◌∷◌, ◌++◌, length, length-append, drop, arith, inl, inr,
  Bool-cases, if◌then◌else◌,
}
use forebay.Prelude.Int.{ℤ, pos, negsuc, ◌≤ℤ◌, leb_ℤ, eqb_ℤ}
use forebay.Prelude.Text.{text_eq_refl}
use forebay.Tier.Types.{Key, key_eq, FirstReads}
use forebay.Tier.Admission.{was_seen, saw_before}

pub key_eq_refl : (k : Key) → key_eq k k ≡ true
unfolding key_eq
key_eq_refl k =
    rw (text_eq_refl k.tenant, text_eq_refl k.block.backend, text_eq_refl k.block.object)
      (elim k.block.index as (λ z. eqb_ℤ z z ≡ true) [
        | pos n ↦ ground arith
        | negsuc n ↦ ground arith
      ])

was_seen-append : (k : Key) (js : List Key) → key_eq k k ≡ true → was_seen k (js ++ k ∷ []) ≡ true
unfolding was_seen
was_seen-append k [] e = ground (arith, e)
was_seen-append k (j ∷ js) e = ground (arith, was_seen-append k js e)

saw_before-seen : (f : FirstReads) (k : Key) → was_seen k f.seen ≡ true → saw_before f k ≡ (f, true)
unfolding saw_before
saw_before-seen f k h = ground arith

-- The keys that stay where a new one is recorded.
abbrev kept : FirstReads → List Key
kept f = if leb_ℤ f.limit (pos (length f.seen)) then drop 1 f.seen else f.seen

saw_before-new :
    (f : FirstReads) (k : Key)
    → was_seen k f.seen ≡ false
    → pos 1 ≤ℤ f.limit
    → saw_before f k ≡ (record f { seen = kept f ++ k ∷ [] }, false)
unfolding saw_before
saw_before-new f k h p = ground arith

saw_before-off :
    (f : FirstReads) (k : Key)
    → was_seen k f.seen ≡ false
    → f.limit ≤ℤ pos 0
    → saw_before f k ≡ (f, false)
unfolding saw_before
saw_before-off f k h p = ground arith

room :
    (limit : ℤ) (js : List Key)
    → pos 1 ≤ℤ limit
    → pos (length js) ≤ℤ limit
    → pos (suc (length (if leb_ℤ limit (pos (length js)) then drop 1 js else js))) ≤ℤ limit
room limit [] p h = ground arith
room limit (j ∷ js) p h = ground arith

-- A record of first reads that is within its limit is within it after the next read too.
saw_before_bound :
    (f : FirstReads) (k : Key)
    → pos (length f.seen) ≤ℤ f.limit
    → pos (length (saw_before f k).0.seen) ≤ℤ (saw_before f k).0.limit
saw_before_bound f k h = elim (Bool-cases (was_seen k f.seen)) [
  | inl old ↦ rw (saw_before-seen f k old) h
  | inr first ↦ elim (Bool-cases (leb_ℤ f.limit (pos 0))) [
    | inl off ↦ rw (saw_before-off f k first (ground arith)) h
    | inr on ↦
        rw (saw_before-new f k first (ground arith))
          (omega (arith, room f.limit f.seen (ground arith) h, length-append (kept f) (k ∷ [])))
  ]
]

-- With a positive limit, a key is recognised when it is read again straight after, whatever the
-- record of first reads held.
saw_before_twice :
    (f : FirstReads) (k : Key) → pos 1 ≤ℤ f.limit → (saw_before (saw_before f k).0 k).1 ≡ true
saw_before_twice f k h = elim (Bool-cases (was_seen k f.seen)) [
  | inl old ↦ rw (saw_before-seen f k old, saw_before-seen f k old) refl
  | inr first ↦
      rw
        (
          saw_before-new f k first h,
          saw_before-seen (record f { seen = kept f ++ k ∷ [] }) k
              (was_seen-append k (kept f) (key_eq_refl k)),
        )
        refl
]

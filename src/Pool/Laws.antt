-- ===== src/Pool/Laws.antt =====
-- The arithmetic of internal/pool/pool.go, with the wrap-around of int64 accounted for.
use forebay.Prelude.{ap, ◌∙◌, ◌≡◌, ◌↔◌, ◌⊎◌, none, arith, inl, inr, Bool-cases}
use forebay.Prelude.Int.{ℤ, pos, ◌+ℤ◌, ◌-ℤ◌, ◌≤ℤ◌, ◌<ℤ◌, ltb_ℤ, leb_ℤ, int_laws}
use forebay.Prelude.Int64.{IsInt64, add64_exact, sub64_exact, sub64}
use forebay.Pool.{
  Accounting, done, failed, negative, insufficient, free, can_lend, validate, lend, give_back,
}

-- Every field is an int64.
pub record IsMachine (a : Accounting) : Type 0 where
  pub capacity_fits : IsInt64 a.capacity
  pub reserved_fits : IsInt64 a.reserved
  pub borrowed_fits : IsInt64 a.borrowed

-- The pools are non-negative and fit the device, as integers that do not wrap.
pub record IsBalanced (a : Accounting) : Type 0 where
  pub capacity_fits : IsInt64 a.capacity
  pub reserved_pos : pos 0 ≤ℤ a.reserved
  pub borrowed_pos : pos 0 ≤ℤ a.borrowed
  pub fits : a.reserved +ℤ a.borrowed ≤ℤ a.capacity

-- Free space is the plain difference wherever the two allocations fit an int64 together.
free_plain :
    (a : Accounting)
    → IsInt64 a.capacity
    → pos 0 ≤ℤ a.capacity
    → pos 0 ≤ℤ a.reserved
    → pos 0 ≤ℤ a.borrowed
    → IsInt64 (a.reserved +ℤ a.borrowed)
    → free a ≡ a.capacity -ℤ a.reserved -ℤ a.borrowed
unfolding free
free_plain a c cp rp bp r =
    let e : sub64 a.capacity a.reserved ≡ a.capacity -ℤ a.reserved =
      sub64_exact a.capacity a.reserved (omega int_laws) in
    rw e (sub64_exact (a.capacity -ℤ a.reserved) a.borrowed (omega int_laws))

free_exact : (a : Accounting) → IsBalanced a → free a ≡ a.capacity -ℤ a.reserved -ℤ a.borrowed
free_exact a b =
    free_plain a b.capacity_fits (omega int_laws) b.reserved_pos b.borrowed_pos (omega int_laws)

-- For int64 fields whose two allocations together are an int64 too, Validate reports no error
-- exactly when the accounting is balanced.
pub validate-none_iff :
    (a : Accounting)
    → IsMachine a
    → IsInt64 (a.reserved +ℤ a.borrowed)
    → (validate a ≡ none) ↔ IsBalanced a
unfolding validate
validate-none_iff a m r = (sound, complete)
  where
    complete : IsBalanced a → validate a ≡ none
    complete b = rw (free_exact a b) (grind int_laws)

    sound : validate a ≡ none → IsBalanced a
    sound h = grind (int_laws, free_plain a m.capacity_fits)

lend-negative : (a : Accounting) (n : ℤ) → n <ℤ pos 0 → lend a n ≡ failed negative
unfolding lend
lend-negative a n h = ground arith

lend-insufficient :
    (a : Accounting) (n : ℤ)
    → IsBalanced a
    → pos 0 ≤ℤ n
    → a.capacity <ℤ a.reserved +ℤ a.borrowed +ℤ n
    → lend a n ≡ failed insufficient
unfolding lend can_lend
lend-insufficient a n b p short = rw (free_exact a b) (grind int_laws)

lend-done :
    (a : Accounting) (n : ℤ)
    → IsBalanced a
    → pos 0 ≤ℤ n
    → a.reserved +ℤ a.borrowed +ℤ n ≤ℤ a.capacity
    → lend a n ≡ done (record a { borrowed = a.borrowed +ℤ n })
unfolding lend can_lend
lend-done a n b p fit =
    rw (free_exact a b, add64_exact a.borrowed n (omega int_laws)) (grind int_laws)

-- On a balanced accounting, in integers that do not wrap, Lend refuses a negative size as
-- negative, a size that would exceed the capacity as insufficient, and adds any other size to what
-- is borrowed.
lend_lem :
    (a : Accounting) (n : ℤ)
    → IsBalanced a
    → ((n <ℤ pos 0) × (lend a n ≡ failed negative))
      ⊎ ((pos 0 ≤ℤ n)
          × (a.capacity <ℤ a.reserved +ℤ a.borrowed +ℤ n)
          × (lend a n ≡ failed insufficient))
      ⊎ ((pos 0 ≤ℤ n)
          × (a.reserved +ℤ a.borrowed +ℤ n ≤ℤ a.capacity)
          × (lend a n ≡ done (record a { borrowed = a.borrowed +ℤ n })))
lend_lem a n b = elim (Bool-cases (ltb_ℤ n (pos 0))) [
  | inl neg ↦ inl (ground arith, lend-negative a n (ground arith))
  | inr nonneg ↦ elim (Bool-cases (leb_ℤ (a.reserved +ℤ a.borrowed +ℤ n) a.capacity)) [
    | inl fit ↦
        inr (inr (ground arith, ground arith, lend-done a n b (ground arith) (ground arith)))
    | inr short ↦
        inr
          (inl (ground arith, ground arith, lend-insufficient a n b (ground arith) (ground arith)))
  ]
]

-- Returning part of what is borrowed takes exactly that away.
pub give_back-done :
    (a : Accounting) (n : ℤ)
    → IsBalanced a
    → pos 0 ≤ℤ n
    → n ≤ℤ a.borrowed
    → give_back a n ≡ done (record a { borrowed = a.borrowed -ℤ n })
unfolding give_back
give_back-done a n b p le = rw (sub64_exact a.borrowed n (omega int_laws)) (grind int_laws)

-- The same read backwards: what an accepted loan says of the sizes.
pub lend-done_inv :
    (a a' : Accounting) (n : ℤ)
    → IsBalanced a
    → lend a n ≡ done a'
    → (pos 0 ≤ℤ n)
      × (a.reserved +ℤ a.borrowed +ℤ n ≤ℤ a.capacity)
      × (a' ≡ record a { borrowed = a.borrowed +ℤ n })
lend-done_inv a a' n b h = elim (lend_lem a n b) [
  | inl x ↦ cc (x.1)
  | inr (inl x) ↦ cc (x.2)
  | inr (inr x) ↦ (x.0, x.1, cc (x.2))
]

-- On a balanced accounting, returning the size that Lend accepted restores the accounting.
lend-give_back :
    (a a' : Accounting) (n : ℤ) → IsBalanced a → lend a n ≡ done a' → give_back a' n ≡ done a
lend-give_back a a' n b h =
    let inv = lend-done_inv a a' n b h in
    let lent : Accounting = record a { borrowed = a.borrowed +ℤ n } in
    let e : a.borrowed +ℤ n -ℤ n ≡ a.borrowed = omega int_laws in
    rw (inv.2) (
      give_back-done lent n (omega (int_laws, inv.0, inv.1)) inv.0 (omega int_laws)
      ∙ ap (λ z. done (record a { borrowed = z })) e)

-- Whatever `Lend` or `Return` accepts leaves a balanced accounting of the same device.
lend-IsBalanced : (a a' : Accounting) (n : ℤ) → IsBalanced a → lend a n ≡ done a' → IsBalanced a'
lend-IsBalanced a a' n b h = grind (int_laws, lend_lem a n b)

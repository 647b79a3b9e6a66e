-- ===== src/Wire/Varint.antt =====
-- Varints of internal/protowire/protowire.go.
use native.Mathlib.Nat.{add-mul, pow-le-pow_right, mul-le-mul_right}
use native.Mathlib.Omega.{pow_step}
use forebay.Prelude.{
  ℕ, zero, suc, ◌+◌, ◌*◌, ◌/◌, ◌%◌, ◌^◌, ◌≤◌, ◌<◌, ◌≡◌, refl, ap, subst, ◌∙◌, [], ◌∷◌, ◌++◌, arith,
  inl, inr, Bool-cases, ltb, ◌==◌, length,
}
use forebay.Prelude.Int64.{two64}
use forebay.Prelude.Text.{Text}
use forebay.Wire.{done, uvarint_bytes, read_uvarint, uvarint}

weight_suc : (i : ℕ) → 2 ^ (7 * suc i) ≡ 128 * 2 ^ (7 * i)
weight_suc i =
    let e : 7 * suc i ≡ (suc (suc (suc (suc (suc (suc (suc (7 * i)))))))) = omega arith in
    omega (
      arith,
      ap (λ z. 2 ^ z) e,
      pow_step 2 (7 * i),
      pow_step 2 (suc (7 * i)),
      pow_step 2 (suc (suc (7 * i))),
      pow_step 2 (suc (suc (suc (7 * i)))),
      pow_step 2 (suc (suc (suc (suc (7 * i))))),
      pow_step 2 (suc (suc (suc (suc (suc (7 * i)))))),
      pow_step 2 (suc (suc (suc (suc (suc (suc (7 * i))))))),
    )

split_weighted : (v p : ℕ) → v * p ≡ v % 128 * p + v / 128 * (128 * p)
split_weighted v p =
    let e : v ≡ v % 128 + v / 128 * 128 = omega arith in
    ap (λ z. z * p) e ∙ add-mul (v % 128) (v / 128 * 128) p ∙ grind arith

last_small : (i v : ℕ) → i ≡ 9 → v * 2 ^ (7 * i) < two64 → v < 2
last_small i v e h =
    let h9 : v * 2 ^ (7 * 9) < two64 = subst (λ z. v * 2 ^ (7 * z) < two64) e h in omega arith

module _ (i acc v : ℕ) (rest : Text) (bound : v * 2 ^ (7 * i) < two64) where
  read_last : v < 128 → read_uvarint i acc (v ∷ rest) ≡ done (acc + v * 2 ^ (7 * i), rest)
  unfolding read_uvarint
  read_last small =
      let low : v % 128 ≡ v = omega arith in
      let fits : v * 2 ^ (7 * i) % two64 ≡ v * 2 ^ (7 * i) = omega arith in
      rw (low, fits) (ground (arith, last_small i v))

  read_more :
      (b : Text)
      → 128 ≤ v
      → read_uvarint i acc ((v % 128 + 128) ∷ b)
        ≡ read_uvarint (suc i) (acc + v % 128 * 2 ^ (7 * i)) b
  unfolding read_uvarint
  read_more b big =
      let low : (v % 128 + 128) % 128 ≡ v % 128 = omega arith in
      let part = split_weighted v (2 ^ (7 * i)) in
      let fits : v % 128 * 2 ^ (7 * i) % two64 ≡ v % 128 * 2 ^ (7 * i) = omega (arith, part) in
      rw (low, fits) (ground (arith, last_small i v))

read_uvarint-uvarint_bytes :
    (f i acc v : ℕ) (rest : Text)
    → i < 10
    → i + f ≡ 10
    → v * 2 ^ (7 * i) < two64
    → read_uvarint i acc (uvarint_bytes f v ++ rest) ≡ done (acc + v * 2 ^ (7 * i), rest)
unfolding uvarint_bytes
read_uvarint-uvarint_bytes zero i acc v rest lt e h = absurd (omega arith)
read_uvarint-uvarint_bytes (suc f) i acc v rest lt e h = elim (Bool-cases (ltb v 128)) [
  | inl small ↦ rw small (read_last i acc v rest h (ground arith))
  | inr big ↦
      let b = uvarint_bytes f (v / 128) ++ rest in
      let w = weight_suc i in
      let part = split_weighted v (2 ^ (7 * i)) in
      let ih = read_uvarint-uvarint_bytes f (suc i) (acc + v % 128 * 2 ^ (7 * i)) (v / 128) rest in
      let fit : v / 128 * 2 ^ (7 * suc i) < two64 = rw w (omega (arith, part)) in
      let inner : suc i < 10 = elim (Bool-cases (i == 9)) [
        | inl top ↦ absurd (ground (arith, last_small i v))
        | inr low ↦ ground arith
      ] in
      rw (big, read_more i acc v rest h b (ground arith), ih inner (omega arith) fit, w, part)
        (ap (λ z. done (z, rest)) (omega arith))
]

-- A uint64 that is appended is read back.
pub uvarint-uvarint_bytes :
    (v : ℕ) (rest : Text) → v < two64 → uvarint (uvarint_bytes 10 v ++ rest) ≡ done (v, rest)
unfolding uvarint
uvarint-uvarint_bytes v rest h =
    read_uvarint-uvarint_bytes 10 0 0 v rest (omega arith) refl (omega arith)
    ∙ ap (λ z. done (z, rest)) (omega arith)

-- The value after one more byte, which is not the last of ten.
next_bound :
    (i acc c : ℕ)
    → i < 9
    → acc < 2 ^ (7 * i)
    → (acc + c % 128 * 2 ^ (7 * i) % two64 < 2 ^ (7 * suc i)) × (2 ^ (7 * suc i) ≤ 2 ^ 63)
next_bound i acc c low h =
    let w = weight_suc i in
    let top : 2 ^ (7 * suc i) ≤ 2 ^ 63 = pow-le-pow_right (omega arith) {j = 63} (omega arith) in
    let part : c % 128 * 2 ^ (7 * i) ≤ 127 * 2 ^ (7 * i) =
      mul-le-mul_right (2 ^ (7 * i)) (omega arith) in
    (rw w (omega (arith, part)), top)

last_bound : (acc c : ℕ) → acc < 2 ^ (7 * 9) → c < 2 → acc + c % 128 * 2 ^ (7 * 9) % two64 < two64
last_bound acc c h small = omega arith

-- A varint read from byte `i` on is a uint64, and takes a byte at least.
read_uvarint_bound :
    (b : Text) (i acc v : ℕ) (rest : Text)
    → i < 10
    → acc < 2 ^ (7 * i)
    → read_uvarint i acc b ≡ done (v, rest)
    → (v < two64) × (length rest < length b)
unfolding read_uvarint
read_uvarint_bound [] i acc v rest lt h e = absurd (ground (arith, e))
read_uvarint_bound (c ∷ b) i acc v rest lt h e = elim (Bool-cases (i == 9)) [
  | inl nine ↦
      let at : i ≡ 9 = ground arith in
      let small : c < 2 = ground (arith, e, nine) in
      let p : 2 ^ (7 * i) ≡ 2 ^ (7 * 9) = ap (λ z. 2 ^ (7 * z)) at in
      let lb = last_bound acc c (rw (← p) h) small in ground (arith, e, nine, p, lb)
  | inr below ↦
      let nb = next_bound i acc c (ground arith) h in
      elim (Bool-cases (ltb c 128)) [
        | inl last ↦ ground (arith, e, below, last, nb)
        | inr more ↦
            let ih =
              read_uvarint_bound b (suc i) (acc + c % 128 * 2 ^ (7 * i) % two64) v rest
                (ground arith) nb.0 in
            ground (arith, e, below, more, ih)
      ]
]

-- Whatever bytes a varint is read from, its value is below 2^64 and what is left is shorter than
-- what was given.
pub uvarint_bound :
    (b : Text) (v : ℕ) (rest : Text)
    → uvarint b ≡ done (v, rest)
    → (v < two64) × (length rest < length b)
unfolding uvarint
uvarint_bound b v rest e = read_uvarint_bound b 0 0 v rest (omega arith) (omega arith) e

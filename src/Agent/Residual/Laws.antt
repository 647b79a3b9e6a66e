-- ===== src/Agent/Residual/Laws.antt =====
-- What `scanZeros` of internal/agent/residual.go says of the extent it read.
use forebay.Prelude.{
  ℕ, zero, suc, ◌+◌, ◌-◌, ◌≤◌, ◌<◌, ◌≡◌, ◌↔◌, refl, ap, sym, ◌∙◌, true, false, [], ◌∷◌, length,
  take, drop, ltb, ◌==◌, Option, none, some, arith, inl, inr, Bool-cases, Option-cases,
}
use forebay.Prelude.Text.{Text}
use forebay.Agent.Residual.{clean_extent, Reader, first_dirty, scan_from, scan_zeros}

-- The byte at a place, where there is one.
abbrev pub byte_at : Text → ℕ → Option ℕ
byte_at [] i = none
byte_at (b ∷ bs) zero = some b
byte_at (b ∷ bs) (suc i) = byte_at bs i

-- A reader of a file: what it gives stands there, and it gives something wherever there is
-- something.
pub record Reads (file : Text) (read : Reader) : Type 0 where
  pub same : (at_ i : ℕ) → i < length (read at_) → byte_at (read at_) i ≡ byte_at file (at_ + i)
  pub moves : (at_ b : ℕ) → byte_at file at_ ≡ some b → 0 < length (read at_)

byte_at-take : (n i : ℕ) (s : Text) → i < length (take n s) → byte_at (take n s) i ≡ byte_at s i
byte_at-take zero i s h = absurd (omega (arith, h))
byte_at-take (suc n) i [] h = refl
byte_at-take (suc n) zero (b ∷ s) h = refl
byte_at-take (suc n) (suc i) (b ∷ s) h = byte_at-take n i s (omega (arith, h))

length-take_le : (n : ℕ) (s : Text) → length (take n s) ≤ length s
length-take_le zero s = omega arith
length-take_le (suc n) [] = omega arith
length-take_le (suc n) (b ∷ s) = omega (arith, length-take_le n s)

length-take_n : (n : ℕ) (s : Text) → length (take n s) ≤ n
length-take_n zero s = omega arith
length-take_n (suc n) [] = omega arith
length-take_n (suc n) (b ∷ s) = omega (arith, length-take_n n s)

length-take_pos : (n : ℕ) (s : Text) → 0 < n → 0 < length s → 0 < length (take n s)
length-take_pos zero s h k = absurd (omega (arith, h))
length-take_pos (suc n) [] h k = k
length-take_pos (suc n) (b ∷ s) h k = omega arith

clean_bytes :
    (at_ : ℕ) (s : Text) (i : ℕ) → first_dirty at_ s ≡ none → i < length s → byte_at s i ≡ some 0
unfolding first_dirty
clean_bytes at_ [] i h lt = absurd (omega (arith, lt))
clean_bytes at_ (b ∷ s) zero h lt = ground (arith, h)
clean_bytes at_ (b ∷ s) (suc i) h lt =
    clean_bytes (suc at_) s i (ground (arith, h)) (omega (arith, lt))

bytes_clean :
    (at_ : ℕ) (s : Text)
    → ((i : ℕ) → i < length s → byte_at s i ≡ some 0)
    → first_dirty at_ s ≡ none
unfolding first_dirty
bytes_clean at_ [] h = refl
bytes_clean at_ (b ∷ s) h =
    let zero_first = h 0 (omega arith) in
    let rest = bytes_clean (suc at_) s (λ i lt. h (suc i) (omega (arith, lt))) in
    ground (arith, zero_first, rest)

module _ (file : Text) (read : Reader) (reads : Reads file read) (size : ℕ) where
  open reads use {same, moves}

  -- Every byte of the extent from a place on is there and is zero.
  abbrev Zeros : ℕ → Type 0
  Zeros at_ = (i : ℕ) → at_ ≤ i → i < size → byte_at file i ≡ some 0

  got_byte :
      (at_ i : ℕ)
      → i < length (take (size - at_) (read at_))
      → byte_at (take (size - at_) (read at_)) i ≡ byte_at file (at_ + i)
  got_byte at_ i h =
      let le = length-take_le (size - at_) (read at_) in
      byte_at-take (size - at_) i (read at_) h ∙ same at_ i (omega (arith, h, le))

  scan_from-Zeros :
      (fuel at_ : ℕ) → size - at_ < fuel → scan_from fuel read size at_ ≡ clean_extent → Zeros at_
  unfolding scan_from
  scan_from-Zeros zero at_ f h i le lt = absurd (omega (arith, f))
  scan_from-Zeros (suc fuel) at_ f h i le lt =
      let got = take (size - at_) (read at_) in
      let more : ltb at_ size ≡ true = ground arith in
      elim (Option-cases (first_dirty at_ got)) [
        | inr ((j, b), bad) ↦ absurd (ground (arith, h, more, bad))
        | inl fine ↦ elim (Bool-cases (length got == 0)) [
          | inl stuck ↦ absurd (ground (arith, h, more, fine, stuck))
          | inr moved ↦ elim (Bool-cases (ltb i (at_ + length got))) [
            | inl here ↦
                let k = i - at_ in
                let inside : k < length got = ground (arith, here) in
                let place : at_ + k ≡ i = omega arith in
                ap (byte_at file) (sym place)
                ∙ sym (got_byte at_ k inside)
                ∙ clean_bytes at_ got k fine inside
            | inr later ↦
                scan_from-Zeros fuel (at_ + length got) (ground (arith, moved, f))
                  (ground (arith, h, more, fine, moved)) i (ground (arith, later)) lt
          ]
        ]
      ]

  Zeros-scan_from :
      (fuel at_ : ℕ) → size - at_ < fuel → Zeros at_ → scan_from fuel read size at_ ≡ clean_extent
  unfolding scan_from
  Zeros-scan_from zero at_ f z = refl
  Zeros-scan_from (suc fuel) at_ f z = elim (Bool-cases (ltb at_ size)) [
    | inr done ↦ ground (arith, done)
    | inl more ↦
        let got = take (size - at_) (read at_) in
        let room : at_ < size = ground (arith, more) in
        let some_ : 0 < length got =
          length-take_pos (size - at_) (read at_) (omega arith)
            (moves at_ 0 (z at_ (omega arith) room)) in
        let short : length got ≤ size - at_ = length-take_n (size - at_) (read at_) in
        let fine = bytes_clean at_ got (λ i lt.
          got_byte at_ i lt ∙ z (at_ + i) (omega arith) (omega (arith, lt, short, room))) in
        let rest =
          Zeros-scan_from fuel (at_ + length got) (omega (arith, some_, f))
            (λ i le lt. z i (omega (arith, le)) lt) in
        let moved : (length got == 0) ≡ false = ground (arith, some_) in
        ground (arith, more, fine, moved, rest)
  ]

  -- For a reader of a file that gives something wherever there is something, scanZeros reports no
  -- error exactly when every byte below the size is there and is zero, however the reads divide
  -- the file.
  pub scan_zeros-clean_iff :
      (scan_zeros read size ≡ clean_extent) ↔ ((i : ℕ) → i < size → byte_at file i ≡ some 0)
  unfolding scan_zeros
  scan_zeros-clean_iff = (
    λ h i lt. scan_from-Zeros (suc size) 0 (omega arith) h i (omega arith) lt,
    λ z. Zeros-scan_from (suc size) 0 (omega arith) (λ i le lt. z i lt),
  )

plus_zero : (i : ℕ) → i ≡ 0 + i
plus_zero i = omega arith

plus_suc : (n i : ℕ) → suc (n + i) ≡ suc n + i
plus_suc n i = omega arith

byte_at-drop : (n i : ℕ) (s : Text) → byte_at (drop n s) i ≡ byte_at s (n + i)
byte_at-drop zero i s = ap (byte_at s) (plus_zero i)
byte_at-drop (suc n) i [] = refl
byte_at-drop (suc n) i (b ∷ s) = byte_at-drop n i s ∙ ap (byte_at (b ∷ s)) (plus_suc n i)

byte_at-length : (s : Text) (i b : ℕ) → byte_at s i ≡ some b → 0 < length (drop i s)
byte_at-length [] i b h = absurd (ground (arith, h))
byte_at-length (c ∷ s) zero b h = omega arith
byte_at-length (c ∷ s) (suc i) b h = byte_at-length s i b h

-- A reader of a file that gives so many bytes at a time.
pub chunks-Reads : (n : ℕ) (file : Text) → 0 < n → Reads file (λ at_. take n (drop at_ file))
chunks-Reads n file more = record {
  same = λ at_ i lt. byte_at-take n i (drop at_ file) lt ∙ byte_at-drop at_ i file;
  moves = λ at_ b here. length-take_pos n (drop at_ file) more (byte_at-length file at_ b here);
}

-- ===== src/Residence/Blank.antt =====
-- The white space of internal/residence, as code points in UTF-8.
use forebay.Prelude.{
  ℕ, ◌+◌, ◌-◌, ◌*◌, ◌/◌, ◌%◌, ◌≡◌, refl, subst, ap, ◌∙◌, ◌↔◌, inl, inr, Bool, true, false, ◌&&◌,
  ◌||◌, List, [], ◌∷◌, ◌++◌, All, arith, ltb, leb, ◌==◌, Bool-cases, if◌then◌else◌,
}
use forebay.Prelude.Text.{Text}
use forebay.Residence.{is_space1, is_space2, is_space3, is_blank}

-- The code points that Unicode calls white space.
abbrev pub is_white : ℕ → Bool
is_white u =
    (leb 9 u && leb u 13)
    || (u == 32)
    || (u == 133)
    || (u == 160)
    || (u == 5760)
    || (leb 8192 u && leb u 8202)
    || (u == 8232)
    || (u == 8233)
    || (u == 8239)
    || (u == 8287)
    || (u == 12288)

-- A code point below 65536 in UTF-8.
abbrev pub rune : ℕ → Text
rune u =
    if ltb u 128
    then u ∷ []
    else if ltb u 2048
    then (192 + u / 64) ∷ (128 + u % 64) ∷ []
    else (224 + u / 4096) ∷ (128 + u / 64 % 64) ∷ (128 + u % 64) ∷ []

unfoldable pub encode : List ℕ → Text
encode [] = []
encode (u ∷ us) = rune u ++ encode us

-- A text of white space and nothing else.
abbrev pub IsBlank : Text → Type 0
IsBlank s = (us : List ℕ) × All (λ u. is_white u ≡ true) us × (s ≡ encode us)

blank_one : (a : ℕ) (s : Text) → is_space1 a ≡ true → is_blank s ≡ true → is_blank (a ∷ s) ≡ true
unfolding is_blank
blank_one a [] h k = h
blank_one a (b ∷ []) h k = ground (arith, h, k)
blank_one a (b ∷ c ∷ s) h k = rw (h, k) refl

blank_two :
    (a b : ℕ) (s : Text) → is_space2 a b ≡ true → is_blank s ≡ true → is_blank (a ∷ b ∷ s) ≡ true
unfolding is_blank
blank_two a b [] h k = ground (arith, h)
blank_two a b (c ∷ s) h k = ground (arith, h, k)

blank_three :
    (a b c : ℕ) (s : Text)
    → is_space3 a b c ≡ true
    → is_blank s ≡ true
    → is_blank (a ∷ b ∷ c ∷ s) ≡ true
unfolding is_blank
blank_three a b c s h k = ground (arith, h, k)

blank_rune :
    (u : ℕ) (s : Text) → is_white u ≡ true → is_blank s ≡ true → is_blank (rune u ++ s) ≡ true
blank_rune u s h k = elim (Bool-cases (ltb u 128)) [
  | inl one ↦ rw one (blank_one u s (ground (arith, h, one)) k)
  | inr more ↦ elim (Bool-cases (ltb u 2048)) [
    | inl two ↦ rw (more, two) (blank_two _ _ s (ground (arith, h, more, two)) k)
    | inr three ↦ rw (more, three) (blank_three _ _ _ s (ground (arith, h, more, three)) k)
  ]
]

is_blank-encode : (us : List ℕ) → All (λ u. is_white u ≡ true) us → is_blank (encode us) ≡ true
unfolding encode is_blank
is_blank-encode [] h = refl
is_blank-encode (u ∷ us) (h, all) = blank_rune u (encode us) h (is_blank-encode us all)

-- A code point before a blank text.
IsBlank-cons : (u : ℕ) (s : Text) → is_white u ≡ true → IsBlank s → IsBlank (rune u ++ s)
unfolding encode
IsBlank-cons u s h (us, all, e) = (u ∷ us, (h, all), ap (λ z. rune u ++ z) e)

one_rune : (a : ℕ) → is_space1 a ≡ true → (is_white a ≡ true) × (rune a ≡ a ∷ [])
one_rune a h = (ground (arith, h), ground (arith, h))

two_rune : (a b : ℕ) → is_space2 a b ≡ true → (is_white b ≡ true) × (rune b ≡ a ∷ b ∷ [])
two_rune a b h = (ground (arith, h), ground (arith, h))

abbrev code : ℕ → ℕ → ℕ → ℕ
code a b c = (a - 224) * 4096 + (b - 128) * 64 + (c - 128)

three_rune :
    (a b c : ℕ)
    → is_space3 a b c ≡ true
    → (is_white (code a b c) ≡ true) × (rune (code a b c) ≡ a ∷ b ∷ c ∷ [])
three_rune a b c h = (ground (arith, h), ground (arith, h))

and_parts : (a b : Bool) → a && b ≡ true → (a ≡ true) × (b ≡ true)
and_parts true b h = (refl, h)
and_parts false b h = absurd (ground (arith, h))

IsBlank-one : (a : ℕ) (s : Text) → is_space1 a ≡ true → IsBlank s → IsBlank (a ∷ s)
IsBlank-one a s h k =
    let (w, e) = one_rune a h in subst (λ z. IsBlank (z ++ s)) e (IsBlank-cons a s w k)

IsBlank-two : (a b : ℕ) (s : Text) → is_space2 a b ≡ true → IsBlank s → IsBlank (a ∷ b ∷ s)
IsBlank-two a b s h k =
    let (w, e) = two_rune a b h in subst (λ z. IsBlank (z ++ s)) e (IsBlank-cons b s w k)

IsBlank-three :
    (a b c : ℕ) (s : Text) → is_space3 a b c ≡ true → IsBlank s → IsBlank (a ∷ b ∷ c ∷ s)
IsBlank-three a b c s h k =
    let (w, e) = three_rune a b c h in
    subst (λ z. IsBlank (z ++ s)) e (IsBlank-cons (code a b c) s w k)

nothing-IsBlank : IsBlank []
unfolding encode
nothing-IsBlank = ([], tt, refl)

is_blank-IsBlank : (s : Text) → is_blank s ≡ true → IsBlank s
unfolding is_blank
is_blank-IsBlank [] h = nothing-IsBlank
is_blank-IsBlank (a ∷ []) h = IsBlank-one a [] h nothing-IsBlank
is_blank-IsBlank (a ∷ b ∷ []) h = elim (Bool-cases (is_space2 a b)) [
  | inl two ↦ IsBlank-two a b [] two nothing-IsBlank
  | inr other ↦
      let one : (is_space1 a ≡ true) × (is_space1 b ≡ true) =
        (ground (arith, h, other), ground (arith, h, other)) in
      IsBlank-one a (b ∷ []) one.0 (is_blank-IsBlank (b ∷ []) one.1)
]
is_blank-IsBlank (a ∷ b ∷ c ∷ t) h = elim (Bool-cases (is_space1 a && is_blank (b ∷ c ∷ t))) [
  | inl one ↦
      IsBlank-one a (b ∷ c ∷ t) (and_parts (is_space1 a) _ one).0
        (is_blank-IsBlank (b ∷ c ∷ t) (and_parts (is_space1 a) _ one).1)
  | inr not_one ↦ elim (Bool-cases (is_space2 a b && is_blank (c ∷ t))) [
    | inl two ↦
        IsBlank-two a b (c ∷ t) (and_parts (is_space2 a b) _ two).0
          (is_blank-IsBlank (c ∷ t) (and_parts (is_space2 a b) _ two).1)
    | inr not_two ↦
        let three : is_space3 a b c && is_blank t ≡ true = rw (not_one, not_two) at h in
        IsBlank-three a b c t (and_parts (is_space3 a b c) _ three).0
          (is_blank-IsBlank t (and_parts (is_space3 a b c) _ three).1)
  ]
]

-- The test of the source on the bytes is the one on the code points.
pub is_blank_iff : (s : Text) → (is_blank s ≡ true) ↔ IsBlank s
is_blank_iff s = (is_blank-IsBlank s, λ (us, all, e). ap is_blank e ∙ is_blank-encode us all)

-- ===== src/Dataserver/Reading.antt =====
-- `ReadRange` of internal/dataserver/dataserver.go as a whole.
use native.Mathlib.Nat.{div-mul-le_self, lt-div-mul-add}
use forebay.Prelude.{
  ℕ, suc, ◌+◌, ◌-◌, ◌*◌, ◌/◌, ◌<◌, ◌≡◌, refl, ap, subst, ◌∙◌, inl, inr, true, false, [], ◌∷◌,
  length, take, drop, arith, Bool-cases,
}
use forebay.Prelude.Int.{ℤ, pos, negsuc, pos_part}
use forebay.Prelude.Int64.{two63, IsInt64, add64}
use forebay.Prelude.Text.{Text}
use forebay.Driver.{Driver}
use forebay.Tier.Types.{Key}
use forebay.Tier.Contract.{Tier, Serves}
use forebay.Dataserver.Types.{
  Server, Context, Result, Result-cases, done, failed, check_request, quot64, mul64,
}
use forebay.Dataserver.{read_blocks, read_range, of_length}
use forebay.Dataserver.Numbers.{add64_pos, sub64_pos, mul64_pos, quot64_pos}
use forebay.Dataserver.Blocks.{IsHonest}
use forebay.Dataserver.Ranges.{Ready, LeftBy, read_blocks-Left, less_by}

-- How many blocks a read may need, and one to spare at each end.
abbrev pub turns : ℕ → ℕ → ℕ
turns b n = suc (suc (suc (n / b)))

-- A request that is not refused and wants something.
pub check_request-true :
    (tenant object : Text) (offset len max_read : ℤ)
    → IsInt64 offset
    → IsInt64 len
    → check_request tenant object offset len max_read ≡ done true
    → (a : ℕ) × (n : ℕ) × (offset ≡ pos a) × (len ≡ pos n) × (0 < n) × (a + n < two63)
unfolding check_request
check_request-true [] object offset len max_read io il h = absurd (ground (arith, h))
check_request-true (x ∷ xs) [] offset len max_read io il h = absurd (ground (arith, h))
check_request-true (x ∷ xs) (y ∷ ys) (negsuc a) len max_read io il h = absurd (ground (arith, h))
check_request-true (x ∷ xs) (y ∷ ys) (pos a) (negsuc n) max_read io il h =
    absurd (ground (arith, h))
check_request-true (x ∷ xs) (y ∷ ys) (pos a) (pos n) max_read io il h =
    let m = sub64_pos 9_223_372_036_854_775_807 n (omega arith) (omega arith) in
    (a, n, refl, refl, ground (arith, h, m), ground (arith, h, m))

check_request-false :
    (tenant object : Text) (offset len max_read : ℤ)
    → check_request tenant object offset len max_read ≡ done false
    → len ≡ pos 0
unfolding check_request
check_request-false [] object offset len max_read h = absurd (ground (arith, h))
check_request-false (x ∷ xs) [] offset len max_read h = absurd (ground (arith, h))
check_request-false (x ∷ xs) (y ∷ ys) offset (negsuc n) max_read h = absurd (ground (arith, h))
check_request-false (x ∷ xs) (y ∷ ys) offset (pos n) max_read h = ground (arith, h)

module _ {S W : Type 0} (t : Tier S) (content : Key → Text) (serves : Serves content t)
    (d : Driver W) (name object o : Text) (b : ℕ)
    (agrees : (tenant : Text) (i : ℕ)
      → i * b < two63
      → content (record {
        tenant = tenant;
        block = record { backend = name; object = object; index = pos i };
      })
        ≡ take b (drop (i * b) o)) where
  abbrev pub IsUp : ℕ → Server S W → Type 0
  IsUp = Ready t content serves d name object o b agrees

  abbrev pub Gives : ℕ → (Text → Type 0) → Server S W × Result Text → Type 0
  Gives = LeftBy t content serves d name object o b agrees

  of_length-Left :
      (n m : ℕ) (whole : Text) (q : Server S W × Result Text)
      → Gives m (λ r. r ≡ whole) q
      → Gives m (λ r. (pos (length r) ≡ pos n) × (r ≡ whole)) (of_length t (pos n) q)
  of_length-Left n m whole (s, failed f) l = (l.0, λ r h. absurd (ground (arith, h)))
  of_length-Left n m whole (s, done out) l =
      let same : out ≡ whole = l.1 out refl in
      (l.0, λ r h. (ground (arith, h), ground (arith, h, same)))

  -- The read of a range that is not refused.
  pub blocks_read :
      (c : Context) (tenant : Text) (a n m : ℕ) (s : Server S W)
      → IsHonest d object o
      → 0 < b
      → length o + b < two63
      → a + n < two63
      → 0 < n
      → IsUp (turns b n + m) s
      → Gives m
          (λ r. r ≡ take n (drop a o))
          (read_blocks t
            (turns b n)
            s
            c
            tenant
            object
            (pos a)
            (add64 (pos a) (pos n))
            (mul64 (quot64 (pos a) s.block) s.block)
            [])
  blocks_read c tenant a n m s honest some_ small fits wants r =
      let low = div-mul-le_self a b in
      let near : a < a / b * b + b = lt-div-mul-add some_ in
      let end : add64 (pos a) (pos n) ≡ pos (a + n) = add64_pos a n fits in
      let start : mul64 (quot64 (pos a) s.block) s.block ≡ pos (a / b * b) =
        ap (λ z. mul64 (quot64 (pos a) z) z) r.blocks
        ∙ ap (λ z. mul64 z (pos b)) (quot64_pos a b (omega arith))
        ∙ mul64_pos (a / b) b (omega (arith, low)) in
      let l =
        read_blocks-Left t content serves d name object o b agrees c tenant a (a + n) honest some_
          small fits (omega arith) (turns b n) m (a / b) 0 s [] r near refl
          (ground (arith, low, wants)) in
      let n_is : a + n - a ≡ n = omega arith in
      rw (end, start) (l.0, λ block h. l.1 block h ∙ ap (λ z. take z (drop a o)) n_is)

  -- Where the tier serves the content of its keys, which for this object is its blocks, and the
  -- driver does not lie about the object, whatever else it answers and whenever a caller gives up,
  -- ReadRange returns either an error or exactly the bytes of the range, as many as were asked
  -- for; and afterwards the server is as ready as before, with room in the tier for that many
  -- calls less.
  pub read_range-exact :
      (c : Context) (tenant : Text) (offset len : ℤ) (m : ℕ) (s : Server S W)
      → IsHonest d object o
      → 0 < b
      → length o + b < two63
      → IsInt64 offset
      → IsInt64 len
      → IsUp (turns b (pos_part len) + m) s
      → IsUp m (read_range t s c tenant object offset len).0
        × ((bytes : Text)
            → (read_range t s c tenant object offset len).1 ≡ done bytes
            → (pos (length bytes) ≡ len) × (bytes ≡ take (pos_part len) (drop (pos_part offset) o)))
  unfolding read_range
  read_range-exact c tenant offset len m s honest some_ small io il r =
      let less = less_by t content serves d name object o b agrees (turns b (pos_part len)) m s r in
      elim (Result-cases (check_request tenant object offset len s.max_read)) [
        | inr (f, e) ↦ rw (read_range, e) (less, λ bytes h. absurd (ground (arith, h)))
        | inl (wants, e) ↦ elim (Bool-cases wants) [
          | inr empty ↦
              rw (read_range, e, empty)
                (
                  less,
                  λ bytes h.
                      let zero_ : len ≡ pos 0 =
                        check_request-false tenant object offset len s.max_read
                          (e ∙ ap done empty) in
                      let none_ : [] ≡ bytes = ground (arith, h) in
                      rw (zero_, ← none_) (refl, refl),
                )
          | inl full ↦
              let (a, n, oa, ln, some_n, fits) =
                check_request-true tenant object offset len s.max_read io il (e ∙ ap done full) in
              let r' = subst (λ z. IsUp (turns b (pos_part z) + m) s) ln r in
              let fuel : n / pos_part s.block ≡ n / b = ap (λ z. n / pos_part z) r.blocks in
              let l = blocks_read c tenant a n m s honest some_ small fits some_n r' in
              rw (read_range, e, full, oa, ln, fuel) (of_length-Left n m (take n (drop a o)) _ l)
        ]
      ]

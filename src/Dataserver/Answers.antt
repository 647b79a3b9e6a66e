-- ===== src/Dataserver/Answers.antt =====
-- `ReadRange` of internal/dataserver/dataserver.go over a driver that answers.
use native.Mathlib.Nat.{div-mul-le_self, lt-div-mul-add, add-mul}
use forebay.Prelude.{
  ℕ, zero, suc, ◌+◌, ◌-◌, ◌*◌, ◌/◌, ◌≤◌, ◌<◌, ◌≡◌, refl, ap, sym, subst, ◌∙◌, ◌⊎◌, inl, inr, true,
  false, ◌++◌, [], length, take, drop, arith, ltb, leb, Bool-cases, if◌then◌else◌,
}
use forebay.Prelude.Int.{ℤ, pos, pos_part, ltb_ℤ}
use forebay.Prelude.Int64.{two63, IsInt64, add64}
use forebay.Prelude.Text.{Text}
use forebay.Driver.{Driver, out_of_range}
use forebay.Tier.Types.{Key}
use forebay.Tier.Contract.{Tier, Serves}
use forebay.Dataserver.Types.{
  Server, Context, Result, done, failed, from_backend, is_short, wanted, check_request, quot64,
  mul64,
}
use forebay.Dataserver.{block_at, read_blocks, read_range, of_length}
use forebay.Dataserver.Numbers.{add64_pos, mul64_pos, quot64_pos, quot64_block}
use forebay.Dataserver.Blocks.{IsHonest, IsHealthy, healthy-IsHonest, span, block_at-Left}
use forebay.Dataserver.Ranges.{
  is_short_bound, suc_block, last_turn, turn_failed, turn_short, turn_more, LeftBy, OfBlock, Ready,
  fits_held, next_fits, less_by,
}
use forebay.Dataserver.Reading.{turns, blocks_read, check_request-true}
use forebay.Dataserver.Served.{Served, block_at-Served, length-range}

module _ {S W : Type 0} (t : Tier S) (content : Key → Text) (serves : Serves content t)
    (d : Driver W) (name object o : Text) (b : ℕ)
    (agrees : (tenant : Text) (i : ℕ)
      → i * b < two63
      → content (record {
        tenant = tenant;
        block = record { backend = name; object = object; index = pos i };
      })
        ≡ take b (drop (i * b) o)) where
  abbrev Up : ℕ → Server S W → Type 0
  Up = Ready t content serves d name object o b agrees

  -- An answer where the object has the range up to `e`, the error for a range where it has not.
  abbrev Answered : ℕ → Result Text → Type 0
  Answered e r =
      ((bytes : Text) × (r ≡ done bytes) × (e ≤ length o))
      ⊎ ((r ≡ failed (from_backend out_of_range)) × (length o < e))

  module _ (c : Context) (patient : (z : ℤ) → c.is_over z ≡ false) (tenant : Text) (a e : ℕ)
      (healthy : IsHealthy d object o) (some_ : 0 < b) (small : length o + b < two63)
      (fits : e < two63) (lt : a < e) where
    honest : IsHonest d object o
    honest = healthy-IsHonest d object o healthy

    in_range :
        (x : ℕ) (block : Text)
        → OfBlock t content serves d name object o b agrees x e block
        → x < e
        → x + length block < two63
    in_range x block is before =
        fits_held t content serves d name object o b agrees c tenant a e honest some_ small fits lt
          x e block is (omega arith)

    -- A block that is too short for the read is the object's last one.
    beyond_short :
        (x held : ℕ)
        → x < e
        → x + held < two63
        → is_short (pos b) (pos x) (pos e) (pos held) ≡ true
        → (x + span b x e ≤ length o → span b x e ≤ held)
        → length o < e
    unfolding is_short
    beyond_short x held before in_range short long =
        let m = add64_pos x held in_range in
        elim (Bool-cases (ltb (length o) e)) [
          | inl beyond ↦ ground arith
          | inr within ↦
              let low : held < span b x e = ground (arith, short, m) in
              let fit : x + span b x e ≤ length o = ground (arith, within) in
              absurd (let h = long fit in omega arith)
        ]

    -- A block that reaches the end of the read lies in the object.
    reached :
        (x : ℕ) (i : ℕ) (held : ℕ)
        → x ≡ i * b
        → x < e
        → span b x e ≤ held
        → held ≤ length o - x
        → e ≤ suc i * b
        → e ≤ length o
    reached x i held eq before long inside top =
        let m = suc_block i b in let top' : e ≤ x + b = omega (arith, m, eq) in ground arith

    read_blocks-Answered :
        (fuel i : ℕ) (s : Server S W) (out : Text)
        → Up fuel s
        → e ≤ (i + fuel) * b
        → (e ≤ i * b → e ≤ length o)
        → Answered e
            (read_blocks t (suc fuel) s c tenant object (pos a) (pos e) (pos (i * b)) out).1
    read_blocks-Answered zero i s out r room full =
        let reached : e ≤ i * b = subst (λ z. e ≤ z * b) (omega arith) room in
        let test : ltb_ℤ (pos (i * b)) (pos e) ≡ false = ground arith in
        rw (last_turn t s c tenant object (pos a) (pos e) (pos (i * b)) out 0 test)
          (inl (out, refl, full reached))
    read_blocks-Answered (suc fuel) i s out r room full =
        let x = i * b in
        elim (Bool-cases (ltb x e)) [
          | inr past ↦
              let test : ltb_ℤ (pos x) (pos e) ≡ false = ground (arith, past) in
              rw (last_turn t s c tenant object (pos a) (pos e) (pos x) out (suc fuel) test)
                (inl (out, refl, full (ground arith)))
          | inl before ↦
              let inside : x < e = ground arith in
              let test : ltb_ℤ (pos x) (pos e) ≡ true = ground arith in
              let index : quot64 (pos x) s.block ≡ pos i =
                ap (quot64 (pos x)) r.blocks ∙ quot64_block i b some_ (omega arith) in
              let now = c.now (pos x) in
              let q = block_at t s tenant object (quot64 (pos x) s.block) (pos e) now in
              let l =
                subst
                  (λ z.
                    LeftBy t content serves d name object o b agrees fuel
                      (OfBlock t content serves d name object o b agrees x e)
                      (block_at t s tenant object z (pos e) now))
                  (sym index)
                  (block_at-Left t content serves d name object o b agrees fuel s tenant i e now
                    honest (omega arith) inside fits r) in
              let v =
                subst
                  (λ z.
                    Served t content serves d name object o b agrees x e
                      (block_at t s tenant object z (pos e) now).1)
                  (sym index)
                  (block_at-Served t content serves d name object o b agrees (suc fuel) s tenant i e
                    now healthy (omega arith) inside fits r) in
              elim v [
                | inr (bad, beyond) ↦
                    rw
                      (turn_failed t (suc fuel) s c tenant object (pos a) (pos e) (pos x) out test
                        (from_backend out_of_range) (patient (pos x)) bad)
                      (inr (refl, ground (arith, beyond)))
                | inl (block, got, long) ↦
                    elim (Bool-cases (is_short s.block (pos x) (pos e) (pos (length block)))) [
                      | inl short ↦
                          rw
                            (turn_short t (suc fuel) s c tenant object (pos a) (pos e) (pos x) out
                              test block (patient (pos x)) got short)
                            (inr (
                              refl,
                              beyond_short x (length block) inside
                                  (in_range x block (l.1 block got) inside) (rw r.blocks at short)
                                  long,
                            ))
                      | inr whole ↦
                          let is = l.1 block got in
                          let held : span b x e ≤ length block =
                            is_short_bound b x e (length block) (in_range x block is inside)
                              (rw r.blocks at whole) in
                          let next : add64 (pos x) s.block ≡ pos (suc i * b) =
                            ap (add64 (pos x)) r.blocks
                            ∙ add64_pos x b (
                                next_fits t content serves d name object o b agrees c tenant a e
                                  honest some_ small fits lt x block is inside held)
                            ∙ ap pos (sym (suc_block i b)) in
                          let grown = out ++ wanted (pos a) (pos e) (pos x) block in
                          let more = subst (λ z. e ≤ z * b) (omega arith) room in
                          let ih =
                            read_blocks-Answered fuel (suc i) q.0 grown l.0 more
                              (reached x i (length block) refl inside held is.2) in
                          rw
                            (turn_more t (suc fuel) s c tenant object (pos a) (pos e) (pos x) out
                              test block (patient (pos x)) got whole)
                            (subst
                              (λ z.
                                Answered e
                                  (read_blocks t (suc fuel) q.0 c tenant object (pos a) (pos e) z
                                    grown).1)
                              (sym next) ih)
                    ]
              ]
        ]

  of_length-Answered :
      (a n : ℕ) (q : Server S W × Result Text)
      → ((bytes : Text) → q.1 ≡ done bytes → bytes ≡ take n (drop a o))
      → Answered (a + n) q.1
      → (of_length t (pos n) q).1 ≡ (
          if leb (a + n) (length o)
          then done (take n (drop a o))
          else failed (from_backend out_of_range))
  of_length-Answered a n (s, failed f) is (inl (bytes, h, within)) = absurd (ground (arith, h))
  of_length-Answered a n (s, failed f) is (inr (h, beyond)) = ground (arith, h, beyond)
  of_length-Answered a n (s, done out) is (inr (h, beyond)) = absurd (ground (arith, h))
  of_length-Answered a n (s, done out) is (inl (bytes, h, within)) =
      let same = is out refl in
      let l = ap (λ z. length z) same ∙ length-range n a o within in ground (arith, same, l, within)

  turns_enough : (a n : ℕ) → 0 < b → a + n ≤ (a / b + suc (suc (n / b))) * b
  turns_enough a n some_ =
      let low : a < a / b * b + b = lt-div-mul-add some_ in
      let wide : n < n / b * b + b = lt-div-mul-add some_ in
      let split = add-mul (a / b) (suc (suc (n / b))) b in
      omega (arith, low, wide, split, suc_block (suc (n / b)) b, suc_block (n / b) b)

  -- Where the tier serves the content of its keys, which for this object is its blocks, the driver
  -- answers for the object and the caller does not give up, ReadRange of a request that is not
  -- refused answers the bytes of the range where the object has it, and the error for a range
  -- where it has not, whatever blocks are in the tier and whether the backend says how large an
  -- object is.
  pub read_range-answers :
      (c : Context) (tenant : Text) (offset len : ℤ) (m : ℕ) (s : Server S W)
      → ((z : ℤ) → c.is_over z ≡ false)
      → IsHealthy d object o
      → 0 < b
      → length o + b < two63
      → IsInt64 offset
      → IsInt64 len
      → check_request tenant object offset len s.max_read ≡ done true
      → Up (turns b (pos_part len) + m) s
      → (read_range t s c tenant object offset len).1 ≡ (
          if leb (pos_part offset + pos_part len) (length o)
          then done (take (pos_part len) (drop (pos_part offset) o))
          else failed (from_backend out_of_range))
  unfolding read_range
  read_range-answers c tenant offset len m s patient healthy some_ small io il full r =
      let (a, n, oa, ln, wants, fits) =
        check_request-true tenant object offset len s.max_read io il full in
      let r' = subst (λ z. Up (turns b (pos_part z) + m) s) ln r in
      let low = div-mul-le_self a b in
      let fuel : n / pos_part s.block ≡ n / b = ap (λ z. n / pos_part z) r.blocks in
      let end : add64 (pos a) (pos n) ≡ pos (a + n) = add64_pos a n fits in
      let start : mul64 (quot64 (pos a) s.block) s.block ≡ pos (a / b * b) =
        ap (λ z. mul64 (quot64 (pos a) z) z) r.blocks
        ∙ ap (λ z. mul64 z (pos b)) (quot64_pos a b (omega arith))
        ∙ mul64_pos (a / b) b (omega (arith, low)) in
      let read_ =
        blocks_read t content serves d name object o b agrees c tenant a n m s
          (healthy-IsHonest d object o healthy) some_ small fits wants r' in
      let answer =
        read_blocks-Answered c patient tenant a (a + n) healthy some_ small fits (omega arith)
          (suc (suc (n / b))) (a / b) s []
          (less_by t content serves d name object o b agrees (suc m) (suc (suc (n / b))) s
            (subst (λ z. Up z s) (omega arith) r'))
          (turns_enough a n some_) (λ h. absurd (omega (arith, low))) in
      rw (read_range, full, oa, ln, fuel)
        (of_length-Answered a n _ read_.1 (rw (end, start) answer))

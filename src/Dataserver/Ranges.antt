-- ===== src/Dataserver/Ranges.antt =====
-- What `ReadRange` of internal/dataserver/dataserver.go puts together from its blocks.
use forebay.Prelude.{
  ℕ, zero, suc, ◌+◌, ◌-◌, ◌*◌, ◌≤◌, ◌<◌, ◌≡◌, refl, ap, sym, subst, ◌∙◌, inl, inr, true, false,
  ◌++◌, length, take, drop, arith, ltb, Bool-cases, if◌then◌else◌,
}
use forebay.Prelude.Slices.{take-drop, drop-drop, drop-take}
use forebay.Prelude.Int.{ℤ, pos, ltb_ℤ}
use forebay.Prelude.Int64.{two63, add64}
use forebay.Prelude.Text.{Text}
use forebay.Driver.{Driver, out_of_range}
use forebay.Tier.Types.{Key}
use forebay.Tier.Contract.{Tier, Serves}
use forebay.Dataserver.Types.{
  Server, Context, Result, Result-cases, done, failed, Error, cancelled, unfinished, from_backend,
  is_short, wanted, quot64,
}
use forebay.Dataserver.{block_at, read_blocks}
use forebay.Dataserver.Numbers.{add64_pos, sub64_pos, quot64_block}
use forebay.Dataserver.Blocks.{IsHonest, span, IsReady, IsBlock, Left, less-IsReady, block_at-Left}

-- A block that is long enough for the read, as the test in the loop finds.
pub is_short_bound :
    (b x e held : ℕ)
    → x + held < two63
    → is_short (pos b) (pos x) (pos e) (pos held) ≡ false
    → span b x e ≤ held
unfolding is_short
is_short_bound b x e held fits h = ground (arith, h, add64_pos x held fits)

wanted_lem :
    (a x e : ℕ) (block : Text)
    → e < two63
    → a < e
    → x < e
    → wanted (pos a) (pos e) (pos x) block
      ≡ drop (a - x) (take (if ltb (e - x) (length block) then e - x else length block) block)
unfolding wanted
wanted_lem a x e block fits lt before =
    let m = sub64_pos e x (omega arith) fits in
    elim (Bool-cases (ltb x a)) [
      | inl inside ↦ ground (arith, inside, m, sub64_pos a x (ground arith) (omega arith))
      | inr outside ↦ ground (arith, outside, m)
    ]

pub suc_block : (i b : ℕ) → suc i * b ≡ i * b + b
suc_block i b = grind arith

module _ {S W : Type 0} (t : Tier S) (s : Server S W) (c : Context) (tenant object : Text)
    (offset end start : ℤ) (out : Text) where
  pub no_turns : read_blocks t 0 s c tenant object offset end start out ≡ (s, failed unfinished)
  unfolding read_blocks
  no_turns = refl

  pub last_turn :
      (fuel : ℕ)
      → ltb_ℤ start end ≡ false
      → read_blocks t (suc fuel) s c tenant object offset end start out ≡ (s, done out)
  unfolding read_blocks
  last_turn fuel past = rw (read_blocks, past) refl

-- A turn of the loop of `ReadRange`, by what the block was.
module _ {S W : Type 0} (t : Tier S) (fuel : ℕ) (s : Server S W) (c : Context)
    (tenant object : Text) (offset end start : ℤ) (out : Text)
    (before : ltb_ℤ start end ≡ true) where
  abbrev pub asked : Server S W × Result Text
  asked = block_at t s tenant object (quot64 start s.block) end (c.now start)

  abbrev pub turn : Server S W × Result Text
  turn = read_blocks t (suc fuel) s c tenant object offset end start out

  turn_over : c.is_over start ≡ true → turn ≡ (s, failed cancelled)
  unfolding read_blocks
  turn_over h = rw (read_blocks, before, h) refl

  pub turn_failed :
      (f : Error) → c.is_over start ≡ false → asked.1 ≡ failed f → turn ≡ (asked.0, failed f)
  unfolding read_blocks
  turn_failed f h g = rw (read_blocks, before, h, g) refl

  pub turn_short :
      (block : Text)
      → c.is_over start ≡ false
      → asked.1 ≡ done block
      → is_short s.block start end (pos (length block)) ≡ true
      → turn ≡ (asked.0, failed (from_backend out_of_range))
  unfolding read_blocks
  turn_short block h g short = rw (read_blocks, before, h, g, short) refl

  pub turn_more :
      (block : Text)
      → c.is_over start ≡ false
      → asked.1 ≡ done block
      → is_short s.block start end (pos (length block)) ≡ false
      → turn
        ≡ read_blocks t fuel asked.0 c tenant object offset end
            (add64 start s.block)
            (out ++ wanted offset end start block)
  unfolding read_blocks
  turn_more block h g long = rw (read_blocks, before, h, g, long) refl

module _ {S W : Type 0} (t : Tier S) (content : Key → Text) (serves : Serves content t)
    (d : Driver W) (name object o : Text) (b : ℕ)
    (agrees : (tenant : Text) (i : ℕ)
      → i * b < two63
      → content (record {
        tenant = tenant;
        block = record { backend = name; object = object; index = pos i };
      })
        ≡ take b (drop (i * b) o)) where
  abbrev pub Ready : ℕ → Server S W → Type 0
  Ready = IsReady t content serves d name object o b agrees

  abbrev pub OfBlock : ℕ → ℕ → Text → Type 0
  OfBlock = IsBlock t content serves d name object o b agrees

  -- What one block adds to the bytes that were put together before it.
  piece :
      (a x e n : ℕ) (block : Text)
      → e < two63
      → a < e
      → x < e
      → a < x + b
      → n ≡ x - a
      → OfBlock x e block
      → span b x e ≤ length block
      → take n (drop a o) ++ wanted (pos a) (pos e) (pos x) block
        ≡ take (n + (span b x e - (a - x))) (drop a o)
  piece a x e n block fits lt before near at_ (same, short, inside) long =
      let m = span b x e in
      let cut : (if ltb (e - x) (length block) then e - x else length block) ≡ m = ground arith in
      let lo : a - x ≤ m = ground arith in
      let whole : a - x + (m - (a - x)) ≡ m = omega arith in
      let from_ : x + (a - x) ≡ a + n = omega arith in
      let w : wanted (pos a) (pos e) (pos x) block ≡ take (m - (a - x)) (drop n (drop a o)) =
        wanted_lem a x e block fits lt before
        ∙ ap (λ z. drop (a - x) (take z block)) cut
        ∙ ap (drop (a - x)) same
        ∙ ap (λ z. drop (a - x) (take z (drop x o))) (sym whole)
        ∙ drop-take (a - x) (m - (a - x)) (drop x o)
        ∙ ap (take (m - (a - x)))
            (drop-drop x (a - x) o ∙ ap (λ z. drop z o) from_ ∙ sym (drop-drop a n o)) in
      ap (λ z. take n (drop a o) ++ z) w ∙ take-drop n (m - (a - x)) (drop a o)

  pub less_by : (fuel n : ℕ) (s : Server S W) → Ready (fuel + n) s → Ready n s
  less_by zero n s r = subst (λ z. Ready z s) (omega arith) r
  less_by (suc fuel) n s r =
      let e : suc fuel + n ≡ suc (fuel + n) = omega arith in
      less_by fuel n s (
        less-IsReady t content serves d name object o b agrees (fuel + n) s
          (subst (λ z. Ready z s) e r))

  abbrev pub LeftBy : ℕ → (Text → Type 0) → Server S W × Result Text → Type 0
  LeftBy = Left t content serves d name object o b agrees

  module _ (c : Context) (tenant : Text) (a e : ℕ) (honest : IsHonest d object o) (some_ : 0 < b)
      (small : length o + b < two63) (fits : e < two63) (lt : a < e) where
    pub fits_held :
        (x e' : ℕ) (block : Text) → OfBlock x e' block → x < two63 → x + length block < two63
    fits_held x e' block (_, short, inside) lt' = omega arith

    pub next_fits :
        (x : ℕ) (block : Text)
        → OfBlock x e block
        → x < e
        → span b x e ≤ length block
        → x + b < two63
    next_fits x block (_, short, inside) before held = ground arith

    next_near : (x : ℕ) (i : ℕ) → x ≡ i * b → a < x + b → a < suc i * b + b
    next_near x i eq near = let m = suc_block i b in omega (arith, m, eq)

    next_at :
        (x i k : ℕ)
        → x ≡ i * b
        → x < e
        → a < x + b
        → k ≡ x - a
        → k + (span b x e - (a - x)) ≡ (if ltb (suc i * b) e then suc i * b - a else e - a)
    next_at x i k eq before near at_ = let m = suc_block i b in rw (m, ← eq) (ground arith)

    pub read_blocks-Left :
        (fuel n i k : ℕ) (s : Server S W) (out : Text)
        → Ready (fuel + n) s
        → a < i * b + b
        → out ≡ take k (drop a o)
        → k ≡ (if ltb (i * b) e then i * b - a else e - a)
        → LeftBy n
            (λ r. r ≡ take (e - a) (drop a o))
            (read_blocks t fuel s c tenant object (pos a) (pos e) (pos (i * b)) out)
    read_blocks-Left zero n i k s out r near so_far at_ =
        rw (no_turns t s c tenant object (pos a) (pos e) (pos (i * b)) out)
          (less_by zero n s r, λ bytes h. absurd (ground (arith, h)))
    read_blocks-Left (suc fuel) n i k s out r near so_far at_ =
        let x = i * b in
        let r' : Ready (suc (fuel + n)) s = subst (λ z. Ready z s) (omega arith) r in
        elim (Bool-cases (ltb x e)) [
          | inr past ↦
              let test : ltb_ℤ (pos x) (pos e) ≡ false = ground (arith, past) in
              rw (last_turn t s c tenant object (pos a) (pos e) (pos x) out fuel test) (
                less_by (suc fuel) n s r,
                λ bytes h.
                    let k_is : k ≡ e - a = ground (arith, at_, past) in
                    let eq : out ≡ bytes = ground (arith, h) in
                    sym eq ∙ so_far ∙ ap (λ z. take z (drop a o)) k_is,
              )
          | inl before ↦
              let inside : x < e = ground arith in
              let k_is : k ≡ x - a = ground (arith, at_, before) in
              let index : quot64 (pos x) s.block ≡ pos i =
                ap (quot64 (pos x)) r'.blocks ∙ quot64_block i b some_ (omega arith) in
              let l =
                subst
                  (λ z.
                    LeftBy (fuel + n) (OfBlock x e)
                      (block_at t s tenant object z (pos e) (c.now (pos x))))
                  (sym index)
                  (block_at-Left t content serves d name object o b agrees (fuel + n) s tenant i e
                    (c.now (pos x)) honest (omega arith) inside fits r') in
              let test : ltb_ℤ (pos x) (pos e) ≡ true = ground arith in
              let q = block_at t s tenant object (quot64 (pos x) s.block) (pos e) (c.now (pos x)) in
              elim (Bool-cases (c.is_over (pos x))) [
                | inl over ↦
                    rw (turn_over t fuel s c tenant object (pos a) (pos e) (pos x) out test over)
                      (less_by (suc fuel) n s r, λ bytes h. absurd (ground (arith, h)))
                | inr going ↦ elim (Result-cases q.1) [
                  | inr (f, bad) ↦
                      rw
                        (turn_failed t fuel s c tenant object (pos a) (pos e) (pos x) out test f
                          going bad)
                        (less_by fuel n q.0 l.0, λ bytes h. absurd (ground (arith, h)))
                  | inl (block, got) ↦
                      elim (Bool-cases (is_short s.block (pos x) (pos e) (pos (length block)))) [
                        | inl short ↦
                            rw
                              (turn_short t fuel s c tenant object (pos a) (pos e) (pos x) out test
                                block going got short)
                              (less_by fuel n q.0 l.0, λ bytes h. absurd (ground (arith, h)))
                        | inr long ↦
                            let is = l.1 block got in
                            let held : span b x e ≤ length block =
                              is_short_bound b x e (length block)
                                (fits_held x e block is (omega arith)) (rw r'.blocks at long) in
                            let next : add64 (pos x) s.block ≡ pos (suc i * b) =
                              ap (add64 (pos x)) r'.blocks
                              ∙ add64_pos x b (next_fits x block is inside held)
                              ∙ ap pos (sym (suc_block i b)) in
                            let more = k + (span b x e - (a - x)) in
                            let ih =
                              read_blocks-Left fuel n (suc i) more q.0
                                (out ++ wanted (pos a) (pos e) (pos x) block) l.0
                                (next_near x i refl near)
                                (ap (λ z. z ++ wanted (pos a) (pos e) (pos x) block) so_far
                                  ∙ piece a x e k block fits lt inside near k_is is held)
                                (next_at x i k refl inside near k_is) in
                            rw
                              (turn_more t fuel s c tenant object (pos a) (pos e) (pos x) out test
                                block going got long)
                              (subst
                                (λ z.
                                  LeftBy n (λ r. r ≡ take (e - a) (drop a o))
                                    (read_blocks t fuel q.0 c tenant object (pos a) (pos e) z
                                      (out ++ wanted (pos a) (pos e) (pos x) block)))
                                (sym next) ih)
                      ]
                ]
              ]
        ]

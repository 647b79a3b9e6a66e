-- ===== src/Dataserver/Served.antt =====
-- `blockAt` of internal/dataserver/dataserver.go over a driver that answers.
use forebay.Prelude.{
  ℕ, ◌+◌, ◌-◌, ◌*◌, ◌≤◌, ◌<◌, ◌≡◌, refl, ap, ◌∙◌, ◌⊎◌, inl, inr, true, length, take, drop, arith,
  ltb, leb, Bool-cases, Option-cases, if◌then◌else◌, if_true, if_false,
}
use forebay.Prelude.Slices.{length-take_le, length-drop_sub, take_all}
use forebay.Prelude.Int.{ℤ, pos}
use forebay.Prelude.Int64.{two63}
use forebay.Prelude.Text.{Text}
use forebay.Driver as Store
use forebay.Driver.{Answer, ok, err, Driver, Backend, out_of_range, object_size, supports, narrow}
use forebay.Tier.Types.{Key}
use forebay.Tier.Contract.{Tier, Serves}
use forebay.Dataserver.Types.{
  Server, Result, done, failed, from_backend, tail_length, narrow_length, mul64,
}
use forebay.Dataserver.{
  key_of, predict, keep_block, ask, tail_by_size, narrow_read, missed, block_at,
}
use forebay.Dataserver.Numbers.{sub64_pos, mul64_pos}
use forebay.Dataserver.Blocks.{
  IsHealthy, span, IsReady, ask-driver, ask-IsReady, predict-IsReady, size_of-driver,
}

-- How much of an object the bytes of a range are.
pub length-range : (n x : ℕ) (o : Text) → x + n ≤ length o → length (take n (drop x o)) ≡ n
length-range n x o h = let m = length-drop_sub x o in length-take_le n (drop x o) (omega (arith, m))

tail_length_beyond :
    (block start : ℤ) (e size : ℕ)
    → size < e
    → tail_length block start (pos e) (pos size) ≡ failed (from_backend out_of_range)
unfolding tail_length
tail_length_beyond block start e size h = ground arith

tail_length_within :
    (b x e size : ℕ)
    → e ≤ size
    → x < e
    → size < x + b
    → size < two63
    → tail_length (pos b) (pos x) (pos e) (pos size) ≡ done (pos (size - x))
unfolding tail_length
tail_length_within b x e size within before past small =
    ground (arith, sub64_pos size x (omega arith) small)

narrow_length_within :
    (b x e : ℕ)
    → x < e
    → e < two63
    → narrow_length (pos b) (pos x) (pos e)
      ≡ (if leb b (e - x) then failed (from_backend out_of_range) else done (pos (e - x)))
unfolding narrow_length
narrow_length_within b x e before fits = ground (arith, sub64_pos e x (omega arith) fits)

module _ {S W : Type 0} (t : Tier S) (content : Key → Text) (serves : Serves content t)
    (d : Driver W) (name object o : Text) (b : ℕ)
    (agrees : (tenant : Text) (i : ℕ)
      → i * b < two63
      → content (record {
        tenant = tenant;
        block = record { backend = name; object = object; index = pos i };
      })
        ≡ take b (drop (i * b) o)) where
  abbrev Waits : ℕ → Server S W → Type 0
  Waits = IsReady t content serves d name object o b agrees

  -- A block that holds what the read wants where the object has it, or the error for a range where
  -- the object has not.
  abbrev pub Served : ℕ → ℕ → Result Text → Type 0
  Served x e r =
      ((block : Text) × (r ≡ done block) × (x + span b x e ≤ length o → span b x e ≤ length block))
      ⊎ ((r ≡ failed (from_backend out_of_range)) × (length o < x + span b x e))

  keep_block-answer :
      (p : Server S W × Answer Text) (k : Key) (block : Text)
      → p.1 ≡ ok block
      → (keep_block t p k).1 ≡ done block
  keep_block-answer (s, ok c) k block h = ground (arith, h)
  keep_block-answer (s, err e) k block h = absurd (ground (arith, h))

  size_of-answer :
      (c : Backend W) (w : W) (z : ℤ)
      → supports c object_size ≡ true
      → (c.driver.size_of object w).1 ≡ ok z
      → (Store.size_of c object w).2 ≡ ok z
  unfolding Store.size_of
  size_of-answer c w z can h = rw can h

  -- A block of the tier holds what the read wants where the object has it.
  hit_long :
      (x e : ℕ) (block : Text)
      → block ≡ take b (drop x o)
      → x + span b x e ≤ length o
      → span b x e ≤ length block
  hit_long x e block same h =
      let m = length-drop_sub x o in
      rw same (elim (Bool-cases (leb (x + b) (length o))) [
        | inl whole ↦ let l = length-range b x o (ground arith) in rw l (ground arith)
        | inr part ↦
            let all : length (take b (drop x o)) ≡ length (drop x o) =
              ap (λ z. length z) (take_all b (drop x o) (ground (arith, m))) in
            rw (all, m) (ground arith)
      ])

  module _ (healthy : IsHealthy d object o) (x e : ℕ) (before : x < e) (fits : e < two63)
      (small : length o < two63) where
    -- What the driver answers to the server.
    asked :
        (n : ℕ) (s : Server S W) (m : ℕ)
        → Waits n s
        → (ask t s object (pos x) (pos m)).1
          ≡ (if leb (x + m) (length o) then ok (take m (drop x o)) else err out_of_range)
    asked n s m r =
        ask-driver t content serves d name object o b agrees n s x m r ∙ healthy.reads x m s.world

    tail_by_size-Served :
        (n : ℕ) (s : Server S W) (k : Key)
        → Waits n s
        → supports s.backend object_size ≡ true
        → length o < x + b
        → Served x e (tail_by_size t s k object (pos x) (pos e)).1
    unfolding tail_by_size
    tail_by_size-Served n s k r can past =
        let z =
          size_of-answer s.backend s.world (pos (length o)) can
            (ap (λ y. (y.size_of object s.world).1) r.driven ∙ healthy.sizes s.world) in
        let sized = record s {
          backend = (Store.size_of s.backend object s.world).0;
          world = (Store.size_of s.backend object s.world).1;
        } in
        let q : Waits n sized = record {
          room = r.room;
          named = r.named;
          blocks = r.blocks;
          driven =
              size_of-driver t content serves d name object o b agrees s.backend s.world ∙ r.driven;
        } in
        elim (Bool-cases (ltb (length o) e)) [
          | inl beyond ↦
              let f = tail_length_beyond s.block (pos x) e (length o) (ground arith) in
              rw (tail_by_size, z, f) (inr (refl, ground arith))
          | inr within ↦
              let m = length o - x in
              let f : tail_length s.block (pos x) (pos e) (pos (length o)) ≡ done (pos m) =
                ap (λ y. tail_length y (pos x) (pos e) (pos (length o))) r.blocks
                ∙ tail_length_within b x e (length o) (ground arith) before past small in
              let yes_ : leb (x + m) (length o) ≡ true = ground arith in
              let g : (ask t sized object (pos x) (pos m)).1 ≡ ok (take m (drop x o)) =
                asked n sized m q ∙ rw yes_ refl in
              let l = length-range m x o (ground arith) in
              rw (tail_by_size, z, f)
                (inl (take m (drop x o), keep_block-answer _ k _ g, λ h. rw l (ground arith)))
        ]

    narrow_read-Served :
        (n : ℕ) (s : Server S W)
        → Waits n s
        → length o < x + b
        → Served x e (narrow_read t s object (pos x) (pos e)).1
    unfolding narrow_read
    narrow_read-Served n s r past =
        let f =
          ap (λ y. narrow_length y (pos x) (pos e)) r.blocks
          ∙ narrow_length_within b x e before fits in
        elim (Bool-cases (leb b (e - x))) [
          | inl long ↦ rw (narrow_read, f ∙ if_true _ _ _ long) (inr (refl, ground arith))
          | inr short ↦
              let g = asked n s (e - x) r in
              elim (Bool-cases (leb (x + (e - x)) (length o))) [
                | inl within ↦
                    let l = length-range (e - x) x o (ground arith) in
                    rw (narrow_read, f ∙ if_false _ _ _ short, g ∙ if_true _ _ _ within)
                      (inl (take (e - x) (drop x o), refl, λ h. rw l (ground arith)))
                | inr beyond ↦
                    rw (narrow_read, f ∙ if_false _ _ _ short, g ∙ if_false _ _ _ beyond)
                      (inr (refl, ground arith))
              ]
        ]

    missed-Served :
        (n : ℕ) (s : Server S W) (k : Key)
        → Waits n s
        → Served x e (missed t s k object (pos x) (pos e)).1
    unfolding missed
    missed-Served n s k r =
        let g : (ask t s object (pos x) s.block).1
            ≡ (if leb (x + b) (length o) then ok (take b (drop x o)) else err out_of_range) =
          ap (λ z. (ask t s object (pos x) z).1) r.blocks ∙ asked n s b r in
        let after = (ask t s object (pos x) s.block).0 in
        let q = ask-IsReady t content serves d name object o b agrees n s (pos x) s.block r in
        elim (Bool-cases (leb (x + b) (length o))) [
          | inl whole ↦
              let l = length-range b x o (ground arith) in
              let h = g ∙ if_true _ _ _ whole in
              rw (missed, h)
                (inl (
                  take b (drop x o),
                  keep_block-answer (after, ok (take b (drop x o))) k _ refl,
                  λ h'. rw l (ground arith),
                ))
          | inr part ↦
              let past : length o < x + b = ground arith in
              let h = g ∙ if_false _ _ _ part in
              elim (Bool-cases (supports after.backend object_size)) [
                | inl can ↦ rw (missed, h, can) (tail_by_size-Served n after k q can past)
                | inr blind ↦ rw (missed, h, blind) (narrow_read-Served n after q past)
              ]
        ]

  pub block_at-Served :
      (n : ℕ) (s : Server S W) (tenant : Text) (i e : ℕ) (now : ℤ)
      → IsHealthy d object o
      → length o < two63
      → i * b < e
      → e < two63
      → Waits n s
      → Served (i * b) e (block_at t s tenant object (pos i) (pos e) now).1
  unfolding block_at
  block_at-Served n s tenant i e now healthy small before fits r =
      let k = key_of t s tenant object (pos i) in
      let of_key : content k ≡ take b (drop (i * b) o) =
        ap
          (λ z. content (record {
            tenant = tenant;
            block = record { backend = z; object = object; index = pos i };
          }))
          r.named
        ∙ agrees tenant i (omega arith) in
      let p = predict t s tenant object (pos i) now in
      let q = predict-IsReady t content serves d name object o b agrees n s tenant (pos i) now r in
      let asked = record p { tier = (t.read p.tier k).0 } in
      let kept : Waits n asked = record {
        room = serves.read_keeps n p.tier k q.room;
        named = q.named;
        blocks = q.blocks;
        driven = q.driven;
      } in
      let start : mul64 (pos i) s.block ≡ pos (i * b) =
        ap (mul64 (pos i)) r.blocks ∙ mul64_pos i b (omega arith) in
      elim (Option-cases (t.read p.tier k).1) [
        | inl miss ↦
            rw (block_at, miss, start)
              (missed-Served healthy (i * b) e before fits small n asked k kept)
        | inr (got, hit) ↦
            let same = serves.read_content n p.tier k got q.room hit ∙ of_key in
            let long = λ (h : i * b + span b (i * b) e ≤ length o). hit_long (i * b) e got same h in
            rw (block_at, hit) (inl (got, refl, long))
      ]

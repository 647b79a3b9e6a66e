-- ===== src/Dataserver/Blocks.antt =====
-- What `blockAt` of internal/dataserver/dataserver.go answers, over a tier that serves the content
-- of its keys and a driver that does not lie.
use forebay.Prelude.{
  ℕ, suc, ◌+◌, ◌-◌, ◌*◌, ◌≤◌, ◌<◌, ◌≡◌, refl, ap, sym, subst, ◌∙◌, inl, inr, Bool, true, false,
  List, [], ◌∷◌, length, take, drop, arith, ltb, leb, Bool-cases, Option-cases, if◌then◌else◌,
}
use forebay.Prelude.Slices.{take-take, take_all, length-take_bounds, length-drop_sub}
use forebay.Prelude.Int.{ℤ, pos}
use forebay.Prelude.Int64.{two63}
use forebay.Prelude.Text.{Text}
use forebay.Driver as Store
use forebay.Driver.{
  Answer, ok, err, Answer-cases, Driver, Backend, out_of_range, object_size, supports, narrow,
  declares,
}
use forebay.Tier.Types.{Key}
use forebay.Tier.Contract.{Tier, Serves}
use forebay.Dataserver.Types.{
  Server, Result, Result-cases, done, tail_length, narrow_length, is_range, mul64, ahead_queue,
}
use forebay.Dataserver.{
  key_of, enqueue, predict, offer, keep_block, ask, tail_by_size, narrow_read, missed, block_at,
}
use forebay.Dataserver.Numbers.{sub64_pos, mul64_pos}

-- What a driver that does not lie says of one object: the bytes that were asked for and no others,
-- or an error of any kind, and the size.
pub record IsHonest {W : Type 0} (d : Driver W) (object o : Text) : Type 0 where
  pub reads :
      (a n : ℕ) (w : W) (block : Text)
      → (d.read_range object (pos a) (pos n) w).1 ≡ ok block
      → (block ≡ take n (drop a o)) × (a + n ≤ length o)
  pub sizes : (w : W) (z : ℤ) → (d.size_of object w).1 ≡ ok z → z ≡ pos (length o)

-- A driver that also answers every time: a range within the object by its bytes, any other by the
-- error for it, and the size by the size.
pub record IsHealthy {W : Type 0} (d : Driver W) (object o : Text) : Type 0 where
  pub reads :
      (a n : ℕ) (w : W)
      → (d.read_range object (pos a) (pos n) w).1
        ≡ (if leb (a + n) (length o) then ok (take n (drop a o)) else err out_of_range)
  pub sizes : (w : W) → (d.size_of object w).1 ≡ ok (pos (length o))

pub healthy-IsHonest :
    {W : Type 0} (d : Driver W) (object o : Text) → IsHealthy d object o → IsHonest d object o
healthy-IsHonest d object o h = record {
  reads = λ a n w block e. ground (arith, e, h.reads a n w);
  sizes = λ w z e. ground (arith, e, h.sizes w);
}

-- The part of a block at `x` that a read up to `e` wants.
abbrev pub span : ℕ → ℕ → ℕ → ℕ
span b x e = if leb b (e - x) then b else e - x

module _ {S W : Type 0} (t : Tier S) (content : Key → Text) (serves : Serves content t)
    (d : Driver W) (name object o : Text) (b : ℕ)
    (agrees : (tenant : Text) (i : ℕ)
      → i * b < two63
      → content (record {
        tenant = tenant;
        block = record { backend = name; object = object; index = pos i };
      })
        ≡ take b (drop (i * b) o)) where
  -- What a server keeps while it answers, with room in the tier for so many blocks.
  pub record IsReady (n : ℕ) (s : Server S W) : Type 0 where
    pub room : serves.Room n s.tier
    pub named : s.name ≡ name
    pub blocks : s.block ≡ pos b
    pub driven : s.backend.driver ≡ d

  -- As far as the read wants it the block is the object's, and it is no longer than a block or than
  -- what the object has from there.
  abbrev pub IsBlock : ℕ → ℕ → Text → Type 0
  IsBlock x e block =
      (take (span b x e) block ≡ take (span b x e) (drop x o))
      × (length block ≤ b)
      × (length block ≤ length o - x)

  whole-IsBlock : (x e : ℕ) → IsBlock x e (take b (drop x o))
  whole-IsBlock x e =
      let l = length-take_bounds b (drop x o) in
      let m = length-drop_sub x o in
      (take-take (span b x e) b (drop x o) (ground arith), l.0, omega (arith, l, m))

  either-IsReady :
      (n : ℕ) (test : Bool) (x y : Server S W)
      → IsReady n x
      → IsReady n y
      → IsReady n (if test then x else y)
  either-IsReady n true x y h k = h
  either-IsReady n false x y h k = k

  pub less-IsReady : (n : ℕ) (s : Server S W) → IsReady (suc n) s → IsReady n s
  less-IsReady n s r = record {
    room = serves.less n s.tier r.room;
    named = r.named;
    blocks = r.blocks;
    driven = r.driven;
  }

  enqueue-IsReady :
      (n : ℕ) (is : List ℤ) (tenant : Text) (s : Server S W)
      → IsReady n s
      → IsReady n (enqueue t s tenant object is)
  unfolding enqueue
  enqueue-IsReady n [] tenant s r = r
  enqueue-IsReady n (i ∷ is) tenant s r = enqueue-IsReady n is tenant _ (
      either-IsReady n (ltb (length s.queue) ahead_queue) _ _
        (record { room = r.room; named = r.named; blocks = r.blocks; driven = r.driven })
        (record { room = r.room; named = r.named; blocks = r.blocks; driven = r.driven }))

  pub predict-IsReady :
      (n : ℕ) (s : Server S W) (tenant : Text) (index now : ℤ)
      → IsReady n s
      → IsReady n (predict t s tenant object index now)
  unfolding predict
  predict-IsReady n s tenant index now r = elim (Option-cases s.detect) [
    | inl e ↦ rw (predict, e) r
    | inr (x, e) ↦
        rw (predict, e)
          (enqueue-IsReady n _ tenant _
            (record { room = r.room; named = r.named; blocks = r.blocks; driven = r.driven }))
  ]

  offer-IsReady :
      (n : ℕ) (s : Server S W) (k : Key) (block : Text)
      → IsReady (suc n) s
      → block ≡ content k
      → IsReady n (offer t s k block)
  unfolding offer
  offer-IsReady n s k block r e =
      let room = serves.admit_keeps n s.tier k block false r.room e in
      elim (Option-cases (t.admit s.tier k block false).2) [
        | inl none_ ↦
            rw (offer, none_)
              (either-IsReady n (t.admit s.tier k block false).1 _ _
                (record { room = room; named = r.named; blocks = r.blocks; driven = r.driven })
                (record { room = room; named = r.named; blocks = r.blocks; driven = r.driven }))
        | inr (x, some_) ↦
            rw (offer, some_)
              (record { room = room; named = r.named; blocks = r.blocks; driven = r.driven })
      ]

  part-IsBlock : (x e : ℕ) → e - x < b → IsBlock x e (take (e - x) (drop x o))
  part-IsBlock x e less =
      let l = length-take_bounds (e - x) (drop x o) in
      let d = length-drop_sub x o in
      let m : span b x e ≡ e - x = ground arith in
      rw m
        (take-take (e - x) (e - x) (drop x o) (omega arith), omega (arith, l), omega (arith, l, d))

  -- A server and an answer that a method leaves.
  abbrev pub Left : ℕ → (Text → Type 0) → Server S W × Result Text → Type 0
  Left n P q = IsReady n q.0 × ((block : Text) → q.1 ≡ done block → P block)

  keep_block-Left :
      (n : ℕ) (p : Server S W × Answer Text) (k : Key)
      → IsReady (suc n) p.0
      → ((block : Text) → p.1 ≡ ok block → block ≡ content k)
      → Left n (λ block. block ≡ content k) (keep_block t p k)
  keep_block-Left n (s, err e) k r h = (less-IsReady n s r, λ block q. absurd (ground (arith, q)))
  keep_block-Left n (s, ok c) k r h = (
    offer-IsReady n _ k c
        (record { room = r.room; named = r.named; blocks = r.blocks; driven = r.driven })
        (h c refl),
    λ block q. ground (arith, q, h c refl),
  )

  pub ask-IsReady :
      (n : ℕ) (s : Server S W) (start len : ℤ)
      → IsReady n s
      → IsReady n (ask t s object start len).0
  ask-IsReady n s start len r = record {
    room = r.room;
    named = r.named;
    blocks = r.blocks;
    driven = r.driven;
  }

  read_range_driver :
      (c : Backend W) (x m : ℕ) (w : W)
      → Store.read_range c object (pos x) (pos m) w ≡ c.driver.read_range object (pos x) (pos m) w
  unfolding Store.read_range
  read_range_driver c x m w = ground arith

  pub ask-driver :
      (n : ℕ) (s : Server S W) (x m : ℕ)
      → IsReady n s
      → (ask t s object (pos x) (pos m)).1 ≡ (d.read_range object (pos x) (pos m) s.world).1
  ask-driver n s x m r =
      ap (λ z. z.1) (read_range_driver s.backend x m s.world)
      ∙ ap (λ z. (z.read_range object (pos x) (pos m) s.world).1) r.driven

  narrow-driver :
      {A : Type 0} (c : Backend W) (cap : Text) (a : Answer A) → (narrow c cap a).driver ≡ c.driver
  unfolding narrow
  narrow-driver c cap (ok a) = refl
  narrow-driver c cap (err e) = ground arith

  pub size_of-driver : (c : Backend W) (w : W) → (Store.size_of c object w).0.driver ≡ c.driver
  unfolding Store.size_of
  size_of-driver c w = ground (arith, narrow-driver c object_size (c.driver.size_of object w).1)

  size_of-sizes :
      (c : Backend W) (w : W) (z : ℤ)
      → (Store.size_of c object w).2 ≡ ok z
      → (c.driver.size_of object w).1 ≡ ok z
  unfolding Store.size_of
  size_of-sizes c w z h = ground (arith, h)

  tail_whole : (x : ℕ) → length o - x < b → take (length o - x) (drop x o) ≡ take b (drop x o)
  tail_whole x h =
      let m = length-drop_sub x o in
      take_all (length o - x) (drop x o) (omega (arith, m))
      ∙ sym (take_all b (drop x o) (omega (arith, m)))

  -- The read of one block, which starts at `x` and is asked for on the way to `e`.
  module _ (honest : IsHonest d object o) (k : Key) (x e : ℕ) (before : x < e) (fits : e < two63)
      (small : length o < two63) (of_key : content k ≡ take b (drop x o)) where
    tail_length_done :
        (z : ℤ)
        → tail_length (pos b) (pos x) (pos e) (pos (length o)) ≡ done z
        → (z ≡ pos (length o - x)) × (length o - x < b) × (x ≤ length o)
    unfolding tail_length
    tail_length_done z h = elim (Bool-cases (ltb (length o) e)) [
      | inl past ↦ absurd (ground (arith, h, past))
      | inr within ↦
          let m = sub64_pos (length o) x (ground (arith, within)) small in
          ground (arith, h, within, m)
    ]

    narrow_length_done :
        (z : ℤ) → narrow_length (pos b) (pos x) (pos e) ≡ done z → (z ≡ pos (e - x)) × (e - x < b)
    unfolding narrow_length
    narrow_length_done z h = let m = sub64_pos e x (omega arith) fits in ground (arith, h, m)

    tail_by_size-Left :
        (n : ℕ) (s : Server S W)
        → IsReady (suc n) s
        → Left n (λ block. block ≡ content k) (tail_by_size t s k object (pos x) (pos e))
    unfolding tail_by_size
    tail_by_size-Left n s r =
        let (c, w, a) = Store.size_of s.backend object s.world in
        let sized = record s { backend = c; world = w } in
        let q : IsReady (suc n) sized = record {
          room = r.room;
          named = r.named;
          blocks = r.blocks;
          driven = size_of-driver s.backend s.world ∙ r.driven;
        } in
        let left = less-IsReady n sized q in
        elim (Answer-cases a) [
          | inr (f, e') ↦ rw (tail_by_size, e') (left, λ block g. absurd (ground (arith, g)))
          | inl (z, e') ↦
              let size : z ≡ pos (length o) = honest.sizes s.world z (
                ap (λ y. (y.size_of object s.world).1) (sym r.driven)
                ∙ size_of-sizes s.backend s.world z e') in
              elim (Result-cases (tail_length s.block (pos x) (pos e) z)) [
                | inr (f, g) ↦
                    rw (tail_by_size, e', g) (left, λ block g'. absurd (ground (arith, g')))
                | inl (m, g) ↦
                    let (is_m, less, within) = tail_length_done m (rw (r.blocks, size) at g) in
                    rw (tail_by_size, e', g)
                      (keep_block-Left n _ k (ask-IsReady (suc n) sized (pos x) m q) (λ block got.
                        (honest.reads x (length o - x) sized.world block
                          (sym (ask-driver (suc n) sized x (length o - x) q) ∙ rw (← is_m) got)).0
                        ∙ tail_whole x less
                        ∙ sym of_key))
              ]
        ]

    narrow_read-Left :
        (n : ℕ) (s : Server S W)
        → IsReady n s
        → Left n (IsBlock x e) (narrow_read t s object (pos x) (pos e))
    unfolding narrow_read
    narrow_read-Left n s r = elim (Result-cases (narrow_length s.block (pos x) (pos e))) [
      | inr (f, g) ↦ rw (narrow_read, g) (r, λ block g'. absurd (ground (arith, g')))
      | inl (m, g) ↦
          let (is_m, less) = narrow_length_done m (rw r.blocks at g) in
          elim (Answer-cases (ask t s object (pos x) m).1) [
            | inr (f, g') ↦
                rw (narrow_read, g, g')
                  (ask-IsReady n s (pos x) m r, λ block h. absurd (ground (arith, h)))
            | inl (got, g') ↦
                let (same, within) =
                  honest.reads x (e - x) s.world got
                    (sym (ask-driver n s x (e - x) r) ∙ rw (← is_m) g') in
                rw (narrow_read, g, g')
                  (
                    record { room = r.room; named = r.named; blocks = r.blocks; driven = r.driven },
                    λ block h.
                        let eq : take (e - x) (drop x o) ≡ block = ground (arith, h, same) in
                        subst (IsBlock x e) eq (part-IsBlock x e less),
                  )
          ]
    ]

    missed-Left :
        (n : ℕ) (s : Server S W)
        → IsReady (suc n) s
        → Left n (IsBlock x e) (missed t s k object (pos x) (pos e))
    unfolding missed
    missed-Left n s r =
        let (after, a) = ask t s object (pos x) s.block in
        let q = ask-IsReady (suc n) s (pos x) s.block r in
        let whole = λ (block : Text) (same : block ≡ content k).
          subst (IsBlock x e) (sym (same ∙ of_key)) (whole-IsBlock x e) in
        let wide = λ (p : Server S W × Result Text) (l : Left n (λ block. block ≡ content k) p).
          let l' : Left n (IsBlock x e) p = (l.0, λ block g. whole block (l.1 block g)) in l' in
        elim (Answer-cases a) [
          | inl (got, g) ↦
              rw (missed, g)
                (wide _ (
                  keep_block-Left n (after, ok got) k q
                    (λ block h.
                      (honest.reads x b s.world block (
                        sym (ask-driver (suc n) s x b r)
                        ∙ ap (λ z. (ask t s object (pos x) z).1) (sym r.blocks)
                        ∙ g
                        ∙ h)).0
                      ∙ sym of_key)))
          | inr (f, g) ↦ elim (Bool-cases (is_range f)) [
            | inr other ↦
                rw (missed, g, other) (less-IsReady n _ q, λ block h. absurd (ground (arith, h)))
            | inl range ↦ elim (Bool-cases (supports after.backend object_size)) [
              | inl sized ↦ rw (missed, g, range, sized) (wide _ (tail_by_size-Left n after q))
              | inr blind ↦
                  rw (missed, g, range, blind) (narrow_read-Left n after (less-IsReady n after q))
            ]
          ]
        ]

  pub block_at-Left :
      (n : ℕ) (s : Server S W) (tenant : Text) (i e : ℕ) (now : ℤ)
      → IsHonest d object o
      → length o < two63
      → i * b < e
      → e < two63
      → IsReady (suc n) s
      → Left n (IsBlock (i * b) e) (block_at t s tenant object (pos i) (pos e) now)
  unfolding block_at
  block_at-Left n s tenant i e now honest small before fits r =
      let k = key_of t s tenant object (pos i) in
      let of_key : content k ≡ take b (drop (i * b) o) =
        ap
          (λ z. content (record {
            tenant = tenant;
            block = record { backend = z; object = object; index = pos i };
          }))
          r.named
        ∙ agrees tenant i (omega arith) in
      let p = predict t s tenant object (pos i) now in
      let q = predict-IsReady (suc n) s tenant (pos i) now r in
      let asked = record p { tier = (t.read p.tier k).0 } in
      let kept : IsReady (suc n) asked = record {
        room = serves.read_keeps (suc n) p.tier k q.room;
        named = q.named;
        blocks = q.blocks;
        driven = q.driven;
      } in
      let start : mul64 (pos i) s.block ≡ pos (i * b) =
        ap (mul64 (pos i)) r.blocks ∙ mul64_pos i b (omega arith) in
      elim (Option-cases (t.read p.tier k).1) [
        | inl miss ↦
            rw (block_at, miss, start)
              (missed-Left honest k (i * b) e before fits small of_key n asked kept)
        | inr (got, hit) ↦
            let same = serves.read_content (suc n) p.tier k got q.room hit ∙ of_key in
            let less = less-IsReady n asked kept in
            rw (block_at, hit)
              (
                record {
                  room = less.room;
                  named = less.named;
                  blocks = less.blocks;
                  driven = less.driven;
                },
                λ block h.
                    let eq : take b (drop (i * b) o) ≡ block = ground (arith, h, same) in
                    subst (IsBlock (i * b) e) eq (whole-IsBlock (i * b) e),
              )
      ]

-- ===== src/Dataserver/Ahead.antt =====
-- Reads of internal/dataserver/dataserver.go with the worker of ahead.go at work between them.
use forebay.Prelude.{
  ℕ, suc, ◌+◌, ◌*◌, ◌<◌, ◌≡◌, ap, sym, subst, ◌∙◌, inl, inr, true, List, [], ◌∷◌, length, take,
  drop, arith, All, Bool-cases, List-cases,
}
use forebay.Prelude.Int.{ℤ, pos, negsuc, pos_part}
use forebay.Prelude.Int64.{two63, IsInt64}
use forebay.Prelude.Text.{Text}
use forebay.Driver as Store
use forebay.Driver.{Driver, ok, Answer-cases}
use forebay.Tier.Types.{Key}
use forebay.Tier.Contract.{Tier, Serves}
use forebay.Dataserver.Types.{Server, Context, done, mul64}
use forebay.Dataserver.{ask, fetch_one, fetch_ahead, read_range}
use forebay.Dataserver.Numbers.{mul64_pos}
use forebay.Dataserver.Blocks.{IsHonest, IsReady, less-IsReady, ask-driver}
use forebay.Dataserver.Reading.{turns, read_range-exact}

-- What happens to a server: a read, or a turn of the worker.
pub data Call : Type 0 where
  reading : Context → Text → Text → ℤ → ℤ → Call
  fetching : Call

abbrev pub InRange : Call → Type 0
InRange (reading c tenant object offset len) = IsInt64 offset × IsInt64 len
InRange fetching = Unit {0}

-- How many blocks the calls may offer to the tier, where a block holds `b` bytes.
unfoldable pub offers : ℕ → List Call → ℕ
offers b [] = 0
offers b (reading c tenant object offset len ∷ cs) = turns b (pos_part len) + offers b cs
offers b (fetching ∷ cs) = suc (offers b cs)

module _ {S W : Type 0} (t : Tier S) (content : Key → Text) (serves : Serves content t)
    (d : Driver W) (name : Text) (objects : Text → Text) (b : ℕ)
    (of_key : (k : Key)
      → content k
        ≡ take b (drop (pos_part (mul64 k.block.index (pos b))) (objects k.block.object))) where
  unfoldable pub calls : List Call → Server S W → Server S W
  calls [] s = s
  calls (reading c tenant object offset len ∷ cs) s =
      calls cs (read_range t s c tenant object offset len).0
  calls (fetching ∷ cs) s = calls cs (fetch_ahead t s)

  pub of_index :
      (object tenant : Text) (i : ℕ)
      → i * b < two63
      → content (record {
        tenant = tenant;
        block = record { backend = name; object = object; index = pos i };
      })
        ≡ take b (drop (i * b) (objects object))
  of_index object tenant i small =
      of_key (record {
        tenant = tenant;
        block = record { backend = name; object = object; index = pos i };
      })
      ∙ ap (λ z. take b (drop (pos_part z) (objects object))) (mul64_pos i b small)

  abbrev pub ReadyFor : Text → ℕ → Server S W → Type 0
  ReadyFor object = IsReady t content serves d name object (objects object) b (of_index object)

  -- What a server keeps is the same for every object.
  other-ReadyFor :
      (object other : Text) (n : ℕ) (s : Server S W) → ReadyFor object n s → ReadyFor other n s
  other-ReadyFor object other n s r = record {
    room = r.room;
    named = r.named;
    blocks = r.blocks;
    driven = r.driven;
  }

  less-ReadyFor :
      (object : Text) (n : ℕ) (s : Server S W) → ReadyFor object (suc n) s → ReadyFor object n s
  less-ReadyFor object =
      less-IsReady t content serves d name object (objects object) b (of_index object)

  module _ (honest : (object : Text) → IsHonest d object (objects object)) where
    ask_content :
        (n : ℕ) (s : Server S W) (object : Text) (z : ℤ) (block : Text)
        → ReadyFor object n s
        → (ask t s object z (pos b)).1 ≡ ok block
        → block ≡ take b (drop (pos_part z) (objects object))
    unfolding Store.read_range
    ask_content n s object (pos x) block r h =
        ((honest object).reads x b s.world block (
          sym (
            ask-driver t content serves d name object (objects object) b (of_index object) n s x b
              r)
          ∙ h)).0
    ask_content n s object (negsuc x) block r h = absurd (ground (arith, h))

    fetch_one-ReadyFor :
        (object : Text) (n : ℕ) (s : Server S W) (k : Key)
        → ReadyFor object (suc n) s
        → ReadyFor object n (fetch_one t s k)
    unfolding fetch_one
    fetch_one-ReadyFor object n s k r =
        let less = less-ReadyFor object n s r in
        let here = k.block.object in
        let at_ = mul64 k.block.index s.block in
        elim (Bool-cases (t.is_resident s.tier k)) [
          | inl there ↦ rw (fetch_one, there) less
          | inr gone ↦ elim (Answer-cases (ask t s here at_ s.block).1) [
            | inr (e, bad) ↦
                rw (fetch_one, gone, bad)
                  (record {
                    room = less.room;
                    named = r.named;
                    blocks = r.blocks;
                    driven = r.driven;
                  })
            | inl (block, good) ↦
                let same : block ≡ content k =
                  ask_content (suc n) s here (mul64 k.block.index (pos b)) block
                    (other-ReadyFor object here (suc n) s r)
                    (ap (λ z. (ask t s here (mul64 k.block.index z) z).1) (sym r.blocks) ∙ good)
                  ∙ sym (of_key k) in
                rw (fetch_one, gone, good)
                  (record {
                    room = serves.admit_keeps n s.tier k block true r.room same;
                    named = r.named;
                    blocks = r.blocks;
                    driven = r.driven;
                  })
          ]
        ]

    fetch_ahead-ReadyFor :
        (object : Text) (n : ℕ) (s : Server S W)
        → ReadyFor object (suc n) s
        → ReadyFor object n (fetch_ahead t s)
    unfolding fetch_ahead
    fetch_ahead-ReadyFor object n s r = elim (List-cases s.queue) [
      | inl none_ ↦ rw (fetch_ahead, none_) (less-ReadyFor object n s r)
      | inr (k, ks, some_) ↦
          rw (fetch_ahead, some_)
            (fetch_one-ReadyFor object n (record s { queue = ks }) k
              (record { room = r.room; named = r.named; blocks = r.blocks; driven = r.driven }))
    ]

    module _ (some_ : 0 < b) (small : (object : Text) → length (objects object) + b < two63) where
      calls-ReadyFor :
          (cs : List Call) (object : Text) (m : ℕ) (s : Server S W)
          → All InRange cs
          → ReadyFor object (offers b cs + m) s
          → ReadyFor object m (calls cs s)
      unfolding calls offers
      calls-ReadyFor [] object m s all r = subst (λ z. ReadyFor object z s) (omega arith) r
      calls-ReadyFor (fetching ∷ cs) object m s (one, all) r =
          calls-ReadyFor cs object m (fetch_ahead t s) all (
            fetch_ahead-ReadyFor object (offers b cs + m) s
              (subst (λ z. ReadyFor object z s) (omega arith) r))
      calls-ReadyFor (reading c tenant here offset len ∷ cs) object m s ((io, il), all) r =
          calls-ReadyFor cs object m _ all (
            other-ReadyFor here object (offers b cs + m) _
              (read_range-exact t content serves d name here (objects here) b (of_index here) c
                tenant offset len (offers b cs + m) s (honest here) some_ (small here) io il
                (other-ReadyFor object here _ s
                  (subst (λ z. ReadyFor object z s) (omega arith) r))).0)

      -- Where the tier serves the content of its keys, which is the block of the object at the
      -- key's index, and the driver does not lie about any object, whatever else it answers, then
      -- after any sequence of reads of any objects and turns of the worker that fetches
      -- predictions, for which the tier has room, a ReadRange that answers bytes answers exactly
      -- those of the range, as many as were asked for.
      pub read_range-calls :
          (cs : List Call) (c : Context) (tenant object : Text) (offset len : ℤ)
          → (s : Server S W) (bytes : Text) → All InRange cs
          → IsInt64 offset
          → IsInt64 len
          → ReadyFor object (offers b cs + turns b (pos_part len)) s
          → (read_range t (calls cs s) c tenant object offset len).1 ≡ done bytes
          → (pos (length bytes) ≡ len)
            × (bytes ≡ take (pos_part len) (drop (pos_part offset) (objects object)))
      read_range-calls cs c tenant object offset len s bytes all io il r =
          let n = turns b (pos_part len) in
          let after = calls-ReadyFor cs object n s all r in
          (read_range-exact t content serves d name object (objects object) b (of_index object) c
              tenant offset len 0 (calls cs s) (honest object) some_ (small object) io il
              (subst (λ z. ReadyFor object z (calls cs s)) (omega arith) after)).1
            bytes

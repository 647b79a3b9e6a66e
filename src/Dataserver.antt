-- ===== src/Dataserver.antt =====
-- internal/dataserver/dataserver.go and ahead.go: a byte range of an immutable object, from the
-- fast tier where the bytes are there and from the backend where they are not. What is published
-- for an operator to watch, the scoreboard, the readiness and the metrics, is left out; it answers
-- nothing.
pub mod Types
pub mod Protocol
pub mod Numbers
pub mod Blocks
pub mod Ranges
pub mod Reading
pub mod Served
pub mod Answers
pub mod Ahead
mod Tests
use forebay.Prelude.{
  ℕ, ◌≡◌, refl, ◌⊎◌, inl, inr, zero, suc, ◌+◌, ◌-◌, ◌*◌, ◌/◌, Bool, true, false, not, ◌&&◌, ◌||◌,
  Option, none, some, List, [], ◌∷◌, ◌++◌, length, take, drop, ltb, leb, if◌then◌else◌,
}
use forebay.Prelude.Int.{ℤ, pos, negsuc, pos_part, neg_part, ltb_ℤ, leb_ℤ, eqb_ℤ, ◌+ℤ◌, ◌-ℤ◌, sub_ℕ}
use forebay.Prelude.Int64.{max_int64, wrap64, add64, sub64}
use forebay.Prelude.Text.{Text, bytes}
use forebay.Driver as Store
use forebay.Driver.{Answer, ok, err, Entry, Backend, out_of_range, object_size, supports}
use forebay.Tier.Types.{Key, would_evict}
use forebay.Tier.Types as TierTypes
use forebay.Dataserver.Types.{
  Context, Result, Server, ahead_queue, bad_limit, bad_size, cancelled, check_request,
  count_fetched, count_hit, count_narrowed, count_offered, done, failed, from_backend, indices,
  is_range, is_short, max_listing, mul64, narrow_length, no_object, no_tenant, quot64, short_answer,
  tail_length, unfinished, wanted,
}
use forebay.Tier.Contract.{Tier}
use forebay.Prefetch.{Block, Detector, observe}

module _ {S W : Type 0} (t : Tier S) where
  abbrev pub key_of : Server S W → Text → Text → ℤ → Key
  key_of s tenant object index = record {
    tenant = tenant;
    block = record { backend = s.name; object = object; index = index };
  }

  -- The loop of `predict` over what the detector says comes next.
  unfoldable pub enqueue : Server S W → Text → Text → List ℤ → Server S W
  enqueue s tenant object [] = s
  enqueue s tenant object (i ∷ is) =
      let next =
        if ltb (length s.queue) ahead_queue
        then record s { queue = s.queue ++ key_of s tenant object i ∷ [] }
        else record s {
          stats = record s.stats { prefetch_dropped = suc s.stats.prefetch_dropped };
        } in
      enqueue next tenant object is

  unfoldable pub predict : Server S W → Text → Text → ℤ → ℤ → Server S W
  predict s tenant object index now = elim s.detect [
    | none ↦ s
    | some d ↦
        let stream = tenant ++ bytes "/" ++ object in
        let (d', next) = observe d (record { stream = stream; index = index }) now in
        enqueue (record s { detect = some d' }) tenant object (indices next)
  ]

  -- `admit`: a failure is counted and fails nothing.
  unfoldable pub offer : Server S W → Key → Text → Server S W
  offer s k block =
      let (tier, kept, e) = t.admit s.tier k block false in
      elim e [
        | some _ ↦ record s {
          tier = tier;
          stats = record s.stats { not_admitted = suc s.stats.not_admitted };
        }
        | none ↦
            if kept
            then record s {
              tier = tier;
              stats = record s.stats { admitted = suc s.stats.admitted };
            }
            else record s { tier = tier }
      ]

  -- The read of the backend that a method makes, and the server after it.
  abbrev pub ask : Server S W → Text → ℤ → ℤ → Server S W × Answer Text
  ask s object start len =
      let (w, r) = Store.read_range s.backend object start len s.world in
      (record s { world = w }, r)

  -- What a block from the backend is made of: it is counted and offered to the tier.
  abbrev pub keep_block : Server S W × Answer Text → Key → Server S W × Result Text
  keep_block (s, ok block) k =
      (offer (record s { stats = count_fetched s.stats }) k block, done block)
  keep_block (s, err e) k = (s, failed (from_backend e))

  unfoldable pub tail_by_size : Server S W → Key → Text → ℤ → ℤ → Server S W × Result Text
  tail_by_size s k object start want_end =
      let (b, w, r) = Store.size_of s.backend object s.world in
      let sized = record s { backend = b; world = w } in
      elim r [
        | err e ↦ (sized, failed (from_backend e))
        | ok size ↦ elim (tail_length s.block start want_end size) [
          | failed e ↦ (sized, failed e)
          | done len ↦ keep_block (ask sized object start len) k
        ]
      ]

  -- The end of `blockAt`, where the backend cannot say how large an object is.
  unfoldable pub narrow_read : Server S W → Text → ℤ → ℤ → Server S W × Result Text
  narrow_read s object start want_end = elim (narrow_length s.block start want_end) [
    | failed e ↦ (s, failed e)
    | done len ↦
        let (after, r) = ask s object start len in
        elim r [
          | err e ↦ (after, failed (from_backend e))
          | ok block ↦ (record after { stats = count_narrowed after.stats }, done block)
        ]
  ]

  -- `blockAt` after the tier did not have the block.
  unfoldable pub missed : Server S W → Key → Text → ℤ → ℤ → Server S W × Result Text
  missed s k object start want_end =
      let (after, r) = ask s object start s.block in
      elim r [
        | ok block ↦ keep_block (after, ok block) k
        | err e ↦
            if not (is_range e)
            then (after, failed (from_backend e))
            else if supports after.backend object_size
            then tail_by_size after k object start want_end
            else narrow_read after object start want_end
      ]

  unfoldable pub block_at : Server S W → Text → Text → ℤ → ℤ → ℤ → Server S W × Result Text
  block_at s tenant object index want_end now =
      let k = key_of s tenant object index in
      let p = predict s tenant object index now in
      let (tier, hit) = t.read p.tier k in
      let q = record p { tier = tier } in
      elim hit [
        | some block ↦ (record q { stats = count_hit q.stats }, done block)
        | none ↦ missed q k object (mul64 index s.block) want_end
      ]

  -- The loop of `ReadRange`, with fuel for its blocks.
  unfoldable pub read_blocks :
      ℕ → Server S W → Context → Text → Text → ℤ → ℤ → ℤ → Text → Server S W × Result Text
  read_blocks zero s c tenant object offset end start out = (s, failed unfinished)
  read_blocks (suc fuel) s c tenant object offset end start out =
      let (after, r) = block_at s tenant object (quot64 start s.block) end (c.now start) in
      let next = λ (block : Text).
        if is_short s.block start end (pos (length block))
        then (after, failed (from_backend out_of_range))
        else read_blocks fuel after c tenant object offset end (add64 start s.block)
            (out ++ wanted offset end start block) in
      if not (ltb_ℤ start end)
      then (s, done out)
      else if c.is_over start
      then (s, failed cancelled)
      else elim r [ failed e ↦ (after, failed e) | done block ↦ next block ]

  -- The end of `ReadRange`: an answer of another length is an error.
  abbrev pub of_length : ℤ → Server S W × Result Text → Server S W × Result Text
  of_length len (s, failed e) = (s, failed e)
  of_length len (s, done out) =
      (s, if eqb_ℤ (pos (length out)) len then done out else failed short_answer)

  unfoldable pub read_range : Server S W → Context → Text → Text → ℤ → ℤ → Server S W × Result Text
  read_range s c tenant object offset len =
      let start = mul64 (quot64 offset s.block) s.block in
      let fuel = suc (suc (suc (pos_part len / pos_part s.block))) in
      elim (check_request tenant object offset len s.max_read) [
        | failed e ↦ (s, failed e)
        | done false ↦ (s, done [])
        | done true ↦
            of_length len (read_blocks fuel s c tenant object offset (add64 offset len) start [])
      ]

  unfoldable pub size_of : Server S W → Text → Text → Server S W × Result ℤ
  size_of s [] object = (s, failed no_tenant)
  size_of s (x ∷ xs) [] = (s, failed no_object)
  size_of s (x ∷ xs) (o ∷ os) =
      let (b, w, r) = Store.size_of s.backend (o ∷ os) s.world in
      let after = record s { backend = b; world = w } in
      elim r [
        | err e ↦ (after, failed (from_backend e))
        | ok size ↦ (after, if ltb_ℤ size (pos 0) then failed bad_size else done size)
      ]

  unfoldable pub list : Server S W → Text → Text → Text → ℤ → Server S W × Result (List Entry)
  list s [] prefix after limit = (s, failed no_tenant)
  list s (x ∷ xs) prefix after limit =
      let (b, w, r) = Store.list s.backend prefix after limit s.world in
      let next = record s { backend = b; world = w } in
      if leb_ℤ limit (pos 0) || ltb_ℤ max_listing limit
      then (s, failed bad_limit)
      else elim r [ err e ↦ (next, failed (from_backend e)) | ok found ↦ (next, done found) ]

  unfoldable pub fetch_one : Server S W → Key → Server S W
  fetch_one s k =
      let (after, r) = ask s k.block.object (mul64 k.block.index s.block) s.block in
      if t.is_resident s.tier k then s else elim r [
        | err e ↦ record after {
          stats = record after.stats { prefetch_failed = suc after.stats.prefetch_failed };
        }
        | ok block ↦
            let (tier, kept, e) = t.admit after.tier k block true in
            record after { tier = tier; stats = count_offered kept e after.stats }
      ]

  -- One turn of the loop of `fetchAhead`, where the queue has a prediction.
  unfoldable pub fetch_ahead : Server S W → Server S W
  fetch_ahead s = elim s.queue [ [] ↦ s | k ∷ ks ↦ fetch_one (record s { queue = ks }) k ]

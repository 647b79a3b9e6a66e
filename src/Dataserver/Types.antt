-- ===== src/Dataserver/Types.antt =====
-- The data of internal/dataserver/dataserver.go and what its methods compute of numbers alone. The
-- counters of Stats are int64 values that count calls, written as numbers.
use forebay.Prelude.{
  ℕ, ◌≡◌, refl, ◌⊎◌, inl, inr, suc, ◌+◌, ◌*◌, ◌/◌, Bool, true, false, ◌&&◌, ◌||◌, Option, some,
  List, [], ◌∷◌, length, take, drop, leb, if◌then◌else◌,
}
use forebay.Prelude.Int.{ℤ, pos, pos_part, neg_part, ltb_ℤ, leb_ℤ, sub_ℕ}
use forebay.Prelude.Int64.{max_int64, wrap64, add64, sub64}
use forebay.Prelude.Text.{Text}
use forebay.Driver as Store
use forebay.Driver.{Answer, ok, err, Entry, Backend, out_of_range, object_size, supports}
use forebay.Tier.Types.{Key, would_evict}
use forebay.Tier.Types as TierTypes
use forebay.Prefetch.{Block, Detector}

-- Go's product and quotient of int64 values; the quotient is cut towards zero.
unfoldable pub mul64 : ℤ → ℤ → ℤ
mul64 a b = wrap64 (
    sub_ℕ (pos_part a * pos_part b + neg_part a * neg_part b)
      (pos_part a * neg_part b + neg_part a * pos_part b))

unfoldable pub quot64 : ℤ → ℤ → ℤ
quot64 a b = wrap64 (sub_ℕ (pos_part a / pos_part b) (neg_part a / pos_part b))

pub data Error : Type 0 where
  no_tenant no_object bad_range past_counting too_long bad_limit bad_size : Error
  no_name bad_bound bad_idle bad_exchange : Error
  cancelled contradicts short_answer unfinished : Error
  from_backend : Store.Error → Error

pub data Result {ℓ} (A : Type ℓ) : Type ℓ where
  done : A → Result A
  failed : Error → Result A

pub Result-cases {ℓ} :
    {A : Type ℓ} (r : Result A) → ((a : A) × (r ≡ done a)) ⊎ ((e : Error) × (r ≡ failed e))
Result-cases (done a) = inl (a, refl)
Result-cases (failed e) = inr (e, refl)

pub record Stats : Type 0 where
  pub blocks : ℕ
  pub hits : ℕ
  pub fetched : ℕ
  pub narrowed : ℕ
  pub admitted : ℕ
  pub not_admitted : ℕ
  pub prefetched : ℕ
  pub prefetch_refused : ℕ
  pub prefetch_failed : ℕ
  pub prefetch_dropped : ℕ

abbrev pub no_stats : Stats
no_stats = record {
  blocks = 0;
  hits = 0;
  fetched = 0;
  narrowed = 0;
  admitted = 0;
  not_admitted = 0;
  prefetched = 0;
  prefetch_refused = 0;
  prefetch_failed = 0;
  prefetch_dropped = 0;
}

-- `queue` is the channel `ahead`, the oldest first, and `world` the state of what is outside.
pub record Server (S W : Type 0) : Type 0 where
  pub tier : S
  pub backend : Backend W
  pub world : W
  pub name : Text
  pub max_read : ℤ
  pub block : ℤ
  pub stats : Stats
  pub detect : Option Detector
  pub queue : List Key

-- What a caller brings: whether it has given up, and the time, when the block that starts there is
-- asked for.
pub record Context : Type 0 where
  pub is_over : ℤ → Bool
  pub now : ℤ → ℤ

abbrev pub ahead_queue : ℕ
ahead_queue = 64

abbrev pub default_max_read : ℤ
default_max_read = pos 67_108_864

pub record Config : Type 0 where
  pub backend : Text
  pub idle : ℤ
  pub exchange : ℤ
  pub max_read : ℤ

-- The cases of `New` that look at the configuration, and the bound on a read that it gives.
unfoldable pub check_config : Config → Result ℤ
check_config c =
    if leb (length c.backend) 0
    then failed no_name
    else if ltb_ℤ c.max_read (pos 0)
    then failed bad_bound
    else if ltb_ℤ c.idle (pos 0)
    then failed bad_idle
    else if ltb_ℤ c.exchange (pos 0)
    then failed bad_exchange
    else done (if leb_ℤ c.max_read (pos 0) then default_max_read else c.max_read)

abbrev pub is_range : Store.Error → Bool
is_range out_of_range = true
is_range e = false

-- The cases of `ReadRange` before anything is read: whether there is anything to read.
unfoldable pub check_request : Text → Text → ℤ → ℤ → ℤ → Result Bool
check_request [] object offset len max_read = failed no_tenant
check_request (t ∷ ts) [] offset len max_read = failed no_object
check_request (t ∷ ts) (o ∷ os) offset len max_read =
    if ltb_ℤ offset (pos 0) || ltb_ℤ len (pos 0)
    then failed bad_range
    else if leb_ℤ len (pos 0)
    then done false
    else if ltb_ℤ (sub64 max_int64 len) offset
    then failed past_counting
    else if ltb_ℤ max_read len
    then failed too_long
    else done true

abbrev pub count_hit : Stats → Stats
count_hit st = record st { blocks = suc st.blocks; hits = suc st.hits }

abbrev pub count_fetched : Stats → Stats
count_fetched st = record st { blocks = suc st.blocks; fetched = suc st.fetched }

abbrev pub count_narrowed : Stats → Stats
count_narrowed st = record st { blocks = suc st.blocks; narrowed = suc st.narrowed }

-- The part of a block that the read wants: `data[lo:hi]`.
unfoldable pub wanted : ℤ → ℤ → ℤ → Text → Text
wanted offset end start block =
    let held = pos (length block) in
    let lo = if ltb_ℤ start offset then sub64 offset start else pos 0 in
    let hi = if ltb_ℤ (sub64 end start) held then sub64 end start else held in
    drop (pos_part lo) (take (pos_part hi) block)

abbrev pub indices : List Block → List ℤ
indices [] = []
indices (b ∷ bs) = b.index ∷ indices bs

-- The cases of `tailBySize` on the size: how long the last block is.
unfoldable pub tail_length : ℤ → ℤ → ℤ → ℤ → Result ℤ
tail_length block start want_end size =
    if ltb_ℤ size want_end
    then failed (from_backend out_of_range)
    else if leb_ℤ block (sub64 size start)
    then failed contradicts
    else done (sub64 size start)

-- The test of `blockAt` on what a read needs of a block that is not whole.
unfoldable pub narrow_length : ℤ → ℤ → ℤ → Result ℤ
narrow_length block start want_end =
    let len = sub64 want_end start in
    if leb_ℤ len (pos 0) || leb_ℤ block len then failed (from_backend out_of_range) else done len

-- Whether a block ends before both the unit and the read do.
unfoldable pub is_short : ℤ → ℤ → ℤ → ℤ → Bool
is_short block start end held = ltb_ℤ held block && ltb_ℤ (add64 start held) end

abbrev pub max_listing : ℤ
max_listing = pos 4096

-- What `fetchOne` counts once the tier has answered.
abbrev pub count_offered : Bool → Option TierTypes.Error → Stats → Stats
count_offered true e st = record st { prefetched = suc st.prefetched }
count_offered false (some would_evict) st = record st { prefetch_refused = suc st.prefetch_refused }
count_offered false e st = record st { prefetch_dropped = suc st.prefetch_dropped }

-- ===== src/Dataserver/Tests.antt =====
-- Runs of the read path of internal/dataserver.
use forebay.Prelude.{
  List, [], ◌∷◌, ℕ, ◌+◌, ◌*◌, ◌<◌, ◌≡◌, refl, true, false, none, some, [], ◌∷◌, length, take, drop,
  arith, leb, if◌then◌else◌,
}
use forebay.Prelude.Int.{ℤ, pos, pos_part}
use forebay.Prelude.Text.{Text, bytes}
use forebay.Driver.{
  Answer, ok, err, Driver, Backend, Declaration, out_of_range, failed, declares, narrow, size_of,
  supports, contains, is_denied,
}
use forebay.Driver as Store
use forebay.Dataserver.Types as Data
use forebay.Tier.Types.{Key, Config, Extent, Cache}
use forebay.Prelude.Text.{text_eq}
use forebay.Prelude.Int64.{sub64, add64, wrap64, two64, two63}
use forebay.Tier.Types.{key_eq}
use forebay.Tier.Admission.{forget, remove_key, saw_before, was_seen}
use forebay.Tier.Slab.{write_slot, open_slab, slots_from, read_slot, take_slot, release_slot}
use forebay.Tier.Cache.{
  is_resident, add_capacity, read, begin_read, placed, slab_of, fetch, finish_read, is_current,
  unplace, admit, place, take_first, fill,
}
use forebay.Tier.Safety.Reached.{empty}
use forebay.Tier.Safety.Methods.{add_capacity-IsKept}
use forebay.Tier.Contract.Sequential.{Device, tier, tier-Serves, Room-Fits}
use forebay.Dataserver.Types.{
  Server, Context, done, from_backend, mul64, quot64, tail_length, narrow_length, is_short, wanted,
  no_stats, check_request, default_max_read,
}
use forebay.Dataserver.{
  read_blocks, block_at, predict, missed, tail_by_size, narrow_read, offer, read_range, fetch_one,
  fetch_ahead,
}
use forebay.Dataserver.Blocks.{IsHealthy, healthy-IsHonest}
use forebay.Dataserver.Reading.{IsUp}
use forebay.Dataserver.Ahead.{Call, reading, fetching, offers, calls, of_index, read_range-calls}
use forebay.Dataserver.Answers.{read_range-answers}

abbrev text : Text
text = bytes "hello"

abbrev declaration : Declaration
declaration = record {
  contract = pos 1;
  capabilities = bytes "read-range" ∷ bytes "object-size" ∷ [];
}

abbrev range_of : ℤ → ℤ → Answer Text
range_of a n =
    if leb (pos_part a + pos_part n) (length text)
    then ok (take (pos_part n) (drop (pos_part a) text))
    else err out_of_range

-- A store that holds one object, under every name.
abbrev store : Driver (Unit {0})
store = record {
  declare = declaration;
  read_range = λ object a n w. (w, range_of a n);
  size_of = λ object w. (w, ok (pos (length text)));
  write_object = λ object content w. (w, err failed);
  delete_object = λ object w. (w, err failed);
  snapshot_object = λ object w. (w, err failed);
  clone_object = λ from to w. (w, err failed);
  lister = none;
  streamer = none;
}

abbrev held : Backend (Unit {0})
held = record {
  driver = store;
  lister = none;
  streamer = none;
  declaration = declaration;
  denied_caps = [];
}

abbrev config : Config
config = record { block_size = pos 2; first_read_limit = pos 4 }

abbrev extent : Extent
extent = record { size = 4; bytes_of = λ _. [] }

abbrev capacity : Cache
capacity = (add_capacity (empty config) (bytes "lease") (some extent)).0

abbrev content : Key → Text
content k = take 2 (drop (pos_part (mul64 k.block.index (pos 2))) text)

abbrev device : Device
device = record { cache = capacity; call = 0; fails = λ _. false; damage = λ _. none }

abbrev server : Server Device (Unit {0})
server = record {
  tier = device;
  backend = held;
  world = tt;
  name = bytes "store";
  max_read = default_max_read;
  block = pos 2;
  stats = no_stats;
  detect = none;
  queue = [];
}

abbrev context : Context
context = record { is_over = λ _. false; now = λ _. pos 0 }

hello :
    (read_range tier server context (bytes "red") (bytes "o") (pos 1) (pos 4)).1
    ≡ done (bytes "ello")
unfolding read_range check_request sub64 read_blocks mul64 quot64 add64 block_at read begin_read
    placed predict add_capacity open_slab slab_of missed Store.read_range declares narrow size_of
    supports contains is_denied wrap64 text_eq fetch finish_read is_current unplace read_slot
    slots_from key_eq tail_by_size tail_length narrow_read narrow_length offer admit saw_before
    was_seen place take_first take_slot fill is_short wanted release_slot
hello = refl

past_the_end :
    (read_range tier server context (bytes "red") (bytes "o") (pos 1) (pos 5)).1
    ≡ Data.failed (from_backend out_of_range)
unfolding read_range check_request sub64 read_blocks mul64 quot64 add64 block_at read begin_read
    placed predict add_capacity open_slab slab_of missed Store.read_range declares narrow size_of
    supports contains is_denied wrap64 text_eq fetch finish_read is_current unplace read_slot
    slots_from key_eq tail_by_size tail_length narrow_read narrow_length offer admit saw_before
    was_seen place take_first take_slot fill is_short wanted release_slot
past_the_end = refl

store-IsHealthy : IsHealthy store (bytes "o") text
store-IsHealthy = record { reads = λ a n w. refl; sizes = λ w. refl }

-- The law of the content, and what it says of an index.
same_content : (k : Key) → content k ≡ take 2 (drop (pos_part (mul64 k.block.index (pos 2))) text)
same_content k = refl

abbrev indexed :
    (tenant : Text) (i : ℕ)
    → i * 2 < two63
    → content (record {
      tenant = tenant;
      block = record { backend = bytes "store"; object = bytes "o"; index = pos i };
    })
      ≡ take 2 (drop (i * 2) text)
indexed =
    of_index tier content (tier-Serves content) store (bytes "store") (λ _. text) 2 same_content
      (bytes "o")

abbrev Ready : ℕ → Server Device (Unit {0}) → Type 0
Ready = IsUp tier content (tier-Serves content) store (bytes "store") (bytes "o") text 2 indexed

few : capacity.generation + 11 < two64
unfolding add_capacity open_slab slab_of slots_from wrap64
few = omega arith

server-Ready : (n : ℕ) → n < 12 → Ready n server
server-Ready n less = record {
  room = Room-Fits content n device (
    add_capacity-IsKept content (empty config) (bytes "lease") (some extent)
        (record { entries = tt; apart = tt; single = λ i. tt; known = tt }),
    omega (arith, few),
  );
  named = refl;
  blocks = refl;
  driven = refl;
}

abbrev answer : Server Device (Unit {0}) × Data.Result Text
answer = read_range tier server context (bytes "red") (bytes "o") (pos 1) (pos 4)

-- A server that has a prediction to fetch.
abbrev waiting : Server Device (Unit {0})
waiting = record server {
  queue =
      record {
        tenant = bytes "red";
        block = record { backend = bytes "store"; object = bytes "o"; index = pos 1 };
      }
      ∷ [];
}

abbrev before : List Call
before = fetching ∷ reading context (bytes "blue") (bytes "o") (pos 0) (pos 2) ∷ []

waiting-Ready : (n : ℕ) → n < 12 → Ready n waiting
waiting-Ready n less =
    let r = server-Ready n less in
    record { room = r.room; named = refl; blocks = refl; driven = refl }

abbrev later : Server Device (Unit {0}) × Data.Result Text
later =
    read_range tier
      (calls tier content (tier-Serves content) store (bytes "store") (λ _. text) 2 same_content
        before waiting)
      context (bytes "red") (bytes "o") (pos 1) (pos 4)

later_answer : later.1 ≡ done (bytes "ello")
unfolding calls fetch_ahead fetch_one read_range check_request sub64 read_blocks mul64 quot64 add64
    block_at read begin_read placed predict add_capacity open_slab slab_of missed Store.read_range
    declares narrow size_of supports contains is_denied wrap64 text_eq fetch finish_read is_current
    unplace read_slot slots_from key_eq tail_by_size tail_length narrow_read narrow_length offer
    admit saw_before was_seen place take_first take_slot fill is_short wanted release_slot
    is_resident write_slot forget remove_key
later_answer = refl

read_range-calls_example :
    (pos (length (bytes "ello")) ≡ pos 4) × (bytes "ello" ≡ take 4 (drop 1 text))
unfolding offers
read_range-calls_example =
    read_range-calls tier content (tier-Serves content) store (bytes "store") (λ _. text) 2
      same_content
      (λ object.
        healthy-IsHonest store object text (record { reads = λ a n w. refl; sizes = λ w. refl }))
      (omega arith) (λ object. omega arith) before context (bytes "red") (bytes "o") (pos 1) (pos 4)
      waiting (bytes "ello") (tt, ((omega arith, omega arith), tt)) (omega arith) (omega arith)
      (waiting-Ready 10 (omega arith)) later_answer

fits : check_request (bytes "red") (bytes "o") (pos 1) (pos 4) default_max_read ≡ done true
unfolding check_request sub64 wrap64
fits = refl

read_range-answers_example : answer.1 ≡ done (bytes "ello")
read_range-answers_example =
    read_range-answers tier content (tier-Serves content) store (bytes "store") (bytes "o") text 2
      indexed context (bytes "red") (pos 1) (pos 4) 0 server (λ z. refl) store-IsHealthy
      (omega arith) (omega arith) (omega arith) (omega arith) fits (server-Ready 5 (omega arith))

-- ===== src/Prefetch.antt =====
-- internal/prefetch/prefetch.go: what a reader will ask for next, inferred from what it asked for.
-- A map from indices or names is an association list that holds each key once.
pub mod Laws
mod Tests
use forebay.Prelude.{
  ℕ, zero, suc, ◌+◌, Bool, true, false, not, ◌&&◌, ◌||◌, Option, none, some, List, [], ◌∷◌, ◌++◌,
  length, drop, ltb, ◌-◌, if◌then◌else◌,
}
use forebay.Prelude.Int.{ℤ, pos, pos_part, ◌+ℤ◌, ◌-ℤ◌, ltb_ℤ, leb_ℤ, eqb_ℤ}
use forebay.Prelude.Int64.{add64, sub64}
use forebay.Prelude.Text.{Text, text_eq}

pub record Block : Type 0 where
  pub stream : Text
  pub index : ℤ

-- `below` is the comparison of the floating-point share of so many predictions read among so many
-- with `MinAccuracy`, and `is_share` whether that floor is from 0 to 1.
pub record Config : Type 0 where
  pub depth : ℤ
  pub confirmations : ℤ
  pub window : ℤ
  pub patience : ℤ
  pub below : ℕ → ℕ → Bool
  pub is_share : Bool

pub data Error : Type 0 where
  bad_depth predicts_noise bad_window bad_floor bad_patience : Error

unfoldable pub validate : Config → Option Error
validate c =
    if leb_ℤ c.depth (pos 0)
    then some bad_depth
    else if ltb_ℤ c.confirmations (pos 3)
    then some predicts_noise
    else if leb_ℤ c.window (pos 0)
    then some bad_window
    else if not c.is_share
    then some bad_floor
    else if leb_ℤ c.patience (pos 0)
    then some bad_patience
    else none

-- `outstanding` has when each index was predicted, `recent` which predictions were read.
pub record Stream : Type 0 where
  pub last : ℤ
  pub stride : ℤ
  pub runs : ℤ
  pub started : Bool
  pub outstanding : List (ℤ × ℤ)
  pub recent : List Bool
  pub muted : Bool
  pub muted_stride : ℤ

abbrev pub fresh_stream : Stream
fresh_stream = record {
  last = pos 0;
  stride = pos 0;
  runs = pos 0;
  started = false;
  outstanding = [];
  recent = [];
  muted = false;
  muted_stride = pos 0;
}

pub record Detector : Type 0 where
  pub cfg : Config
  pub streams : List (Text × Stream)

unfoldable pub new : Config → Option Detector
new cfg = elim (validate cfg) [ some _ ↦ none | none ↦ some (record { cfg = cfg; streams = [] }) ]

unfoldable pub is_predicted : ℤ → List (ℤ × ℤ) → Bool
is_predicted i [] = false
is_predicted i ((j, t) ∷ os) = eqb_ℤ i j || is_predicted i os

unfoldable pub unpredict : ℤ → List (ℤ × ℤ) → List (ℤ × ℤ)
unpredict i [] = []
unpredict i ((j, t) ∷ os) = if eqb_ℤ i j then os else (j, t) ∷ unpredict i os

-- How many predictions were read.
unfoldable pub read_of : List Bool → ℕ
read_of [] = 0
read_of (r ∷ rs) = if r then suc (read_of rs) else read_of rs

-- The last so many of a window.
unfoldable pub newest : ℤ → List Bool → List Bool
newest window recent =
    if ltb_ℤ window (pos (length recent))
    then drop (length recent - pos_part window) recent
    else recent

unfoldable pub record_read : Config → Stream → Bool → Stream
record_read cfg s read =
    let recent = newest cfg.window (s.recent ++ read ∷ []) in
    let t = record s { recent = recent } in
    if ltb_ℤ (pos (length recent)) cfg.window
    then t
    else if not s.muted && cfg.below (read_of recent) (length recent)
    then record t {
      muted = true;
      muted_stride = s.stride;
      outstanding = [];
      stride = pos 0;
      runs = pos 0;
    }
    else t

-- The loop of `score` over what was outstanding when it began; a stream that is muted on the way
-- has a new map from then on.
unfoldable pub condemn : Config → ℤ → List (ℤ × ℤ) → Stream → Stream
condemn cfg now [] s = s
condemn cfg now ((i, when) ∷ os) s =
    let next =
      if leb_ℤ cfg.patience (now -ℤ when)
      then record_read cfg (record s { outstanding = unpredict i s.outstanding }) false
      else s in
    condemn cfg now os next

unfoldable pub score : Config → Stream → ℤ → ℤ → Stream
score cfg s index now =
    let confirmed =
      if is_predicted index s.outstanding
      then record_read cfg (record s { outstanding = unpredict index s.outstanding }) true
      else s in
    condemn cfg now confirmed.outstanding confirmed

unfoldable pub track : Config → Stream → ℤ → Stream
track cfg s index =
    let stride = sub64 index s.last in
    let moved = record s { last = index } in
    let again = record moved { runs = add64 s.runs (pos 1) } in
    if not s.started
    then record moved { started = true }
    else if eqb_ℤ stride (pos 0)
    then moved
    else if eqb_ℤ stride s.stride
    then (if s.muted
          && not (eqb_ℤ stride s.muted_stride)
          && leb_ℤ cfg.confirmations (add64 again.runs (pos 2))
        then record again { muted = false; recent = [] }
        else again)
    else record moved { stride = stride; runs = pos 0 }

-- The loop of `Observe` over what is ahead: so many blocks, each one stride past the one before.
unfoldable pub ahead : Text → ℤ → ℤ → ℤ → ℕ → List (ℤ × ℤ) → List Block × List (ℤ × ℤ)
ahead name now stride from zero os = ([], os)
ahead name now stride from (suc n) os =
    let next = add64 from stride in
    let already = is_predicted next os in
    let (out, rest) = ahead name now stride next n (if already then os else (next, now) ∷ os) in
    (if already then out else record { stream = name; index = next } ∷ out, rest)

unfoldable pub find_stream : Text → List (Text × Stream) → Option Stream
find_stream k [] = none
find_stream k ((j, s) ∷ ss) = if text_eq k j then some s else find_stream k ss

unfoldable pub drop_stream : Text → List (Text × Stream) → List (Text × Stream)
drop_stream k [] = []
drop_stream k ((j, s) ∷ ss) = if text_eq k j then ss else (j, s) ∷ drop_stream k ss

abbrev pub is_confirmed : Config → Stream → Bool
is_confirmed cfg s =
    s.started && not (ltb_ℤ (add64 s.runs (pos 2)) cfg.confirmations) && not s.muted

-- What `Observe` does to the stream of the block, and the blocks worth fetching.
unfoldable pub observe_stream : Config → Stream → Block → ℤ → Stream × List Block
observe_stream cfg s b now =
    let t = track cfg (score cfg s b.index now) b.index in
    let (out, os) = ahead b.stream now t.stride b.index (pos_part cfg.depth) t.outstanding in
    if is_confirmed cfg t then (record t { outstanding = os }, out) else (t, [])

abbrev pub stream_or_fresh : Option Stream → Stream
stream_or_fresh none = fresh_stream
stream_or_fresh (some s) = s

unfoldable pub observe : Detector → Block → ℤ → Detector × List Block
observe d b now =
    let (s, out) = observe_stream d.cfg (stream_or_fresh (find_stream b.stream d.streams)) b now in
    (record d { streams = (b.stream, s) ∷ drop_stream b.stream d.streams }, out)

-- `Accuracy` as the predictions read and judged, where there are any.
unfoldable pub accuracy_of : Detector → Text → Option (ℕ × ℕ)
accuracy_of d name = elim (find_stream name d.streams) [
  | none ↦ none
  | some s ↦ elim s.recent [ [] ↦ none | r ∷ rs ↦ some (read_of (r ∷ rs), length (r ∷ rs)) ]
]

unfoldable pub is_predicting : Detector → Text → Bool
is_predicting d name = elim (find_stream name d.streams) [
  | none ↦ false
  | some s ↦ is_confirmed d.cfg s
]

unfoldable pub forget_stream : Detector → Text → Detector
forget_stream d name = record d { streams = drop_stream name d.streams }

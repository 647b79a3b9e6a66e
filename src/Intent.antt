-- ===== src/Intent.antt =====
-- internal/intent: what a user declares of a dataset, the floor that an administrator sets, and
-- whether a backend and a fleet satisfy it. The text of a message is kept where code reads it.
pub mod Laws
mod Tests
use forebay.Prelude.{
  ℕ, Bool, true, false, not, ◌&&◌, ◌||◌, Option, none, some, List, [], ◌∷◌, ◌++◌, ltb,
  if◌then◌else◌,
}
use forebay.Prelude.Text.{Text, bytes, text_eq}

abbrev pub durability_none : Text
durability_none = bytes "none"

abbrev pub durability_backend : Text
durability_backend = bytes "backend"

abbrev pub durability_replicated : Text
durability_replicated = bytes "replicated"

abbrev pub durability_rack_tolerant : Text
durability_rack_tolerant = bytes "rack-tolerant"

abbrev pub latency_best_effort : Text
latency_best_effort = bytes "best-effort"

abbrev pub latency_cached : Text
latency_cached = bytes "cached"

abbrev pub cost_cheapest : Text
cost_cheapest = bytes "cheapest"

abbrev pub cost_balanced : Text
cost_balanced = bytes "balanced"

pub record Intent : Type 0 where
  pub durability : Text
  pub latency : Text
  pub cost : Text

pub record Floor : Type 0 where
  pub durability : Text

pub record Fleet : Type 0 where
  pub knows_racks : Bool

pub data Error : Type 0 where
  bad_durability bad_latency bad_cost contradiction bad_floor : Error

-- A word, or what stands for it where it is empty.
abbrev pub or_default : Text → Text → Text
or_default word d = if text_eq word [] then d else word

unfoldable pub with_defaults : Intent → Intent
with_defaults i = record {
  durability = or_default i.durability durability_backend;
  latency = or_default i.latency latency_best_effort;
  cost = or_default i.cost cost_balanced;
}

-- `durabilityRank`
unfoldable pub durability_rank : Text → Option ℕ
durability_rank d =
    if text_eq d durability_none
    then some 0
    else if text_eq d durability_backend
    then some 1
    else if text_eq d durability_replicated
    then some 2
    else if text_eq d durability_rack_tolerant
    then some 3
    else none

-- A missing word reads as zero.
abbrev pub rank_or_zero : Option ℕ → ℕ
rank_or_zero none = 0
rank_or_zero (some r) = r

unfoldable pub apply : Floor → Intent → Intent
apply f i =
    let d = with_defaults i in
    elim (durability_rank d.durability) [
      | none ↦ d
      | some asked ↦
          if ltb asked (rank_or_zero (durability_rank f.durability))
          then record d { durability = f.durability }
          else d
    ]

unfoldable pub validate_floor : Floor → Option Error
validate_floor f =
    if text_eq f.durability []
    then none
    else elim (durability_rank f.durability) [ none ↦ some bad_floor | some _ ↦ none ]

abbrev pub is_durability : Text → Bool
is_durability d =
    text_eq d durability_none
    || text_eq d durability_backend
    || text_eq d durability_replicated
    || text_eq d durability_rack_tolerant

unfoldable pub validate_declared : Intent → Option Error
validate_declared i =
    if not (is_durability i.durability)
    then some bad_durability
    else if not (text_eq i.latency latency_best_effort || text_eq i.latency latency_cached)
    then some bad_latency
    else if not (text_eq i.cost cost_cheapest || text_eq i.cost cost_balanced)
    then some bad_cost
    else if text_eq i.cost cost_cheapest && text_eq i.latency latency_cached
    then some contradiction
    else none

unfoldable pub validate : Intent → Option Error
validate i = validate_declared (with_defaults i)

-- A backend is the test for what it supports; `Replicate` is the one capability asked for here.
abbrev pub Capability : Type 0
Capability = Text

abbrev pub replicate : Capability
replicate = bytes "replicate"

unfoldable pub needs : Intent → List Capability
needs i =
    let d = (with_defaults i).durability in
    if text_eq d durability_replicated || text_eq d durability_rack_tolerant
    then replicate ∷ []
    else []

pub data Answer : Type 0 where
  satisfied no_backend : Answer
  invalid : Error → Answer
  unsatisfiable : List Capability → List Text → Answer

unfoldable pub unsupported : (Capability → Bool) → List Capability → List Capability
unsupported supports [] = []
unsupported supports (c ∷ cs) =
    if supports c then unsupported supports cs else c ∷ unsupported supports cs

abbrev pub blind_fleet : Text
blind_fleet = bytes "this fleet cannot say which rack a node is in"

abbrev pub answer_of : List Capability → List Text → Answer
answer_of [] [] = satisfied
answer_of missing fleet = unsatisfiable missing fleet

unfoldable pub resolve : Intent → Option (Capability → Bool) → Fleet → Answer
resolve i b f =
    let d = with_defaults i in
    let blind = text_eq d.durability durability_rack_tolerant && not f.knows_racks in
    elim (validate i) [
      | some e ↦ invalid e
      | none ↦ elim b [
        | none ↦ no_backend
        | some supports ↦
            answer_of (unsupported supports (needs d)) (if blind then blind_fleet ∷ [] else [])
      ]
    ]

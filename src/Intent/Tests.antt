-- ===== src/Intent/Tests.antt =====
-- A floor and a backend at concrete words, and the theorems about them applied there.
use forebay.Prelude.{◌≡◌, refl, true, some}
use forebay.Prelude.Text.{bytes, text_eq}
use forebay.Intent.{
  Intent, Floor, Fleet, replicate, with_defaults, durability_rank, apply, validate,
  validate_declared, contradiction, needs, unsupported, satisfied, resolve, durability_replicated,
  latency_cached, cost_cheapest,
}
use forebay.Intent.Laws.{resolve-apply}

abbrev silent : Intent
silent = record { durability = bytes ""; latency = latency_cached; cost = bytes "" }

abbrev replicated : Floor
replicated = record { durability = durability_replicated }

abbrev fleet : Fleet
fleet = record { knows_racks = true }

refused : validate (record silent { cost = cost_cheapest }) ≡ some contradiction
unfolding validate validate_declared with_defaults text_eq
refused = refl

resolve-apply_example : resolve silent (some (λ c. text_eq c replicate)) fleet ≡ satisfied
unfolding resolve apply validate validate_declared with_defaults needs unsupported durability_rank
    text_eq
resolve-apply_example = resolve-apply replicated silent (λ c. text_eq c replicate) fleet refl

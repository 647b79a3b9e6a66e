-- ===== src/Pool/Tests.antt =====
-- The accounting at concrete values, and the theorems about it applied there.
use forebay.Prelude.{◌≡◌, ◌↔◌, refl, none, arith}
use forebay.Prelude.Int.{pos, ◌+ℤ◌}
use forebay.Prelude.Int64.{add64, sub64, max_int64}
use forebay.Pool.{
  Accounting, done, failed, insufficient, over_release, free, validate, can_lend, lend, give_back,
}
use forebay.Pool.Laws.{IsBalanced, IsMachine, validate-none_iff}

abbrev node : Accounting
node = record { capacity = pos 1000; reserved = pos 200; borrowed = pos 300 }

lend_fits : lend node (pos 500) ≡ done (record node { borrowed = pos 800 })
unfolding lend can_lend free add64 sub64
lend_fits = refl

lend_too_much : lend node (pos 501) ≡ failed insufficient
unfolding lend can_lend free add64 sub64
lend_too_much = refl

give_back_too_much : give_back node (pos 301) ≡ failed over_release
unfolding give_back
give_back_too_much = refl

node-IsBalanced : IsBalanced node
unfolding ◌+ℤ◌
node-IsBalanced = omega arith

node-IsMachine : IsMachine node
node-IsMachine = omega arith

-- Both allocations at the largest int64, on a device of no capacity.
abbrev flooded : Accounting
flooded = record { capacity = pos 0; reserved = max_int64; borrowed = max_int64 }

flooded_passes : validate flooded ≡ none
unfolding validate free sub64
flooded_passes = refl

validate-none_iff_example : (validate node ≡ none) ↔ IsBalanced node
unfolding ◌+ℤ◌
validate-none_iff_example = validate-none_iff node node-IsMachine (omega arith)

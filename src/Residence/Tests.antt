-- ===== src/Residence/Tests.antt =====
-- A policy at concrete regions, and the theorems about it applied there.
use mathlib.Core.List.{Memᴰ as Mem}
use forebay.Prelude.{◌≡◌, ◌↔◌, ◌⊎◌, refl, none, some, [], ◌∷◌}
use forebay.Prelude.Text.{bytes, text_eq, text_lt}
use forebay.Residence.{
  Policy, denied, unnamed, destination, is_blank, is_listed, permits, transfer, in_breach,
  insert_region, sort_regions, breaches,
}
use forebay.Residence.Blank.{IsBlank}
use forebay.Residence.Laws.{permits-none_iff}

abbrev policy : Policy
policy = record { allowed = bytes "eu" ∷ bytes "us" ∷ []; forbidden = bytes "us" ∷ [] }

-- A denial wins over a permission.
us_denied : transfer policy (bytes "eu") (bytes "us") ≡ some (destination denied)
unfolding transfer permits is_blank is_listed text_eq
us_denied = refl

breaches_sorted :
    breaches policy (bytes "us" ∷ bytes "eu" ∷ bytes "ap" ∷ []) ≡ bytes "ap" ∷ bytes "us" ∷ []
unfolding breaches in_breach sort_regions insert_region permits is_blank is_listed text_eq text_lt
breaches_sorted = refl

permits-none_iff_example : (permits policy (bytes "eu") ≡ none) ↔ (
    (¬ IsBlank (bytes "eu"))
    × (¬ Mem (bytes "eu") policy.forbidden)
    × ((policy.allowed ≡ []) ⊎ Mem (bytes "eu") policy.allowed))
permits-none_iff_example = permits-none_iff policy (bytes "eu")

-- A line separator and a space, which are not a name.
spaces_unnamed : permits policy (226 ∷ 128 ∷ 168 ∷ 32 ∷ []) ≡ some unnamed
unfolding permits is_blank
spaces_unnamed = refl

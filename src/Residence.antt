-- ===== src/Residence.antt =====
-- internal/residence: where the bytes of a dataset version may be.
pub mod Blank
pub mod Laws
mod Tests
use forebay.Prelude.{
  ℕ, Bool, true, false, not, ◌&&◌, ◌||◌, Option, none, some, List, [], ◌∷◌, ltb, leb, ◌==◌,
  if◌then◌else◌,
}
use forebay.Prelude.Text.{Text, text_eq, text_lt}

pub data Error : Type 0 where
  denied not_allowed unnamed : Error

pub record Policy : Type 0 where
  pub allowed : List Text
  pub forbidden : List Text

-- The white space of Unicode in UTF-8, by the number of bytes it takes.
abbrev pub is_space1 : ℕ → Bool
is_space1 a = (leb 9 a && leb a 13) || (a == 32)

abbrev pub is_space2 : ℕ → ℕ → Bool
is_space2 a b = (a == 194) && ((b == 133) || (b == 160))

abbrev pub is_space3 : ℕ → ℕ → ℕ → Bool
is_space3 a b c =
    ((a == 225) && (b == 154) && (c == 128))
    || ((a == 226)
        && (b == 128)
        && ((leb 128 c && leb c 138) || (c == 168) || (c == 169) || (c == 175)))
    || ((a == 226) && (b == 129) && (c == 159))
    || ((a == 227) && (b == 128) && (c == 128))

-- `strings.TrimSpace(s) == ""`
unfoldable pub is_blank : Text → Bool
is_blank [] = true
is_blank (a ∷ []) = is_space1 a
is_blank (a ∷ b ∷ []) = (is_space1 a && is_space1 b) || is_space2 a b
is_blank (a ∷ b ∷ c ∷ t) =
    (is_space1 a && is_blank (b ∷ c ∷ t))
    || (is_space2 a b && is_blank (c ∷ t))
    || (is_space3 a b c && is_blank t)

-- The loops over the two lists.
unfoldable pub is_listed : Text → List Text → Bool
is_listed r [] = false
is_listed r (d ∷ ds) = text_eq d r || is_listed r ds

unfoldable pub permits : Policy → Text → Option Error
permits p r =
    if is_blank r
    then some unnamed
    else if is_listed r p.forbidden
    then some denied
    else elim p.allowed [
      | [] ↦ none
      | a ∷ more ↦ if is_listed r (a ∷ more) then none else some not_allowed
    ]

-- Which end is at fault, and how.
pub data Refusal : Type 0 where
  origin destination : Error → Refusal

unfoldable pub transfer : Policy → Text → Text → Option Refusal
transfer p from to = elim (permits p from) [
  | some e ↦ some (origin e)
  | none ↦ elim (permits p to) [ some e ↦ some (destination e) | none ↦ none ]
]

unfoldable pub in_breach : Policy → List Text → List Text
in_breach p [] = []
in_breach p (r ∷ rs) = elim (permits p r) [ some _ ↦ r ∷ in_breach p rs | none ↦ in_breach p rs ]

-- `sort.Slice` with `<` on the regions.
unfoldable pub insert_region : Text → List Text → List Text
insert_region r [] = r ∷ []
insert_region r (s ∷ rs) = if text_lt s r then s ∷ insert_region r rs else r ∷ s ∷ rs

unfoldable pub sort_regions : List Text → List Text
sort_regions [] = []
sort_regions (r ∷ rs) = insert_region r (sort_regions rs)

unfoldable pub breaches : Policy → List Text → List Text
breaches p rs = sort_regions (in_breach p rs)

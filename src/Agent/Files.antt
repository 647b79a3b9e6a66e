-- ===== src/Agent/Files.antt =====
-- The files of the borrowed pool, and what the operating system answers to internal/agent.
pub mod Laws
use forebay.Prelude.{
  ℕ, ◌≡◌, refl, Bool, true, false, ◌||◌, Option, none, some, List, [], ◌∷◌, if◌then◌else◌,
}
use forebay.Prelude.Int.{ℤ, pos}
use forebay.Prelude.Text.{Text, text_eq, text_lt}

-- Names in order, as `os.ReadDir` lists them, each with how much is reserved.
abbrev pub Files : Type 0
Files = List (Text × ℤ)

-- Which calls fail, by the name that they are made for, other than for a file that is missing or
-- is there.
pub record Os : Type 0 where
  pub open_fails : Text → Bool
  pub reserve_fails : Text → Bool
  pub write_fails : Text → Bool
  pub close_fails : Text → Bool
  pub rename_fails : Text → Bool
  pub remove_fails : Text → Bool

unfoldable pub find_file : Text → Files → Option ℤ
find_file k [] = none
find_file k ((j, n) ∷ fs) = if text_eq k j then some n else find_file k fs

unfoldable pub drop_file : Text → Files → Files
drop_file k [] = []
drop_file k ((j, n) ∷ fs) = if text_eq k j then drop_file k fs else (j, n) ∷ drop_file k fs

-- A file of a name that no file has.
unfoldable pub add_file : Text → ℤ → Files → Files
add_file k n [] = (k, n) ∷ []
add_file k n ((j, m) ∷ fs) = if text_lt k j then (k, n) ∷ (j, m) ∷ fs else (j, m) ∷ add_file k n fs

unfoldable pub put_file : Text → ℤ → Files → Files
put_file k n fs = add_file k n (drop_file k fs)

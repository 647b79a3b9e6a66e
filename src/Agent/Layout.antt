-- ===== src/Agent/Layout.antt =====
-- internal/agent/agent.go: `Config.Validate`, where the pool and the journal may be. The working
-- directory is an input, none where the system cannot tell it.
pub mod Laws
use forebay.Prelude.{
  ℕ, Bool, true, false, not, ◌&&◌, ◌||◌, Option, none, some, List, [], ◌∷◌, ◌++◌, map,
  if◌then◌else◌, ◌==◌,
}
use forebay.Prelude.Text.{Text, bytes, text_eq}
use forebay.Lease.Types.{Quota, validate_quota}
use forebay.Lease.Types
use forebay.Agent.Names.{slash, has_prefix, elements, clean}

pub data LayoutError : Type 0 where
  no_pool_dir nested_pools unresolved : LayoutError
  quota : Types.Error → LayoutError

-- `filepath.Abs`
unfoldable pub abs_path : Option Text → Text → Option Text
abs_path cwd path =
    if has_prefix path (slash ∷ [])
    then some (clean path)
    else elim cwd [ none ↦ none | some dir ↦ some (clean (dir ++ slash ∷ path)) ]

-- What stands before the last slash, with it.
unfoldable pub dir_of : List Text → Text
dir_of [] = []
dir_of (e ∷ es) = let rest = dir_of es in elim es [ [] ↦ [] | _ ∷ _ ↦ e ++ slash ∷ rest ]

-- `filepath.Dir`
unfoldable pub parent_dir : Text → Text
parent_dir path = clean (dir_of (elements path))

-- The names in a path, without the empty ones around its slashes.
unfoldable pub names_in : List Text → List Text
names_in [] = []
names_in (e ∷ es) = if text_eq e [] then names_in es else e ∷ names_in es

-- The names that lead from one path to another: up, and then down.
unfoldable pub steps_between : List Text → List Text → List Text
steps_between [] to = to
steps_between (b ∷ bs) [] = bytes ".." ∷ steps_between bs []
steps_between (b ∷ bs) (t ∷ ts) =
    let below = steps_between bs ts in
    if text_eq b t then below else bytes ".." ∷ map (λ _. bytes "..") bs ++ t ∷ ts

unfoldable pub join_path : List Text → Text
join_path [] = bytes "."
join_path (e ∷ es) = let rest = join_path es in elim es [ [] ↦ e | _ ∷ _ ↦ e ++ slash ∷ rest ]

-- `filepath.Rel` of two absolute clean paths, which has no error.
unfoldable pub relative : Text → Text → Text
relative base target =
    join_path (steps_between (names_in (elements base)) (names_in (elements target)))

unfoldable pub has_dot_dot_prefix : Text → Bool
has_dot_dot_prefix rel = has_prefix rel (bytes "..")

unfoldable pub is_within : Text → Text → Bool
is_within parent child =
    let rel = relative parent child in
    not (text_eq rel (bytes "..")) && not (has_dot_dot_prefix rel)

-- `Config`, without what it passes to the lease manager but the quota.
pub record Layout : Type 0 where
  pub borrowed_dir : Text
  pub journal_path : Text
  pub lease_quota : Quota

unfoldable pub validate_layout : Option Text → Layout → Option LayoutError
validate_layout cwd c =
    if text_eq c.borrowed_dir [] || text_eq c.journal_path []
    then some no_pool_dir
    else elim (abs_path cwd c.borrowed_dir) [
      | none ↦ some unresolved
      | some b ↦ elim (abs_path cwd (parent_dir c.journal_path)) [
        | none ↦ some unresolved
        | some j ↦
            if text_eq b j || is_within b j
            then some nested_pools
            else elim (validate_quota c.lease_quota) [ none ↦ none | some e ↦ some (quota e) ]
      ]
    ]

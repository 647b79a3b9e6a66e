-- ===== src/Dataset.antt =====
-- internal/dataset: address.go, views.go and clone.go. What a user names, the address that a backend
-- serves, and the two views of it. The lexical rules of the library's `path.Clean` and `path.Join`
-- are written out. The text of a message is left out.
pub mod Laws
mod Tests
use forebay.Prelude.{
  ℕ, ◌≡◌, refl, ◌⊎◌, inl, inr, Bool, true, false, not, ◌&&◌, ◌||◌, Option, none, some, List, [],
  ◌∷◌, ◌++◌, reverse, ◌==◌, if◌then◌else◌,
}
use forebay.Prelude.Text.{Text, bytes, text_eq}
use forebay.Driver.{Backend, supports, clone_cap, snapshot_cap}

pub data Error : Type 0 where
  empty_part has_separator no_resolver unknown not_under_root : Error
  no_backend snapshot_only neither : Error

pub data Result (A : Type 0) : Type 0 where
  done : A → Result A
  failed : Error → Result A

pub Result-cases :
    {A : Type 0} (r : Result A) → ((a : A) × (r ≡ done a)) ⊎ ((e : Error) × (r ≡ failed e))
Result-cases (done a) = inl (a, refl)
Result-cases (failed e) = inr (e, refl)

pub record Ref : Type 0 where
  pub dataset : Text
  pub version : Text
  pub object : Text

abbrev pub slash : ℕ
slash = b'/'

abbrev pub dot : ℕ
dot = b'.'

unfoldable pub has_slash : Text → Bool
has_slash [] = false
has_slash (c ∷ s) = (c == slash) || has_slash s

abbrev pub is_empty : Text → Bool
is_empty [] = true
is_empty (c ∷ s) = false

-- `Validate`. The loop over the two names is over a map, and reports the same kind for either.
unfoldable pub validate : Ref → Option Error
validate r =
    if is_empty r.dataset || is_empty r.version || is_empty r.object
    then some empty_part
    else if has_slash r.dataset || has_slash r.version
    then some has_separator
    else none

unfoldable pub address : Text → Text → Text → Text
address dataset version object = dataset ++ (slash ∷ (version ++ (slash ∷ object)))

-- `String`, and `ObjectKey`, which is the same.
unfoldable pub object_key : Ref → Text
object_key r = address r.dataset r.version r.object

pub record Placement : Type 0 where
  pub dataset : Text
  pub version : Text

abbrev pub Resolver : Type 0
Resolver = Text → Text → Option Placement

-- `Backend`.
unfoldable pub backend_address : Ref → Option Resolver → Result Text
backend_address r res = elim (validate r) [
  | some e ↦ failed e
  | none ↦ elim res [
    | none ↦ failed no_resolver
    | some f ↦ elim (f r.dataset r.version) [
      | none ↦ failed unknown
      | some p ↦ done (address p.dataset p.version r.object)
    ]
  ]
]

-- `CanClone`: why a backend cannot, or nothing.
unfoldable pub can_clone : {W : Type 0} → Option (Backend W) → Option Error
can_clone none = some no_backend
can_clone (some b) =
    if supports b clone_cap
    then none
    else if supports b snapshot_cap
    then some snapshot_only
    else some neither

-- The text before the first slash and the text after it.
unfoldable pub cut : Text → Option (Text × Text)
cut [] = none
cut (c ∷ s) =
    let rest = cut s in
    if c == slash then some ([], s) else elim rest [ none ↦ none | some (a, b) ↦ some (c ∷ a, b) ]

-- `strings.TrimPrefix` of the separator.
unfoldable pub trim_slash : Text → Text
trim_slash [] = []
trim_slash (c ∷ s) = if c == slash then s else c ∷ s

abbrev pub checked : Ref → Result Ref
checked r = elim (validate r) [ none ↦ done r | some e ↦ failed e ]

-- `ParseObjectKey`: the split takes the first two names and leaves the rest.
unfoldable pub parse_object_key : Text → Result Ref
parse_object_key key = elim (cut (trim_slash key)) [
  | none ↦ failed empty_part
  | some (dataset, rest) ↦ elim (cut rest) [
    | none ↦ failed empty_part
    | some (version, object) ↦
        checked (record { dataset = dataset; version = version; object = object })
  ]
]

-- The names of a path between its slashes.
unfoldable pub elements : Text → List Text
elements [] = [] ∷ []
elements (c ∷ s) =
    let rest = elements s in
    if c == slash then [] ∷ rest else elim rest [ [] ↦ (c ∷ []) ∷ [] | e ∷ es ↦ (c ∷ e) ∷ es ]

abbrev pub dot_dot : Text
dot_dot = dot ∷ dot ∷ []

-- One step up from the names that are kept.
abbrev pub climb : Bool → List Text → List Text
climb rooted [] = if rooted then [] else dot_dot ∷ []
climb rooted (k ∷ ks) = if text_eq k dot_dot then dot_dot ∷ k ∷ ks else ks

-- `path.Clean` on the names, those that are kept with the last first.
unfoldable pub resolve : Bool → List Text → List Text → List Text
resolve rooted kept [] = kept
resolve rooted kept (e ∷ es) =
    resolve rooted
      (if is_empty e || text_eq e (dot ∷ [])
        then kept
        else if text_eq e dot_dot
        then climb rooted kept
        else e ∷ kept)
      es

unfoldable pub join : List Text → Text
join [] = []
join (e ∷ []) = e
join (e ∷ k ∷ ks) = e ++ (slash ∷ join (k ∷ ks))

abbrev pub is_rooted : Text → Bool
is_rooted [] = false
is_rooted (c ∷ s) = c == slash

unfoldable pub clean : Text → Text
clean p =
    let rooted = is_rooted p in
    let names = join (reverse (resolve rooted [] (elements p))) in
    if rooted then slash ∷ names else if is_empty names then dot ∷ [] else names

-- The elements of `path.Join` that are not empty.
unfoldable pub not_empty : List Text → List Text
not_empty [] = []
not_empty (e ∷ es) = if is_empty e then not_empty es else e ∷ not_empty es

unfoldable pub path_join : List Text → Text
path_join es = elim (not_empty es) [ [] ↦ [] | k ∷ ks ↦ clean (join (k ∷ ks)) ]

unfoldable pub file_path : Ref → Text → Text
file_path r root = path_join (root ∷ r.dataset ∷ r.version ∷ r.object ∷ [])

-- `strings.CutPrefix`.
unfoldable pub cut_prefix : Text → Text → Option Text
cut_prefix [] s = some s
cut_prefix (p ∷ ps) [] = none
cut_prefix (p ∷ ps) (c ∷ s) = if p == c then cut_prefix ps s else none

unfoldable pub parse_file_path : Text → Text → Result Ref
parse_file_path root p =
    let base = clean root in
    if text_eq base (dot ∷ []) || text_eq base (slash ∷ [])
    then parse_object_key (clean p)
    else elim (cut_prefix (base ++ slash ∷ []) (clean p)) [
      | none ↦ failed not_under_root
      | some rest ↦ parse_object_key rest
    ]

-- ===== src/Agent/Names.antt =====
-- internal/agent/agent.go: which lease identifiers can be names of files in the borrowed pool.
use forebay.Prelude.{
  ℕ, ◌-◌, ◌≡◌, refl, ◌↔◌, Bool, false, not, ◌&&◌, ◌||◌, Option, none, some, List, [], ◌∷◌, ◌++◌,
  length, take, drop, ltb, ◌==◌, if◌then◌else◌, arith,
}
use forebay.Prelude.Text.{Text, bytes, text_eq, text_eq_refl}
use forebay.Lease.Types

pub data Error : Type 0 where
  bad_lease_id no_extent deadline_missed residual_data io : Error
  refused : Types.Error → Error

-- `strings.HasPrefix` and `strings.HasSuffix`.
unfoldable pub has_prefix : Text → Text → Bool
has_prefix s prefix = text_eq (take (length prefix) s) prefix

unfoldable pub has_suffix : Text → Text → Bool
has_suffix s suffix =
    not (ltb (length s) (length suffix)) && text_eq (drop (length s - length suffix) s) suffix

abbrev pub slash : ℕ
slash = 47

abbrev pub agent_file_prefix : Text
agent_file_prefix = bytes ".forebay-"

abbrev pub lock_name : Text
lock_name = agent_file_prefix ++ bytes "node.lock"

abbrev pub heartbeat_name : Text
heartbeat_name = agent_file_prefix ++ bytes "heartbeat"

abbrev pub invalid_suffix : Text
invalid_suffix = bytes ".invalid"

unfoldable pub contains : ℕ → Text → Bool
contains c [] = false
contains c (x ∷ xs) = (x == c) || contains c xs

-- The elements of a path between its slashes.
unfoldable pub elements : Text → List Text
elements [] = [] ∷ []
elements (c ∷ cs) =
    if c == slash
    then [] ∷ elements cs
    else elim (elements cs) [ [] ↦ (c ∷ []) ∷ [] | e ∷ es ↦ (c ∷ e) ∷ es ]

-- The elements that are kept, the last first: `.` goes, and `..` takes the one before it.
unfoldable pub keep_elements : Bool → List Text → List Text → List Text
keep_elements rooted kept [] = kept
keep_elements rooted kept (e ∷ es) =
    if text_eq e [] || text_eq e (bytes ".")
    then keep_elements rooted kept es
    else if text_eq e (bytes "..")
    then elim kept [
      | [] ↦ if rooted then keep_elements rooted [] es else keep_elements rooted (e ∷ []) es
      | k ∷ ks ↦
          if text_eq k (bytes "..")
          then keep_elements rooted (e ∷ k ∷ ks) es
          else keep_elements rooted ks es
    ]
    else keep_elements rooted (e ∷ kept) es

unfoldable pub join_elements : List Text → Text → Text
join_elements [] path = path
join_elements (k ∷ ks) path = join_elements ks (elim path [ [] ↦ k | p ∷ ps ↦ k ++ slash ∷ p ∷ ps ])

-- `filepath.Clean`.
unfoldable pub clean : Text → Text
clean path =
    let rooted = has_prefix path (slash ∷ []) in
    let body = join_elements (keep_elements rooted [] (elements path)) [] in
    if rooted then slash ∷ body else if text_eq body [] then bytes "." else body

unfoldable pub valid_lease_id : Text → Option Error
valid_lease_id id =
    if text_eq id [] || text_eq id (bytes ".") || text_eq id (bytes "..")
    then some bad_lease_id
    else if has_prefix id agent_file_prefix
    then some bad_lease_id
    else if has_suffix id invalid_suffix
    then some bad_lease_id
    else if contains slash id
    then some bad_lease_id
    else if not (text_eq id (clean id))
    then some bad_lease_id
    else none

-- What an identifier must be: one ordinary name that the agent has not reserved.
pub record IsName (id : Text) : Type 0 where
  pub named : (text_eq id [] || text_eq id (bytes ".") || text_eq id (bytes "..")) ≡ false
  pub own : has_prefix id agent_file_prefix ≡ false
  pub lasting : has_suffix id invalid_suffix ≡ false
  pub whole : contains slash id ≡ false

elements-whole : (s : Text) → contains slash s ≡ false → elements s ≡ s ∷ []
unfolding elements contains
elements-whole [] h = refl
elements-whole (c ∷ cs) h = ground (arith, elements-whole cs)

clean-whole :
    (s : Text)
    → contains slash s ≡ false
    → (text_eq s [] || text_eq s (bytes ".") || text_eq s (bytes "..")) ≡ false
    → clean s ≡ s
unfolding clean keep_elements join_elements has_prefix contains text_eq
clean-whole [] h n = absurd (ground (arith, n))
clean-whole (c ∷ cs) h n = ground (arith, h, n, elements-whole (c ∷ cs) h)

pub valid_lease_id-IsName : (id : Text) → valid_lease_id id ≡ none → IsName id
unfolding valid_lease_id
valid_lease_id-IsName id h = record {
  named = ground (arith, h);
  own = ground (arith, h);
  lasting = ground (arith, h);
  whole = ground (arith, h);
}

-- An identifier is accepted exactly when it is not empty, one dot or two dots, does not start as
-- the agent's own files do, does not end as a discarded extent does, and has no slash; so a dot
-- elsewhere is accepted, and the comparison with the clean form refuses no further identifier.
pub valid_lease_id-none_iff : (id : Text) → (valid_lease_id id ≡ none) ↔ IsName id
unfolding valid_lease_id
valid_lease_id-none_iff id = (
  valid_lease_id-IsName id,
  λ n.
      let c = clean-whole id n.whole n.named in
      ground (arith, c, n.named, n.own, n.lasting, n.whole, text_eq_refl id),
)

-- ===== src/Dataset/Tests.antt =====
-- Runs of the addresses of internal/dataset.
use forebay.Prelude.{◌≡◌, refl, subst, ◌⊎◌, ◌↔◌, none, some, ◌∷◌, arith}
use forebay.Prelude.Text.{Text, bytes, text_eq}
use forebay.Dataset.{
  done, failed, Ref, Placement, Resolver, slash, has_slash, validate, address, object_key,
  backend_address, cut, trim_slash, parse_object_key, elements, resolve, join, clean, not_empty,
  path_join, file_path, cut_prefix, parse_file_path, not_under_root,
}
use forebay.Dataset.Laws.{
  IsName, parse_object_key-object_key, parse_object_key-validate, backend_address-same_iff,
}

abbrev parent : Ref
parent = record { dataset = bytes "web"; version = bytes "v1"; object = bytes "a/b" }

abbrev child : Ref
child = record { dataset = bytes "fork"; version = bytes "v1"; object = bytes "a/b" }

-- Both versions are where the parent is.
abbrev shared : Resolver
shared d v = some (record { dataset = bytes "web"; version = bytes "v1" })

abbrev key : Text
key = bytes "web/v1/a/b"

parse_object_key-object_key_example : parse_object_key (object_key parent) ≡ done parent
unfolding validate has_slash
parse_object_key-object_key_example = parse_object_key-object_key parent refl

parse_object_key-validate_example :
    (validate parent ≡ none)
    × ((slash ∷ key ≡ object_key parent) ⊎ (slash ∷ key ≡ slash ∷ object_key parent))
unfolding parse_object_key validate has_slash cut trim_slash
parse_object_key-validate_example = parse_object_key-validate (slash ∷ key) parent refl

web-IsName : IsName (bytes "web") × IsName (bytes "v1")
unfolding has_slash
web-IsName = ((refl, refl), (refl, refl))

shared-IsName :
    (d v : Text) (p : Placement) → shared d v ≡ some p → IsName p.dataset × IsName p.version
shared-IsName d v p h =
    let e : record { dataset = bytes "web"; version = bytes "v1" } ≡ p = ground (arith, h) in
    subst (λ q. IsName q.dataset × IsName q.version) e web-IsName

backend_address-same_iff_example : (key ≡ key) ↔ (
    (shared parent.dataset parent.version ≡ shared child.dataset child.version)
    × (parent.object ≡ child.object))
unfolding backend_address validate has_slash address
backend_address-same_iff_example =
    backend_address-same_iff shared parent child key key shared-IsName refl refl

two_paths : file_path parent (bytes "/mnt/x") ≡ bytes "/mnt/x/web/v1/a/b"
unfolding file_path path_join not_empty clean resolve elements join text_eq
two_paths = refl

abbrev climbing : Ref
climbing = record { dataset = bytes ".."; version = bytes "v1"; object = bytes "a" }

climbing_passes : validate climbing ≡ none
unfolding validate has_slash
climbing_passes = refl

climbing_leaves : file_path climbing (bytes "/mnt/x") ≡ bytes "/mnt/v1/a"
unfolding file_path path_join not_empty clean resolve elements join text_eq
climbing_leaves = refl

climbing_is_lost :
    parse_file_path (bytes "/mnt/x") (file_path climbing (bytes "/mnt/x")) ≡ failed not_under_root
unfolding parse_file_path file_path path_join not_empty clean resolve elements join cut_prefix
    text_eq
climbing_is_lost = refl

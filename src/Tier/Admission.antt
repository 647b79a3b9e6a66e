-- ===== src/Tier/Admission.antt =====
-- internal/fasttier/admission.go: the record of first reads.
pub mod Laws
use forebay.Prelude.{ℕ, Bool, true, false, ◌||◌, ◌++◌, List, [], ◌∷◌, length, drop, if◌then◌else◌}
use forebay.Prelude.Int.{ℤ, pos, leb_ℤ}
use forebay.Tier.Types.{Key, key_eq, FirstReads}

unfoldable pub was_seen : Key → List Key → Bool
was_seen k [] = false
was_seen k (j ∷ js) = key_eq k j || was_seen k js

-- `sawBefore`: the record after it, and whether the key was there.
unfoldable pub saw_before : FirstReads → Key → FirstReads × Bool
saw_before f k =
    let kept = if leb_ℤ f.limit (pos (length f.seen)) then drop 1 f.seen else f.seen in
    if was_seen k f.seen
    then (f, true)
    else if leb_ℤ f.limit (pos 0)
    then (f, false)
    else (record f { seen = kept ++ k ∷ [] }, false)

unfoldable pub remove_key : Key → List Key → List Key
remove_key k [] = []
remove_key k (j ∷ js) = if key_eq k j then js else j ∷ remove_key k js

unfoldable pub forget : FirstReads → Key → FirstReads
forget f k = record f { seen = remove_key k f.seen }

unfoldable pub first_len : FirstReads → ℕ
first_len f = length f.seen

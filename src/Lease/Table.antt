-- ===== src/Lease/Table.antt =====
-- The map from identifiers to leases (`Manager.leases`) and the sums taken over it.
pub mod Laws
use forebay.Prelude.{Bool, Option, none, some, List, [], ◌∷◌, if◌then◌else◌}
use forebay.Prelude.Int.{ℤ, pos, eqb_ℤ}
use forebay.Prelude.Int64.{add64}
use forebay.Prelude.Text.{Text, text_eq}
use forebay.Lease.Types.{Lease, guaranteed}

-- `m.leases[id]`
unfoldable pub lookup : Text → List Lease → Option Lease
lookup k [] = none
lookup k (l ∷ ls) = if text_eq k l.id then some l else lookup k ls

-- `delete(m.leases, id)`
unfoldable pub erase : Text → List Lease → List Lease
erase k [] = []
erase k (l ∷ ls) = if text_eq k l.id then ls else l ∷ erase k ls

-- `m.leases[l.ID] = l`
unfoldable pub insert : Lease → List Lease → List Lease
insert l ls = l ∷ erase l.id ls

-- The sum of the sizes of the leases that a test selects, as the loops compute it.
unfoldable pub sum64 : (Lease → Bool) → List Lease → ℤ
sum64 p [] = pos 0
sum64 p (l ∷ ls) = if p l then add64 l.size (sum64 p ls) else sum64 p ls

abbrev pub is_guaranteed : Lease → Bool
is_guaranteed l = eqb_ℤ l.class guaranteed

abbrev pub is_held_by : Text → Lease → Bool
is_held_by t l = text_eq l.tenant t

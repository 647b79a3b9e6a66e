-- ===== src/Lease/Order.antt =====
-- `sortByReclaimOrder`: cheapest class first, oldest first within a class, then by identifier.
-- `sort.Slice` is any sort by that test; on distinct identifiers the test is total, so an
-- insertion sort gives the one result there is.
pub mod Laws
use forebay.Prelude.{Bool, List, [], ◌∷◌, if◌then◌else◌, not}
use forebay.Prelude.Int.{ltb_ℤ, eqb_ℤ}
use forebay.Prelude.Text.{text_lt}
use forebay.Lease.Types.{Lease}

unfoldable pub reclaim_before : Lease → Lease → Bool
reclaim_before a b =
    if not (eqb_ℤ a.class b.class)
    then ltb_ℤ a.class b.class
    else if not (eqb_ℤ a.granted_at b.granted_at)
    then ltb_ℤ a.granted_at b.granted_at
    else text_lt a.id b.id

unfoldable pub insert_sorted : Lease → List Lease → List Lease
insert_sorted l [] = l ∷ []
insert_sorted l (x ∷ xs) = if reclaim_before x l then x ∷ insert_sorted l xs else l ∷ x ∷ xs

unfoldable pub sort_by_reclaim_order : List Lease → List Lease
unfolding insert_sorted
sort_by_reclaim_order [] = []
sort_by_reclaim_order (x ∷ xs) = insert_sorted x (sort_by_reclaim_order xs)

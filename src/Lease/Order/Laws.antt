-- ===== src/Lease/Order/Laws.antt =====
-- `sortByReclaimOrder` of internal/lease/lease.go.
use mathlib.Core.List.Perm
use mathlib.Core.List.{Perm}
use forebay.Prelude.{◌≡◌, refl, ◌∙◌, true, false, List, [], ◌∷◌, All, arith, inl, inr, Bool-cases}
use forebay.Prelude.Text.{
  Text, text_eq, text_eq_sym, text_eq→eq, text_lt_total, text_lt_asym, text_lt_trans,
}
use forebay.Lease.Types.{Lease}
use forebay.Lease.Table.{lookup}
use forebay.Lease.Table.Laws.{Fresh, Distinct, Held, All-Held}
use forebay.Lease.Order.{reclaim_before, insert_sorted, sort_by_reclaim_order}

module _ {ℓ} (P : Lease → Type ℓ) where
  insert_sorted-All : (x : Lease) (ls : List Lease) → P x → All P ls → All P (insert_sorted x ls)
  unfolding insert_sorted
  insert_sorted-All x [] px h = (px, tt)
  insert_sorted-All x (y ∷ ls) px h = elim (Bool-cases (reclaim_before y x)) [
    | inl e ↦ rw e (h.0, insert_sorted-All x ls px h.1)
    | inr e ↦ rw e (px, h)
  ]

  sort-All : (ls : List Lease) → All P ls → All P (sort_by_reclaim_order ls)
  unfolding sort_by_reclaim_order
  sort-All [] h = tt
  sort-All (x ∷ ls) h = insert_sorted-All x (sort_by_reclaim_order ls) h.0 (sort-All ls h.1)

insert_sorted-Distinct :
    (x : Lease) (ls : List Lease) → Fresh x.id ls → Distinct ls → Distinct (insert_sorted x ls)
unfolding insert_sorted
insert_sorted-Distinct x [] f h = (tt, tt)
insert_sorted-Distinct x (y ∷ ls) f h = elim (Bool-cases (reclaim_before y x)) [
  | inl e ↦ rw e (
    insert_sorted-All (λ l. text_eq y.id l.id ≡ false) x ls (text_eq_sym y.id x.id ∙ f.0) h.0,
    insert_sorted-Distinct x ls f.1 h.1,
  )
  | inr e ↦ rw e (f, h)
]

pub sort-Distinct : (ls : List Lease) → Distinct ls → Distinct (sort_by_reclaim_order ls)
unfolding sort_by_reclaim_order
sort-Distinct [] h = tt
sort-Distinct (x ∷ ls) h =
    insert_sorted-Distinct x (sort_by_reclaim_order ls)
      (sort-All (λ l. text_eq x.id l.id ≡ false) ls h.0) (sort-Distinct ls h.1)

-- Every lease of the sorted list is the one that the map holds under its identifier.
pub sort-Held : (ls : List Lease) → Distinct ls → All (Held ls) (sort_by_reclaim_order ls)
sort-Held ls h = sort-All (Held ls) ls (All-Held ls h)

insert_sorted-perm : (x : Lease) (ls : List Lease) → Perm (insert_sorted x ls) (x ∷ ls)
unfolding insert_sorted
insert_sorted-perm x [] = Perm.refl _
insert_sorted-perm x (y ∷ ls) = elim (Bool-cases (reclaim_before y x)) [
  | inl e ↦ rw e (Perm.trans (Perm.cons y (insert_sorted-perm x ls)) (Perm.swap x y ls))
  | inr e ↦ rw e (Perm.refl _)
]

sort-perm : (ls : List Lease) → Perm (sort_by_reclaim_order ls) ls
unfolding sort_by_reclaim_order
sort-perm [] = Perm.refl _
sort-perm (x ∷ ls) =
    Perm.trans (insert_sorted-perm x (sort_by_reclaim_order ls)) (Perm.cons x (sort-perm ls))

-- No lease comes before one that is cheaper to drop.
abbrev pub IsOrdered : List Lease → Type 0
IsOrdered [] = Unit
IsOrdered (l ∷ ls) = All (λ x. reclaim_before x l ≡ false) ls × IsOrdered ls

reclaim_before_asym : (a b : Lease) → reclaim_before a b ≡ true → reclaim_before b a ≡ false
unfolding reclaim_before
reclaim_before_asym a b h = ground (arith, text_lt_asym a.id b.id)

reclaim_before_trans :
    (a b c : Lease)
    → reclaim_before b a ≡ false
    → reclaim_before c b ≡ false
    → reclaim_before c a ≡ false
unfolding reclaim_before
reclaim_before_trans a b c h k = ground (arith, text_lt_trans a.id b.id c.id)

-- On two identifiers the order decides.
reclaim_before_total :
    (a b : Lease) → reclaim_before a b ≡ false → reclaim_before b a ≡ false → a.id ≡ b.id
unfolding reclaim_before
reclaim_before_total a b h k = ground (arith, text_lt_total a.id b.id)

All-trans :
    (x y : Lease) (ls : List Lease)
    → reclaim_before y x ≡ false
    → All (λ z. reclaim_before z y ≡ false) ls
    → All (λ z. reclaim_before z x ≡ false) ls
All-trans x y [] h k = tt
All-trans x y (z ∷ ls) h k = (reclaim_before_trans x y z h k.0, All-trans x y ls h k.1)

insert_sorted-IsOrdered :
    (x : Lease) (ls : List Lease) → IsOrdered ls → IsOrdered (insert_sorted x ls)
unfolding insert_sorted
insert_sorted-IsOrdered x [] h = (tt, tt)
insert_sorted-IsOrdered x (y ∷ ls) h = elim (Bool-cases (reclaim_before y x)) [
  | inl e ↦ rw e (
    insert_sorted-All (λ z. reclaim_before z y ≡ false) x ls (reclaim_before_asym y x e) h.0,
    insert_sorted-IsOrdered x ls h.1,
  )
  | inr e ↦ rw e ((e, All-trans x y ls e h.0), h)
]

sort-IsOrdered : (ls : List Lease) → IsOrdered (sort_by_reclaim_order ls)
unfolding sort_by_reclaim_order
sort-IsOrdered [] = tt
sort-IsOrdered (x ∷ ls) = insert_sorted-IsOrdered x (sort_by_reclaim_order ls) (sort-IsOrdered ls)

-- The reclaim order of a list of leases is a permutation of it in which no lease comes before one
-- that is cheaper to drop.
sort_by_reclaim_order_lem :
    (ls : List Lease) → IsOrdered (sort_by_reclaim_order ls) × Perm (sort_by_reclaim_order ls) ls
sort_by_reclaim_order_lem ls = (sort-IsOrdered ls, sort-perm ls)

lookup-insert_sorted :
    (k : Text) (x : Lease) (ls : List Lease)
    → Fresh x.id ls
    → lookup k (insert_sorted x ls) ≡ lookup k (x ∷ ls)
unfolding lookup insert_sorted
lookup-insert_sorted k x [] f = refl
lookup-insert_sorted k x (y ∷ ls) f =
    ground (arith, lookup-insert_sorted k x ls f.1, text_eq→eq k x.id, text_eq→eq k y.id)

-- The sorted list finds what the map finds.
pub lookup-sort :
    (k : Text) (ls : List Lease) → Distinct ls → lookup k (sort_by_reclaim_order ls) ≡ lookup k ls
unfolding lookup sort_by_reclaim_order
lookup-sort k [] d = refl
lookup-sort k (x ∷ ls) d =
    lookup-insert_sorted k x (sort_by_reclaim_order ls)
      (sort-All (λ l. text_eq x.id l.id ≡ false) ls d.0)
    ∙ ground (arith, lookup-sort k ls d.1)

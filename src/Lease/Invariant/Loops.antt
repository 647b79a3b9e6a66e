-- ===== src/Lease/Invariant/Loops.antt =====
-- The loops of `expireLocked` and `Reclaim` of internal/lease/lease.go, and which leases they
-- take.
use forebay.Prelude.{
  ◌≡◌, refl, ◌∙◌, ◌||◌, some, none, List, [], ◌∷◌, ◌++◌, All, arith, inl, inr, Bool-cases,
  if◌then◌else◌,
}
use forebay.Prelude.Int.{ℤ, pos, ◌+ℤ◌, ◌≤ℤ◌, leb_ℤ, eqb_ℤ, parts_of_eq, int_laws}
use forebay.Prelude.Int64.{max_int64, add64, add64_exact}
use forebay.Prelude.Text.{Text}
use forebay.Lease.Types.{Lease, Manager, Result, elastic, is_expired}
use forebay.Lease.Table.{lookup, erase, is_guaranteed}
use forebay.Lease.Table.Laws.{
  total, Distinct, Fresh, Held, lookup-erase_ne, lookup-erase-none, erase-Fresh, Fresh-lookup,
  erase-Distinct, lookup-erase-some,
}
use forebay.Lease.Manager.{expire_loop, reclaim_loop}
use forebay.Lease.Invariant.{IsSound}
use forebay.Lease.Invariant.Release.{
  without, size_bounds, release_locked_lem, without-IsSound, All-Held-erase,
}

-- The leases whose term has run out.
abbrev pub expired_of : ℤ → List Lease → List Lease
expired_of now [] = []
expired_of now (l ∷ ls) =
    let rest = expired_of now ls in if is_expired l now then l ∷ rest else rest

-- The leases that the ladder takes: in order, never a guaranteed one, until `need` is met.
abbrev pub victims : ℤ → ℤ → List Lease → List Lease
victims need got [] = []
victims need got (l ∷ ls) =
    let passed = victims need got ls in
    let took = l ∷ victims need (got +ℤ l.size) ls in
    if leb_ℤ need got then [] else if is_guaranteed l then passed else took

abbrev pub ids : List Lease → List Text
ids [] = []
ids (l ∷ ls) = l.id ∷ ids ls

-- What `expireLocked` leaves in the result for the leases that it took.
abbrev pub with_expired : Result → List Lease → Result
with_expired res [] = res
with_expired res (l ∷ ls) =
    with_expired
      (record res { reclaimed = res.reclaimed +ℤ l.size; dropped = res.dropped ++ l.id ∷ [] }) ls

-- What the ladder leaves: an elastic lease among them is noted.
abbrev pub with_victims : Result → List Lease → Result
with_victims res [] = res
with_victims res (l ∷ ls) =
    with_victims
      (record res {
        reclaimed = res.reclaimed +ℤ l.size;
        dropped = res.dropped ++ l.id ∷ [];
        bounded = eqb_ℤ l.class elastic || res.bounded;
      })
      ls

module _ {Disk : Type 0} where
  -- The manager after some leases have gone.
  abbrev pub without_all : Manager Disk → List Lease → Manager Disk
  without_all m [] = m
  without_all m (l ∷ ls) = without_all (without m l) ls

  -- What was reclaimed and what is still lent fit an int64 together.
  abbrev pub Room : Manager Disk → ℤ → Type 0
  Room m got = (pos 0 ≤ℤ got) × (got +ℤ m.acct.borrowed ≤ℤ max_int64)

  add_size :
      (m : Manager Disk) (l : Lease) (got : ℤ)
      → IsSound m
      → Held m.leases l
      → Room m got
      → (add64 got l.size ≡ got +ℤ l.size) × Room (without m l) (got +ℤ l.size)
  add_size m l got s h r =
      let (p, q) = size_bounds m l s h in
      (add64_exact got l.size (omega int_laws), (omega int_laws, omega int_laws))

  pub expire_loop_lem :
      (ls : List Lease) (now : ℤ) (m : Manager Disk) (res : Result)
      → IsSound m
      → All (Held m.leases) ls
      → Distinct ls
      → Room m res.reclaimed
      → expire_loop ls now m res
        ≡ (without_all m (expired_of now ls), with_expired res (expired_of now ls))
  unfolding expire_loop
  expire_loop_lem [] now m res s h d r = refl
  expire_loop_lem (l ∷ ls) now m res s h d r = elim (Bool-cases (is_expired l now)) [
    | inr live ↦ ground (arith, live, expire_loop_lem ls now m res s h.1 d.1 r)
    | inl gone ↦
        let (e, r') = add_size m l res.reclaimed s h.0 r in
        ground (
          arith,
          gone,
          release_locked_lem m l s h.0,
          e,
          expire_loop_lem ls now (without m l)
              (record res {
                reclaimed = res.reclaimed +ℤ l.size;
                dropped = res.dropped ++ l.id ∷ [];
              })
              (without-IsSound m l s h.0) (All-Held-erase l m.leases ls d.0 h.1) d.1 r',
        )
  ]

  pub reclaim_loop_lem :
      (ls : List Lease) (need : ℤ) (m : Manager Disk) (res : Result)
      → IsSound m
      → All (Held m.leases) ls
      → Distinct ls
      → Room m res.reclaimed
      → reclaim_loop ls need m res ≡ (
        without_all m (victims need res.reclaimed ls),
        with_victims res (victims need res.reclaimed ls),
      )
  unfolding reclaim_loop
  reclaim_loop_lem [] need m res s h d r = refl
  reclaim_loop_lem (l ∷ ls) need m res s h d r = elim (Bool-cases (leb_ℤ need res.reclaimed)) [
    | inl met ↦ ground (arith, met)
    | inr unmet ↦ elim (Bool-cases (is_guaranteed l)) [
      | inl pinned ↦ ground (arith, unmet, pinned, reclaim_loop_lem ls need m res s h.1 d.1 r)
      | inr loose ↦
          let (e, r') = add_size m l res.reclaimed s h.0 r in
          ground (
            arith,
            unmet,
            loose,
            release_locked_lem m l s h.0,
            e,
            reclaim_loop_lem ls need (without m l)
                (record res {
                  reclaimed = res.reclaimed +ℤ l.size;
                  dropped = res.dropped ++ l.id ∷ [];
                  bounded = eqb_ℤ l.class elastic || res.bounded;
                })
                (without-IsSound m l s h.0) (All-Held-erase l m.leases ls d.0 h.1) d.1 r',
          )
    ]
  ]

  pub without_all-IsSound :
      (m : Manager Disk) (ls : List Lease)
      → IsSound m
      → All (Held m.leases) ls
      → Distinct ls
      → IsSound (without_all m ls)
  without_all-IsSound m [] s h d = s
  without_all-IsSound m (l ∷ ls) s h d =
      without_all-IsSound (without m l) ls (without-IsSound m l s h.0)
        (All-Held-erase l m.leases ls d.0 h.1) d.1

  -- What is left is the map less those identifiers.
  pub lookup-without_all :
      (k : Text) (m : Manager Disk) (ls : List Lease)
      → Fresh k ls
      → lookup k (without_all m ls).leases ≡ lookup k m.leases
  lookup-without_all k m [] f = refl
  lookup-without_all k m (l ∷ ls) f =
      lookup-without_all k (without m l) ls f.1 ∙ lookup-erase_ne k l.id m.leases f.0

  pub without_all_gone :
      (k : Text) (m : Manager Disk) (ls : List Lease)
      → lookup k m.leases ≡ none
      → lookup k (without_all m ls).leases ≡ none
  without_all_gone k m [] h = h
  without_all_gone k m (l ∷ ls) h =
      without_all_gone k (without m l) ls (lookup-erase-none k l.id m.leases h)

  pub without_all-missing :
      (m : Manager Disk) (ls : List Lease)
      → Distinct m.leases
      → Distinct ls
      → All (λ l. lookup l.id (without_all m ls).leases ≡ none) ls
  without_all-missing m [] d e = tt
  without_all-missing m (l ∷ ls) d e = (
    without_all_gone l.id (without m l) ls
        (Fresh-lookup l.id (erase l.id m.leases) (erase-Fresh l.id m.leases d)),
    without_all-missing (without m l) ls (erase-Distinct l.id m.leases d) e.1,
  )

  -- The accounting falls by what was taken.
  pub borrowed-without_all :
      (m : Manager Disk) (ls : List Lease)
      → (without_all m ls).acct.borrowed +ℤ total ls ≡ m.acct.borrowed
  borrowed-without_all m [] = omega int_laws
  borrowed-without_all m (l ∷ ls) =
      omega (int_laws, parts_of_eq (borrowed-without_all (without m l) ls))

  without_all_frame :
      (m : Manager Disk) (ls : List Lease)
      → without_all m ls
        ≡ record m { acct = (without_all m ls).acct; leases = (without_all m ls).leases }
  without_all_frame m [] = refl
  without_all_frame m (l ∷ ls) = without_all_frame (without m l) ls

-- Taking from the result what was there before.
pub reclaimed-with_victims :
    (res : Result) (ls : List Lease) → (with_victims res ls).reclaimed ≡ res.reclaimed +ℤ total ls
reclaimed-with_victims res [] = omega int_laws
reclaimed-with_victims res (l ∷ ls) = omega (
  int_laws,
  parts_of_eq (
      reclaimed-with_victims
        (record res {
          reclaimed = res.reclaimed +ℤ l.size;
          dropped = res.dropped ++ l.id ∷ [];
          bounded = eqb_ℤ l.class elastic || res.bounded;
        })
        ls),
)

pub reclaimed-with_expired :
    (res : Result) (ls : List Lease) → (with_expired res ls).reclaimed ≡ res.reclaimed +ℤ total ls
reclaimed-with_expired res [] = omega int_laws
reclaimed-with_expired res (l ∷ ls) = omega (
  int_laws,
  parts_of_eq (
      reclaimed-with_expired
        (record res { reclaimed = res.reclaimed +ℤ l.size; dropped = res.dropped ++ l.id ∷ [] })
        ls),
)

-- What is still found after some have gone was found before.
pub lookup-without_all-some :
    {Disk : Type 0} (k : Text) (m : Manager Disk) (ls : List Lease) (l : Lease)
    → Distinct m.leases
    → lookup k (without_all m ls).leases ≡ some l
    → lookup k m.leases ≡ some l
lookup-without_all-some k m [] l d h = h
lookup-without_all-some k m (x ∷ ls) l d h =
    lookup-erase-some k x.id m.leases l d
      (lookup-without_all-some k (without m x) ls l (erase-Distinct x.id m.leases d) h)

-- ===== src/Agent/Reconcile/Laws.antt =====
-- What `reconcile` of internal/agent/agent.go leaves: leases and files that agree.
use forebay.Prelude.{
  ◌≡◌, ◌⊎◌, refl, ap, sym, ◌∙◌, Bool, true, false, not, ◌&&◌, ◌||◌, Option, none, some, List, [],
  ◌∷◌, if◌then◌else◌, arith, inl, inr, Bool-cases, Option-cases,
}
use forebay.Prelude.Int.{ℤ}
use forebay.Prelude.Text.{Text, text_eq, text_eq→eq}
use forebay.Lease.Types.{Lease, Manager}
use forebay.Lease.Table.{lookup, erase}
use forebay.Lease.Table.Laws.{lookup-erase_ne, erase-Fresh, Fresh-lookup, lookup-id}
use forebay.Lease.Manager.{release}
use forebay.Lease.Invariant.{IsSound}
use forebay.Lease.Invariant.Release.{without}
use forebay.Lease.Invariant.Accept.{persist_locked_frame}
use forebay.Lease.Reclaim.Soundness.{release_lem, release-missing, release-IsSound}
use forebay.Agent.Names.{Error}
use forebay.Agent.Files.{Os, find_file}
use forebay.Agent.Extent.{Agent, invalidated_extents}
use forebay.Agent.Reconcile.{
  names_of, ids_of, is_in, trim_all, sort_names, Swept, sweep, missing_of, drop_missing, reconcile,
}
use forebay.Agent.Reconcile.Sweeping.{
  goes, ids_of-lookup, is_extent, is_in-ids_of, is_in-missing_of, is_in-names_of, is_in-sort_names,
  is_own, names_of-find_file, stays, sweep-lem,
}

either_gone :
    (a b : Bool) (x y : Option Lease)
    → y ≡ (if a then none else x)
    → (if b then none else y) ≡ (if a || b then none else x)
either_gone a b x y h = ground (arith, h)

-- Releasing one lease after the other leaves those that are not named.
module _ {Disk : Type 0} where
  lookup-release :
      (m : Manager Disk) (id j : Text)
      → IsSound m
      → (release m id).2 ≡ none
      → lookup j (release m id).0.leases ≡ (if text_eq j id then none else lookup j m.leases)
  lookup-release m id j s h = elim (Option-cases (lookup id m.leases)) [
    | inl e ↦ absurd (ground (arith, h, release-missing m id e))
    | inr (l, e) ↦
        let own : l.id ≡ id = sym (lookup-id id m.leases l e) in
        rw (release_lem m id l s e) (
          rw (persist_locked_frame (without m l)) (
            rw own (elim (Bool-cases (text_eq j id)) [
              | inl same ↦
                  rw (same, text_eq→eq j id same)
                    (Fresh-lookup id (erase id m.leases) (erase-Fresh id m.leases s.distinct))
              | inr apart ↦ rw apart (lookup-erase_ne j id m.leases apart)
            ])))
  ]

  drop_missing-lookup :
      (interrupted ids : List Text) (m : Manager Disk) (j : Text)
      → IsSound m
      → (drop_missing interrupted ids m).2 ≡ none
      → lookup j (drop_missing interrupted ids m).0.leases
        ≡ (if is_in j ids then none else lookup j m.leases)
  unfolding drop_missing is_in
  drop_missing-lookup interrupted [] m j s h = refl
  drop_missing-lookup interrupted (id ∷ ids) m j s h = elim (Option-cases ((release m id).2)) [
    | inr (x, bad) ↦ absurd (ground (arith, h, bad))
    | inl fine ↦
        let a = lookup-release m id j s fine in
        let b =
          drop_missing-lookup interrupted ids (release m id).0 j (release-IsSound m id s)
            (ground (arith, h, fine)) in
        rw (drop_missing, fine)
          (b ∙ either_gone (text_eq j id) (is_in j ids) (lookup j m.leases) _ a)
  ]

-- Each lease has its extent on disk, and each file that is not the agent's own is the extent of a
-- lease.
pub record Agrees {Disk : Type 0} (a : Agent Disk) : Type 0 where
  pub extents :
      (id : Text) (l : Lease)
      → lookup id a.leases.leases ≡ some l
      → (n : ℤ) × (find_file id a.files ≡ some n)
  pub leased :
      (name : Text) (n : ℤ)
      → find_file name a.files ≡ some n
      → (is_own name ≡ true) ⊎ ((l : Lease) × (lookup name a.leases.leases ≡ some l))

or_nothing : (b : Bool) → (b || false) ≡ b
or_nothing b = ground arith

-- What the tests of an entry come to.
stays_live :
    (live : List Text) (name : Text)
    → is_extent name ≡ true
    → is_in name live ≡ true
    → stays live name ≡ true
stays_live live name e l = ground (arith, e, l)

stays_leased :
    (live : List Text) (name : Text)
    → stays live name ≡ true
    → is_own name ≡ false
    → (is_in name live ≡ true) × (is_extent name ≡ true)
stays_leased live name k o = ground (arith, k, o)

kept_file :
    (gone : Bool) (x : Option ℤ) (n : ℤ)
    → (if gone then none else x) ≡ some n
    → (gone ≡ false) × (x ≡ some n)
kept_file gone x n h = ground (arith, h)

kept_lease :
    (gone : Bool) (x : Option Lease) (l : Lease)
    → (if gone then none else x) ≡ some l
    → (gone ≡ false) × (x ≡ some l)
kept_lease gone x l h = ground (arith, h)

both : (a b : Bool) → (a && b) ≡ true → (a ≡ true) × (b ≡ true)
both a b h = ground (arith, h)

module _ {Disk : Type 0} (os : Os) (a : Agent Disk) (s : IsSound a.leases) where
  abbrev names : List Text
  names = names_of a.files

  abbrev live : List Text
  live = ids_of (a.leases.leases)

  abbrev swept : Swept
  swept =
      sweep os live names
        (record { files = a.files; on_disk = []; leftovers = []; orphans = []; failed = none })

  abbrev missing : List Text
  missing = sort_names (missing_of swept.on_disk live)

  abbrev dropped : Manager Disk × List Text × Option Error
  dropped = drop_missing (trim_all (invalidated_extents names)) missing a.leases

  -- What `reconcile` leaves where it reports no error.
  reconcile_cases :
      (unreadable : Bool)
      → (reconcile os unreadable a).2 ≡ none
      → (swept.failed ≡ none)
        × (dropped.2 ≡ none)
        × ((reconcile os unreadable a).0 ≡ record a { files = swept.files; leases = dropped.0 })
  unfolding reconcile
  reconcile_cases unreadable h = elim (Bool-cases unreadable) [
    | inl bad ↦ absurd (ground (arith, h, bad))
    | inr read ↦ elim (Option-cases swept.failed) [
      | inr (x, bad) ↦ absurd (ground (arith, h, read, bad))
      | inl fine ↦ (fine, ground (arith, h, read, fine), ground (arith, read, fine))
    ]
  ]

  is_in-missing :
      (j : Text)
      → swept.failed ≡ none
      → is_in j missing ≡ (is_in j live && not (is_in j names && is_extent j))
  unfolding is_in
  is_in-missing j fine =
      let (_, d) = sweep-lem os live names j _ refl fine in
      is_in-sort_names j (missing_of swept.on_disk live)
      ∙ is_in-missing_of j swept.on_disk live
      ∙ ap (λ z. is_in j live && not z) (d ∙ or_nothing (is_in j names && is_extent j))

  -- On a sound manager, where reconcile reports no error, every lease that is left has an extent
  -- in the pool and every file in the pool but the lock and the heartbeat is the extent of a lease
  -- that is left.
  pub reconcile-Agrees :
      (unreadable : Bool)
      → (reconcile os unreadable a).2 ≡ none
      → Agrees (reconcile os unreadable a).0
  reconcile-Agrees unreadable h =
      let (fine, gone, e) = reconcile_cases unreadable h in
      rw e (record {
        extents = λ id l held.
            let d =
              drop_missing-lookup (trim_all (invalidated_extents names)) missing a.leases id s
                gone in
            let (c, _) = sweep-lem os live names id _ refl fine in
            let (there, before) =
              kept_lease (is_in id missing) (lookup id a.leases.leases) l (sym d ∙ held) in
            let listed : is_in id live ≡ true = is_in-ids_of id a.leases.leases l before in
            let on_disk : (is_in id names && is_extent id) ≡ true =
              ground (arith, there, listed, is_in-missing id fine) in
            let (found, extent) = both (is_in id names) (is_extent id) on_disk in
            let (n, f) = names_of-find_file id a.files found in
            (n, c ∙ rw (stays_live live id extent listed, found) f);
        leased = λ name n there.
            let d =
              drop_missing-lookup (trim_all (invalidated_extents names)) missing a.leases name s
                gone in
            let (c, _) = sweep-lem os live names name _ refl fine in
            let (stay, before) =
              kept_file (goes os live names name) (find_file name a.files) n (sym c ∙ there) in
            let listed = is_in-names_of name a.files n before in
            let keep : stays live name ≡ true = ground (arith, stay, listed) in
            elim (Bool-cases (is_own name)) [
              | inl own ↦ inl own
              | inr other ↦
                  let (held, extent) = stays_leased live name keep other in
                  let (l, e) = ids_of-lookup name a.leases.leases held in
                  let kept : is_in name missing ≡ false =
                    ground (arith, is_in-missing name fine, held, extent, listed) in
                  inr (l, d ∙ rw kept e)
            ];
      })

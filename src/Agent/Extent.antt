-- ===== src/Agent/Extent.antt =====
-- internal/agent/extent.go and the part of agent.go that tells a holder: the extent of a lease as a
-- file. A call of the operating system may fail for each name.
pub mod Laws
pub mod Backed
pub mod Reclaimed
use forebay.Prelude.{
  ℕ, ◌≡◌, Bool, true, false, not, ◌&&◌, ◌||◌, Option, none, some, List, [], ◌∷◌, ◌++◌,
  if◌then◌else◌,
}
use forebay.Prelude.Int.{ℤ, pos, ltb_ℤ}
use forebay.Prelude.Text.{Text}
use forebay.Lease.Types.{Lease, Manager, Result}
use forebay.Lease.Manager.{accept, release, reclaim}
use forebay.Agent.Names.{
  Error, bad_lease_id, residual_data, no_extent, deadline_missed, io, refused, invalid_suffix,
  valid_lease_id, has_suffix,
}
use forebay.Agent.Files.{Files, Os, find_file, drop_file, put_file}

-- A call of what `OnGranted` or `OnReleasing` registered.
pub data Event : Type 0 where
  granted_lease : Text → Event
  releasing_leases : List Text → Event

-- `Agent`: its leases, the borrowed pool, whether a holder is registered, and what it was told.
pub record Agent (Disk : Type 0) : Type 0 where
  pub leases : Manager Disk
  pub files : Files
  pub granted_fn : Bool
  pub releasing_fn : Bool
  pub told : List Event

-- The extent of a lease is the file of its name in the borrowed pool.
unfoldable pub extent_path : Text → Option Error
extent_path id = valid_lease_id id

unfoldable pub allocate : Os → Files → Text → ℤ → Files × Option Error
allocate os files id size = elim (extent_path id) [
  | some e ↦ (files, some e)
  | none ↦ if os.open_fails id then (files, some io) else elim (find_file id files) [
    | some _ ↦ (files, some io)
    | none ↦
        if os.reserve_fails id
        then (if os.remove_fails id
            then (put_file id (pos 0) files, some io)
            else (drop_file id (put_file id (pos 0) files), some io))
        else if os.close_fails id
        then (put_file id size files, some io)
        else (put_file id size files, none)
  ]
]

unfoldable pub discard : Os → Files → Text → Files × Option Error
discard os files id = elim (extent_path id) [
  | some e ↦ (files, some e)
  | none ↦
      let invalid = id ++ invalid_suffix in
      if os.rename_fails id then (files, some io) else elim (find_file id files) [
        | none ↦ (files, some no_extent)
        | some size ↦
            let renamed = put_file invalid size (drop_file id files) in
            if os.remove_fails invalid
            then (renamed, some io)
            else (drop_file invalid renamed, none)
      ]
]

pub record Reclamation : Type 0 where
  pub result : Result
  pub elapsed : ℤ
  pub deadline : ℤ
  pub overran : Bool
  pub failed : List Text

-- `err != nil && !errors.Is(err, ErrNoExtent)`
unfoldable pub is_left : Option Error → Bool
is_left none = false
is_left (some no_extent) = false
is_left (some bad_lease_id) = true
is_left (some deadline_missed) = true
is_left (some residual_data) = true
is_left (some io) = true
is_left (some (refused x)) = true

-- The loop of `ReclaimCapacity`: the extents that could not be unlinked.
unfoldable pub discard_all : Os → Files → List Text → Files × List Text
discard_all os files [] = (files, [])
discard_all os files (id ∷ ids) =
    let (f, e) = discard os files id in
    let (g, failed) = discard_all os f ids in (g, if is_left e then id ∷ failed else failed)

module _ {Disk : Type 0} where
  unfoldable pub granted : Agent Disk → Text → Agent Disk
  granted a id =
      if a.granted_fn
      then elim (extent_path id) [
        | some _ ↦ a
        | none ↦ record a { told = a.told ++ granted_lease id ∷ [] }
      ]
      else a

  unfoldable pub releasing : Agent Disk → List Text → Agent Disk
  releasing a [] = a
  releasing a (id ∷ ids) =
      if a.releasing_fn then record a { told = a.told ++ releasing_leases (id ∷ ids) ∷ [] } else a

  unfoldable pub grant : Os → Agent Disk → Lease → ℤ → Agent Disk × Option Error
  grant os a l now =
      let (m, e) = accept a.leases l now in
      elim e [
        | some x ↦ (record a { leases = m }, some (refused x))
        | none ↦
            let (f, failed) = allocate os a.files l.id l.size in
            elim failed [
              | some x ↦ (record a { leases = (release m l.id).0; files = f }, some x)
              | none ↦ (granted (record a { leases = m; files = f }) l.id, none)
            ]
      ]

  unfoldable pub release_extent : Os → Agent Disk → Text → Agent Disk × ℤ × Option Error
  release_extent os a id =
      let b = releasing a (id ∷ []) in
      let (f, e) = discard os b.files id in
      elim e [
        | some x ↦ (record b { files = f }, pos 0, some x)
        | none ↦
            let (m, size, failed) = release b.leases id in
            (
              record b { leases = m; files = f },
              size,
              elim failed [ none ↦ none | some x ↦ some (refused x) ],
            )
      ]

  -- `elapsed` is what the clock measures from the start of the call.
  unfoldable pub reclaim_capacity :
      Os → Agent Disk → ℤ → ℤ → ℤ → Agent Disk × Reclamation × Option Error
  reclaim_capacity os a need now elapsed =
      let (m, result) = reclaim a.leases need now in
      let b = releasing (record a { leases = m }) result.dropped in
      let (f, failed) = discard_all os b.files result.dropped in
      let deadline = if result.bounded then a.leases.cfg.reclaim_within else pos 0 in
      let overran = ltb_ℤ (pos 0) deadline && ltb_ℤ deadline elapsed in
      (
        record b { files = f },
        record {
          result = result;
          elapsed = elapsed;
          deadline = deadline;
          overran = overran;
          failed = failed;
        },
        elim failed [ _ ∷ _ ↦ some io | [] ↦ if overran then some deadline_missed else none ],
      )

-- The names that an interrupted `discard` left.
unfoldable pub invalidated_extents : List Text → List Text
invalidated_extents [] = []
invalidated_extents (name ∷ names) =
    if has_suffix name invalid_suffix
    then name ∷ invalidated_extents names
    else invalidated_extents names

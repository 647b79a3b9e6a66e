-- ===== src/Agent/Reconcile.antt =====
-- internal/agent/agent.go: `reconcile`, which makes the leases and the borrowed pool agree.
pub mod Sweeping
pub mod Laws
use forebay.Prelude.{
  ℕ, ◌-◌, Bool, true, false, not, ◌&&◌, ◌||◌, Option, none, some, List, [], ◌∷◌, length, take, ◌++◌,
  if◌then◌else◌,
}
use forebay.Prelude.Int.{ℤ}
use forebay.Prelude.Text.{Text, text_eq, text_lt}
use forebay.Lease.Types.{Lease, Manager}
use forebay.Lease.Manager.{release}
use forebay.Agent.Names.{
  Error, io, refused, agent_file_prefix, lock_name, heartbeat_name, invalid_suffix, has_prefix,
  has_suffix,
}
use forebay.Agent.Files.{Files, Os, drop_file}
use forebay.Agent.Extent.{Agent, invalidated_extents}

-- The fields of `Reconciliation` that `reconcile` fills.
pub record Reconciliation : Type 0 where
  pub invalidated : List Text
  pub leftovers : List Text
  pub orphans : List Text
  pub without_extents : List Text

unfoldable pub names_of : Files → List Text
names_of [] = []
names_of ((k, n) ∷ fs) = k ∷ names_of fs

unfoldable pub ids_of : List Lease → List Text
ids_of [] = []
ids_of (l ∷ ls) = l.id ∷ ids_of ls

unfoldable pub is_in : Text → List Text → Bool
is_in k [] = false
is_in k (j ∷ js) = text_eq k j || is_in k js

-- `strings.TrimSuffix`
unfoldable pub trim_suffix : Text → Text → Text
trim_suffix s suffix = if has_suffix s suffix then take (length s - length suffix) s else s

unfoldable pub trim_all : List Text → List Text
trim_all [] = []
trim_all (k ∷ ks) = trim_suffix k invalid_suffix ∷ trim_all ks

-- `sort.Strings`
unfoldable pub insert_name : Text → List Text → List Text
insert_name k [] = k ∷ []
insert_name k (j ∷ js) = if text_lt j k then j ∷ insert_name k js else k ∷ j ∷ js

unfoldable pub sort_names : List Text → List Text
sort_names [] = []
sort_names (k ∷ ks) = insert_name k (sort_names ks)

-- The loop over the entries: the files left, what is on disk, what goes into the report, and
-- whether a file could not be removed.
pub record Swept : Type 0 where
  pub files : Files
  pub on_disk : List Text
  pub leftovers : List Text
  pub orphans : List Text
  pub failed : Option Error

-- The body of the loop for one entry.
unfoldable pub sweep_one : Os → List Text → Text → Swept → Swept
sweep_one os live name s =
    let gone = record s { files = drop_file name s.files } in
    let seen = record s { on_disk = name ∷ s.on_disk } in
    let removed = record seen { files = drop_file name s.files } in
    if text_eq name lock_name || text_eq name heartbeat_name
    then s
    else if has_prefix name agent_file_prefix
    then (if os.remove_fails name
        then record s { failed = some io }
        else record gone { leftovers = s.leftovers ++ name ∷ [] })
    else if is_in name live
    then seen
    else if os.remove_fails name
    then record seen { failed = some io }
    else if has_suffix name invalid_suffix
    then removed
    else record removed { orphans = s.orphans ++ name ∷ [] }

unfoldable pub sweep : Os → List Text → List Text → Swept → Swept
sweep os live [] s = s
sweep os live (name ∷ names) s =
    let t = sweep_one os live name s in
    let rest = sweep os live names t in elim t.failed [ some _ ↦ t | none ↦ rest ]

-- The leases whose extent is gone.
unfoldable pub missing_of : List Text → List Text → List Text
missing_of on_disk [] = []
missing_of on_disk (id ∷ ids) =
    if is_in id on_disk then missing_of on_disk ids else id ∷ missing_of on_disk ids

-- The loop over them: the manager, what goes into the report, and whether a release failed.
module _ {Disk : Type 0} where
  unfoldable pub drop_missing :
      List Text → List Text → Manager Disk → Manager Disk × List Text × Option Error
  drop_missing interrupted [] m = (m, [], none)
  drop_missing interrupted (id ∷ ids) m =
      let (m', size, failed) = release m id in
      let (m2, dropped, rest) = drop_missing interrupted ids m' in
      elim failed [
        | some x ↦ (m', [], some (refused x))
        | none ↦ (m2, if is_in id interrupted then dropped else id ∷ dropped, rest)
      ]

  -- `unreadable` is that the pool could not be listed.
  unfoldable pub reconcile : Os → Bool → Agent Disk → Agent Disk × Reconciliation × Option Error
  reconcile os unreadable a =
      let nothing : Reconciliation = record {
        invalidated = [];
        leftovers = [];
        orphans = [];
        without_extents = [];
      } in
      let names = names_of a.files in
      let live = ids_of (a.leases.leases) in
      let invalidated = invalidated_extents names in
      let swept =
        sweep os live names
          (record { files = a.files; on_disk = []; leftovers = []; orphans = []; failed = none }) in
      let missing = sort_names (missing_of swept.on_disk live) in
      let (m, dropped, failed) = drop_missing (trim_all invalidated) missing a.leases in
      let report : Reconciliation = record {
        invalidated = invalidated;
        leftovers = swept.leftovers;
        orphans = swept.orphans;
        without_extents = [];
      } in
      if unreadable then (a, nothing, some io) else elim swept.failed [
        | some x ↦ (record a { files = swept.files }, report, some x)
        | none ↦ (
          record a { files = swept.files; leases = m },
          record report { without_extents = dropped },
          failed,
        )
      ]

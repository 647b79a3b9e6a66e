-- ===== src/Agent/Open.antt =====
-- internal/agent/agent.go: `Open`, and the probe of residual.go that ends it.
pub mod Laws
use forebay.Prelude.{
  ℕ, Bool, true, false, not, ◌&&◌, ◌||◌, Option, none, some, List, [], ◌∷◌, ◌++◌, if◌then◌else◌,
}
use forebay.Prelude.Int.{ℤ, pos}
use forebay.Prelude.Text.{Text, bytes}
use forebay.Lease.Types
use forebay.Lease.Types.{Manager, Result}
use forebay.Lease.Restore.{restore}
use forebay.Agent.Names.{Error, io, residual_data, refused, invalid_suffix, lock_name}
use forebay.Agent.Files.{Files, Os, find_file, drop_file, put_file}
use forebay.Agent.Extent.{Agent}
use forebay.Agent.Layout.{LayoutError}
use forebay.Agent.Reconcile.{Reconciliation, reconcile}
use forebay.Agent.Pressure.{heartbeat}
use forebay.Agent.Residual.{Scan, clean_extent, dirty_at, stopped_at, Reader, scan_zeros}

abbrev pub probe_name : Text
probe_name = bytes "residual-probe" ++ invalid_suffix

abbrev pub probe_size : ℕ
probe_size = 4194304

unfoldable pub scan_error : Scan → Option Error
scan_error clean_extent = none
scan_error (dirty_at i b) = some residual_data
scan_error (stopped_at i) = some io

unfoldable pub has_file : Text → Files → Bool
has_file k files = elim (find_file k files) [ none ↦ false | some _ ↦ true ]

-- `VerifyNoResidualData`; `fresh` is what a read of the reserved probe gives. Removing the probe at
-- the end may fail and is not reported.
unfoldable pub verify_pool : Os → Reader → Files → Files × Option Error
verify_pool os fresh files =
    let cleared = drop_file probe_name files in
    let probed = put_file probe_name (pos 0) cleared in
    let left = if os.remove_fails probe_name then probed else drop_file probe_name probed in
    if has_file probe_name files && os.remove_fails probe_name
    then (files, some io)
    else if os.open_fails probe_name
    then (cleared, some io)
    else if os.reserve_fails probe_name
    then (left, some io)
    else (left, scan_error (scan_zeros fresh probe_size))

-- Why there is no agent.
pub data Refusal : Type 0 where
  bad_layout : LayoutError → Refusal
  no_directory no_lock_file locked : Refusal
  not_replayed : Types.Error → Refusal
  not_ready : Error → Refusal

-- What the system answers to `Open` that is not a file of the pool.
pub record Start : Type 0 where
  pub layout : Option LayoutError
  pub mkdir_fails : Bool
  pub is_locked : Bool
  pub unreadable : Bool
  pub temporary : Text
  pub fresh : Reader

-- `errors.Is(journalErr, lease.ErrCorrupt)` or no error.
unfoldable pub is_recoverable : Option Types.Error → Bool
is_recoverable none = true
is_recoverable (some Types.corrupt) = true
is_recoverable (some _) = false

-- An agent with what its start corrected and what the journal could not give, or a refusal and what
-- is in the pool.
pub data Opened (Disk : Type 0) : Type 0 where
  opened : Agent Disk → Result → Reconciliation → Option Types.Error → Opened Disk
  not_opened : Refusal → Files → Opened Disk

module _ {Disk : Type 0} where
  -- The end of `Open`, after the leases were replayed.
  unfoldable pub settle_in : Os → Start → Agent Disk → Result → Option Types.Error → Opened Disk
  settle_in os start a restored journal_error =
      let (b, report, reconcile_error) = reconcile os start.unreadable a in
      let (c, beat_error) = heartbeat os start.temporary b in
      let (files, probe_error) = verify_pool os start.fresh c.files in
      elim beat_error [
        | some x ↦ not_opened (not_ready x) c.files
        | none ↦ elim reconcile_error [
          | some x ↦ not_opened (not_ready x) c.files
          | none ↦ elim probe_error [
            | some x ↦ not_opened (not_ready x) files
            | none ↦ opened (record c { files = files }) restored report journal_error
          ]
        ]
      ]

  -- `Open`, on a manager that `New` made and what is in the pool.
  unfoldable pub open_agent : Os → Start → Manager Disk → Files → ℤ → Opened Disk
  open_agent os start m files now =
      let locked_files =
        if has_file lock_name files then files else put_file lock_name (pos 0) files in
      let (m', restored, journal_error) = restore m now in
      let a : Agent Disk = record {
        leases = m';
        files = locked_files;
        granted_fn = false;
        releasing_fn = false;
        told = [];
      } in
      let settled = settle_in os start a restored journal_error in
      elim start.layout [
        | some e ↦ not_opened (bad_layout e) files
        | none ↦
            if start.mkdir_fails
            then not_opened no_directory files
            else if os.open_fails lock_name
            then not_opened no_lock_file files
            else if start.is_locked
            then not_opened locked locked_files
            else if is_recoverable journal_error
            then settled
            else elim journal_error [
              | none ↦ settled
              | some e ↦ not_opened (not_replayed e) locked_files
            ]
      ]

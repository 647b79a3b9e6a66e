-- ===== src/Agent/Pressure.antt =====
-- internal/agent/pressure.go and the heartbeat of liveness.go: one pass of the watch over free space.
pub mod Laws
use forebay.Prelude.{
  ℕ, Bool, true, false, not, ◌&&◌, ◌||◌, Option, none, some, List, [], ◌∷◌, ◌++◌, if◌then◌else◌,
}
use forebay.Prelude.Int.{ℤ, pos, ◌-ℤ◌, ltb_ℤ, leb_ℤ}
use forebay.Prelude.Int64.{sub64}
use forebay.Prelude.Text.{Text, bytes}
use forebay.Agent.Names.{
  Error, bad_lease_id, no_extent, residual_data, refused, io, deadline_missed, heartbeat_name,
}
use forebay.Agent.Files.{Os, drop_file, put_file}
use forebay.Agent.Extent.{Agent, Reclamation, reclaim_capacity}

pub record Pressure : Type 0 where
  pub source : Text
  pub need : ℤ

-- The loop of `Shortfall`.
unfoldable pub worst_of : Pressure → List Pressure → Pressure
worst_of worst [] = worst
worst_of worst (o ∷ os) = worst_of (if ltb_ℤ worst.need o.need then o else worst) os

unfoldable pub shortfall : List Pressure → Pressure
shortfall observed = worst_of (record { source = bytes "none"; need = pos 0 }) observed

pub record WatchConfig : Type 0 where
  pub headroom : ℤ
  pub headroom_for : ℤ
  pub min_headroom : ℤ
  pub interval : ℤ

pub data WatchError : Type 0 where
  no_headroom two_floors no_minimum bad_interval : WatchError

unfoldable pub validate_watch : WatchConfig → Option WatchError
validate_watch c =
    if leb_ℤ c.headroom (pos 0) && leb_ℤ c.headroom_for (pos 0)
    then some no_headroom
    else if ltb_ℤ (pos 0) c.headroom && ltb_ℤ (pos 0) c.headroom_for
    then some two_floors
    else if ltb_ℤ (pos 0) c.headroom_for && leb_ℤ c.min_headroom (pos 0)
    then some no_minimum
    else if leb_ℤ c.interval (pos 0)
    then some bad_interval
    else none

-- What the floating point arithmetic of the source computes: the rate, from what free and borrowed
-- space were and are and from the time between, and the bytes that a rate comes to over a duration.
pub record Rates (F : Type 0) : Type 0 where
  pub zero_rate : F
  pub rate_of : ℤ → ℤ → ℤ → ℤ → ℤ → F
  pub bytes_in : F → ℤ → ℤ

-- `rateEstimator`, where it has observed.
pub record Estimate : Type 0 where
  pub free : ℤ
  pub borrowed : ℤ
  pub at_time : ℤ

-- What a source answers: a need, a need with an error (`Partial`), or an error alone.
pub data Observation : Type 0 where
  saw : ℤ → Observation
  partly : ℤ → Observation
  blind : Observation

pub record Tick (F : Type 0) : Type 0 where
  pub observed : Pressure
  pub reclaimed : ℤ
  pub degraded : List Text
  pub shortfall : ℤ
  pub target : ℤ
  pub rate : F
  pub elapsed : ℤ
  pub bounded : Bool

-- A pass that has reclaimed nothing so far.
abbrev pub tick_of : {F : Type 0} → ℤ → F → Pressure → List Text → Tick F
tick_of target rate observed degraded = record {
  observed = observed;
  reclaimed = pos 0;
  degraded = degraded;
  shortfall = pos 0;
  target = target;
  rate = rate;
  elapsed = pos 0;
  bounded = false;
}

-- What a reclaim adds to the report.
abbrev pub reclaimed_tick : {F : Type 0} → Tick F → Reclamation → Tick F
reclaimed_tick t rec = record t {
  reclaimed = rec.result.reclaimed;
  shortfall = rec.result.shortfall;
  elapsed = rec.elapsed;
  bounded = rec.result.bounded;
}

-- An error other than a missed deadline ends the pass.
unfoldable pub fatal : Option Error → Option Error
fatal none = none
fatal (some deadline_missed) = none
fatal (some bad_lease_id) = some bad_lease_id
fatal (some no_extent) = some no_extent
fatal (some residual_data) = some residual_data
fatal (some io) = some io
fatal (some (refused x)) = some (refused x)

-- The loop over the sources: what they saw, and the names of those that failed.
unfoldable pub consult : List (Text × Observation) → List Pressure × List Text
consult [] = ([], [])
consult ((name, o) ∷ sources) =
    let (seen, degraded) = consult sources in
    elim o [
      | saw need ↦ (record { source = name; need = need } ∷ seen, degraded)
      | partly need ↦ (record { source = name; need = need } ∷ seen, name ∷ degraded)
      | blind ↦ (seen, name ∷ degraded)
    ]

module _ {F : Type 0} (rates : Rates F) where
  unfoldable pub estimate : Option Estimate → ℤ → ℤ → ℤ → Estimate × F × Bool
  estimate before free borrowed now =
      let after : Estimate = record { free = free; borrowed = borrowed; at_time = now } in
      elim before [
        | none ↦ (after, rates.zero_rate, false)
        | some b ↦
            if leb_ℤ (now -ℤ b.at_time) (pos 0)
            then (after, rates.zero_rate, false)
            else (after, rates.rate_of b.free b.borrowed free borrowed (now -ℤ b.at_time), true)
      ]

  unfoldable pub target_of : WatchConfig → F → Bool → ℤ
  target_of c rate known =
      let want = rates.bytes_in rate c.headroom_for in
      if ltb_ℤ (pos 0) c.headroom
      then c.headroom
      else if not known
      then c.min_headroom
      else if ltb_ℤ c.min_headroom want
      then want
      else c.min_headroom

module _ {Disk : Type 0} where
  -- `temporary` is the name that `os.CreateTemp` makes up.
  unfoldable pub heartbeat : Os → Text → Agent Disk → Agent Disk × Option Error
  heartbeat os temporary a =
      let cleaned =
        if os.remove_fails temporary
        then put_file temporary (pos 0) a.files
        else drop_file temporary a.files in
      if os.open_fails temporary
      then (a, some io)
      else if os.write_fails temporary || os.close_fails temporary || os.rename_fails temporary
      then (record a { files = cleaned }, some io)
      else (
        record a { files = put_file heartbeat_name (pos 0) (drop_file temporary a.files) },
        none,
      )

  -- The end of `Step`, for the pressure that the pass settled on.
  unfoldable pub react :
      {F : Type 0}
      → Os
      → Text
      → Option Estimate
      → Tick F
      → ℤ
      → ℤ
      → Agent Disk
      → Agent Disk × Option Estimate × Tick F × Option Error
  react os temporary after tick now elapsed a =
      let (b, rec, e) = reclaim_capacity os a tick.observed.need now elapsed in
      let took = reclaimed_tick tick rec in
      let (idle, idle_error) = heartbeat os temporary a in
      let (done, done_error) = heartbeat os temporary b in
      if leb_ℤ tick.observed.need (pos 0) then (idle, after, tick, idle_error) else elim (fatal e) [
        | some x ↦ (b, after, took, some x)
        | none ↦ (done, after, took, done_error)
      ]

  -- `Step`. What the sources answer depends on the floor that this pass settled on and on what is
  -- free; `free` is none where that could not be measured.
  unfoldable pub watch_step :
      {F : Type 0}
      → Rates F
      → Os
      → Text
      → Option Estimate
      → WatchConfig
      → Option ℤ
      → ℤ
      → ℤ
      → (WatchConfig → ℤ → List (Text × Observation))
      → Agent Disk
      → Agent Disk × Option Estimate × Tick F × Option Error
  watch_step rates os temporary before cfg free now elapsed sources a = elim free [
    | none ↦ (
      a,
      before,
      tick_of (pos 0) rates.zero_rate (record { source = []; need = pos 0 }) [],
      some io,
    )
    | some available ↦
        let (after, rate, known) = estimate rates before available a.leases.acct.borrowed now in
        let target = target_of rates cfg rate known in
        let (seen, degraded) = consult (sources (record cfg { headroom = target }) available) in
        let worst =
          shortfall
            (record { source = bytes "free space"; need = sub64 target available } ∷ seen) in
        let tick = tick_of target rate worst degraded in
        react os temporary (some after) tick now elapsed a
  ]

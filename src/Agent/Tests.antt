-- ===== src/Agent/Tests.antt =====
-- A pool at concrete values, and the theorems about the agent applied there.
use forebay.Prelude.{
  ℕ, zero, suc, ◌<◌, ◌≡◌, ◌↔◌, refl, ap, ◌∙◌, true, false, none, some, List, [], ◌∷◌, ◌++◌, drop,
  take, arith,
}
use forebay.Prelude.Int.{ℤ, pos, ◌+ℤ◌}
use forebay.Prelude.Text.{Text, bytes, text_eq, text_lt}
use forebay.Lease.Types.{Lease, Manager, elastic, opportunistic, no_result}
use forebay.Lease.Invariant.{IsSound}
use forebay.Agent.Names.{
  valid_lease_id, valid_lease_id-none_iff, IsName, valid_lease_id-IsName, has_prefix, has_suffix,
  contains, clean, elements, keep_elements, join_elements, agent_file_prefix, lock_name,
  heartbeat_name,
}
use forebay.Agent.Files.{Os, find_file, drop_file, put_file, add_file}
use forebay.Agent.Extent.{Agent, grant, invalidated_extents}
use forebay.Agent.Extent.Backed.{IsBacked, Grants, grant_lem}
use forebay.Lease.Table.{lookup}
use forebay.Lease.Manager.{release, release_locked, persist_locked}
use forebay.Pool.{give_back}
use forebay.Agent.Reconcile.{
  Reconciliation, reconcile, names_of, ids_of, sweep, sweep_one, missing_of, sort_names,
  insert_name, is_in, drop_missing,
}
use forebay.Agent.Reconcile.Laws.{Agrees, reconcile-Agrees}
use forebay.Lease.Restore.{restore}
use forebay.Agent.Open.{
  probe_size, scan_error, verify_pool, has_file, Start, is_recoverable, opened, settle_in,
  open_agent,
}
use forebay.Agent.Open.Laws.{IsReady, open_agent-IsReady}
use forebay.Agent.Run.{Call, granting, reclaiming, watching, run, run-IsBacked}
use forebay.Agent.Pressure.{Pressure, Rates, WatchConfig, saw, heartbeat}
use forebay.Agent.Residual.{scan_zeros, clean_extent}
use forebay.Agent.Residual.Laws.{Reads, byte_at, chunks-Reads, scan_zeros-clean_iff}
use forebay.Agent.Layout.{
  Layout, validate_layout, nested_pools, is_within, abs_path, parent_dir, dir_of, names_in,
  relative, join_path, steps_between, has_dot_dot_prefix,
}
use forebay.Agent.Layout.Laws.{validate_layout-below}

abbrev scratch : Lease
scratch = record {
  id = bytes "scratch";
  tenant = bytes "train";
  class = elastic;
  size = pos 150;
  granted_at = pos 5;
  term = pos 1000;
}

abbrev ahead : Lease
ahead = record scratch { id = bytes "ahead"; class = opportunistic; size = pos 50 }

-- A manager without a journal.
abbrev books : Manager Unit
books = record {
  cfg = record {
    reclaim_within = pos 30;
    guaranteed_share = λ _. pos 250;
    min_term = pos 30;
    churn_window = pos 600;
    churn_budget = pos 6;
    autonomy = true;
    quota = record { borrowed = pos 0; guaranteed = pos 0 };
  };
  acct = record { capacity = pos 1000; reserved = pos 200; borrowed = pos 150 };
  leases = scratch ∷ [];
  reclaims = [];
  journal = none;
  disk = tt;
  restored = true;
}

-- A system on which nothing fails.
abbrev healthy : Os
healthy = record {
  open_fails = λ _. false;
  reserve_fails = λ _. false;
  write_fails = λ _. false;
  close_fails = λ _. false;
  rename_fails = λ _. false;
  remove_fails = λ _. false;
}

-- A system that cannot remove anything.
abbrev sticky : Os
sticky = record healthy { remove_fails = λ _. true }

abbrev node : Agent Unit
node = record {
  leases = books;
  files = (lock_name, pos 0) ∷ (bytes "scratch", pos 150) ∷ [];
  granted_fn = true;
  releasing_fn = true;
  told = [];
}

books-IsSound : IsSound books
unfolding ◌+ℤ◌
books-IsSound = record {
  balanced = omega arith;
  lent = refl;
  sized = (omega arith, tt);
  distinct = (tt, tt);
}

node-IsBacked : IsBacked node
unfolding find_file text_eq valid_lease_id has_prefix has_suffix contains clean elements
    keep_elements join_elements
node-IsBacked = record {
  sound = books-IsSound;
  names = (valid_lease_id-IsName (bytes "scratch") refl, tt);
  extents = (refl, tt);
}

grant_lem_example : Grants node ahead (pos 7) (grant sticky node ahead (pos 7))
grant_lem_example = grant_lem sticky node ahead (pos 7) books-IsSound

-- Rates in whole bytes a second.
abbrev whole_rates : Rates ℤ
whole_rates = record { zero_rate = pos 0; rate_of = λ _ _ _ _ _. pos 3; bytes_in = λ rate _. rate }

temporary-prefix : has_prefix (agent_file_prefix ++ bytes "heartbeat-1") agent_file_prefix ≡ true
unfolding has_prefix text_eq
temporary-prefix = refl

abbrev watch : WatchConfig
watch = record { headroom = pos 100; headroom_for = pos 0; min_headroom = pos 0; interval = pos 1 }

abbrev calls : List (Call ℤ)
calls =
    granting healthy ahead (pos 7)
    ∷ reclaiming sticky (pos 20) (pos 8) (pos 1)
    ∷ watching healthy (agent_file_prefix ++ bytes "heartbeat-1") temporary-prefix none watch
        (some (pos 40)) (pos 9) (pos 1) (λ _ _. (bytes "cgroup", saw (pos 70)) ∷ [])
    ∷ []

run-IsBacked_example : IsBacked (run whole_rates node calls)
run-IsBacked_example = run-IsBacked whole_rates node calls node-IsBacked

abbrev pressures : List Pressure
pressures =
    record { source = bytes "free space"; need = pos 60 }
    ∷ record { source = bytes "cgroup"; need = pos 70 }
    ∷ []

valid_lease_id-none_iff_example :
    (valid_lease_id (bytes "scratch") ≡ none) ↔ IsName (bytes "scratch")
valid_lease_id-none_iff_example = valid_lease_id-none_iff (bytes "scratch")

-- A reader that gives two bytes at a time.
abbrev extent : Text
extent = 0 ∷ 0 ∷ 0 ∷ 7 ∷ []

abbrev pairs : ℕ → Text
pairs at_ = take 2 (drop at_ extent)

pairs-Reads : Reads extent pairs
pairs-Reads = chunks-Reads 2 extent (omega arith)

scan_zeros-clean_iff_example :
    (scan_zeros pairs 3 ≡ clean_extent) ↔ ((i : ℕ) → i < 3 → byte_at extent i ≡ some 0)
scan_zeros-clean_iff_example = scan_zeros-clean_iff extent pairs pairs-Reads 3

abbrev layout : Layout
layout = record {
  borrowed_dir = bytes "/pool";
  journal_path = bytes "/pool/state/journal";
  lease_quota = record { borrowed = pos 0; guaranteed = pos 0 };
}

validate_layout-below_example : validate_layout none layout ≡ some nested_pools
unfolding text_eq has_prefix abs_path clean join_elements keep_elements elements parent_dir dir_of
    names_in
validate_layout-below_example =
    validate_layout-below none layout (bytes "/pool") (bytes "/pool/state") (bytes "state") [] refl
      refl refl refl refl

-- A journal below the pool in a directory whose name starts with two dots is not seen there.
hidden_journal : is_within (bytes "/pool") (bytes "/pool/..state") ≡ false
unfolding is_within text_eq relative join_path steps_between names_in elements has_dot_dot_prefix
    has_prefix
hidden_journal = refl

-- A pool after a crash: a lease without its extent, an extent without its lease, one that was being
-- discarded and a file that a heartbeat left.
abbrev torn : Agent Unit
torn = record node {
  files =
      (agent_file_prefix ++ bytes "heartbeat-1", pos 0)
      ∷ (lock_name, pos 0)
      ∷ (bytes "orphan", pos 10)
      ∷ (bytes "scratch.invalid", pos 150)
      ∷ [];
}

torn_mended : (reconcile healthy false torn).2 ≡ none
unfolding reconcile names_of ids_of sweep sweep_one missing_of sort_names insert_name is_in
    drop_missing release release_locked persist_locked lookup give_back text_eq has_prefix
    has_suffix
torn_mended = refl

reconcile-Agrees_example : Agrees (reconcile healthy false torn).0
reconcile-Agrees_example = reconcile-Agrees healthy torn books-IsSound false torn_mended

unfoldable zeros : ℕ → Text
zeros zero = []
zeros (suc n) = 0 ∷ zeros n

byte_at-zeros : (n i : ℕ) → i < n → byte_at (zeros n) i ≡ some 0
unfolding zeros
byte_at-zeros zero i lt = absurd (omega (arith, lt))
byte_at-zeros (suc n) zero lt = refl
byte_at-zeros (suc n) (suc i) lt = byte_at-zeros n i (omega (arith, lt))

-- A start on a node where nothing fails and the fresh extent reads as zeros.
abbrev begun : Start
begun = record {
  layout = none;
  mkdir_fails = false;
  is_locked = false;
  unreadable = false;
  temporary = agent_file_prefix ++ bytes "heartbeat-1";
  fresh = λ at_. take 1048576 (drop at_ (zeros probe_size));
}

fresh-Reads : Reads (zeros probe_size) begun.fresh
fresh-Reads = chunks-Reads 1048576 (zeros probe_size) (omega arith)

fresh_clean : scan_zeros begun.fresh probe_size ≡ clean_extent
fresh_clean =
    let zeros_iff = scan_zeros-clean_iff (zeros probe_size) begun.fresh fresh-Reads probe_size in
    zeros_iff.1 (byte_at-zeros probe_size)

clean_passes : scan_error clean_extent ≡ none
unfolding scan_error
clean_passes = refl

abbrev ready : Agent Unit
ready = record node {
  files = (heartbeat_name, pos 0) ∷ (lock_name, pos 0) ∷ (bytes "scratch", pos 150) ∷ [];
  granted_fn = false;
  releasing_fn = false;
}

abbrev no_corrections : Reconciliation
no_corrections = record { invalidated = []; leftovers = []; orphans = []; without_extents = [] }

passes : verify_pool healthy begun.fresh ready.files ≡ (ready.files, none)
unfolding verify_pool drop_file put_file add_file has_file find_file text_eq text_lt
passes =
    let clean : scan_error (scan_zeros begun.fresh probe_size) ≡ none =
      ap scan_error fresh_clean ∙ clean_passes in
    ap (λ e. (ready.files, e)) clean

abbrev first : Agent Unit
first = record node { granted_fn = false; releasing_fn = false }

nothing_to_mend : reconcile healthy false first ≡ (first, no_corrections, none)
unfolding reconcile names_of ids_of sweep sweep_one missing_of sort_names insert_name is_in
    drop_missing invalidated_extents text_eq has_prefix has_suffix
nothing_to_mend = refl

beats : heartbeat healthy begun.temporary first ≡ (ready, none)
unfolding heartbeat drop_file put_file add_file text_eq text_lt
beats = refl

settled : settle_in healthy begun first no_result none ≡ opened ready no_result no_corrections none
unfolding settle_in
settled = ground (arith, nothing_to_mend, beats, passes)

opens :
    open_agent healthy begun books node.files (pos 9) ≡ opened ready no_result no_corrections none
unfolding open_agent restore is_recoverable has_file find_file text_eq
opens = settled

restored-IsSound : IsSound (restore books (pos 9)).0
unfolding restore
restored-IsSound = books-IsSound

open_agent-IsReady_example :
    IsReady ready × ((i : ℕ) → i < probe_size → byte_at (zeros probe_size) i ≡ some 0)
open_agent-IsReady_example =
    open_agent-IsReady healthy begun books node.files (pos 9) ready no_result no_corrections none
      (zeros probe_size) temporary-prefix fresh-Reads restored-IsSound opens

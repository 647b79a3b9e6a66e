-- ===== src/Lease/Tests.antt =====
-- A manager at concrete values, and the theorems about it applied there.
use forebay.Prelude.{◌≡◌, refl, true, false, Option, none, some, List, [], ◌∷◌, arith}
use forebay.Prelude.Int.{ℤ, pos, ◌+ℤ◌, ◌-ℤ◌, ◌≤ℤ◌, parts_of_eq}
use forebay.Prelude.Int64.{add64, sub64, wrap64}
use forebay.Pool.{can_lend, free, lend, give_back}
use forebay.Lease.Order.{insert_sorted, reclaim_before, sort_by_reclaim_order}
use forebay.Prelude.Text.{bytes, text_eq, text_lt}
use forebay.Lease.Types.{
  Error, Lease, Config, Journal, loaded, Manager, opportunistic, elastic, guaranteed, is_expired,
  expires_at, valid_class, quota_bounded, reclaim_deadline,
}
use forebay.Lease.Table.{lookup, insert, erase, sum64, is_guaranteed, is_held_by}
use forebay.Lease.Table.Laws.{Held}
use forebay.Lease.Manager.{
  persist_dropped, expire_locked, expire_loop, settle, reclaim_loop, release_locked, refusal,
  within_quota, guaranteed_total, guaranteed_free, admit, undo_if_failed, persist_locked,
  leases_locked, prune, accept, reclaim,
}
use forebay.Lease.Invariant.{IsSound}
use forebay.Lease.Invariant.Accept.{Accepts, accept_lem}
use forebay.Lease.Reclaim.Soundness.{reclaim-IsSound}
use forebay.Lease.Reclaim.Amount.{Meets, reclaim_amount}
use forebay.Lease.Reclaim.Guarantee.{reclaim_keeps_guaranteed, reclaim_exhausts}
use forebay.Lease.Limits.{sum_of, accept-tenant_quota}
use forebay.Lease.Churn.{
  count_after, keep_after, retention, in_cooldown, is_churning, prune_history, cooldown_for,
}
use forebay.Lease.Churn.Laws.{cooldown_for_bounds}

abbrev config : Config
config = record {
  reclaim_within = pos 30;
  guaranteed_share = λ _. pos 250;
  min_term = pos 30;
  churn_window = pos 600;
  churn_budget = pos 6;
  autonomy = true;
  quota = record { borrowed = pos 0; guaranteed = pos 0 };
}

abbrev staging : Lease
staging = record {
  id = bytes "staging";
  tenant = bytes "train";
  class = guaranteed;
  size = pos 100;
  granted_at = pos 0;
  term = pos 1000;
}

abbrev scratch : Lease
scratch = record {
  id = bytes "scratch";
  tenant = bytes "train";
  class = elastic;
  size = pos 150;
  granted_at = pos 5;
  term = pos 1000;
}

abbrev ahead : Lease
ahead = record {
  id = bytes "ahead";
  tenant = bytes "serve";
  class = opportunistic;
  size = pos 50;
  granted_at = pos 9;
  term = pos 20;
}

-- A journal that keeps the last list it was given.
abbrev memory : Journal (List Lease)
memory = record { save = λ _ ls. (ls, none); load = loaded }

abbrev broken : Journal (List Lease)
broken = record { save = λ d _. (d, some Error.io); load = loaded }

abbrev node : Option (Journal (List Lease)) → Manager (List Lease)
node j = record {
  cfg = config;
  acct = record { capacity = pos 1000; reserved = pos 200; borrowed = pos 300 };
  leases = staging ∷ scratch ∷ ahead ∷ [];
  reclaims = [];
  journal = j;
  disk = [];
  restored = true;
}

node-IsSound : (j : Option (Journal (List Lease))) → IsSound (node j)
unfolding ◌+ℤ◌ text_eq
node-IsSound j = record {
  balanced = omega arith;
  lent = refl;
  sized = omega arith;
  distinct = ((refl, (refl, tt)), ((refl, tt), (tt, tt)));
}

abbrev more : Lease
more = record scratch { id = bytes "more"; size = pos 500; granted_at = pos 0 }

accept_lem_example :
    Accepts
      (prune (node (some broken)) (pos 10))
      more
      (pos 10)
      (accept (node (some broken)) more (pos 10))
accept_lem_example = accept_lem (node (some broken)) more (pos 10) (node-IsSound (some broken))

reclaim-IsSound_example : IsSound (reclaim (node (some memory)) (pos 120) (pos 10)).0
reclaim-IsSound_example =
    reclaim-IsSound (node (some memory)) (pos 120) (pos 10) (node-IsSound (some memory))

reclaim_keeps_guaranteed_example : Held (reclaim (node none) (pos 10000) (pos 10)).0.leases staging
unfolding lookup text_eq is_expired expires_at ◌+ℤ◌
reclaim_keeps_guaranteed_example =
    reclaim_keeps_guaranteed (node none) (pos 10000) (pos 10) staging (node-IsSound none) refl refl
      refl

reclaim_amount_example :
    ((reclaim (node none) (pos 120) (pos 10)).0.acct.borrowed
        +ℤ (reclaim (node none) (pos 120) (pos 10)).1.reclaimed
      ≡ pos 300)
    × Meets (pos 120) (reclaim (node none) (pos 120) (pos 10)).1
reclaim_amount_example =
    reclaim_amount (node none) (pos 120) (pos 10) (node-IsSound none) (omega arith) (omega arith)

-- The guaranteed lease is not taken, so a large request falls short.
all_taken :
    ((reclaim (node none) (pos 10000) (pos 10)).1.reclaimed ≡ pos 200)
    × (lookup (bytes "staging") (reclaim (node none) (pos 10000) (pos 10)).0.leases ≡ some staging)
unfolding reclaim expire_locked expire_loop leases_locked sort_by_reclaim_order insert_sorted
    reclaim_before reclaim_deadline text_lt text_eq lookup erase give_back is_expired expires_at
    add64 sub64 wrap64 ◌+ℤ◌ ◌-ℤ◌ settle reclaim_loop release_locked cooldown_for persist_locked
    persist_dropped prune
all_taken = (refl, refl)

reclaim_exhausts_example : (is_guaranteed staging ≡ true) × (is_expired staging (pos 10) ≡ false)
reclaim_exhausts_example =
    reclaim_exhausts (node none) (pos 10000) (pos 10) (bytes "staging") staging (node-IsSound none)
      (omega (arith, parts_of_eq all_taken.0)) all_taken.1

-- The manager of a node with limits on a tenant.
abbrev limited : Manager (List Lease)
limited = record (node (some memory)) {
  cfg = record config { quota = record { borrowed = pos 400; guaranteed = pos 200 } };
}

limited-IsSound : IsSound limited
unfolding ◌+ℤ◌ text_eq
limited-IsSound = record {
  balanced = (node-IsSound none).balanced;
  lent = refl;
  sized = omega arith;
  distinct = ((refl, (refl, tt)), ((refl, tt), (tt, tt)));
}

abbrev sure : Lease
sure = record scratch { id = bytes "sure"; size = pos 80; class = guaranteed }

accepted : accept limited sure (pos 10) ≡ ((accept limited sure (pos 10)).0, none)
unfolding accept refusal prune valid_class lookup text_eq is_churning count_after prune_history
    retention keep_after in_cooldown within_quota quota_bounded add64 sub64 wrap64 sum64
    guaranteed_total guaranteed_free admit undo_if_failed persist_locked leases_locked insert
    insert_sorted reclaim_before sort_by_reclaim_order reclaim_deadline can_lend free lend text_lt
    ◌+ℤ◌ ◌-ℤ◌
accepted = refl

accept-tenant_quota_example :
    (text_eq sure.tenant [] ≡ false)
    × (sum_of (is_held_by sure.tenant) (accept limited sure (pos 10)).0.leases ≤ℤ pos 400)
unfolding text_eq
accept-tenant_quota_example =
    accept-tenant_quota limited (accept limited sure (pos 10)).0 sure (pos 10) limited-IsSound
      accepted (omega arith) refl

abbrev busy : List ℤ
busy = pos 900 ∷ pos 850 ∷ pos 100 ∷ []

cooldown_for_bounds_example :
    (pos 30 ≤ℤ (cooldown_for config busy (pos 1000)).0)
    × ((cooldown_for config busy (pos 1000)).0 ≤ℤ pos 600)
cooldown_for_bounds_example =
    cooldown_for_bounds config busy (pos 1000) (omega arith) (omega arith) (omega arith)

-- ===== src/Agent/Run.antt =====
-- internal/agent: the calls that a running agent serves, one after the other. Which calls of the
-- system fail is chosen anew for each.
use forebay.Prelude.{
  ◌≡◌, Option, none, some, List, [], ◌∷◌, ap, sym, ◌∙◌, subst, All, All-map2, true, arith, inl, inr,
  Option-cases,
}
use forebay.Prelude.Int.{ℤ}
use forebay.Prelude.Text.{Text, text_eq_sym}
use forebay.Lease.Types.{Lease, Manager}
use forebay.Lease.Table.{lookup, erase}
use forebay.Lease.Table.Laws.{erase-Fresh, erase-All, lookup-id}
use forebay.Lease.Manager.{release}
use forebay.Lease.Invariant.{IsSound}
use forebay.Lease.Invariant.Release.{without}
use forebay.Lease.Invariant.Accept.{persist_locked_frame}
use forebay.Lease.Reclaim.Soundness.{release_lem, release-missing, release-IsSound}
use forebay.Agent.Names.{IsName, has_prefix, agent_file_prefix}
use forebay.Agent.Files.{Os, find_file}
use forebay.Agent.Extent.{Agent, discard, releasing, grant, release_extent, reclaim_capacity}
use forebay.Agent.Extent.Laws.{discard-find_file}
use forebay.Agent.Extent.Backed.{IsBacked, grant-IsBacked}
use forebay.Agent.Extent.Reclaimed.{releasing-same, reclaim_capacity-IsBacked}
use forebay.Agent.Pressure.{WatchConfig, Rates, Estimate, Observation, watch_step}
use forebay.Agent.Pressure.Laws.{watch_step-IsBacked}

-- A lease goes, or the manager stays as it is.
module _ {Disk : Type 0} where
  release_left :
      (m : Manager Disk) (id : Text)
      → IsSound m
      → (release m id).2 ≡ none
      → (release m id).0.leases ≡ erase id m.leases
  release_left m id s h = elim (Option-cases (lookup id m.leases)) [
    | inl e ↦ absurd (ground (arith, h, release-missing m id e))
    | inr (l, e) ↦ rw (release_lem m id l s e) (
        rw (persist_locked_frame (without m l))
          (ap (λ z. erase z m.leases) (sym (lookup-id id m.leases l e))))
  ]

  -- Release keeps every lease that is still held backed, where it reports no error.
  release_extent-IsBacked :
      (os : Os) (a : Agent Disk) (id : Text)
      → IsBacked a
      → (release_extent os a id).2 ≡ none
      → IsBacked (release_extent os a id).0
  unfolding release_extent
  release_extent-IsBacked os a id b h =
      let c = releasing a (id ∷ []) in
      let (leases, files) = releasing-same a (id ∷ []) in
      let f = (discard os c.files id).0 in
      elim (Option-cases (discard os c.files id).1) [
        | inr (x, bad) ↦ absurd (ground (arith, h, bad))
        | inl gone ↦ elim (Option-cases ((release c.leases id).2)) [
          | inr (x, bad) ↦ absurd (ground (arith, h, gone, bad))
          | inl fine ↦
              let sound = subst IsSound (sym leases) b.sound in
              let left : (release c.leases id).0.leases ≡ erase id a.leases.leases =
                release_left c.leases id sound fine ∙ ap (λ z. erase id z.leases) leases in
              let names = erase-All (λ l. IsName l.id) id a.leases.leases b.names in
              let extents =
                erase-All (λ l. find_file l.id a.files ≡ some l.size) id a.leases.leases
                  b.extents in
              let apart = erase-Fresh id a.leases.leases b.sound.distinct in
              let sure : All (λ l. IsName l.id × (find_file l.id c.files ≡ some l.size))
                  (erase id a.leases.leases) =
                All-map2 (erase id a.leases.leases) (λ l x y. (x, ap (find_file l.id) files ∙ y))
                  names extents in
              let kept : All (λ l. find_file l.id f ≡ some l.size) (erase id a.leases.leases) =
                All-map2 (erase id a.leases.leases)
                  (λ l x off.
                    discard-find_file os c.files id l.id x.0 (text_eq_sym l.id id ∙ off) ∙ x.1)
                  sure apart in
              rw (release_extent, gone)
                (record {
                  sound = release-IsSound c.leases id sound;
                  names = subst (All (λ l. IsName l.id)) (sym left) names;
                  extents = subst (All (λ l. find_file l.id f ≡ some l.size)) (sym left) kept;
                })
        ]
      ]

-- `Grant`, `ReclaimCapacity` and `Step` with their arguments. The temporary name of a heartbeat
-- starts as `os.CreateTemp` is asked to start it.
pub data Call (F : Type 0) : Type 0 where
  granting : Os → Lease → ℤ → Call F
  reclaiming : Os → ℤ → ℤ → ℤ → Call F
  watching :
      Os
      → (temporary : Text) → has_prefix temporary agent_file_prefix ≡ true
      → Option Estimate
      → WatchConfig
      → Option ℤ
      → ℤ
      → ℤ
      → (WatchConfig → ℤ → List (Text × Observation))
      → Call F

module _ {F : Type 0} (rates : Rates F) {Disk : Type 0} where
  unfoldable pub call : Agent Disk → Call F → Agent Disk
  call a (granting os l now) = (grant os a l now).0
  call a (reclaiming os need now elapsed) = (reclaim_capacity os a need now elapsed).0
  call a (watching os temporary h before cfg free now elapsed sources) =
      (watch_step rates os temporary before cfg free now elapsed sources a).0

  unfoldable pub run : Agent Disk → List (Call F) → Agent Disk
  run a [] = a
  run a (c ∷ cs) = run (call a c) cs

  call-IsBacked : (a : Agent Disk) (c : Call F) → IsBacked a → IsBacked (call a c)
  unfolding call
  call-IsBacked a (granting os l now) b = grant-IsBacked os a l now b
  call-IsBacked a (reclaiming os need now elapsed) b =
      reclaim_capacity-IsBacked os a need now elapsed b
  call-IsBacked a (watching os temporary h before cfg free now elapsed sources) b =
      watch_step-IsBacked rates os temporary before cfg free now elapsed sources a h b

  -- Where every lease that is held has an extent of its size under a name that a lease may have
  -- and the accounting is sound, the same holds after any sequence of Grant, ReclaimCapacity and
  -- passes of the watch, whatever the journal answers and whichever calls of the system fail in
  -- each.
  pub run-IsBacked : (a : Agent Disk) (cs : List (Call F)) → IsBacked a → IsBacked (run a cs)
  unfolding run
  run-IsBacked a [] b = b
  run-IsBacked a (c ∷ cs) b = run-IsBacked (call a c) cs (call-IsBacked a c b)

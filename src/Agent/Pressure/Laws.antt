-- ===== src/Agent/Pressure/Laws.antt =====
-- One pass of the watch in internal/agent/pressure.go.
use forebay.Prelude.{
  ◌≡◌, All, All-map2, refl, ap, sym, ◌∙◌, subst, Bool, true, false, ◌||◌, Option, none, some, List,
  [], ◌∷◌, if◌then◌else◌, arith, inl, inr, Bool-cases, Option-cases,
}
use forebay.Prelude.Int.{ℤ, pos, ◌≤ℤ◌, ltb_ℤ, leb_ℤ, int_laws}
use forebay.Prelude.Text.{Text, bytes, text_eq, text_eq→eq}
use forebay.Lease.Invariant.{IsSound}
use forebay.Agent.Names.{heartbeat_name, IsName, has_prefix, agent_file_prefix}
use forebay.Agent.Files.{Os, find_file, drop_file, put_file}
use forebay.Agent.Files.Laws.{find_file-drop_ne, find_file-put_ne}
use forebay.Agent.Extent.{Agent, reclaim_capacity}
use forebay.Agent.Extent.Backed.{IsBacked}
use forebay.Agent.Extent.Reclaimed.{reclaim_capacity-IsBacked}
use forebay.Agent.Pressure.{
  Pressure, worst_of, shortfall, WatchConfig, Rates, Estimate, Observation, Tick, fatal, heartbeat,
  react, watch_step,
}

abbrev quiet : Pressure
quiet = record { source = bytes "none"; need = pos 0 }

-- A pressure that no other one exceeds.
abbrev Tops : Pressure → Pressure → List Pressure → Type 0
Tops w worst os = (worst.need ≤ℤ w.need) × All (λ o. o.need ≤ℤ w.need) os

worst_of-Tops : (worst : Pressure) (os : List Pressure) → Tops (worst_of worst os) worst os
unfolding worst_of
worst_of-Tops worst [] = (omega int_laws, tt)
worst_of-Tops worst (o ∷ os) =
    let pick : Bool → Pressure = λ c. worst_of (if c then o else worst) os in
    elim (Bool-cases (ltb_ℤ worst.need o.need)) [
      | inl more ↦
          let (a, b) = worst_of-Tops o os in
          let le : worst.need ≤ℤ o.need = ground (arith, more) in
          subst (λ w. Tops w worst (o ∷ os)) (sym (ap pick more)) (omega (int_laws, le, a), (a, b))
      | inr less ↦
          let (a, b) = worst_of-Tops worst os in
          let le : o.need ≤ℤ worst.need = ground (arith, less) in
          subst (λ w. Tops w worst (o ∷ os)) (sym (ap pick less)) (a, (omega (int_laws, le, a), b))
    ]

worst_of-one :
    (P : Pressure → Type 0) (worst : Pressure) (os : List Pressure)
    → P worst
    → All P os
    → P (worst_of worst os)
unfolding worst_of
worst_of-one P worst [] p h = p
worst_of-one P worst (o ∷ os) p h = elim (Bool-cases (ltb_ℤ worst.need o.need)) [
  | inl more ↦ rw (worst_of, more) (worst_of-one P o os h.0 h.1)
  | inr less ↦ rw (worst_of, less) (worst_of-one P worst os p h.1)
]

-- Shortfall is one of the pressures that were observed or the one that needs nothing, its need is
-- not negative, and no observed need is greater, so needs are never added up.
shortfall_lem :
    (P : Pressure → Type 0) (observed : List Pressure)
    → P quiet
    → All P observed
    → P (shortfall observed)
      × (pos 0 ≤ℤ (shortfall observed).need)
      × All (λ o. o.need ≤ℤ (shortfall observed).need) observed
unfolding shortfall
shortfall_lem P observed q h =
    let (a, b) = worst_of-Tops quiet observed in (worst_of-one P quiet observed q h, a, b)

-- A name of the agent's own is the name of no lease.
pub IsName-own :
    (j k : Text) → IsName j → has_prefix k agent_file_prefix ≡ true → text_eq j k ≡ false
IsName-own j k n h = elim (Bool-cases (text_eq j k)) [
  | inr off ↦ off
  | inl same ↦ absurd (ground (arith, h, n.own, text_eq→eq j k same))
]

module _ {Disk : Type 0} where
  pub heartbeat-same :
      (os : Os) (temporary : Text) (a : Agent Disk)
      → has_prefix temporary agent_file_prefix ≡ true
      → ((heartbeat os temporary a).0.leases ≡ a.leases)
        × ((j : Text)
            → IsName j
            → find_file j (heartbeat os temporary a).0.files ≡ find_file j a.files)
  unfolding heartbeat has_prefix text_eq
  heartbeat-same os temporary a h =
      let cleaned : (j : Text)
          → IsName j
          → find_file j (
              if os.remove_fails temporary
              then put_file temporary (pos 0) a.files
              else drop_file temporary a.files)
            ≡ find_file j a.files =
        λ j n. elim (Bool-cases (os.remove_fails temporary)) [
          | inl e ↦ rw e (find_file-put_ne j temporary (pos 0) a.files (IsName-own j temporary n h))
          | inr e ↦ rw e (find_file-drop_ne j temporary a.files (IsName-own j temporary n h))
        ] in
      elim (Bool-cases (os.open_fails temporary)) [
        | inl e ↦ rw (heartbeat, e) (refl, λ j n. refl)
        | inr e ↦
            elim (Bool-cases
              (os.write_fails temporary || os.close_fails temporary || os.rename_fails temporary)) [
                | inl f ↦ rw (heartbeat, e, f) (refl, cleaned)
                | inr f ↦
                    rw (heartbeat, e, f)
                      (
                        refl,
                        λ j n.
                            find_file-put_ne j heartbeat_name (pos 0) (drop_file temporary a.files)
                              (IsName-own j heartbeat_name n refl)
                            ∙ find_file-drop_ne j temporary a.files (IsName-own j temporary n h),
                      )
              ]
      ]

  heartbeat-IsBacked :
      (os : Os) (temporary : Text) (a : Agent Disk)
      → has_prefix temporary agent_file_prefix ≡ true
      → IsBacked a
      → IsBacked (heartbeat os temporary a).0
  heartbeat-IsBacked os temporary a h b =
      let (leases, files) = heartbeat-same os temporary a h in
      record {
        sound = subst IsSound (sym leases) b.sound;
        names = rw leases (b.names);
        extents =
            rw leases (All-map2 a.leases.leases (λ l e n. files l.id n ∙ e) b.extents b.names);
      }

  react-IsBacked :
      {F : Type 0} (os : Os) (temporary : Text) (after : Option Estimate) (tick : Tick F)
      (now elapsed : ℤ) (a : Agent Disk)
      → has_prefix temporary agent_file_prefix ≡ true
      → IsBacked a
      → IsBacked (react os temporary after tick now elapsed a).0
  unfolding react
  react-IsBacked os temporary after tick now elapsed a h b =
      let need = tick.observed.need in
      let kept = reclaim_capacity-IsBacked os a need now elapsed b in
      elim (Bool-cases (leb_ℤ need (pos 0))) [
        | inl enough ↦ rw (react, enough) (heartbeat-IsBacked os temporary a h b)
        | inr short ↦ elim (Option-cases (fatal (reclaim_capacity os a need now elapsed).2)) [
          | inr (x, e) ↦ rw (react, short, e) kept
          | inl e ↦
              rw (react, short, e)
                (heartbeat-IsBacked os temporary (reclaim_capacity os a need now elapsed).0 h kept)
        ]
      ]

  -- One pass of the watch keeps every lease that is still held backed by its extent.
  pub watch_step-IsBacked :
      {F : Type 0} (rates : Rates F) (os : Os) (temporary : Text) (before : Option Estimate)
      (cfg : WatchConfig) (free : Option ℤ) (now elapsed : ℤ)
      (sources : WatchConfig → ℤ → List (Text × Observation)) (a : Agent Disk)
      → has_prefix temporary agent_file_prefix ≡ true
      → IsBacked a
      → IsBacked (watch_step rates os temporary before cfg free now elapsed sources a).0
  unfolding watch_step
  watch_step-IsBacked rates os temporary before cfg none now elapsed sources a h b = b
  watch_step-IsBacked rates os temporary before cfg (some available) now elapsed sources a h b =
      react-IsBacked os temporary _ _ now elapsed a h b

-- ===== src/Intent/Laws.antt =====
-- Floors and their resolution: `Floor.Apply` and `Resolve` of internal/intent.
use forebay.Prelude.{
  ℕ, ◌≤◌, ◌<◌, ◌≡◌, refl, ap, sym, ◌∙◌, ◌⊎◌, Bool, true, false, not, ◌&&◌, ◌||◌, Option, none, some,
  [], ◌∷◌, arith, inl, inr, Bool-cases, Option-cases, if◌then◌else◌, ltb,
}
use forebay.Prelude.Text.{Text, text_eq, text_eq→eq}
use forebay.Intent.{
  latency_best_effort, cost_balanced, is_durability, durability_none, durability_backend,
  durability_replicated, durability_rack_tolerant, Intent, Floor, Fleet, Capability, or_default,
  with_defaults, durability_rank, rank_or_zero, apply, validate_declared, validate, needs,
  unsupported, Answer, satisfied, no_backend, invalid, blind_fleet, answer_of, resolve,
}

durability-cases :
    (d : Text)
    → (d ≡ durability_none)
      ⊎ (d ≡ durability_backend)
      ⊎ (d ≡ durability_replicated)
      ⊎ (d ≡ durability_rack_tolerant)
      ⊎ (durability_rank d ≡ none)
unfolding durability_rank
durability-cases d = ground (
  arith,
  text_eq→eq d durability_none,
  text_eq→eq d durability_backend,
  text_eq→eq d durability_replicated,
  text_eq→eq d durability_rack_tolerant,
)

apply-raised :
    (f : Floor) (i : Intent) (asked : ℕ)
    → durability_rank (with_defaults i).durability ≡ some asked
    → ltb asked (rank_or_zero (durability_rank f.durability)) ≡ true
    → apply f i ≡ record (with_defaults i) { durability = f.durability }
unfolding apply
apply-raised f i asked h lt = ground (arith, h, lt)

apply-kept :
    (f : Floor) (i : Intent) (asked : ℕ)
    → durability_rank (with_defaults i).durability ≡ some asked
    → ltb asked (rank_or_zero (durability_rank f.durability)) ≡ false
    → apply f i ≡ with_defaults i
unfolding apply
apply-kept f i asked h ge = ground (arith, h, ge)

apply-unknown :
    (f : Floor) (i : Intent)
    → durability_rank (with_defaults i).durability ≡ none
    → apply f i ≡ with_defaults i
unfolding apply
apply-unknown f i h = ground (arith, h)

-- For an intent whose durability, with the defaults filled, is a published word, applying a floor
-- gives a published durability that ranks at least as high as what was asked for and as the floor,
-- and leaves latency and cost as declared.
apply_lem :
    (f : Floor) (i : Intent) (asked : ℕ)
    → durability_rank (with_defaults i).durability ≡ some asked
    → ((r : ℕ) × (durability_rank (apply f i).durability ≡ some r)
        × (asked ≤ r)
        × (rank_or_zero (durability_rank f.durability) ≤ r))
      × ((apply f i).latency ≡ (with_defaults i).latency)
      × ((apply f i).cost ≡ (with_defaults i).cost)
apply_lem f i asked h =
    elim (Bool-cases (ltb asked (rank_or_zero (durability_rank f.durability)))) [
      | inl lt ↦ elim (Option-cases (durability_rank f.durability)) [
        | inl unknown ↦ absurd (ground (arith, lt, unknown))
        | inr (r, known) ↦
            rw (apply-raised f i asked h lt)
              ((r, known, ground (arith, lt, known), ground (arith, known)), refl, refl)
      ]
      | inr ge ↦
          rw (apply-kept f i asked h ge) ((asked, h, omega arith, ground (arith, ge)), refl, refl)
    ]

-- A declaration is met by what meets one that asks for at least as much.
resolve-weaker :
    (d e l c : Text) (b : Capability → Bool) (f : Fleet)
    → text_eq d [] ≡ false
    → text_eq e [] ≡ false
    → is_durability d ≡ true
    → (text_eq d durability_replicated || text_eq d durability_rack_tolerant ≡ true
        → text_eq e durability_replicated || text_eq e durability_rack_tolerant ≡ true)
    → (text_eq d durability_rack_tolerant ≡ true → text_eq e durability_rack_tolerant ≡ true)
    → resolve (record { durability = e; latency = l; cost = c }) (some b) f ≡ satisfied
    → resolve (record { durability = d; latency = l; cost = c }) (some b) f ≡ satisfied
unfolding resolve validate validate_declared needs with_defaults unsupported
resolve-weaker d e l c b f dn en known asks racks h = ground arith

or_default_twice :
    (w d : Text) → text_eq d [] ≡ false → or_default (or_default w d) d ≡ or_default w d
or_default_twice w d h = ground (arith, h)

-- Filling the defaults a second time changes nothing.
with_defaults_twice : (i : Intent) → with_defaults (with_defaults i) ≡ with_defaults i
unfolding with_defaults text_eq
with_defaults_twice i =
    rw
      (
        or_default_twice i.durability durability_backend refl,
        or_default_twice i.latency latency_best_effort refl,
        or_default_twice i.cost cost_balanced refl,
      )
      refl

-- The answer for a declaration whose defaults are filled.
abbrev answer : Intent → Option (Capability → Bool) → Fleet → Answer
answer d b f = elim (validate_declared d) [
  | some e ↦ invalid e
  | none ↦ elim b [
    | none ↦ no_backend
    | some supports ↦ answer_of (unsupported supports (needs d)) (
        if text_eq d.durability durability_rack_tolerant && not f.knows_racks
        then blind_fleet ∷ []
        else [])
  ]
]

resolve-answer :
    (i : Intent) (b : Option (Capability → Bool)) (f : Fleet)
    → resolve i b f ≡ answer (with_defaults i) b f
unfolding resolve validate
resolve-answer i b f = refl

resolve-with_defaults :
    (i : Intent) (b : Option (Capability → Bool)) (f : Fleet)
    → resolve (with_defaults i) b f ≡ resolve i b f
resolve-with_defaults i b f =
    resolve-answer (with_defaults i) b f
    ∙ ap (λ z. answer z b f) (with_defaults_twice i)
    ∙ sym (resolve-answer i b f)

rank-nonempty : (d : Text) (q : ℕ) → durability_rank d ≡ some q → text_eq d [] ≡ false
unfolding durability_rank text_eq
rank-nonempty [] q h = absurd (ground (arith, h))
rank-nonempty (x ∷ d) q h = refl

-- A word of a higher rank asks for all that one of a lower rank asks for.
rank_order :
    (d e : Text) (q r : ℕ)
    → durability_rank d ≡ some q
    → durability_rank e ≡ some r
    → q < r
    → (is_durability d ≡ true)
      × (text_eq d durability_replicated || text_eq d durability_rack_tolerant ≡ true
          → text_eq e durability_replicated || text_eq e durability_rack_tolerant ≡ true)
      × (text_eq d durability_rack_tolerant ≡ true → text_eq e durability_rack_tolerant ≡ true)
unfolding durability_rank text_eq
rank_order d e q r h k lt = elim (durability-cases d) [
  | inl a ↦ ground (arith, a, h, k)
  | inr (inl a) ↦ ground (arith, a, h, k)
  | inr (inr (inl a)) ↦ ground (arith, a, h, k)
  | inr (inr (inr (inl a))) ↦ ground (arith, a, h, k)
  | inr (inr (inr (inr a))) ↦ absurd cc
]

-- A backend and a fleet that satisfy an intent raised to any floor satisfy the intent as it was
-- declared.
pub resolve-apply :
    (floor : Floor) (i : Intent) (b : Capability → Bool) (f : Fleet)
    → resolve (apply floor i) (some b) f ≡ satisfied
    → resolve i (some b) f ≡ satisfied
resolve-apply floor i b f h = elim (Option-cases (durability_rank (with_defaults i).durability)) [
  | inl odd ↦ back (apply-unknown floor i odd)
  | inr (q, known) ↦ elim (Bool-cases (ltb q (rank_or_zero (durability_rank floor.durability)))) [
    | inr ge ↦ back (apply-kept floor i q known ge)
    | inl lt ↦ elim (Option-cases (durability_rank floor.durability)) [
      | inl none_ ↦ absurd (ground (arith, lt, none_))
      | inr (r, word) ↦
          let d = with_defaults i in
          let (w, asks, racks) =
            rank_order d.durability floor.durability q r known word (ground (arith, lt, word)) in
          sym (resolve-with_defaults i (some b) f)
          ∙ resolve-weaker d.durability floor.durability d.latency d.cost b f
              (rank-nonempty d.durability q known) (rank-nonempty floor.durability r word) w asks
              racks (ap (λ z. resolve z (some b) f) (sym (apply-raised floor i q known lt)) ∙ h)
    ]
  ]
]
  where
    back : apply floor i ≡ with_defaults i → resolve i (some b) f ≡ satisfied
    back e = sym (resolve-with_defaults i (some b) f) ∙ ap (λ z. resolve z (some b) f) (sym e) ∙ h

-- ===== src/Tier/Safety/Place.antt =====
-- `placeLocked`, `evictOneLocked` and the end of `Admit` and the invariant.
use forebay.Prelude.{
  All-map, ℕ, ◌<◌, ◌≡◌, refl, ap, sym, ◌∙◌, subst, ◌⊎◌, Bool, false, some, List, [], ◌∷◌, All,
  arith, inl, inr, Bool-cases, Option-cases, ◌==◌, ltb,
}
use forebay.Prelude.Text.{Text}
use forebay.Tier.Types.{Key, key_eq, Placement, Cache, Error}
use forebay.Tier.Slab.{release_slot}
use forebay.Tier.Admission.Laws.{key_eq_refl}
use forebay.Tier.Cache.{
  set_slab, slab_of, placed, unplace, take_first, oldest_on, evict_one, place, refused, at,
}
use forebay.Tier.Cache.Admit.{take_first-resident}
use forebay.Tier.Safety.{Table, Apart, Entry, IsKept}
use forebay.Tier.Safety.Entries.{unplace-All, placed-All, unplace-Clear, key_eq→eq, key_eq_sym}
use forebay.Tier.Safety.Slots.{IsTaken, IsSound-release}
use forebay.Tier.Safety.Methods.{IsSound-unplace, take_first-IsKept}

-- A block behind another one of the table.
placed-behind :
    (j k : Key) (q p : Placement) (ps : Table)
    → Apart ((j, q) ∷ ps)
    → placed k ps ≡ some p
    → placed k ((j, q) ∷ ps) ≡ some p
unfolding placed
placed-behind j k q p ps a here =
    let (i, same, off) =
      placed-All (λ x. (key_eq j x.0 ≡ false)) k ps p (All-map ps (λ x b. b.0) a.0) here in
    let ne : key_eq k j ≡ false =
      key_eq_sym k j ∙ subst (λ z. key_eq j z ≡ false) (sym (key_eq→eq k i same)) off in
    rw ne here

-- The least recently used block of a slab is resident, on that slab.
oldest_on-placed :
    (i : ℕ) (ps : Table) (k : Key) (p : Placement)
    → Apart ps
    → oldest_on i ps ≡ some (k, p)
    → (placed k ps ≡ some p) × (p.slab ≡ i)
unfolding oldest_on placed
oldest_on-placed i [] k p a h = absurd (ground (arith, h))
oldest_on-placed i ((j, q) ∷ ps) k p a h =
    let behind : oldest_on i ps ≡ some (k, p) → (placed k ((j, q) ∷ ps) ≡ some p) × (p.slab ≡ i) =
      λ e.
        let (here, on) = oldest_on-placed i ps k p a.1 e in (placed-behind j k q p ps a here, on) in
    elim (Bool-cases (q.slab == i)) [
      | inr off ↦ behind (ground (arith, h, off))
      | inl on ↦ elim (Option-cases (oldest_on i ps)) [
        | inl last ↦ ground (arith, h, on, last, key_eq_refl k)
        | inr ((j', q'), more) ↦ elim (Bool-cases (ltb q'.used q.used)) [
          | inl older ↦ behind (ground (arith, h, on, more, older))
          | inr newer ↦ ground (arith, h, on, more, newer, key_eq_refl k)
        ]
      ]
    ]

-- What an eviction does: the block of one key goes and its slot is free again.
record Evicts (c d : Cache) : Type 0 where
  key : Key
  placement : Placement
  here : placed key c.resident ≡ some placement
  same : d ≡ record c {
    heap = set_slab c.heap placement.slab (release_slot (c.heap placement.slab) placement.slot);
    resident = unplace key c.resident;
  }

evict_one-Evicts :
    (ls : List Text) (c d : Cache) → Apart c.resident → evict_one ls c ≡ some d → Evicts c d
unfolding evict_one
evict_one-Evicts [] c d a h = absurd (ground (arith, h))
evict_one-Evicts (l ∷ ls) c d a h = elim (Option-cases (slab_of l c.slabs)) [
  | inl gone ↦ evict_one-Evicts ls c d a (ground (arith, h, gone))
  | inr (i, held) ↦ elim (Option-cases (oldest_on i c.resident)) [
    | inl none_ ↦ evict_one-Evicts ls c d a (ground (arith, h, held, none_))
    | inr ((k, p), old) ↦
        let (here, on) = oldest_on-placed i c.resident k p a old in
        record { key = k; placement = p; here = here; same = ground (arith, h, held, old, on) }
  ]
]

module _ (content : Key → Text) where
  Evicts-IsKept : (c d : Cache) → Evicts c d → IsKept content c → IsKept content d
  Evicts-IsKept c d e s =
      let p = e.placement in
      let (j, same, en) =
        placed-All (Entry content c.heap c.next_slab c.generation) e.key c.resident p s.entries
          e.here in
      subst (IsKept content) (sym e.same) (
        IsSound-release content (IsSound-unplace content e.key s) p.slab p.slot
          (record { clear = unplace-Clear e.key c.resident p s.apart e.here; unused = en.2 }))

-- A slot that was found: what it took and what it left as it was.
pub record IsFound (content : Key → Text) (c d : Cache) (i slot : ℕ) : Type 0 where
  pub kept : IsKept content d
  pub taken : IsTaken d.heap d.resident i slot
  pub in_heap : i < d.next_slab
  pub same_gen : d.generation ≡ c.generation

first-IsFound :
    (content : Key → Text) (ls : List Text) (b c d : Cache) (i slot : ℕ)
    → IsKept content c
    → c.generation ≡ b.generation
    → take_first ls c ≡ some (i, slot, d)
    → IsFound content b d i slot
first-IsFound content ls b c d i slot s g e =
    let (kept, taken, lt, same, _) = take_first-IsKept content ls c d i slot s e in
    record { kept = kept; taken = taken; in_heap = lt; same_gen = same ∙ g }

-- Either a slot that was free, or one block out and then a slot that is free.
abbrev Chosen : Cache → Cache → ℕ → ℕ → Type 0
Chosen c d i slot =
    (take_first c.order c ≡ some (i, slot, d))
    ⊎ ((b : Cache) × (evict_one c.order c ≡ some b) × (take_first b.order b ≡ some (i, slot, d)))

place-Chosen :
    (c d : Cache) (prefetched : Bool) (i slot : ℕ)
    → place c prefetched ≡ at i slot d
    → Chosen c d i slot
unfolding place
place-Chosen c d prefetched i slot h = elim (Option-cases (take_first c.order c)) [
  | inr ((j, x, b), room) ↦ inl (ground (arith, h, room))
  | inl full ↦ elim (Bool-cases prefetched) [
    | inl guess ↦ absurd (ground (arith, h, full, guess))
    | inr asked ↦ elim (Option-cases (evict_one c.order c)) [
      | inl stuck ↦ absurd (ground (arith, h, full, asked, stuck))
      | inr (b, out) ↦ elim (Option-cases (take_first b.order b)) [
        | inl again ↦ absurd (ground (arith, h, full, asked, out, again))
        | inr ((j, x, f), room) ↦ inr (b, out, ground (arith, h, full, asked, out, room))
      ]
    ]
  ]
]

place_left :
    (c d : Cache) (prefetched : Bool) (e : Error)
    → place c prefetched ≡ refused e d
    → (d ≡ c) ⊎ (evict_one c.order c ≡ some d)
unfolding place
place_left c d prefetched e h = elim (Option-cases (take_first c.order c)) [
  | inr ((j, x, b), room) ↦ absurd (ground (arith, h, room))
  | inl full ↦ elim (Bool-cases prefetched) [
    | inl guess ↦ inl (ground (arith, h, full, guess))
    | inr asked ↦ elim (Option-cases (evict_one c.order c)) [
      | inl stuck ↦ inl (ground (arith, h, full, asked, stuck))
      | inr (b, out) ↦ elim (Option-cases (take_first b.order b)) [
        | inl again ↦ inr (ground (arith, h, full, asked, out, again))
        | inr ((j, x, f), room) ↦ absurd (ground (arith, h, full, asked, out, room))
      ]
    ]
  ]
]

module _ (content : Key → Text) (c : Cache) (s : IsKept content c) where
  evict_one-IsKept :
      (d : Cache) → evict_one c.order c ≡ some d → IsKept content d × (d.generation ≡ c.generation)
  evict_one-IsKept d h =
      let e = evict_one-Evicts c.order c d s.apart h in
      (Evicts-IsKept content c d e s, ap (λ z. z.generation) e.same)

  pub place-IsFound :
      (d : Cache) (prefetched : Bool) (i slot : ℕ)
      → place c prefetched ≡ at i slot d
      → IsFound content c d i slot
  place-IsFound d prefetched i slot h = elim (place-Chosen c d prefetched i slot h) [
    | inl room ↦ first-IsFound content c.order c c d i slot s refl room
    | inr (b, out, room) ↦
        let (kept, g) = evict_one-IsKept b out in
        first-IsFound content b.order c b d i slot kept g room
  ]

  pub place-IsKept :
      (d : Cache) (prefetched : Bool) (e : Error)
      → place c prefetched ≡ refused e d
      → IsKept content d × (d.generation ≡ c.generation)
  place-IsKept d prefetched e h = elim (place_left c d prefetched e h) [
    | inl same ↦ rw same (s, refl)
    | inr out ↦ evict_one-IsKept d out
  ]

  -- Looking for a slot adds no block.
  module _ {κ} (P : Key × Placement → Type κ) (all : All P c.resident) where
    evict_one-All : (d : Cache) → evict_one c.order c ≡ some d → All P d.resident
    evict_one-All d h =
        let e = evict_one-Evicts c.order c d s.apart h in
        rw (e.same) (unplace-All P e.key c.resident all)

    pub place-refused-All :
        (d : Cache) (prefetched : Bool) (e : Error)
        → place c prefetched ≡ refused e d
        → All P d.resident
    place-refused-All d prefetched e h = elim (place_left c d prefetched e h) [
      | inl same ↦ rw same all
      | inr out ↦ evict_one-All d out
    ]

    pub place-at-All :
        (d : Cache) (prefetched : Bool) (i slot : ℕ)
        → place c prefetched ≡ at i slot d
        → All P d.resident
    place-at-All d prefetched i slot h = elim (place-Chosen c d prefetched i slot h) [
      | inl room ↦ rw (take_first-resident c.order c d i slot room) all
      | inr (b, out, room) ↦ rw (take_first-resident b.order b d i slot room) (evict_one-All b out)
    ]

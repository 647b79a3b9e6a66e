-- ===== src/Tier/Cache/Admit.antt =====
-- `Admit` and `Read` of internal/fasttier/cache.go.
use forebay.Prelude.{
  ℕ, ◌+◌, ◌%◌, ◌≡◌, refl, sym, subst, ap, ◌∙◌, ◌⊎◌, Bool, true, false, not, ◌&&◌, Option, none,
  some, ◌++◌, List, [], ◌∷◌, length, length-append, take, drop, arith, inl, inr, Bool-cases,
  Option-cases, if◌then◌else◌,
}
use forebay.Prelude.Int.{ℤ, pos, ltb_ℤ}
use forebay.Prelude.Int64.{two64}
use forebay.Prelude.Text.{Text}
use forebay.Tier.Types.{Key, key_eq, Error, would_evict, too_large, Slab, Placement, Cache}
use forebay.Tier.Admission.{saw_before, forget}
use forebay.Tier.Admission.Laws.{key_eq_refl}
use forebay.Tier.Slab.{take_slot, write_slot, read_slot}
use forebay.Tier.Cache.{
  set_slab, slab_of, placed, begin_read, fetch, is_current, finish_read, read, take_first, Place,
  refused, at, place, fill, admit,
}

pub take-append : (s rest : Text) → take (length s) (s ++ rest) ≡ s
take-append [] rest = refl
take-append (c ∷ s) rest = ap (λ z. c ∷ z) (take-append s rest)

-- A block that was written is read from its slot.
read_slot-write_slot :
    (s s' : Slab) (slot : ℕ) (block : Text) (size : ℤ) (damage : Option Text)
    → write_slot s slot block size damage ≡ (s', true)
    → read_slot s' slot (length block) false ≡ some block
unfolding write_slot read_slot
read_slot-write_slot s s' slot block size damage h =
    let tail = drop (length block) (s.content slot) in
    elim (Option-cases damage) [
      | inl ok ↦ ground (arith, h, ok, take-append block tail, length-append block tail)
      | inr (junk, bad) ↦ absurd (ground (arith, h, bad))
    ]

-- A placement at the head of the table whose slot reads as a block is served.
read_placed :
    (c : Cache) (k : Key) (p : Placement) (ps : List (Key × Placement)) (block : Text)
    → c.resident ≡ (k, p) ∷ ps
    → read_slot (c.heap p.slab) p.slot p.len false ≡ some block
    → (read c k false).1 ≡ some block
unfolding read begin_read fetch finish_read is_current placed
read_placed c k p ps block r s = ground (arith, r, s, key_eq_refl k)

-- The cache that `fill` leaves where the slot was written.
abbrev pub filled : Cache → Key → Text → ℕ → ℕ → Slab → Cache
filled c k block i slot s = record c {
  heap = set_slab c.heap i s;
  clock = (c.clock + 1) % two64;
  generation = (c.generation + 1) % two64;
  resident =
      (
        k,
        record {
          slab = i;
          slot = slot;
          len = length block;
          used = (c.clock + 1) % two64;
          gen = (c.generation + 1) % two64;
        },
      )
      ∷ c.resident;
  first = forget c.first k;
}

filled-read :
    (c : Cache) (k : Key) (block : Text) (i slot : ℕ) (s : Slab)
    → read_slot s slot (length block) false ≡ some block
    → (read (filled c k block i slot s) k false).1 ≡ some block
filled-read c k block i slot s h =
    let hit : set_slab c.heap i s i ≡ s = ground arith in
    read_placed (filled c k block i slot s) k _ c.resident block refl (rw hit h)

fill-read :
    (c c' : Cache) (k : Key) (block : Text) (i slot : ℕ) (damage : Option Text) (e : Option Error)
    → fill c k block i slot damage ≡ (c', true, e)
    → (read c' k false).1 ≡ some block
unfolding fill
fill-read c c' k block i slot damage e h =
    let w = write_slot (c.heap i) slot block c.cfg.block_size damage in
    elim (Bool-cases (w.1)) [
      | inl ok ↦
          let back =
            read_slot-write_slot (c.heap i) w.0 slot block c.cfg.block_size damage
              (ap (λ z. (w.0, z)) ok) in
          let same : filled c k block i slot w.0 ≡ c' = ground (arith, h, ok) in
          subst (λ z. (read z k false).1 ≡ some block) same (filled-read c k block i slot w.0 back)
      | inr bad ↦ absurd (ground (arith, h, bad))
    ]

Place-cases :
    (r : Place)
    → ((e : Error) × (d : Cache) × (r ≡ refused e d))
      ⊎ ((i : ℕ) × (slot : ℕ) × (d : Cache) × (r ≡ at i slot d))
Place-cases (refused e d) = inl (e, d, refl)
Place-cases (at i slot d) = inr (i, slot, d, refl)

-- The cache on which `Admit` looks for a slot: the first read is noted, unless it is a prediction.
abbrev pub noted : Cache → Key → Bool → Cache
noted c k prefetched = if prefetched then c else record c { first = (saw_before c.first k).0 }

-- `Admit` ends without a block kept, or is the write of the slot that was found.
pub admit_cases :
    (c : Cache) (k : Key) (block : Text) (prefetched : Bool) (damage : Option Text)
    → ((e : Option Error) × (d : Cache) × (admit c k block prefetched damage ≡ (d, false, e))
        × ((d ≡ c)
            ⊎ (d ≡ noted c k prefetched)
            ⊎ ((x : Error) × (place (noted c k prefetched) prefetched ≡ refused x d))))
      ⊎ ((i : ℕ) × (slot : ℕ) × (d : Cache) × (place (noted c k prefetched) prefetched
            ≡ at i slot d)
          × (placed k c.resident ≡ none)
          × (admit c k block prefetched damage ≡ fill d k block i slot damage))
unfolding admit
admit_cases c k block prefetched damage =
    elim (Bool-cases (ltb_ℤ c.cfg.block_size (pos (length block)))) [
      | inl large ↦ inl (some too_large, c, ground (arith, large), inl refl)
      | inr fits ↦ elim (Option-cases (placed k c.resident)) [
        | inr (p, here) ↦ inl (none, c, ground (arith, fits, here), inl refl)
        | inl new_ ↦ elim (Bool-cases (not prefetched && not (saw_before c.first k).1)) [
          | inl once ↦
              inl (none, noted c k prefetched, ground (arith, fits, new_, once), inr (inl refl))
          | inr again ↦ elim (Place-cases (place (noted c k prefetched) prefetched)) [
            | inl (x, d, no_) ↦
                inl (some x, d, ground (arith, fits, new_, again, no_), inr (inr (x, no_)))
            | inr (i, slot, d, found) ↦
                inr (i, slot, d, found, new_, ground (arith, fits, new_, again, found))
          ]
        ]
      ]
    ]

-- A block that Admit reports as kept is what the next Read of its key returns, where nothing
-- happens in between and the device reads without an error.
pub admit-read :
    (c c' : Cache) (k : Key) (block : Text) (prefetched : Bool) (damage : Option Text)
    (e : Option Error)
    → admit c k block prefetched damage ≡ (c', true, e)
    → (read c' k false).1 ≡ some block
admit-read c c' k block prefetched damage e h = elim (admit_cases c k block prefetched damage) [
  | inl (x, d, not_kept, _) ↦ absurd (ground (arith, h, not_kept))
  | inr (i, slot, d, found, _, w) ↦ fill-read d c' k block i slot damage e (sym w ∙ h)
]

pub take_first-resident :
    (ls : List Text) (c d : Cache) (i slot : ℕ)
    → take_first ls c ≡ some (i, slot, d)
    → d.resident ≡ c.resident
unfolding take_first
take_first-resident [] c d i slot h = absurd (ground (arith, h))
take_first-resident (l ∷ ls) c d i slot h = elim (Option-cases (slab_of l c.slabs)) [
  | inl gone ↦ take_first-resident ls c d i slot (ground (arith, h, gone))
  | inr (j, here) ↦ elim (Option-cases (take_slot (c.heap j))) [
    | inl full ↦ take_first-resident ls c d i slot (ground (arith, h, here, full))
    | inr ((t, s), room) ↦ ground (arith, h, here, room)
  ]
]

-- A prediction is refused with nothing changed, or takes a slot that was free.
place-predicted :
    (c : Cache)
    → (place c true ≡ refused would_evict c)
      ⊎ ((i : ℕ) × (slot : ℕ) × (d : Cache) × (place c true ≡ at i slot d)
          × (d.resident ≡ c.resident))
unfolding place
place-predicted c = elim (Option-cases (take_first c.order c)) [
  | inl full ↦ inl (ground (arith, full))
  | inr ((i, slot, d), room) ↦
      inr (i, slot, d, ground (arith, room), take_first-resident c.order c d i slot room)
]

fill-placed :
    (c : Cache) (j k : Key) (block : Text) (i slot : ℕ) (damage : Option Text)
    → key_eq j k ≡ false
    → placed j (fill c k block i slot damage).0.resident ≡ placed j c.resident
unfolding fill placed
fill-placed c j k block i slot damage ne =
    elim (Bool-cases ((write_slot (c.heap i) slot block c.cfg.block_size damage).1)) [
      | inl ok ↦ ground (arith, ok, ne)
      | inr bad ↦ ground (arith, bad)
    ]

-- Admit of a predicted block leaves every block with another key resident exactly where it was,
-- whether the tier is full and whether the device fails.
pub admit_prediction-placed :
    (c : Cache) (j k : Key) (block : Text) (damage : Option Text)
    → key_eq j k ≡ false
    → placed j (admit c k block true damage).0.resident ≡ placed j c.resident
admit_prediction-placed c j k block damage ne = elim (admit_cases c k block true damage) [
  | inl (x, d, e, inl same) ↦ rw (e, same) refl
  | inl (x, d, e, inr (inl same)) ↦ rw (e, same) refl
  | inl (x, d, e, inr (inr (y, no_))) ↦ elim (place-predicted c) [
    | inl r ↦ ground (arith, e, no_, r)
    | inr (i, slot, f, r, _) ↦ absurd (ground (arith, no_, r))
  ]
  | inr (i, slot, d, found, _, w) ↦ elim (place-predicted c) [
    | inl r ↦ absurd (ground (arith, found, r))
    | inr (i', slot', f, r, same) ↦
        let there : d.resident ≡ c.resident = ground (arith, found, r, same) in
        rw w (fill-placed d j k block i slot damage ne ∙ ap (placed j) there)
  ]
]

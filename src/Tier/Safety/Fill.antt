-- ===== src/Tier/Safety/Fill.antt =====
-- The end of `Admit`: the write of the slot that was found, and `Admit` and `Close` as a whole.
use std.Path.{fun_ext}
use forebay.Prelude.{
  All-map, All-map2, ℕ, suc, ◌+◌, ◌%◌, ◌<◌, ◌≡◌, refl, ap, sym, ◌∙◌, subst, ◌⊎◌, Bool, true, false,
  Option, none, some, List, [], ◌∷◌, ◌++◌, All, length, length-append, drop, arith, inl, inr,
  Bool-cases, ◌==◌,
}
use forebay.Prelude.Int.{ℤ}
use forebay.Prelude.Int64.{two64}
use forebay.Prelude.Text.{Text}
use forebay.Tier.Types.{Key, key_eq, Slab, Placement, Cache}
use forebay.Tier.Slab.{release_slot, write_slot, close_slab}
use forebay.Tier.Cache.{set_slab, place, at, fill, admit, close_all, close}
use forebay.Tier.Cache.Admit.{admit_cases, take-append, noted, filled}
use forebay.Tier.Safety.{Table, IsSound, IsKept}
use forebay.Tier.Safety.Entries.{placed-Absent, Absent}
use forebay.Tier.Safety.Slots.{Entry-le, IsTaken, IsSound-flags, IsSound-release, IsSound-write}
use forebay.Tier.Safety.Place.{
  IsFound, place-IsFound, place-IsKept, place-refused-All, place-at-All,
}

write_slot-free :
    (s : Slab) (slot : ℕ) (block : Text) (size : ℤ) (damage : Option Text)
    → (write_slot s slot block size damage).0.free ≡ s.free
unfolding write_slot
write_slot-free s slot block size none = ground arith
write_slot-free s slot block size (some junk) = ground arith

write_slot-content :
    (s : Slab) (slot : ℕ) (block : Text) (size : ℤ) (damage : Option Text) (j : ℕ)
    → (j == slot) ≡ false
    → (write_slot s slot block size damage).0.content j ≡ s.content j
unfolding write_slot
write_slot-content s slot block size none j h = ground (arith, h)
write_slot-content s slot block size (some junk) j h = ground (arith, h)

write_slot-written :
    (s : Slab) (slot : ℕ) (block : Text) (size : ℤ) (damage : Option Text)
    → (write_slot s slot block size damage).1 ≡ true
    → (write_slot s slot block size damage).0.content slot
      ≡ block ++ drop (length block) (s.content slot)
unfolding write_slot
write_slot-written s slot block size none h = ground (arith, h)
write_slot-written s slot block size (some junk) h = absurd (ground (arith, h))

-- A slab replaced twice.
set_slab-again :
    (h : ℕ → Slab) (i : ℕ) (s t : Slab) → set_slab (set_slab h i s) i t ≡ set_slab h i t
set_slab-again h i s t = fun_ext (λ j. ground arith)

module _ (content : Key → Text) (b c : Cache) (i slot : ℕ) (found : IsFound content b c i slot)
    (k : Key) (block : Text) (damage : Option Text) where
  open found use {kept, taken, in_heap}

  abbrev wrote : Slab × Bool
  wrote = write_slot (c.heap i) slot block c.cfg.block_size damage

  written :
      IsSound content (set_slab c.heap i wrote.0) c.next_slab c.slabs c.generation c.resident
      × IsTaken (set_slab c.heap i wrote.0) c.resident i slot
  written =
      IsSound-write content kept i slot wrote.0 taken
        (write_slot-free (c.heap i) slot block c.cfg.block_size damage)
        (write_slot-content (c.heap i) slot block c.cfg.block_size damage)

  fill_failed :
      wrote.1 ≡ false
      → IsKept content (record c { heap = set_slab c.heap i (release_slot wrote.0 slot) })
  fill_failed bad =
      let hit : set_slab c.heap i wrote.0 i ≡ wrote.0 = ground arith in
      let back = IsSound-release content written.0 i slot written.1 in
      let one : set_slab (set_slab c.heap i wrote.0) i
            (release_slot (set_slab c.heap i wrote.0 i) slot)
          ≡ set_slab c.heap i (release_slot wrote.0 slot) =
        rw hit (set_slab-again c.heap i wrote.0 (release_slot wrote.0 slot)) in
      subst (λ h. IsSound content h c.next_slab c.slabs c.generation c.resident) one back

  fill_written :
      wrote.1 ≡ true
      → block ≡ content k
      → Absent k c.resident
      → suc c.generation < two64
      → IsKept content (filled c k block i slot wrote.0)
  fill_written ok same absent fresh =
      let gen : (c.generation + 1) % two64 ≡ suc c.generation = omega arith in
      let hit : set_slab c.heap i wrote.0 i ≡ wrote.0 = ground arith in
      let text = write_slot-written (c.heap i) slot block c.cfg.block_size damage ok in
      let tail = drop (length block) ((c.heap i).content slot) in
      let (s, t) = written in
      record {
        entries = (
          (
            in_heap,
            omega arith,
            t.unused,
            rw (hit, text, length-append block tail) (omega arith),
            rw (hit, text, take-append block tail) same,
          ),
          All-map c.resident
              (λ x e.
                Entry-le content (set_slab c.heap i wrote.0) c.next_slab c.generation c.next_slab
                  ((c.generation + 1) % two64) x (omega arith) (omega arith) e)
              s.entries,
        );
        apart = (All-map2 c.resident (λ x a off. (a, off)) absent t.clear, s.apart);
        single = s.single;
        known = s.known;
      }

  fill-IsKept :
      block ≡ content k
      → Absent k c.resident
      → suc c.generation < two64
      → IsKept content (fill c k block i slot damage).0
  unfolding fill
  fill-IsKept same absent fresh = elim (Bool-cases (wrote.1)) [
    | inl ok ↦
        let e : filled c k block i slot wrote.0 ≡ (fill c k block i slot damage).0 =
          ground (arith, ok) in
        subst (IsKept content) e (fill_written ok same absent fresh)
    | inr bad ↦
        let e : record c { heap = set_slab c.heap i (release_slot wrote.0 slot) }
            ≡ (fill c k block i slot damage).0 =
          ground (arith, bad) in
        subst (IsKept content) e (fill_failed bad)
  ]

noted-same :
    (c : Cache) (k : Key) (prefetched : Bool)
    → ((noted c k prefetched).resident ≡ c.resident)
      × ((noted c k prefetched).generation ≡ c.generation)
noted-same c k prefetched = ground arith

noted-IsKept :
    (content : Key → Text) (c : Cache) (k : Key) (prefetched : Bool)
    → IsKept content c
    → IsKept content (noted c k prefetched)
noted-IsKept content c k true s = s
noted-IsKept content c k false s = s

fill-generation :
    (c : Cache) (k : Key) (block : Text) (i slot : ℕ) (damage : Option Text)
    → ((fill c k block i slot damage).0.generation ≡ c.generation)
      ⊎ ((fill c k block i slot damage).0.generation ≡ (c.generation + 1) % two64)
unfolding fill
fill-generation c k block i slot damage =
    elim (Bool-cases ((write_slot (c.heap i) slot block c.cfg.block_size damage).1)) [
      | inl ok ↦ inr (ground (arith, ok))
      | inr bad ↦ inl (ground (arith, bad))
    ]

fill-All {κ} :
    (c : Cache) (k : Key) (block : Text) (i slot : ℕ) (damage : Option Text)
    (P : Key × Placement → Type κ)
    → ((p : Placement) → p.gen ≡ (c.generation + 1) % two64 → P (k, p))
    → All P c.resident
    → All P (fill c k block i slot damage).0.resident
unfolding fill
fill-All c k block i slot damage P new_one all =
    elim (Bool-cases ((write_slot (c.heap i) slot block c.cfg.block_size damage).1)) [
      | inl ok ↦ rw ok (new_one _ refl, all)
      | inr bad ↦ rw bad all
    ]

module _ (content : Key → Text) (c : Cache) (k : Key) (block : Text) (prefetched : Bool)
    (damage : Option Text) (s : IsKept content c) where
  slot-IsFound :
      (d : Cache) (i slot : ℕ)
      → place (noted c k prefetched) prefetched ≡ at i slot d
      → IsFound content (noted c k prefetched) d i slot
  slot-IsFound d i slot found =
      place-IsFound content (noted c k prefetched) (noted-IsKept content c k prefetched s) d
        prefetched i slot found

  pub admit-IsKept :
      block ≡ content k
      → suc c.generation < two64
      → IsKept content (admit c k block prefetched damage).0
  admit-IsKept same fresh =
      let b = noted c k prefetched in
      let n = noted-IsKept content c k prefetched s in
      elim (admit_cases c k block prefetched damage) [
        | inl (x, d, e, inl left) ↦ rw (e, left) s
        | inl (x, d, e, inr (inl left)) ↦ rw (e, left) n
        | inl (x, d, e, inr (inr (y, no_))) ↦ rw e ((place-IsKept content b n d prefetched y no_).0)
        | inr (i, slot, d, found, new_, e) ↦
            let f = slot-IsFound d i slot found in
            let absent =
              place-at-All content b n (λ x. key_eq k x.0 ≡ false)
                (rw ((noted-same c k prefetched).0) (placed-Absent k c.resident new_)) d prefetched
                i slot found in
            let g : d.generation ≡ c.generation = f.same_gen ∙ (noted-same c k prefetched).1 in
            rw e (fill-IsKept content b d i slot f k block damage same absent (rw g fresh))
      ]

  pub admit-generation :
      ((admit c k block prefetched damage).0.generation ≡ c.generation)
      ⊎ ((admit c k block prefetched damage).0.generation ≡ (c.generation + 1) % two64)
  admit-generation =
      let b = noted c k prefetched in
      let n = noted-IsKept content c k prefetched s in
      let g = (noted-same c k prefetched).1 in
      elim (admit_cases c k block prefetched damage) [
        | inl (x, d, e, inl left) ↦ inl (rw (e, left) refl)
        | inl (x, d, e, inr (inl left)) ↦ inl (rw (e, left) g)
        | inl (x, d, e, inr (inr (y, no_))) ↦
            inl (rw e ((place-IsKept content b n d prefetched y no_).1 ∙ g))
        | inr (i, slot, d, found, new_, e) ↦
            rw (e, ← ((slot-IsFound d i slot found).same_gen ∙ g))
              (fill-generation d k block i slot damage)
      ]

  -- The blocks after `Admit` were there before, or have the next generation.
  pub admit-All {κ} :
      (P : Key × Placement → Type κ)
      → ((p : Placement) → p.gen ≡ (c.generation + 1) % two64 → P (k, p))
      → All P c.resident
      → All P (admit c k block prefetched damage).0.resident
  admit-All P new_one all =
      let b = noted c k prefetched in
      let n = noted-IsKept content c k prefetched s in
      let here = subst (All P) (sym (noted-same c k prefetched).0) all in
      elim (admit_cases c k block prefetched damage) [
        | inl (x, d, e, inl left) ↦ rw (e, left) all
        | inl (x, d, e, inr (inl left)) ↦ rw (e, left) here
        | inl (x, d, e, inr (inr (y, no_))) ↦
            rw e (place-refused-All content b n P here d prefetched y no_)
        | inr (i, slot, d, found, new_, e) ↦
            let g : d.generation ≡ c.generation =
              (slot-IsFound d i slot found).same_gen ∙ (noted-same c k prefetched).1 in
            rw e (
              fill-All d k block i slot damage P
                (λ p q. new_one p (q ∙ ap (λ z. (z + 1) % two64) g))
                (place-at-All content b n P here d prefetched i slot found))
      ]

module _ (content : Key → Text) where
  close_all-IsSound :
      {n : ℕ} {ss : List (Text × ℕ)} {g : ℕ} {ps : Table} (cs : List (Text × ℕ)) (h : ℕ → Slab)
      → IsSound content h n ss g ps
      → IsSound content (close_all cs h) n ss g ps
  unfolding close_all close_slab
  close_all-IsSound [] h s = s
  close_all-IsSound ((l, i) ∷ cs) h s =
      IsSound-flags content (close_all-IsSound cs h s) i _ refl refl

  pub close-IsKept : (c : Cache) → IsKept content c → IsKept content (close c)
  unfolding close
  close-IsKept c s =
      let t = close_all-IsSound c.slabs c.heap s in
      record { entries = tt; apart = tt; single = t.single; known = tt }

-- ===== src/Tier/Safety/Slots.antt =====
-- A slab of the heap replaced: a slot taken, given back or written, a slab revoked, closed or added.
use forebay.Prelude.{
  All-map, All-map2, ℕ, zero, suc, ◌/◌, ◌≤◌, ◌<◌, ◌≡◌, refl, ap, sym, ◌∙◌, subst, ◌⊎◌, true, false,
  Option, none, some, List, [], ◌∷◌, arith, inl, inr, Bool-cases, ◌==◌,
}
use forebay.Prelude.Int.{ℤ, pos_part}
use forebay.Prelude.Text.{Text}
use forebay.Tier.Types.{Key, Slab, Placement, Extent}
use forebay.Tier.Slab.{take_slot, release_slot, slots_from, open_slab}
use forebay.Tier.Cache.{set_slab}
use forebay.Tier.Safety.{Table, Unused, Single, is_at, Clear, Entry, IsSound}

List-cases {ℓ} : {A : Type ℓ} (xs : List A) → (xs ≡ []) ⊎ ((y : A) × (ys : List A) × (xs ≡ y ∷ ys))
List-cases [] = inl refl
List-cases (y ∷ ys) = inr (y, ys, refl)

module _ (content : Key → Text) where
  -- An entry stays one where its slab keeps its slot used and the slot's content.
  Entry-set :
      (h : ℕ → Slab) (i : ℕ) (s : Slab) (n g : ℕ) (x : Key × Placement)
      → Entry content h n g x
      → ((x.1.slab == i) ≡ true
          → Unused x.1.slot s.free × (s.content x.1.slot ≡ (h x.1.slab).content x.1.slot))
      → Entry content (set_slab h i s) n g x
  Entry-set h i s n g (k, p) e kept = elim (Bool-cases (p.slab == i)) [
    | inl here ↦
        let hit : set_slab h i s p.slab ≡ s = ground (arith, here) in
        let (u, same) = kept here in
        (e.0, e.1, rw hit u, rw (hit, same) (e.3), rw (hit, same) (e.4))
    | inr away ↦
        let miss : set_slab h i s p.slab ≡ h p.slab = ground (arith, away) in
        (e.0, e.1, rw miss (e.2), rw miss (e.3), rw miss (e.4))
  ]

  pub Entry-le :
      (h : ℕ → Slab) (n g n' g' : ℕ) (x : Key × Placement)
      → n ≤ n'
      → g ≤ g'
      → Entry content h n g x
      → Entry content h n' g' x
  Entry-le h n g n' g' x ln lg e = (omega arith, omega arith, e.2, e.3, e.4)

module _ (h : ℕ → Slab) (i : ℕ) (s : Slab) where
  Single-set :
      ((j : ℕ) → Single (h j).free) → Single s.free → (j : ℕ) → Single (set_slab h i s j).free
  Single-set all one j = elim (Bool-cases (j == i)) [
    | inl here ↦ let hit : set_slab h i s j ≡ s = ground (arith, here) in rw hit one
    | inr away ↦ let miss : set_slab h i s j ≡ h j = ground (arith, away) in rw miss (all j)
  ]

take_slot_inv :
    (t s : Slab) (slot : ℕ)
    → take_slot t ≡ some (slot, s)
    → (t.free ≡ slot ∷ s.free) × (s.content ≡ t.content)
unfolding take_slot
take_slot_inv t s slot h = elim (Bool-cases t.revoked) [
  | inl gone ↦ absurd (ground (arith, h, gone))
  | inr live ↦ elim (List-cases t.free) [
    | inl full ↦ absurd (ground (arith, h, live, full))
    | inr (x, xs, e) ↦ ground (arith, h, live, e)
  ]
]

off_slot :
    (i slot : ℕ) (p : Placement)
    → is_at i slot p ≡ false
    → (p.slab == i) ≡ true
    → (p.slot == slot) ≡ false
off_slot i slot p off here = ground arith

-- A slot that was taken and is not given out: no block stands in it and it is not free.
pub record IsTaken (h : ℕ → Slab) (ps : Table) (i slot : ℕ) : Type 0 where
  pub clear : Clear i slot ps
  pub unused : Unused slot (h i).free

module _ (content : Key → Text) {h : ℕ → Slab} {n : ℕ} {ss : List (Text × ℕ)} {g : ℕ} {ps : Table}
    (sound : IsSound content h n ss g ps) where
  open sound use {entries, apart, single, known}

  slab-eq : (p : Placement) (i : ℕ) → (p.slab == i) ≡ true → p.slab ≡ i
  slab-eq p i here = ground arith

  -- A slab changed in neither its free slots nor its content.
  pub IsSound-flags :
      (i : ℕ) (s : Slab)
      → s.free ≡ (h i).free
      → s.content ≡ (h i).content
      → IsSound content (set_slab h i s) n ss g ps
  IsSound-flags i s f c = record {
    entries =
        All-map ps
          (λ x e.
            Entry-set content h i s n g x e
              (λ here. let at = ap h (slab-eq x.1 i here) in (rw (f, ← at) (e.2), rw (c, at) refl)))
          entries;
    apart = apart;
    single = Single-set h i s single (rw f (single i));
    known = known;
  }

  -- A slot taken off the free list.
  pub IsSound-take :
      (i slot : ℕ) (s : Slab)
      → take_slot (h i) ≡ some (slot, s)
      → IsSound content (set_slab h i s) n ss g ps × IsTaken (set_slab h i s) ps i slot
  IsSound-take i slot s e =
      let (f, c) = take_slot_inv (h i) s slot e in
      let head = subst Single f (single i) in
      let hit : set_slab h i s i ≡ s = ground arith in
      (
        record {
          entries =
              All-map ps
                (λ x e.
                  Entry-set content h i s n g x e
                    (λ here. ((used x.1 f here e.2).1, rw (c, ap h (slab-eq x.1 i here)) refl)))
                entries;
          apart = apart;
          single = Single-set h i s single head.1;
          known = known;
        },
        record {
          clear = All-map ps (λ x e. away x.1 (λ here. (used x.1 f here e.2).0)) entries;
          unused = rw hit (head.0);
        },
      )
    where
      used :
          (p : Placement)
          → (h i).free ≡ slot ∷ s.free
          → (p.slab == i) ≡ true
          → Unused p.slot (h p.slab).free
          → ((p.slot == slot) ≡ false) × Unused p.slot s.free
      used p f here u = subst (Unused p.slot) (ap (λ j. (h j).free) (slab-eq p i here) ∙ f) u

      away :
          (p : Placement)
          → ((p.slab == i) ≡ true → (p.slot == slot) ≡ false)
          → is_at i slot p ≡ false
      away p f = ground arith

  -- A slot that was taken goes back.
  pub IsSound-release :
      (i slot : ℕ)
      → IsTaken h ps i slot
      → IsSound content (set_slab h i (release_slot (h i) slot)) n ss g ps
  unfolding release_slot
  IsSound-release i slot t =
      let back = release_slot (h i) slot in
      record {
        entries =
            All-map2 ps
              (λ x e off. Entry-set content h i back n g x e (λ here.
                let at = ap h (slab-eq x.1 i here) in
                (
                  (off_slot i slot x.1 off here, subst (λ z. Unused x.1.slot z.free) at (e.2)),
                  ap (λ z. z.content x.1.slot) (sym at),
                )))
              entries t.clear;
        apart = apart;
        single = Single-set h i back single (t.unused, single i);
        known = known;
      }

  -- Other content in a slot that was taken.
  pub IsSound-write :
      (i slot : ℕ) (s : Slab)
      → IsTaken h ps i slot
      → s.free ≡ (h i).free
      → ((j : ℕ) → (j == slot) ≡ false → s.content j ≡ (h i).content j)
      → IsSound content (set_slab h i s) n ss g ps × IsTaken (set_slab h i s) ps i slot
  IsSound-write i slot s t f c =
      let hit : set_slab h i s i ≡ s = ground arith in
      (
        record {
          entries =
              All-map2 ps
                (λ x e off. Entry-set content h i s n g x e (λ here.
                  let at = ap h (slab-eq x.1 i here) in
                  (
                    rw (f, ← at) (e.2),
                    c x.1.slot (off_slot i slot x.1 off here)
                        ∙ ap (λ z. z.content x.1.slot) (sym at),
                  )))
                entries t.clear;
          apart = apart;
          single = Single-set h i s single (rw f (single i));
          known = known;
        },
        record { clear = t.clear; unused = rw (hit, f) t.unused },
      )

  -- A slab added under the next number.
  pub IsSound-add :
      (s : Slab) (lease : Text)
      → Single s.free
      → IsSound content (set_slab h n s) (suc n) ((lease, n) ∷ ss) g ps
  IsSound-add s lease one = record {
    entries =
        All-map ps
          (λ x e.
            Entry-set content h n s (suc n) g x
              (Entry-le content h n g (suc n) g x (omega arith) (omega arith) e)
              (λ here. absurd (ground (arith, here, e.0))))
          entries;
    apart = apart;
    single = Single-set h n s single one;
    known = (omega arith, All-map ss (λ x lt. omega arith) known);
  }

Single-slots_from : (i n : ℕ) → Single (slots_from i n)
unfolding slots_from
Single-slots_from i zero = tt
Single-slots_from i (suc n) = (above i (suc i) n (omega arith), Single-slots_from (suc i) n)
  where
    above : (i j n : ℕ) → i < j → Unused i (slots_from j n)
    above i j zero h = tt
    above i j (suc n) h = (ground arith, above i (suc j) n (omega arith))

-- The slots of an extent that was opened are apart.
pub open_slab-Single :
    (lease : Text) (extent : Option Extent) (size : ℤ) (s : Slab)
    → open_slab lease extent size ≡ some s
    → Single s.free
unfolding open_slab
open_slab-Single lease none size s h = absurd (ground (arith, h))
open_slab-Single lease (some e) size s h = elim (Bool-cases (e.size / pos_part size == 0)) [
  | inl none_ ↦ absurd (ground (arith, h, none_))
  | inr whole ↦
      let f : slots_from 0 (e.size / pos_part size) ≡ s.free = ground (arith, h, whole) in
      subst Single f (Single-slots_from 0 (e.size / pos_part size))
]

-- ===== src/Tier/Safety/Methods.antt =====
-- The methods of `Cache` and its invariant.
use forebay.Prelude.{
  All-map2, ℕ, suc, ◌≤◌, ◌<◌, ◌≡◌, refl, sym, subst, true, false, Option, none, some, List, [], ◌∷◌,
  All, arith, inl, inr, Bool-cases, Option-cases,
}
use forebay.Prelude.Text.{Text, text_eq}
use forebay.Tier.Types.{Key, key_eq, Slab, Placement, Extent, Cache}
use forebay.Tier.Slab.{take_slot, release_slot, revoke_slab, close_slab, open_slab}
use forebay.Tier.Cache.{
  set_slab, slab_of, drop_slab, placed, unplace, add_capacity, revoke, begin_read, is_current,
  finish_read, take_first,
}
use forebay.Tier.Safety.{Table, Entry, IsSound, IsKept}
use forebay.Tier.Safety.Entries.{
  unplace-All, keep_off-All, placed-All, unplace-Apart, keep_off-Apart, unplace-Clear,
  unplace-Absent, key_eq→eq,
}
use forebay.Tier.Safety.Slots.{
  IsTaken, IsSound-flags, IsSound-take, IsSound-release, IsSound-add, open_slab-Single,
}

slab_of-known :
    (lease : Text) (ss : List (Text × ℕ)) (n i : ℕ)
    → All (λ x. x.1 < n) ss
    → slab_of lease ss ≡ some i
    → i < n
unfolding slab_of
slab_of-known lease [] n i h e = cc
slab_of-known lease ((l, j) ∷ ss) n i h e = elim (Bool-cases (text_eq lease l)) [
  | inl hit ↦ ground (arith, h.0)
  | inr miss ↦ slab_of-known lease ss n i h.1 (ground arith)
]

drop_slab-known :
    (lease : Text) (ss : List (Text × ℕ)) (n : ℕ)
    → All (λ x. x.1 < n) ss
    → All (λ x. x.1 < n) (drop_slab lease ss)
unfolding drop_slab
drop_slab-known lease [] n h = tt
drop_slab-known lease ((l, j) ∷ ss) n h = elim (Bool-cases (text_eq lease l)) [
  | inl hit ↦ rw hit (h.1)
  | inr miss ↦ rw miss (h.0, drop_slab-known lease ss n h.1)
]

module _ (content : Key → Text) where
  pub add_capacity-IsKept :
      (c : Cache) (lease : Text) (extent : Option Extent)
      → IsKept content c
      → IsKept content (add_capacity c lease extent).0
  unfolding add_capacity
  add_capacity-IsKept c lease extent s =
      elim (Option-cases (open_slab lease extent c.cfg.block_size)) [
        | inl no_ ↦ rw (add_capacity, no_) s
        | inr (t, opened) ↦ elim (Option-cases (slab_of lease c.slabs)) [
          | inr (i, held) ↦ rw (add_capacity, opened, held) s
          | inl new_ ↦
              rw (add_capacity, opened, new_)
                (IsSound-add content s t lease
                  (open_slab-Single lease extent c.cfg.block_size t opened))
        ]
      ]

  -- Blocks taken out leave the rest as it was.
  pub IsSound-unplace :
      {h : ℕ → Slab} {n : ℕ} {ss : List (Text × ℕ)} {g : ℕ} {ps : Table} (k : Key)
      → IsSound content h n ss g ps
      → IsSound content h n ss g (unplace k ps)
  IsSound-unplace {ps} k s = record {
    entries = unplace-All _ k ps s.entries;
    apart = unplace-Apart k ps s.apart;
    single = s.single;
    known = s.known;
  }

  pub revoke-IsKept :
      (c : Cache) (lease : Text) → IsKept content c → IsKept content (revoke c lease).0
  unfolding revoke revoke_slab close_slab
  revoke-IsKept c lease s = elim (Option-cases (slab_of lease c.slabs)) [
    | inl no_ ↦ rw (revoke, no_) s
    | inr (i, held) ↦
        rw (revoke, held)
          (IsSound-flags content
            (record {
              entries = keep_off-All _ i c.resident s.entries;
              apart = keep_off-Apart i c.resident s.apart;
              single = s.single;
              known = drop_slab-known lease c.slabs c.next_slab s.known;
            })
            i _ refl refl)
  ]

  -- A block whose use is noted, at the head of the table.
  pub begin_read-IsKept :
      (c : Cache) (k : Key) → IsKept content c → IsKept content (begin_read c k).0
  unfolding begin_read
  begin_read-IsKept c k s = elim (Option-cases (placed k c.resident)) [
    | inl no_ ↦ rw (begin_read, no_) s
    | inr (p, here) ↦
        let (j, same, e) =
          placed-All (Entry content c.heap c.next_slab c.generation) k c.resident p s.entries
            here in
        rw (begin_read, here)
          (record {
            entries = (
              subst (λ z. Entry content c.heap c.next_slab c.generation (z, p))
                  (sym (key_eq→eq k j same)) e,
              unplace-All _ k c.resident s.entries,
            );
            apart = (
              All-map2 (unplace k c.resident) (λ x a b. (a, b))
                  (unplace-Absent k c.resident s.apart) (unplace-Clear k c.resident p s.apart here),
              unplace-Apart k c.resident s.apart,
            );
            single = s.single;
            known = s.known;
          })
  ]

-- What the generation of a block says where the block is still resident.
abbrev pub Linked {κ} : Key → ℕ → (Placement → Type κ) → Table → Type κ
Linked k g P = All (λ x. key_eq k x.0 ≡ true → x.1.gen ≡ g → P x.1)

abbrev SamePlace : Placement → Placement → Type 0
SamePlace p q = (q.slab ≡ p.slab) × (q.slot ≡ p.slot) × (q.len ≡ p.len)

-- What a reader holds of a placement that it was given: the generation was given out, and a
-- resident block of that key and generation is where the placement says.
pub record IsToken (c : Cache) (k : Key) (p : Placement) : Type 0 where
  pub issued : p.gen ≤ c.generation
  pub same : Linked k p.gen (SamePlace p) c.resident

-- The block that the test under the lock finds.
pub is_current-placed :
    (c : Cache) (k : Key) (p : Placement)
    → is_current c k p ≡ true
    → (q : Placement) × (placed k c.resident ≡ some q) × (q.gen ≡ p.gen)
unfolding is_current
is_current-placed c k p h = elim (Option-cases (placed k c.resident)) [
  | inl no_ ↦ absurd (ground (arith, h, no_))
  | inr (q, here) ↦ (q, here, ground (arith, h, here))
]

pub Linked-placed {κ} :
    (P : Placement → Type κ) (k : Key) (g : ℕ) (ps : Table) (q : Placement)
    → Linked k g P ps
    → placed k ps ≡ some q
    → q.gen ≡ g
    → P q
Linked-placed P k g ps q l here e =
    let (j, same, f) = placed-All (λ x. key_eq k x.0 ≡ true → x.1.gen ≡ g → P x.1) k ps q l here in
    f same e

-- A read that failed on a slab that is not revoked gives its slot back.
finish_read-freed :
    (c : Cache) (k : Key) (p : Placement)
    → is_current c k p ≡ true
    → (c.heap p.slab).revoked ≡ false
    → (finish_read c k p none).0 ≡ record c {
      misses = suc c.misses;
      resident = unplace k c.resident;
      heap = set_slab c.heap p.slab (release_slot (c.heap p.slab) p.slot);
    }
unfolding finish_read
finish_read-freed c k p e live = ground (arith, e, live)

module _ (content : Key → Text) where
  pub finish_read-IsKept :
      (c : Cache) (k : Key) (p : Placement) (r : Option Text)
      → IsKept content c
      → IsToken c k p
      → IsKept content (finish_read c k p r).0
  unfolding finish_read
  finish_read-IsKept c k p (some block) s t = elim (Bool-cases (is_current c k p)) [
    | inl e ↦ rw (finish_read, e) s
    | inr e ↦ rw (finish_read, e) s
  ]
  finish_read-IsKept c k p none s t = elim (Bool-cases (is_current c k p)) [
    | inr e ↦ rw (finish_read, e) s
    | inl e ↦ elim (Bool-cases (c.heap p.slab).revoked) [
      | inl gone ↦ rw (finish_read, e, gone) (IsSound-unplace content k s)
      | inr live ↦
          let (q, here, same_gen) = is_current-placed c k p e in
          let (slab, slot, _) =
            Linked-placed (SamePlace p) k p.gen c.resident q t.same here same_gen in
          let (j, same, en) =
            placed-All (Entry content c.heap c.next_slab c.generation) k c.resident q s.entries
              here in
          let cleared = unplace-Clear k c.resident q s.apart here in
          let taken : IsTaken c.heap (unplace k c.resident) q.slab q.slot = record {
            clear = cleared;
            unused = en.2;
          } in
          let back = IsSound-release content (IsSound-unplace content k s) p.slab p.slot (
            subst (λ z. IsTaken c.heap (unplace k c.resident) z p.slot) slab
              (subst (λ z. IsTaken c.heap (unplace k c.resident) q.slab z) slot taken)) in
          subst (IsKept content) (sym (finish_read-freed c k p e live)) back
    ]
  ]

  pub take_first-IsKept :
      (ls : List Text) (c d : Cache) (i slot : ℕ)
      → IsKept content c
      → take_first ls c ≡ some (i, slot, d)
      → IsKept content d
        × IsTaken d.heap d.resident i slot
        × (i < d.next_slab)
        × (d.generation ≡ c.generation)
        × (d.resident ≡ c.resident)
  unfolding take_first
  take_first-IsKept [] c d i slot s h = absurd (ground (arith, h))
  take_first-IsKept (l ∷ ls) c d i slot s h = elim (Option-cases (slab_of l c.slabs)) [
    | inl gone ↦ take_first-IsKept ls c d i slot s (ground (arith, h, gone))
    | inr (j, held) ↦ elim (Option-cases (take_slot (c.heap j))) [
      | inl full ↦ take_first-IsKept ls c d i slot s (ground (arith, h, held, full))
      | inr ((x, t), room) ↦
          let same_i : j ≡ i = ground (arith, h, held, room) in
          let same_slot : x ≡ slot = ground (arith, h, held, room) in
          let e : record c { heap = set_slab c.heap j t } ≡ d = ground (arith, h, held, room) in
          let (kept, taken) = IsSound-take content s j x t room in
          rw (← e, ← same_i, ← same_slot)
            (kept, taken, slab_of-known l c.slabs c.next_slab j s.known held, refl, refl)
    ]
  ]

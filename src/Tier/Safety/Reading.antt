-- ===== src/Tier/Safety/Reading.antt =====
-- The three parts of `Read` and what a caller holds between them.
use forebay.Prelude.{
  All-map, All-map2, ℕ, ◌≡◌, refl, ap, sym, ◌∙◌, Bool, Option, none, some, take, arith, inl, inr,
  Bool-cases, Option-cases,
}
use forebay.Prelude.Text.{Text}
use forebay.Tier.Types.{Key, Placement, Cache}
use forebay.Tier.Slab.{read_slot}
use forebay.Tier.Cache.{placed, unplace, begin_read, fetch, is_current, finish_read}
use forebay.Tier.Readers.{Reader, idle, began, loaded, answered, reader_of}
use forebay.Tier.Safety.{Entry, IsKept}
use forebay.Tier.Safety.Entries.{placed-All, key_eq→eq, unplace-Absent}
use forebay.Tier.Safety.Methods.{Linked, IsToken, is_current-placed, Linked-placed}
use forebay.Tier.Safety.Later.{Later}

module _ (content : Key → Text) where
  -- What holds of a call of `Read` while the cache is `c`.
  abbrev pub IsReading : Cache → Reader → Type 0
  IsReading c idle = Unit
  IsReading c (began k p) = IsToken c k p
  IsReading c (loaded k p r) =
      IsToken c k p × ((b : Text) → r ≡ some b → Linked k p.gen (λ _. b ≡ content k) c.resident)
  IsReading c (answered k r) = (b : Text) → r ≡ some b → b ≡ content k

  IsToken-Later :
      (more : ℕ) (c d : Cache) (k : Key) (p : Placement)
      → Later more c d
      → IsToken c k p
      → IsToken d k p
  IsToken-Later more c d k p (g, _, l) t = record {
    issued = let i = t.issued in omega arith;
    same = l _ (λ j q now f. f) (λ j q lt same e. absurd (let i = t.issued in omega arith)) t.same;
  }

  pub IsReading-Later :
      (more : ℕ) (c d : Cache) (r : Reader) → Later more c d → IsReading c r → IsReading d r
  IsReading-Later more c d idle l h = tt
  IsReading-Later more c d (began k p) l t = IsToken-Later more c d k p l t
  IsReading-Later more c d (loaded k p r) l (t, linked) = (
    IsToken-Later more c d k p l t,
    λ b e.
        l.2 _ (λ j q now f. f) (λ j q lt same e'. absurd (let i = t.issued in omega arith))
          (linked b e),
  )
  IsReading-Later more c d (answered k r) l h = h

  fetch-content :
      (c : Cache) (p : Placement) (fails : Bool) (b : Text)
      → fetch c p fails ≡ some b
      → b ≡ take p.len ((c.heap p.slab).content p.slot)
  unfolding fetch read_slot
  fetch-content c p fails b h = ground (arith, h)

  module _ (c : Cache) (s : IsKept content c) where
    pub begin_read-IsReading :
        (k : Key) → IsReading (begin_read c k).0 (reader_of k (begin_read c k).1)
    unfolding begin_read reader_of
    begin_read-IsReading k = elim (Option-cases (placed k c.resident)) [
      | inl no_ ↦ rw (begin_read, no_) (λ b e. absurd (ground (arith, e)))
      | inr (p, here) ↦
          let (j, same, en) =
            placed-All (Entry content c.heap c.next_slab c.generation) k c.resident p s.entries
              here in
          rw (begin_read, here)
            (record {
              issued = en.1;
              same = (
                λ e g. (refl, refl, refl),
                All-map (unplace k c.resident) (λ x off hit. absurd (ground (arith, off, hit)))
                    (unplace-Absent k c.resident s.apart),
              );
            })
    ]

    pub fetch-IsReading :
        (k : Key) (p : Placement) (fails : Bool)
        → IsToken c k p
        → IsReading c (loaded k p (fetch c p fails))
    fetch-IsReading k p fails t = (
      t,
      λ b e.
          All-map2 c.resident
            (λ x en same hit g.
              let (slab, slot, len) = same hit g in
              let text = fetch-content c p fails b e in
              text ∙ rw (← slab, ← slot, ← len) (en.4 ∙ ap content (sym (key_eq→eq k x.0 hit))))
            s.entries t.same,
    )

    pub finish_read-IsReading :
        (k : Key) (p : Placement) (r : Option Text)
        → IsReading c (loaded k p r)
        → IsReading (finish_read c k p r).0 (answered k (finish_read c k p r).1)
    unfolding finish_read
    finish_read-IsReading k p none (t, l) b e = absurd (ground (arith, e))
    finish_read-IsReading k p (some block) (t, l) b e = elim (Bool-cases (is_current c k p)) [
      | inl still ↦
          let (q, here, g) = is_current-placed c k p still in
          let same : block ≡ b = ground (arith, e, still) in
          sym same
          ∙ Linked-placed (λ _. block ≡ content k) k p.gen c.resident q (l block refl) here g
      | inr gone ↦ absurd (ground (arith, e, gone))
    ]

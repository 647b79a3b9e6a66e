-- ===== src/Tier/Slab.antt =====
-- internal/fasttier/slab.go: one extent divided into slots. What the device does is an input: an
-- extent that cannot be opened, a write that fails and what it leaves, a read that fails.
use forebay.Prelude.{
  ℕ, zero, suc, ◌/◌, Bool, true, false, ◌||◌, Option, none, some, ◌++◌, List, [], ◌∷◌, length, take,
  drop, ltb, ◌==◌, if◌then◌else◌,
}
use forebay.Prelude.Int.{ℤ, pos, pos_part, ltb_ℤ}
use forebay.Prelude.Text.{Text}
use forebay.Tier.Types.{Slab, Extent}

-- The slots from one number on, which the loop of `openSlab` pushes last to first.
unfoldable pub slots_from : ℕ → ℕ → List ℕ
slots_from i zero = []
slots_from i (suc n) = i ∷ slots_from (suc i) n

unfoldable pub open_slab : Text → Option Extent → ℤ → Option Slab
unfolding slots_from
open_slab lease none block_size = none
open_slab lease (some e) block_size =
    let n = e.size / pos_part block_size in
    if n == 0
    then none
    else some (record {
      lease = lease;
      slots = n;
      free = slots_from 0 n;
      revoked = false;
      closed = false;
      content = e.bytes_of;
    })

unfoldable pub take_slot : Slab → Option (ℕ × Slab)
take_slot s =
    if s.revoked
    then none
    else elim s.free [ [] ↦ none | slot ∷ rest ↦ some (slot, record s { free = rest }) ]

unfoldable pub release_slot : Slab → ℕ → Slab
release_slot s slot = record s { free = slot ∷ s.free }

-- The file with one slot replaced.
abbrev pub set_content : (ℕ → Text) → ℕ → Text → ℕ → Text
set_content f slot block i = if i == slot then block else f i

-- `write`: a shorter block leaves the end of the slot as it was. `damage` is what a failing device
-- leaves in the slot.
unfoldable pub write_slot : Slab → ℕ → Text → ℤ → Option Text → Slab × Bool
write_slot s slot block block_size damage =
    if s.revoked || s.closed
    then (s, false)
    else if ltb_ℤ block_size (pos (length block))
    then (s, false)
    else elim damage [
      | some junk ↦ (record s { content = set_content s.content slot junk }, false)
      | none ↦ (
        record s {
          content = set_content s.content slot (block ++ drop (length block) (s.content slot));
        },
        true,
      )
    ]

-- `read`: `none` is an error, also where the file ends inside the slot.
unfoldable pub read_slot : Slab → ℕ → ℕ → Bool → Option Text
read_slot s slot len fails =
    if s.revoked || s.closed || fails || ltb (length (s.content slot)) len
    then none
    else some (take len (s.content slot))

unfoldable pub revoke_slab : Slab → Slab
revoke_slab s = record s { revoked = true }

unfoldable pub close_slab : Slab → Slab
close_slab s = record s { closed = true }

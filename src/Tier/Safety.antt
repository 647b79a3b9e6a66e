-- ===== src/Tier/Safety.antt =====
-- internal/fasttier/cache.go with many callers: what the table of resident blocks and the slabs
-- satisfy between any two steps.
pub mod Entries
pub mod Slots
pub mod Methods
pub mod Place
pub mod Fill
pub mod Later
pub mod Reading
pub mod Reached
mod Tests
use forebay.Prelude.{
  ℕ, ◌≤◌, ◌<◌, ◌≡◌, Bool, true, false, ◌&&◌, List, [], ◌∷◌, All, length, take, ◌==◌,
}
use forebay.Prelude.Text.{Text}
use forebay.Tier.Types.{Key, key_eq, Slab, Placement, Cache}

abbrev pub Table : Type 0
Table = List (Key × Placement)

-- A slot is not in a list of slots.
abbrev pub Unused : ℕ → List ℕ → Type 0
Unused slot = All (λ s. (slot == s) ≡ false)

-- No slot stands twice in a list.
abbrev pub Single : List ℕ → Type 0
Single [] = Unit
Single (s ∷ ss) = Unused s ss × Single ss

abbrev pub is_at : ℕ → ℕ → Placement → Bool
is_at i slot p = (p.slab == i) && (p.slot == slot)

-- No block of a table stands in slot `slot` of slab `i`.
abbrev pub Clear : ℕ → ℕ → Table → Type 0
Clear i slot = All (λ x. is_at i slot x.1 ≡ false)

-- No two blocks have one key or one slot.
abbrev pub Apart : Table → Type 0
Apart [] = Unit
Apart ((k, p) ∷ ps) =
    All (λ x. (key_eq k x.0 ≡ false) × (is_at p.slab p.slot x.1 ≡ false)) ps × Apart ps

-- What a resident block is, where the content of each key is fixed: its slab is allocated, its
-- generation was given out, its slot is not free, and the slot starts with the block.
abbrev pub Entry : (Key → Text) → (ℕ → Slab) → ℕ → ℕ → Key × Placement → Type 0
Entry content h n g (k, p) =
    (p.slab < n)
    × (p.gen ≤ g)
    × Unused p.slot (h p.slab).free
    × (p.len ≤ length ((h p.slab).content p.slot))
    × (take p.len ((h p.slab).content p.slot) ≡ content k)

pub record IsSound (content : Key → Text) (h : ℕ → Slab) (n : ℕ) (ss : List (Text × ℕ)) (g : ℕ)
    (ps : Table) : Type 0 where
  pub entries : All (Entry content h n g) ps
  pub apart : Apart ps
  pub single : (i : ℕ) → Single (h i).free
  pub known : All (λ x. x.1 < n) ss

-- The invariant of a cache.
abbrev pub IsKept : (Key → Text) → Cache → Type 0
IsKept content c = IsSound content c.heap c.next_slab c.slabs c.generation c.resident

-- ===== src/Tier/Types.antt =====
-- internal/fasttier/block.go and the types of cache.go and slab.go. A slab is a heap object that a
-- placement points to, so it has a number; its file is the content of each slot.
use forebay.Prelude.{ℕ, Bool, ◌&&◌, List}
use forebay.Prelude.Int.{ℤ, eqb_ℤ}
use forebay.Prelude.Text.{Text, text_eq}

pub record BlockRef : Type 0 where
  pub backend : Text
  pub object : Text
  pub index : ℤ

pub record Key : Type 0 where
  pub tenant : Text
  pub block : BlockRef

-- Go's `==` on keys.
unfoldable pub key_eq : Key → Key → Bool
key_eq a b =
    text_eq a.tenant b.tenant
    && text_eq a.block.backend b.block.backend
    && text_eq a.block.object b.block.object
    && eqb_ℤ a.block.index b.block.index

pub data Error : Type 0 where
  no_capacity would_evict too_large io : Error

pub record Config : Type 0 where
  pub block_size : ℤ
  pub first_read_limit : ℤ

-- `slab`. The free slots are a stack, its top first; the slots of the file are apart, since no
-- block is larger than a slot.
pub record Slab : Type 0 where
  pub lease : Text
  pub slots : ℕ
  pub free : List ℕ
  pub revoked : Bool
  pub closed : Bool
  pub content : ℕ → Text

-- An extent on the device: its size and what its slots hold.
pub record Extent : Type 0 where
  pub size : ℕ
  pub bytes_of : ℕ → Text

pub record Placement : Type 0 where
  pub slab : ℕ
  pub slot : ℕ
  pub len : ℕ
  pub used : ℕ
  pub gen : ℕ

-- `firstReads`: the list and the set of the source hold the same keys, here the oldest first.
pub record FirstReads : Type 0 where
  pub limit : ℤ
  pub seen : List Key

pub record Cache : Type 0 where
  pub cfg : Config
  pub heap : ℕ → Slab
  pub next_slab : ℕ
  pub slabs : List (Text × ℕ)
  pub order : List Text
  pub resident : List (Key × Placement)
  pub first : FirstReads
  pub clock : ℕ
  pub generation : ℕ
  pub hits : ℕ
  pub misses : ℕ

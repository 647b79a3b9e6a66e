-- ===== src/Tier/Readers.antt =====
-- internal/fasttier/cache.go under concurrent callers. A method that holds the mutex from start to
-- end is one step; `Read` is three: up to where it unlocks, the read of the device, and from where
-- it locks again. Steps of all callers happen in any order.
use forebay.Prelude.{ℕ, suc, ◌≡◌, Bool, Option, none, some, List, ◌==◌, if◌then◌else◌}
use forebay.Prelude.Text.{Text}
use forebay.Tier.Types.{Key, Extent, Placement, Config, Cache}
use forebay.Tier.Cache.{
  new, add_capacity, revoke, reclaim_order, begin_read, fetch, finish_read, admit, close,
}

-- One call of `Read`: not started, about to read the device, back from it, and returned.
pub data Reader : Type 0 where
  idle : Reader
  began : Key → Placement → Reader
  loaded : Key → Placement → Option Text → Reader
  answered : Key → Option Text → Reader

-- The cache, how many times `Admit` was called, and every call of `Read`, by a number.
pub record System : Type 0 where
  pub cache : Cache
  pub admissions : ℕ
  pub readers : ℕ → Reader

unfoldable pub set_reader : (ℕ → Reader) → ℕ → Reader → ℕ → Reader
set_reader f n r i = if i == n then r else f i

-- The reader after the first part of `Read`.
unfoldable pub reader_of : Key → Option Placement → Reader
reader_of k none = answered k none
reader_of k (some p) = began k p

unfoldable pub begins : System → ℕ → Key → System
begins s n k =
    let (c, found) = begin_read s.cache k in
    record s { cache = c; readers = set_reader s.readers n (reader_of k found) }

unfoldable pub loads : System → ℕ → Key → Placement → Bool → System
loads s n k p fails = record s {
  readers = set_reader s.readers n (loaded k p (fetch s.cache p fails));
}

unfoldable pub finishes : System → ℕ → Key → Placement → Option Text → System
finishes s n k p r =
    let (c, out) = finish_read s.cache k p r in
    record s { cache = c; readers = set_reader s.readers n (answered k out) }

-- What `Admit` is given for a key is the block that the backend holds under it, `content k`.
unfoldable pub admits : (Key → Text) → System → Key → Bool → Option Text → System
admits content s k prefetched damage = record s {
  cache = (admit s.cache k (content k) prefetched damage).0;
  admissions = suc s.admissions;
}

pub data Step (content : Key → Text) (s : System) : System → Type 0 where
  add :
      (lease : Text) (extent : Option Extent)
      → Step content s (record s { cache = (add_capacity s.cache lease extent).0 })
  lose : (lease : Text) → Step content s (record s { cache = (revoke s.cache lease).0 })
  reorder :
      (leases : List Text) → Step content s (record s { cache = reclaim_order s.cache leases })
  shut : Step content s (record s { cache = close s.cache })
  keep :
      (k : Key) (prefetched : Bool) (damage : Option Text)
      → Step content s (admits content s k prefetched damage)
  begin : (n : ℕ) (k : Key) → s.readers n ≡ idle → Step content s (begins s n k)
  load :
      (n : ℕ) (k : Key) (p : Placement) (fails : Bool)
      → s.readers n ≡ began k p
      → Step content s (loads s n k p fails)
  finish :
      (n : ℕ) (k : Key) (p : Placement) (r : Option Text)
      → s.readers n ≡ loaded k p r
      → Step content s (finishes s n k p r)

-- What is reached from a new cache.
pub data Reach (content : Key → Text) (cfg : Config) : System → Type 0 where
  start :
      (c : Cache)
      → new cfg ≡ some c
      → Reach content cfg (record { cache = c; admissions = 0; readers = λ _. idle })
  later : {s t : System} → Reach content cfg s → Step content s t → Reach content cfg t

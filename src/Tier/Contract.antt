-- ===== src/Tier/Contract.antt =====
-- What a client of internal/fasttier/cache.go uses of it: three methods on a state, and what it
-- relies on where the content of each key is fixed.
pub mod Sequential
use forebay.Prelude.{ℕ, suc, ◌≡◌, Bool, Option, some}
use forebay.Prelude.Text.{Text}
use forebay.Tier.Types.{Key, Error}

pub record Tier (S : Type 0) : Type 0 where
  pub read : S → Key → S × Option Text
  pub admit : S → Key → Text → Bool → S × Bool × Option Error
  pub is_resident : S → Key → Bool

-- `Room n` is what holds of a state that has room for so many calls of `admit`.
pub record Serves {S : Type 0} (content : Key → Text) (t : Tier S) : Type 1 where
  pub Room : ℕ → S → Type 0
  pub less : (n : ℕ) (s : S) → Room (suc n) s → Room n s
  pub read_keeps : (n : ℕ) (s : S) (k : Key) → Room n s → Room n (t.read s k).0
  pub read_content :
      (n : ℕ) (s : S) (k : Key) (b : Text) → Room n s → (t.read s k).1 ≡ some b → b ≡ content k
  pub admit_keeps :
      (n : ℕ) (s : S) (k : Key) (b : Text) (prefetched : Bool)
      → Room (suc n) s
      → b ≡ content k
      → Room n (t.admit s k b prefetched).0

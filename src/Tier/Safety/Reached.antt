-- ===== src/Tier/Safety/Reached.antt =====
-- Every reachable state of internal/fasttier/cache.go under concurrent callers.
use forebay.Prelude.{
  ℕ, suc, ◌≤◌, ◌<◌, ◌≡◌, refl, subst, Bool, Option, some, [], arith, inl, inr, Bool-cases, ◌==◌,
}
use forebay.Prelude.Int64.{two64}
use forebay.Prelude.Text.{Text}
use forebay.Tier.Types.{Key, Config, Cache}
use forebay.Tier.Cache.{no_slab, new, reclaim_order, admit}
use forebay.Tier.Readers.{
  Reader, idle, answered, System, set_reader, begins, loads, finishes, admits, Step, add, lose,
  reorder, shut, keep, begin, load, finish, Reach, start, later,
}
use forebay.Tier.Safety.{IsKept}
use forebay.Tier.Safety.Methods.{
  add_capacity-IsKept, revoke-IsKept, begin_read-IsKept, finish_read-IsKept,
}
use forebay.Tier.Safety.Fill.{admit-IsKept, close-IsKept}
use forebay.Tier.Safety.Later.{
  Later, add_capacity-Later, revoke-Later, reclaim_order-Later, close-Later, begin_read-Later,
  finish_read-Later, admit-Later,
}
use forebay.Tier.Safety.Reading.{
  IsReading, IsReading-Later, begin_read-IsReading, fetch-IsReading, finish_read-IsReading,
}

-- The invariant of the whole: no generation was given out that `Admit` was not called for.
record IsSafe (content : Key → Text) (s : System) : Type 0 where
  kept : IsKept content s.cache
  counted : s.cache.generation ≤ s.admissions
  reading : (n : ℕ) → IsReading content s.cache (s.readers n)

-- A new cache.
abbrev pub empty : Config → Cache
empty cfg = record {
  cfg = cfg;
  heap = λ _. no_slab;
  next_slab = 0;
  slabs = [];
  order = [];
  resident = [];
  first = record { limit = cfg.first_read_limit; seen = [] };
  clock = 0;
  generation = 0;
  hits = 0;
  misses = 0;
}

module _ (content : Key → Text) where
  set_reader-IsReading :
      (c : Cache) (f : ℕ → Reader) (n : ℕ) (r : Reader)
      → ((i : ℕ) → IsReading content c (f i))
      → IsReading content c r
      → (i : ℕ) → IsReading content c (set_reader f n r i)
  unfolding set_reader
  set_reader-IsReading c f n r all one i = elim (Bool-cases (i == n)) [
    | inl here ↦ rw (set_reader, here) one
    | inr away ↦ rw (set_reader, away) (all i)
  ]

  new-empty : (cfg : Config) (c : Cache) → new cfg ≡ some c → empty cfg ≡ c
  unfolding new
  new-empty cfg c e = ground (arith, e)

  IsSafe-new :
      (cfg : Config) (c : Cache)
      → new cfg ≡ some c
      → IsSafe content (record { cache = c; admissions = 0; readers = λ _. idle })
  IsSafe-new cfg c e =
      subst (λ z. IsSafe content (record { cache = z; admissions = 0; readers = λ _. idle }))
        (new-empty cfg c e)
        (record {
          kept = record { entries = tt; apart = tt; single = λ i. tt; known = tt };
          counted = omega arith;
          reading = λ n. tt;
        })

  -- A method, by what it does to the cache and to the call of `Read` that it is a part of.
  module _ (s : System) (h : IsSafe content s) where
    others :
        (more : ℕ) (d : Cache) → Later more s.cache d → (n : ℕ) → IsReading content d (s.readers n)
    others more d l n = IsReading-Later content more s.cache d (s.readers n) l (h.reading n)

    IsSafe-method :
        (d : Cache) → Later 0 s.cache d → IsKept content d → IsSafe content (record s { cache = d })
    IsSafe-method d l k = record {
      kept = k;
      counted = let c = h.counted in let g = l.1 in omega arith;
      reading = others 0 d l;
    }

    IsSafe-part :
        (d : Cache) (n : ℕ) (r : Reader)
        → Later 0 s.cache d
        → IsKept content d
        → IsReading content d r
        → IsSafe content (record s { cache = d; readers = set_reader s.readers n r })
    IsSafe-part d n r l k one = record {
      kept = k;
      counted = let c = h.counted in let g = l.1 in omega arith;
      reading = set_reader-IsReading d s.readers n r (others 0 d l) one;
    }

    IsSafe-admits :
        (k : Key) (prefetched : Bool) (damage : Option Text)
        → suc s.admissions < two64
        → IsSafe content (admits content s k prefetched damage)
    unfolding admits
    IsSafe-admits k prefetched damage lt =
        let fresh : suc s.cache.generation < two64 = let c = h.counted in omega arith in
        let d = (admit s.cache k (content k) prefetched damage).0 in
        let l = admit-Later content s.cache k (content k) prefetched damage h.kept fresh in
        record {
          kept = admit-IsKept content s.cache k (content k) prefetched damage h.kept refl fresh;
          counted = let c = h.counted in let g = l.1 in omega arith;
          reading = others 1 d l;
        }

    IsSafe-Step : {t : System} → Step content s t → t.admissions < two64 → IsSafe content t
    unfolding begins loads finishes admits reclaim_order
    IsSafe-Step (add lease extent) lt =
        IsSafe-method _ (add_capacity-Later s.cache lease extent)
          (add_capacity-IsKept content s.cache lease extent h.kept)
    IsSafe-Step (lose lease) lt =
        IsSafe-method _ (revoke-Later s.cache lease) (revoke-IsKept content s.cache lease h.kept)
    IsSafe-Step (reorder leases) lt = IsSafe-method _ (reclaim_order-Later s.cache leases) h.kept
    IsSafe-Step shut lt =
        IsSafe-method _ (close-Later s.cache) (close-IsKept content s.cache h.kept)
    IsSafe-Step (keep k prefetched damage) lt = IsSafe-admits k prefetched damage lt
    IsSafe-Step (begin n k free) lt =
        IsSafe-part _ n _ (begin_read-Later s.cache k) (begin_read-IsKept content s.cache k h.kept)
          (begin_read-IsReading content s.cache h.kept k)
    IsSafe-Step (load n k p fails at_) lt =
        let t = subst (IsReading content s.cache) at_ (h.reading n) in
        IsSafe-part s.cache n _ (omega arith, omega arith, λ P steady fresh all. all) h.kept
          (fetch-IsReading content s.cache h.kept k p fails t)
    IsSafe-Step (finish n k p r at_) lt =
        let t = subst (IsReading content s.cache) at_ (h.reading n) in
        IsSafe-part _ n _ (finish_read-Later s.cache k p r)
          (finish_read-IsKept content s.cache k p r h.kept t.0)
          (finish_read-IsReading content s.cache h.kept k p r t)

  admissions-Step : (s t : System) → Step content s t → s.admissions ≤ t.admissions
  unfolding begins loads finishes admits
  admissions-Step s _ (add lease extent) = omega arith
  admissions-Step s _ (lose lease) = omega arith
  admissions-Step s _ (reorder leases) = omega arith
  admissions-Step s _ shut = omega arith
  admissions-Step s _ (keep k prefetched damage) = omega arith
  admissions-Step s _ (begin n k free) = omega arith
  admissions-Step s _ (load n k p fails at_) = omega arith
  admissions-Step s _ (finish n k p r at_) = omega arith

  Reach-IsSafe :
      (cfg : Config) (s : System) → Reach content cfg s → s.admissions < two64 → IsSafe content s
  Reach-IsSafe cfg _ (start c e) lt = IsSafe-new cfg c e
  Reach-IsSafe cfg _ (later {s} {t} r step) lt =
      let m = admissions-Step s t step in IsSafe-Step s (Reach-IsSafe cfg s r (omega arith)) step lt

  -- In every state that such calls reach from a new cache, with fewer than 2^64 calls of Admit, no
  -- two resident blocks have one key or one slot, no resident block stands in a free slot, no slot
  -- is free twice, and the slot of each resident block starts with the block of its key.
  pub Reach-IsKept :
      (cfg : Config) (s : System)
      → Reach content cfg s
      → s.admissions < two64
      → IsKept content s.cache
  Reach-IsKept cfg s r lt = let h = Reach-IsSafe cfg s r lt in h.kept

  -- Where every call of Admit for a key offers the one block that the backend holds under that
  -- key, whatever calls of Read, Admit, AddCapacity, Revoke, ReclaimOrder and Close happen in any
  -- order from a new cache, with a Read in three parts between which others run, and whatever
  -- fails on the device, a Read that is served returns the block of its own key, as long as Admit
  -- was called fewer than 2^64 times.
  pub Reach-answered :
      (cfg : Config) (s : System) (n : ℕ) (k : Key) (b : Text)
      → Reach content cfg s
      → s.admissions < two64
      → s.readers n ≡ answered k (some b)
      → b ≡ content k
  Reach-answered cfg s n k b r lt e =
      let h = Reach-IsSafe cfg s r lt in subst (IsReading content s.cache) e (h.reading n) b refl

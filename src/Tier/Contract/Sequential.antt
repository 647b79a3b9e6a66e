-- ===== src/Tier/Contract/Sequential.antt =====
-- The cache of internal/fasttier/cache.go under one caller at a time keeps the contract: a sequence
-- of calls, each with what the device does in it.
use forebay.Prelude.{
  ℕ, suc, ◌+◌, ◌<◌, ◌≡◌, ap, subst, ◌∙◌, Bool, Option, some, arith, inl, inr, Option-cases,
}
use forebay.Prelude.Int64.{two64}
use forebay.Prelude.Text.{Text}
use forebay.Tier.Types.{Key, Cache}
use forebay.Tier.Cache.{begin_read, fetch, finish_read, read, admit, is_resident}
use forebay.Tier.Readers.{reader_of, began}
use forebay.Tier.Contract.{Tier, Serves}
use forebay.Tier.Safety.{IsKept}
use forebay.Tier.Safety.Methods.{begin_read-IsKept, finish_read-IsKept}
use forebay.Tier.Safety.Later.{begin_read-Later, finish_read-Later}
use forebay.Tier.Safety.Fill.{admit-IsKept, admit-generation}
use forebay.Tier.Safety.Reading.{
  IsReading, begin_read-IsReading, fetch-IsReading, finish_read-IsReading,
}

-- `fails` and `damage` are what the device does in the read and the write of so many calls ago.
pub record Device : Type 0 where
  pub cache : Cache
  pub call : ℕ
  pub fails : ℕ → Bool
  pub damage : ℕ → Option Text

abbrev pub tier : Tier Device
tier = record {
  read = λ d k.
      let (c, r) = read d.cache k (d.fails d.call) in
      (record d { cache = c; call = suc d.call }, r);
  admit = λ d k b prefetched.
      let (c, kept, e) = admit d.cache k b prefetched (d.damage d.call) in
      (record d { cache = c; call = suc d.call }, kept, e);
  is_resident = λ d k. is_resident d.cache k;
}

module _ (content : Key → Text) where
  abbrev pub Fits : ℕ → Cache → Type 0
  Fits n c = IsKept content c × (c.generation + n < two64)

  read_answer :
      (c : Cache) (k : Key) (fails : Bool)
      → IsKept content c
      → IsKept content (read c k fails).0
        × ((read c k fails).0.generation ≡ c.generation)
        × ((b : Text) → (read c k fails).1 ≡ some b → b ≡ content k)
  unfolding read reader_of
  read_answer c k fails s =
      let l = begin_read-Later c k in
      let t = begin_read-IsKept content c k s in
      let g : (begin_read c k).0.generation ≡ c.generation = omega (arith, l.0, l.1) in
      let first = begin_read-IsReading content c s k in
      elim (Option-cases (begin_read c k).1) [
        | inl no_ ↦ rw (read, no_) (t, g, λ b e. absurd (ground (arith, e)))
        | inr (p, found) ↦
            let d = (begin_read c k).0 in
            let got = fetch d p fails in
            let token : IsReading content d (began k p) =
              subst (λ z. IsReading content d z) (ap (reader_of k) found) first in
            let holds = fetch-IsReading content d t k p fails token in
            let m = finish_read-Later d k p got in
            let h : (finish_read d k p got).0.generation ≡ d.generation = omega (arith, m.0, m.1) in
            rw (read, found)
              (
                finish_read-IsKept content d k p got t token,
                h ∙ g,
                finish_read-IsReading content d t k p got holds,
              )
      ]

  Fits-admit :
      (n : ℕ) (c : Cache) (k : Key) (b : Text) (prefetched : Bool) (damage : Option Text)
      → Fits (suc n) c
      → b ≡ content k
      → Fits n (admit c k b prefetched damage).0
  Fits-admit n c k b prefetched damage (s, room) same = (
    admit-IsKept content c k b prefetched damage s same (omega arith),
    elim (admit-generation content c k b prefetched damage s) [
      | inl e ↦ rw e (omega arith)
      | inr e ↦ rw e (omega arith)
    ],
  )

  -- The contract is kept.
  pub tier-Serves : Serves content tier
  tier-Serves = record {
    Room = λ n d. Fits n d.cache;
    less = λ n d (s, room). (s, omega arith);
    read_keeps = λ n d k (s, room).
        let (kept, same, _) = read_answer d.cache k (d.fails d.call) s in (kept, rw same room);
    read_content = λ n d k b (s, room). (read_answer d.cache k (d.fails d.call) s).2 b;
    admit_keeps = λ n d k b p f. Fits-admit n d.cache k b p (d.damage d.call) f;
  }

  -- A sound cache has room for as many admissions as it has generations to give out.
  pub Room-Fits : (n : ℕ) (d : Device) → Fits n d.cache → (tier-Serves).Room n d
  unfolding tier-Serves
  Room-Fits n d f = f

-- ===== src/Tier/Cache.antt =====
-- internal/fasttier/cache.go: the methods of `Cache`. A method that holds the mutex from start to
-- end is one step. `Read` lets go of it while it reads the device, so it is two steps and what the
-- device gave between them.
pub mod Admit
pub mod Revoke
use forebay.Prelude.{
  ℕ, zero, suc, ◌+◌, ◌%◌, Bool, true, false, not, ◌&&◌, ◌||◌, Option, none, some, ◌++◌, List, [],
  ◌∷◌, length, ltb, ◌==◌, if◌then◌else◌,
}
use forebay.Prelude.Int.{ℤ, pos, ltb_ℤ, leb_ℤ}
use forebay.Prelude.Int64.{two64}
use forebay.Prelude.Text.{Text, text_eq}
use forebay.Tier.Types.{
  Key, key_eq, Error, no_capacity, would_evict, too_large, io, Config, Slab, Extent, Placement,
  FirstReads, Cache,
}
use forebay.Tier.Admission.{saw_before, forget}
use forebay.Tier.Slab.{
  open_slab, take_slot, release_slot, write_slot, read_slot, revoke_slab, close_slab,
}

-- A slab that no lease holds.
abbrev pub no_slab : Slab
no_slab = record {
  lease = [];
  slots = 0;
  free = [];
  revoked = true;
  closed = true;
  content = λ _. [];
}

unfoldable pub new : Config → Option Cache
new cfg =
    if leb_ℤ cfg.block_size (pos 0) || ltb_ℤ cfg.first_read_limit (pos 0)
    then none
    else some (record {
      cfg = cfg;
      heap = λ _. no_slab;
      next_slab = 0;
      slabs = [];
      order = [];
      resident = [];
      first = record { limit = cfg.first_read_limit; seen = [] };
      clock = 0;
      generation = 0;
      hits = 0;
      misses = 0;
    })

-- A slab of the heap replaced.
abbrev pub set_slab : (ℕ → Slab) → ℕ → Slab → ℕ → Slab
set_slab h i s j = if j == i then s else h j

-- `c.slabs[lease]`
unfoldable pub slab_of : Text → List (Text × ℕ) → Option ℕ
slab_of lease [] = none
slab_of lease ((l, i) ∷ ss) = if text_eq lease l then some i else slab_of lease ss

unfoldable pub drop_slab : Text → List (Text × ℕ) → List (Text × ℕ)
drop_slab lease [] = []
drop_slab lease ((l, i) ∷ ss) = if text_eq lease l then ss else (l, i) ∷ drop_slab lease ss

-- `c.resident[k]`
unfoldable pub placed : Key → List (Key × Placement) → Option Placement
placed k [] = none
placed k ((j, p) ∷ ps) = if key_eq k j then some p else placed k ps

unfoldable pub unplace : Key → List (Key × Placement) → List (Key × Placement)
unplace k [] = []
unplace k ((j, p) ∷ ps) = if key_eq k j then ps else (j, p) ∷ unplace k ps

-- The loop of `Revoke` over the resident blocks: those that stay, and how many go.
unfoldable pub keep_off : ℕ → List (Key × Placement) → List (Key × Placement) × ℕ
keep_off i [] = ([], 0)
keep_off i ((k, p) ∷ ps) =
    let (kept, n) = keep_off i ps in if p.slab == i then (kept, suc n) else ((k, p) ∷ kept, n)

-- The first occurrence taken out.
unfoldable pub drop_first : Text → List Text → List Text
drop_first lease [] = []
drop_first lease (l ∷ ls) = if text_eq l lease then ls else l ∷ drop_first lease ls

-- `AddCapacity`, and whether it succeeded.
unfoldable pub add_capacity : Cache → Text → Option Extent → Cache × Bool
add_capacity c lease extent = elim (open_slab lease extent c.cfg.block_size) [
  | none ↦ (c, false)
  | some s ↦ elim (slab_of lease c.slabs) [
    | some _ ↦ (c, false)
    | none ↦ (
      record c {
        heap = set_slab c.heap c.next_slab s;
        next_slab = suc c.next_slab;
        slabs = (lease, c.next_slab) ∷ c.slabs;
        order = c.order ++ lease ∷ [];
      },
      true,
    )
  ]
]

-- The number of blocks that went.
unfoldable pub revoke : Cache → Text → Cache × ℕ
revoke c lease = elim (slab_of lease c.slabs) [
  | none ↦ (c, 0)
  | some i ↦
      let (kept, dropped) = keep_off i c.resident in
      (
        record c {
          heap = set_slab c.heap i (close_slab (revoke_slab (c.heap i)));
          slabs = drop_slab lease c.slabs;
          order = drop_first lease c.order;
          resident = kept;
        },
        dropped,
      )
]

unfoldable pub reclaim_order : Cache → List Text → Cache
reclaim_order c leases = record c { order = leases }

-- `Read` up to where it lets go of the lock: the placement to read, or a miss.
unfoldable pub begin_read : Cache → Key → Cache × Option Placement
begin_read c k = elim (placed k c.resident) [
  | none ↦ (record c { misses = suc c.misses }, none)
  | some p ↦
      let now = (c.clock + 1) % two64 in
      let q = record p { used = now } in
      (record c { clock = now; resident = (k, q) ∷ unplace k c.resident }, some q)
]

-- The read of the device, which holds no lock.
unfoldable pub fetch : Cache → Placement → Bool → Option Text
fetch c p fails = read_slot (c.heap p.slab) p.slot p.len fails

-- The test under the lock that the block is where it was.
unfoldable pub is_current : Cache → Key → Placement → Bool
is_current c k p = elim (placed k c.resident) [ none ↦ false | some cur ↦ cur.gen == p.gen ]

-- `Read` after the lock is taken again, with what the device gave.
unfoldable pub finish_read : Cache → Key → Placement → Option Text → Cache × Option Text
finish_read c k p none =
    let missed = record c { misses = suc c.misses } in
    let gone = record missed { resident = unplace k c.resident } in
    let freed = record gone {
      heap = set_slab c.heap p.slab (release_slot (c.heap p.slab) p.slot);
    } in
    (if is_current c k p then (if (c.heap p.slab).revoked then gone else freed) else missed, none)
finish_read c k p (some block) =
    if is_current c k p
    then (record c { hits = suc c.hits }, some block)
    else (record c { misses = suc c.misses }, none)

-- `Read` where nothing happens in between.
unfoldable pub read : Cache → Key → Bool → Cache × Option Text
read c k fails =
    let (b, found) = begin_read c k in
    elim found [ none ↦ (b, none) | some p ↦ finish_read b k p (fetch b p fails) ]

-- The loops of `placeLocked` over the leases in order.
unfoldable pub take_first : List Text → Cache → Option (ℕ × ℕ × Cache)
take_first [] c = none
take_first (l ∷ ls) c = elim (slab_of l c.slabs) [
  | none ↦ take_first ls c
  | some i ↦ elim (take_slot (c.heap i)) [
    | none ↦ take_first ls c
    | some (slot, s) ↦ some (i, slot, record c { heap = set_slab c.heap i s })
  ]
]

-- The least recently used block of one slab.
unfoldable pub oldest_on : ℕ → List (Key × Placement) → Option (Key × Placement)
oldest_on i [] = none
oldest_on i ((k, p) ∷ ps) =
    let later = oldest_on i ps in
    if not (p.slab == i) then later else elim later [
      | none ↦ some (k, p)
      | some (j, q) ↦ if ltb q.used p.used then some (j, q) else some (k, p)
    ]

-- `evictOneLocked` over the leases in order; `none` where nothing can go.
unfoldable pub evict_one : List Text → Cache → Option Cache
evict_one [] c = none
evict_one (l ∷ ls) c = elim (slab_of l c.slabs) [
  | none ↦ evict_one ls c
  | some i ↦ elim (oldest_on i c.resident) [
    | none ↦ evict_one ls c
    | some (k, p) ↦ some (record c {
      heap = set_slab c.heap i (release_slot (c.heap i) p.slot);
      resident = unplace k c.resident;
    })
  ]
]

pub data Place : Type 0 where
  refused : Error → Cache → Place
  at : ℕ → ℕ → Cache → Place

-- `placeLocked`: a slot, or the refusal and the cache that it leaves.
unfoldable pub place : Cache → Bool → Place
place c prefetched = elim (take_first c.order c) [
  | some (i, slot, d) ↦ at i slot d
  | none ↦ if prefetched then refused would_evict c else elim (evict_one c.order c) [
    | none ↦ refused no_capacity c
    | some d ↦ elim (take_first d.order d) [
      | none ↦ refused no_capacity d
      | some (i, slot, e) ↦ at i slot e
    ]
  ]
]

-- The end of `Admit`, for the slot that was found.
unfoldable pub fill : Cache → Key → Text → ℕ → ℕ → Option Text → Cache × Bool × Option Error
fill c k block i slot damage =
    let (s, ok) = write_slot (c.heap i) slot block c.cfg.block_size damage in
    if ok
    then (
      record c {
        heap = set_slab c.heap i s;
        clock = (c.clock + 1) % two64;
        generation = (c.generation + 1) % two64;
        resident =
            (
              k,
              record {
                slab = i;
                slot = slot;
                len = length block;
                used = (c.clock + 1) % two64;
                gen = (c.generation + 1) % two64;
              },
            )
            ∷ c.resident;
        first = forget c.first k;
      },
      true,
      none,
    )
    else (record c { heap = set_slab c.heap i (release_slot s slot) }, false, some io)

-- `Admit`, and whether the block was kept.
unfoldable pub admit : Cache → Key → Text → Bool → Option Text → Cache × Bool × Option Error
admit c k block prefetched damage =
    let (f, seen) = saw_before c.first k in
    let noted = if prefetched then c else record c { first = f } in
    if ltb_ℤ c.cfg.block_size (pos (length block))
    then (c, false, some too_large)
    else elim (placed k c.resident) [
      | some _ ↦ (c, false, none)
      | none ↦
          if not prefetched && not seen
          then (noted, false, none)
          else elim (place noted prefetched) [
            | refused e d ↦ (d, false, some e)
            | at i slot d ↦ fill d k block i slot damage
          ]
    ]

-- `HeldBlocks` counts by tenant, backend and object.
pub record Held : Type 0 where
  pub tenant : Text
  pub backend : Text
  pub object : Text

unfoldable pub held_eq : Held → Held → Bool
held_eq a b = text_eq a.tenant b.tenant && text_eq a.backend b.backend && text_eq a.object b.object

abbrev pub held_of : Key → Held
held_of k = record { tenant = k.tenant; backend = k.block.backend; object = k.block.object }

unfoldable pub count : Held → List (Held × ℕ) → List (Held × ℕ)
count h [] = (h, 1) ∷ []
count h ((j, n) ∷ out) = if held_eq h j then (j, suc n) ∷ out else (j, n) ∷ count h out

unfoldable pub held_from : List (Key × Placement) → List (Held × ℕ)
held_from [] = []
held_from ((k, _) ∷ ps) = count (held_of k) (held_from ps)

unfoldable pub held_blocks : Cache → List (Held × ℕ)
held_blocks c = held_from c.resident

unfoldable pub is_resident : Cache → Key → Bool
is_resident c k = elim (placed k c.resident) [ none ↦ false | some _ ↦ true ]

unfoldable pub stats : Cache → ℕ × ℕ × ℕ
stats c = (c.hits, c.misses, length c.resident)

-- `Close`: the descriptors of the slabs that a list names.
unfoldable pub close_all : List (Text × ℕ) → (ℕ → Slab) → ℕ → Slab
close_all [] h = h
close_all ((_, i) ∷ ss) h = let g = close_all ss h in set_slab g i (close_slab (g i))

unfoldable pub close : Cache → Cache
close c = record c { heap = close_all c.slabs c.heap; slabs = []; resident = [] }

-- ===== src/Tier/Tests.antt =====
-- A cache with one lease of two slots, and the theorems about it applied there.
use forebay.Prelude.{
  ◌+◌, ◌≡◌, refl, true, false, none, some, [], ◌∷◌, All, length, ◌==◌, if◌then◌else◌,
}
use forebay.Prelude.Int.{pos}
use forebay.Prelude.Text.{Text, bytes, text_eq}
use forebay.Tier.Types.{Key, key_eq, FirstReads, Placement, Slab, Cache, would_evict}
use forebay.Tier.Admission.{was_seen, saw_before}
use forebay.Tier.Slab.{take_slot, write_slot}
use forebay.Tier.Cache.{
  no_slab, slab_of, placed, take_first, place, fill, admit, read, revoke, fetch,
}
use forebay.Tier.Cache.Admit.{admit-read, admit_prediction-placed}
use forebay.Tier.Cache.Revoke.{revoke_lem}

abbrev key : Text → Key
key object = record {
  tenant = bytes "train";
  block = record { backend = bytes "s3"; object = object; index = pos 0 };
}

abbrev extent : Slab
extent = record {
  lease = bytes "lent";
  slots = 2;
  free = 1 ∷ [];
  revoked = false;
  closed = false;
  content = λ _. bytes "aaaa";
}

abbrev first_block : Placement
first_block = record { slab = 0; slot = 0; len = 4; used = 1; gen = 1 }

abbrev cache : Cache
cache = record {
  cfg = record { block_size = pos 4; first_read_limit = pos 8 };
  heap = λ i. if i == 0 then extent else no_slab;
  next_slab = 1;
  slabs = (bytes "lent", 0) ∷ [];
  order = bytes "lent" ∷ [];
  resident = (key (bytes "a"), first_block) ∷ [];
  first = record { limit = pos 8; seen = key (bytes "b") ∷ [] };
  clock = 1;
  generation = 1;
  hits = 0;
  misses = 2;
}

-- The block read for the second time.
abbrev kept : Cache
kept = (admit cache (key (bytes "b")) (bytes "bbb") false none).0

kept_lem : admit cache (key (bytes "b")) (bytes "bbb") false none ≡ (kept, true, none)
unfolding admit saw_before was_seen key_eq text_eq place take_first slab_of take_slot placed fill
    write_slot
kept_lem = refl

admit-read_example : (read kept (key (bytes "b")) false).1 ≡ some (bytes "bbb")
admit-read_example = admit-read cache kept (key (bytes "b")) (bytes "bbb") false none none kept_lem

-- A full tier refuses a prediction.
full_refuses :
    ((admit kept (key (bytes "c")) (bytes "c") true none).1 ≡ false)
    × ((admit kept (key (bytes "c")) (bytes "c") true none).2 ≡ some would_evict)
unfolding admit saw_before was_seen key_eq text_eq place take_first slab_of take_slot placed fill
    write_slot
full_refuses = (refl, refl)

admit_prediction-placed_example :
    placed (key (bytes "a")) (admit kept (key (bytes "c")) (bytes "c") true none).0.resident
    ≡ placed (key (bytes "a")) kept.resident
unfolding key_eq text_eq
admit_prediction-placed_example =
    admit_prediction-placed kept (key (bytes "a")) (key (bytes "c")) (bytes "c") none refl

-- Revoking the lease drops the block and leaves its slot unreadable.
revoke_lem_example :
    All (λ x. (x.1.slab == 0) ≡ false) (revoke cache (bytes "lent")).0.resident
    × (length (revoke cache (bytes "lent")).0.resident + (revoke cache (bytes "lent")).1 ≡ 1)
    × (fetch (revoke cache (bytes "lent")).0 first_block false ≡ none)
unfolding slab_of text_eq
revoke_lem_example = revoke_lem cache (bytes "lent") 0 first_block false refl refl

-- A cache with a second lease, which holds no block.
abbrev wider : Cache
wider = record cache {
  slabs = (bytes "lent", 0) ∷ (bytes "more", 1) ∷ [];
  order = bytes "lent" ∷ bytes "more" ∷ [];
}

abbrev reads : FirstReads
reads = record { limit = pos 2; seen = key (bytes "a") ∷ key (bytes "b") ∷ [] }

-- ===== src/Tier/Safety/Tests.antt =====
-- A cache on one extent, with one caller that reads a block while another one is admitted.
use forebay.Prelude.{◌<◌, ◌≡◌, refl, true, false, none, some, arith}
use forebay.Prelude.Int.{pos}
use forebay.Prelude.Int64.{two64}
use forebay.Prelude.Text.{Text, bytes, text_eq}
use forebay.Tier.Types.{Key, key_eq, Extent, Placement, Config}
use forebay.Tier.Admission.{saw_before, was_seen}
use forebay.Tier.Slab.{open_slab, slots_from, take_slot, write_slot, read_slot}
use forebay.Tier.Cache.{
  new, add_capacity, slab_of, placed, unplace, take_first, place, fill, admit, begin_read, fetch,
  is_current, finish_read,
}
use forebay.Tier.Readers.{
  idle, answered, reader_of, System, set_reader, begins, loads, finishes, admits, add, keep, begin,
  load, finish, Reach, start, later,
}
use forebay.Tier.Safety.{IsKept}
use forebay.Tier.Safety.Reached.{empty, Reach-answered, Reach-IsKept}

abbrev content : Key → Text
content k = k.block.object

abbrev config : Config
config = record { block_size = pos 4; first_read_limit = pos 8 }

abbrev key : Text → Key
key object = record {
  tenant = bytes "train";
  block = record { backend = bytes "s3"; object = object; index = pos 0 };
}

abbrev one : Key
one = key (bytes "a")

abbrev two : Key
two = key (bytes "b")

abbrev lent : Extent
lent = record { size = 8; bytes_of = λ _. bytes "zzzz" }

-- The states of the run.
abbrev s0 : System
s0 = record { cache = empty config; admissions = 0; readers = λ _. idle }

abbrev s1 : System
s1 = record s0 { cache = (add_capacity s0.cache (bytes "lent") (some lent)).0 }

abbrev s2 : System
s2 = admits content s1 one true none

abbrev s3 : System
s3 = begins s2 0 one

abbrev s4 : System
s4 = admits content s3 two true none

abbrev token : Placement
token = record { slab = 0; slot = 0; len = 1; used = 2; gen = 1 }

abbrev s5 : System
s5 = loads s4 0 one token false

abbrev s6 : System
s6 = finishes s5 0 one token (some (bytes "a"))

finished : s6.readers 0 ≡ answered one (some (bytes "a"))
unfolding new add_capacity slab_of open_slab slots_from admits admit saw_before was_seen placed
    key_eq text_eq place take_first take_slot fill write_slot begins begin_read unplace reader_of
    set_reader loads fetch read_slot finishes finish_read is_current
finished = refl

few : s6.admissions < two64
unfolding finishes loads admits begins
few = omega arith

run : Reach content config s6
unfolding new add_capacity slab_of open_slab slots_from admits admit saw_before was_seen placed
    key_eq text_eq place take_first take_slot fill write_slot begins begin_read unplace reader_of
    set_reader loads fetch read_slot finishes finish_read is_current
run =
    later
      (later
        (later
          (later
            (later (later (start (empty config) refl) (add (bytes "lent") (some lent)))
              (keep one true none))
            (begin 0 one refl))
          (keep two true none))
        (load 0 one token false refl))
      (finish 0 one token (some (bytes "a")) refl)

Reach-answered_example : bytes "a" ≡ content one
Reach-answered_example = Reach-answered content config s6 0 one (bytes "a") run few finished

Reach-IsKept_example : IsKept content s6.cache
Reach-IsKept_example = Reach-IsKept content config s6 run few

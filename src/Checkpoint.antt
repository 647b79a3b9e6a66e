-- ===== src/Checkpoint.antt =====
-- internal/checkpoint/checkpoint.go: what an acknowledgement means, and whether a node may stage a
-- checkpoint. The text of a message is left out.
pub mod Laws
mod Tests
use forebay.Prelude.{Bool, true, false, not, Option, none, some, List, [], ◌∷◌, if◌then◌else◌}
use forebay.Prelude.Int.{ℤ, pos, ltb_ℤ, leb_ℤ, eqb_ℤ}
use forebay.Prelude.Text.{Text, bytes, text_eq}
use forebay.Lease.Types.{guaranteed}

abbrev pub durable : Text
durable = bytes "durable"

abbrev pub staged : Text
staged = bytes "staged"

-- What an acknowledgement withstands, and what it does not.
unfoldable pub survives : Text → Option (Text × Text)
survives a =
    if text_eq a durable
    then some (bytes "whatever the backend survives", bytes "whatever the backend does not")
    else if text_eq a staged
    then some (bytes "the process, and a restart of the agent", bytes "the node")
    else none

unfoldable pub with_default : Text → Text
with_default a = if text_eq a [] then durable else a

pub data Error : Type 0 where
  stages_nothing revocable too_large : Error

pub record Reservation : Type 0 where
  pub size : ℤ
  pub class : ℤ

unfoldable pub check : Reservation → ℤ → Option Error
check r guaranteed_free =
    if leb_ℤ r.size (pos 0)
    then some stages_nothing
    else if not (eqb_ℤ r.class guaranteed)
    then some revocable
    else if ltb_ℤ guaranteed_free r.size
    then some too_large
    else none

-- ===== src/Lease/Journal.antt =====
-- internal/lease/journal.go: `FileJournal`, which rewrites one file on every change, and the class
-- names of lease.go that it writes. The JSON encoder and the printing of durations are parameters;
-- the file system is one file, its temporary files and, for each `Save`, which of its steps fail and
-- what they leave.
pub mod Json
pub mod Laws
mod Tests
use forebay.Prelude.{
  ℕ, zero, suc, ◌+◌, ◌/◌, ◌%◌, Bool, true, false, not, ◌||◌, Option, none, some, List, [], ◌∷◌,
  ◌++◌, ltb, if◌then◌else◌,
}
use forebay.Prelude.Int.{ℤ, pos, negsuc, eqb_ℤ}
use forebay.Prelude.Text.{Text, bytes, text_eq}
use forebay.Lease.Types.{
  Error, Lease, Loaded, loaded, unreadable, Journal, opportunistic, elastic, guaranteed,
}

-- The decimal digits of a number, which `%d` prints, with fuel above the number.
unfoldable pub decimal_from : ℕ → ℕ → Text → Text
decimal_from zero n acc = acc
decimal_from (suc f) n acc = elim (ltb n 10) [
  | true ↦ (48 + n) ∷ acc
  | false ↦ decimal_from f (n / 10) ((48 + n % 10) ∷ acc)
]

unfoldable pub decimal : ℤ → Text
unfolding decimal_from
decimal (pos n) = decimal_from (suc n) n []
decimal (negsuc n) = b'-' ∷ decimal_from (suc (suc n)) (suc n) []

-- `Class.String`
unfoldable pub class_name : ℤ → Text
unfolding decimal
class_name c =
    if eqb_ℤ c opportunistic
    then bytes "opportunistic"
    else if eqb_ℤ c elastic
    then bytes "elastic"
    else if eqb_ℤ c guaranteed
    then bytes "guaranteed"
    else bytes "class(" ++ (decimal c ++ bytes ")")

unfoldable pub parse_class : Text → Option ℤ
parse_class s =
    if text_eq s (bytes "opportunistic")
    then some opportunistic
    else if text_eq s (bytes "elastic")
    then some elastic
    else if text_eq s (bytes "guaranteed")
    then some guaranteed
    else none

-- The on-disk form of a lease: `record`.
pub record Entry : Type 0 where
  pub id : Text
  pub tenant : Text
  pub class : Text
  pub size_bytes : ℤ
  pub granted_at : ℤ
  pub term : Text

pub record Document : Type 0 where
  pub format : ℤ
  pub leases : List Entry

-- `journalFormat`
abbrev pub journal_format : ℤ
journal_format = pos 1

-- `json.MarshalIndent` and `json.Unmarshal` on documents, `Duration.String` and `ParseDuration`.
pub record Codec : Type 0 where
  pub marshal : Document → Option Text
  pub unmarshal : Text → Option Document
  pub duration_string : ℤ → Text
  pub parse_duration : Text → Option ℤ

-- How the steps of one `Save` end. A write, a flush or a close that fails says what the temporary
-- file holds after it, which may be any part of what was to be written, or anything else.
pub record Faults : Type 0 where
  pub create_temp : Bool
  pub write : Option Text
  pub sync : Option Text
  pub close : Option Text
  pub rename : Bool
  pub remove : Bool
  pub open_dir : Bool
  pub sync_dir : Bool

-- The file, where it exists, the contents of the temporary files that were not removed, whether
-- the file can be read, and how the saves to come end. A save past the end of that list has no
-- fault.
pub record Disk : Type 0 where
  pub file : Option Text
  pub temporary : List Text
  pub read_fails : Bool
  pub faults : List Faults

abbrev pub no_faults : Faults
no_faults = record {
  create_temp = false;
  write = none;
  sync = none;
  close = none;
  rename = false;
  remove = false;
  open_dir = false;
  sync_dir = false;
}

abbrev pub next_faults : List Faults → Faults × List Faults
next_faults [] = (no_faults, [])
next_faults (f ∷ fs) = (f, fs)

-- What the temporary file holds after a step, from what it holds where the step does not fail.
abbrev pub after : Option Text → Text → Text
after none content = content
after (some left) content = left

abbrev pub has_failed : Option Text → Bool
has_failed none = false
has_failed (some left) = true

-- The deferred removal of the temporary file, where it was not renamed.
abbrev pub remove_temp : Faults → Text → Disk → Disk
remove_temp f content d = if f.remove then record d { temporary = content ∷ d.temporary } else d

abbrev pub is_seen : Text → List Text → Bool
is_seen k [] = false
is_seen k (j ∷ js) = text_eq k j || is_seen k js

module _ (c : Codec) where
  unfoldable pub entry : Lease → Entry
  unfolding class_name
  entry l = record {
    id = l.id;
    tenant = l.tenant;
    class = class_name l.class;
    size_bytes = l.size;
    granted_at = l.granted_at;
    term = c.duration_string l.term;
  }

  unfoldable pub entries : List Lease → List Entry
  unfolding entry
  entries [] = []
  entries (l ∷ ls) = entry l ∷ entries ls

  -- Writing to a temporary file, flushing and closing it, renaming it over the journal, and flushing
  -- the directory.
  unfoldable pub replace_file : Disk → Text → Disk × Option Error
  replace_file d body =
      let (f, fs) = next_faults d.faults in
      let begun = record d { faults = fs } in
      let wrote = after f.write body in
      let flushed = after f.sync wrote in
      let closed = after f.close flushed in
      if f.create_temp
      then (begun, some Error.io)
      else if has_failed f.write
      then (remove_temp f wrote begun, some Error.io)
      else if has_failed f.sync
      then (remove_temp f flushed begun, some Error.io)
      else if has_failed f.close
      then (remove_temp f closed begun, some Error.io)
      else if f.rename
      then (remove_temp f closed begun, some Error.io)
      else (
        record begun { file = some closed },
        if f.open_dir || f.sync_dir then some Error.io else none,
      )

  unfoldable pub save : Disk → List Lease → Disk × Option Error
  unfolding entries replace_file
  save d ls = elim (c.marshal (record { format = journal_format; leases = entries ls })) [
    | none ↦ (d, some Error.io)
    | some body ↦ replace_file d (body ++ 10 ∷ [])
  ]

  -- The loop of `Load` over the entries that are left; `none` is a corrupt journal.
  unfoldable pub read_entries : List Text → List Entry → Option (List Lease)
  read_entries seen [] = some []
  read_entries seen (r ∷ rs) = elim (is_seen r.id seen) [
    | true ↦ none
    | false ↦ elim (parse_class r.class) [
      | none ↦ none
      | some k ↦ elim (c.parse_duration r.term) [
        | none ↦ none
        | some t ↦ elim (read_entries (r.id ∷ seen) rs) [
          | none ↦ none
          | some out ↦ some (
              record {
                id = r.id;
                tenant = r.tenant;
                class = k;
                size = r.size_bytes;
                granted_at = r.granted_at;
                term = t;
              }
              ∷ out)
        ]
      ]
    ]
  ]

  unfoldable pub load : Disk → Loaded
  load d = if d.read_fails then unreadable Error.io else elim d.file [
    | none ↦ loaded []
    | some body ↦ elim (c.unmarshal body) [
      | none ↦ unreadable Error.corrupt
      | some f ↦
          if not (eqb_ℤ f.format journal_format)
          then unreadable Error.corrupt
          else elim (read_entries [] f.leases) [
            | none ↦ unreadable Error.corrupt
            | some ls ↦ loaded ls
          ]
    ]
  ]

  abbrev pub file_journal : Journal Disk
  file_journal = record { save = save; load = load }

-- ===== src/Driver.antt =====
-- driver/driver.go and driver/backend.go: what a store declares that it can do, and the backend
-- that holds a driver to it. A driver is code outside of the model: its methods are parameters over
-- a state `W` of any type, which is the store with whatever decides its failures.
mod Laws
mod Tests
use forebay.Prelude.{
  ◌≡◌, refl, ◌⊎◌, inl, inr, Bool, true, false, not, ◌&&◌, ◌||◌, Option, none, some, List, [], ◌∷◌,
  if◌then◌else◌,
}
use forebay.Prelude.Int.{ℤ, pos, ltb_ℤ, leb_ℤ}
use forebay.Prelude.Text.{Text, bytes, text_eq, text_lt}

abbrev pub read_range_cap : Text
read_range_cap = bytes "read-range"

abbrev pub object_size : Text
object_size = bytes "object-size"

abbrev pub write_object_cap : Text
write_object_cap = bytes "write-object"

abbrev pub delete_object_cap : Text
delete_object_cap = bytes "delete-object"

abbrev pub snapshot_cap : Text
snapshot_cap = bytes "snapshot"

abbrev pub clone_cap : Text
clone_cap = bytes "clone"

abbrev pub list_objects : Text
list_objects = bytes "list-objects"

abbrev pub write_stream : Text
write_stream = bytes "write-stream"

-- `failed` is any error of a driver that is none of those that the package names.
pub data Error : Type 0 where
  not_supported no_read_range out_of_range denied bad_contract no_driver bad_size failed : Error

pub data Answer {ℓ} (A : Type ℓ) : Type ℓ where
  ok : A → Answer A
  err : Error → Answer A

pub record Entry : Type 0 where
  pub name : Text
  pub is_dir : Bool
  pub size : ℤ

pub record Declaration : Type 0 where
  pub contract : ℤ
  pub capabilities : List Text

unfoldable pub contains : Text → List Text → Bool
contains c [] = false
contains c (d ∷ ds) = text_eq c d || contains c ds

unfoldable pub declares : Declaration → Text → Bool
declares d c = contains c d.capabilities

unfoldable pub validate : Declaration → Option Error
validate d =
    if leb_ℤ d.contract (pos 0)
    then some bad_contract
    else if not (declares d read_range_cap)
    then some no_read_range
    else none

abbrev pub Call : Type 0 → Type 0 → Type 0
Call W A = W → W × Answer A

-- `lister` and `streamer` say whether the driver implements those interfaces too.
pub record Driver (W : Type 0) : Type 0 where
  pub declare : Declaration
  pub read_range : Text → ℤ → ℤ → Call W Text
  pub size_of : Text → Call W ℤ
  pub write_object : Text → Text → Call W (Unit {0})
  pub delete_object : Text → Call W (Unit {0})
  pub snapshot_object : Text → Call W Text
  pub clone_object : Text → Text → Call W (Unit {0})
  pub lister : Option (Text → Text → ℤ → Call W (List Entry))
  pub streamer : Option (Text → Text → ℤ → Call W (Unit {0}))

-- `denied` holds each capability once.
pub record Backend (W : Type 0) : Type 0 where
  pub driver : Driver W
  pub lister : Option (Text → Text → ℤ → Call W (List Entry))
  pub streamer : Option (Text → Text → ℤ → Call W (Unit {0}))
  pub declaration : Declaration
  pub denied_caps : List Text

-- An interface that is declared and implemented; `err` where it is declared and not implemented.
unfoldable pub implemented : {A : Type 0} → Bool → Option A → Answer (Option A)
implemented declared given =
    if not declared then ok none else elim given [ none ↦ err not_supported | some f ↦ ok (some f) ]

-- The insertion of `sort.Slice`.
unfoldable pub insert_cap : Text → List Text → List Text
insert_cap c [] = c ∷ []
insert_cap c (d ∷ ds) = if text_lt d c then d ∷ insert_cap c ds else c ∷ d ∷ ds

unfoldable pub sort_caps : List Text → List Text
sort_caps [] = []
sort_caps (c ∷ cs) = insert_cap c (sort_caps cs)

unfoldable pub is_denied : Error → Bool
is_denied denied = true
is_denied e = false

module _ {W : Type 0} where
  unfoldable pub open_driver : Option (Driver W) → Answer (Backend W)
  open_driver none = err no_driver
  open_driver (some d) = elim (validate d.declare) [
    | some e ↦ err e
    | none ↦ elim (implemented (declares d.declare list_objects) d.lister) [
      | err e ↦ err e
      | ok lister ↦ elim (implemented (declares d.declare write_stream) d.streamer) [
        | err e ↦ err e
        | ok streamer ↦ ok (record {
          driver = d;
          lister = lister;
          streamer = streamer;
          declaration = d.declare;
          denied_caps = [];
        })
      ]
    ]
  ]

  unfoldable pub supports : Backend W → Text → Bool
  supports b c = not (contains c b.denied_caps) && declares b.declaration c

  unfoldable pub denied_list : Backend W → List Text
  denied_list b = sort_caps b.denied_caps

  unfoldable pub narrow : {A : Type 0} → Backend W → Text → Answer A → Backend W
  narrow b c (ok a) = b
  narrow b c (err e) =
      if is_denied e && not (contains c b.denied_caps)
      then record b { denied_caps = c ∷ b.denied_caps }
      else b

  -- A method of the backend: the call of the driver, and what it makes the backend know.
  abbrev pub attempt : {A : Type 0} → Backend W → Text → Call W A → W → Backend W × W × Answer A
  attempt b c call w = let (w', r) = call w in (narrow b c r, w', r)

  unfoldable pub read_range : Backend W → Text → ℤ → ℤ → Call W Text
  read_range b object offset length w =
      if ltb_ℤ offset (pos 0) || ltb_ℤ length (pos 0)
      then (w, err out_of_range)
      else b.driver.read_range object offset length w

  unfoldable pub list : Backend W → Text → Text → ℤ → W → Backend W × W × Answer (List Entry)
  list b prefix after limit w =
      if not (supports b list_objects) then (b, w, err not_supported) else elim b.lister [
        | none ↦ (b, w, err not_supported)
        | some f ↦
            if leb_ℤ limit (pos 0)
            then (b, w, err not_supported)
            else attempt b list_objects (f prefix after limit) w
      ]

  unfoldable pub size_of : Backend W → Text → W → Backend W × W × Answer ℤ
  size_of b object w =
      if not (supports b object_size)
      then (b, w, err not_supported)
      else attempt b object_size (b.driver.size_of object) w

  unfoldable pub write_object : Backend W → Text → Text → W → Backend W × W × Answer (Unit {0})
  write_object b object content w =
      if not (supports b write_object_cap)
      then (b, w, err not_supported)
      else attempt b write_object_cap (b.driver.write_object object content) w

  -- The source is what is left of it to read.
  unfoldable pub write_object_from :
      Backend W → Text → Text → ℤ → W → Backend W × W × Answer (Unit {0})
  write_object_from b object src size w =
      if not (supports b write_stream) then (b, w, err not_supported) else elim b.streamer [
        | none ↦ (b, w, err not_supported)
        | some f ↦
            if ltb_ℤ size (pos 0)
            then (b, w, err bad_size)
            else attempt b write_stream (f object src size) w
      ]

  unfoldable pub delete_object : Backend W → Text → W → Backend W × W × Answer (Unit {0})
  delete_object b object w =
      if not (supports b delete_object_cap)
      then (b, w, err not_supported)
      else attempt b delete_object_cap (b.driver.delete_object object) w

  unfoldable pub snapshot_object : Backend W → Text → W → Backend W × W × Answer Text
  snapshot_object b object w =
      if not (supports b snapshot_cap)
      then (b, w, err not_supported)
      else attempt b snapshot_cap (b.driver.snapshot_object object) w

  unfoldable pub clone_object : Backend W → Text → Text → W → Backend W × W × Answer (Unit {0})
  clone_object b from to w =
      if not (supports b clone_cap)
      then (b, w, err not_supported)
      else attempt b clone_cap (b.driver.clone_object from to) w

pub Answer-cases {ℓ} :
    {A : Type ℓ} (r : Answer A) → ((a : A) × (r ≡ ok a)) ⊎ ((e : Error) × (r ≡ err e))
Answer-cases (ok a) = inl (a, refl)
Answer-cases (err e) = inr (e, refl)

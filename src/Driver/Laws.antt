-- ===== src/Driver/Laws.antt =====
-- What the backend of driver/backend.go keeps a driver to.
use forebay.Prelude.{
  ◌≡◌, refl, false, Option, none, some, List, [], ◌∷◌, arith, inl, inr, Bool-cases, Option-cases,
}
use forebay.Prelude.Int.{ℤ}
use forebay.Prelude.Text.{Text, text_eq_refl}
use forebay.Driver.{
  Answer, ok, err, Error, not_supported, denied, contains, is_denied, object_size, write_object_cap,
  delete_object_cap, snapshot_cap, clone_cap, list_objects, write_stream, Backend, supports, narrow,
  list, size_of, write_object, write_object_from, delete_object, snapshot_object, clone_object,
}

-- A call of a method that needs a capability.
pub data Op : Type 0 where
  listing : Text → Text → ℤ → Op
  sizing deleting snapping : Text → Op
  writing cloning : Text → Text → Op
  streaming : Text → Text → ℤ → Op

abbrev pub needed : Op → Text
needed (listing p a n) = list_objects
needed (sizing o) = object_size
needed (deleting o) = delete_object_cap
needed (snapping o) = snapshot_cap
needed (writing o c) = write_object_cap
needed (cloning o p) = clone_cap
needed (streaming o c n) = write_stream

abbrev error_of : {A : Type 0} → Answer A → Option Error
error_of (ok a) = none
error_of (err e) = some e

module _ {W : Type 0} where
  abbrev outcome : {A : Type 0} → Backend W × W × Answer A → Backend W × W × Option Error
  outcome (b, w, r) = (b, w, error_of r)

  -- What a call leaves, and its error, if it reported one.
  abbrev pub perform : Op → Backend W → W → Backend W × W × Option Error
  perform (listing p a n) b w = outcome (list b p a n w)
  perform (sizing o) b w = outcome (size_of b o w)
  perform (deleting o) b w = outcome (delete_object b o w)
  perform (snapping o) b w = outcome (snapshot_object b o w)
  perform (writing o c) b w = outcome (write_object b o c w)
  perform (cloning o p) b w = outcome (clone_object b o p w)
  perform (streaming o c n) b w = outcome (write_object_from b o c n w)

  abbrev pub perform_all : List Op → Backend W → W → Backend W × W
  perform_all [] b w = (b, w)
  perform_all (op ∷ ops) b w = let (b', w', _) = perform op b w in perform_all ops b' w'

  -- A method that needs a capability the backend does not support is refused, and the driver is
  -- not called.
  perform_unsupported :
      (op : Op) (b : Backend W) (w : W)
      → supports b (needed op) ≡ false
      → perform op b w ≡ (b, w, some not_supported)
  unfolding list size_of delete_object snapshot_object write_object clone_object write_object_from
  perform_unsupported (listing p a n) b w h = rw h refl
  perform_unsupported (sizing o) b w h = rw h refl
  perform_unsupported (deleting o) b w h = rw h refl
  perform_unsupported (snapping o) b w h = rw h refl
  perform_unsupported (writing o c) b w h = rw h refl
  perform_unsupported (cloning o p) b w h = rw h refl
  perform_unsupported (streaming o c n) b w h = rw h refl

  narrow-supports :
      {A : Type 0} (b : Backend W) (c d : Text) (r : Answer A)
      → supports b d ≡ false
      → supports (narrow b c r) d ≡ false
  unfolding narrow supports contains
  narrow-supports b c d (ok a) h = h
  narrow-supports b c d (err e) h = ground (arith, h)

  -- No method makes the backend support what it did not.
  perform-supports :
      (op : Op) (b : Backend W) (w : W) (d : Text)
      → supports b d ≡ false
      → supports (perform op b w).0 d ≡ false
  unfolding list size_of delete_object snapshot_object write_object clone_object write_object_from
  perform-supports (listing p a n) b w d h = elim (Option-cases b.lister) [
    | inl e ↦ ground (arith, h, e)
    | inr (f, e) ↦ ground (arith, h, e, narrow-supports b list_objects d (f p a n w).1 h)
  ]
  perform-supports (sizing o) b w d h =
      ground (arith, narrow-supports b object_size d (b.driver.size_of o w).1 h)
  perform-supports (deleting o) b w d h =
      ground (arith, narrow-supports b delete_object_cap d (b.driver.delete_object o w).1 h)
  perform-supports (snapping o) b w d h =
      ground (arith, narrow-supports b snapshot_cap d (b.driver.snapshot_object o w).1 h)
  perform-supports (writing o c) b w d h =
      ground (arith, narrow-supports b write_object_cap d (b.driver.write_object o c w).1 h)
  perform-supports (cloning o p) b w d h =
      ground (arith, narrow-supports b clone_cap d (b.driver.clone_object o p w).1 h)
  perform-supports (streaming o c n) b w d h = elim (Option-cases b.streamer) [
    | inl e ↦ ground (arith, h, e)
    | inr (f, e) ↦ ground (arith, h, e, narrow-supports b write_stream d (f o c n w).1 h)
  ]

  perform_all-supports :
      (ops : List Op) (b : Backend W) (w : W) (d : Text)
      → supports b d ≡ false
      → supports (perform_all ops b w).0 d ≡ false
  perform_all-supports [] b w d h = h
  perform_all-supports (op ∷ ops) b w d h =
      let (b', w', _) = perform op b w in
      perform_all-supports ops b' w' d (perform-supports op b w d h)

  narrow-denied :
      {A : Type 0} (b : Backend W) (c : Text) (r : Answer A)
      → error_of r ≡ some denied
      → supports (narrow b c r) c ≡ false
  unfolding narrow supports contains is_denied
  narrow-denied b c (ok a) h = absurd (ground (arith, h))
  narrow-denied b c (err e) h = elim (Bool-cases (contains c b.denied_caps)) [
    | inl old ↦ ground (arith, h, old)
    | inr new_one ↦ ground (arith, h, new_one, text_eq_refl c)
  ]

  perform-denied :
      (op : Op) (b : Backend W) (w : W)
      → (perform op b w).2 ≡ some denied
      → supports (perform op b w).0 (needed op) ≡ false
  unfolding list size_of delete_object snapshot_object write_object clone_object write_object_from
  perform-denied (listing p a n) b w h = elim (Option-cases b.lister) [
    | inl e ↦ absurd (ground (arith, h, e))
    | inr (f, e) ↦ ground (arith, h, e, narrow-denied b list_objects (f p a n w).1)
  ]
  perform-denied (sizing o) b w h =
      ground (arith, h, narrow-denied b object_size (b.driver.size_of o w).1)
  perform-denied (deleting o) b w h =
      ground (arith, h, narrow-denied b delete_object_cap (b.driver.delete_object o w).1)
  perform-denied (snapping o) b w h =
      ground (arith, h, narrow-denied b snapshot_cap (b.driver.snapshot_object o w).1)
  perform-denied (writing o c) b w h =
      ground (arith, h, narrow-denied b write_object_cap (b.driver.write_object o c w).1)
  perform-denied (cloning o p) b w h =
      ground (arith, h, narrow-denied b clone_cap (b.driver.clone_object o p w).1)
  perform-denied (streaming o c n) b w h = elim (Option-cases b.streamer) [
    | inl e ↦ absurd (ground (arith, h, e))
    | inr (f, e) ↦ ground (arith, h, e, narrow-denied b write_stream (f o c n w).1)
  ]

  -- Once a method answers that the credential is not allowed to do it, every later call of a
  -- method that needs the same capability, whatever calls are made in between, is refused as not
  -- supported, does not call the driver and changes nothing.
  pub denied_for_good :
      (op later : Op) (between : List Op) (b : Backend W) (w : W)
      → (perform op b w).2 ≡ some denied
      → needed later ≡ needed op
      → perform later
          (perform_all between (perform op b w).0 (perform op b w).1).0
          (perform_all between (perform op b w).0 (perform op b w).1).1
        ≡ (
          (perform_all between (perform op b w).0 (perform op b w).1).0,
          (perform_all between (perform op b w).0 (perform op b w).1).1,
          some not_supported,
        )
  denied_for_good op later between b w h same =
      let (b', w', _) = perform op b w in
      perform_unsupported later _ _
        (rw same (perform_all-supports between b' w' (needed op) (perform-denied op b w h)))

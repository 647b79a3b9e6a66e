-- ===== src/Driver/Tests.antt =====
-- Runs of the backend of driver/backend.go.
use forebay.Prelude.{◌≡◌, refl, some, none, List, [], ◌∷◌}
use forebay.Prelude.Int.{pos}
use forebay.Prelude.Text.{bytes, text_eq}
use forebay.Driver.{
  ok, err, Driver, Backend, Declaration, denied, failed, not_supported, contains, declares,
  supports, write_object,
}
use forebay.Driver.Laws.{Op, writing, sizing, perform, perform_all, denied_for_good}

abbrev declaration : Declaration
declaration = record {
  contract = pos 1;
  capabilities = bytes "read-range" ∷ bytes "object-size" ∷ bytes "write-object" ∷ [];
}

-- A store whose credential may not write.
abbrev read_only : Driver (Unit {0})
read_only = record {
  declare = declaration;
  read_range = λ object a n w. (w, err failed);
  size_of = λ object w. (w, ok (pos 7));
  write_object = λ object content w. (w, err denied);
  delete_object = λ object w. (w, err failed);
  snapshot_object = λ object w. (w, err failed);
  clone_object = λ from to w. (w, err failed);
  lister = none;
  streamer = none;
}

abbrev backend : Backend (Unit {0})
backend = record {
  driver = read_only;
  lister = none;
  streamer = none;
  declaration = declaration;
  denied_caps = [];
}

abbrev first_write : Op
first_write = writing (bytes "a") (bytes "1")

abbrev later_write : Op
later_write = writing (bytes "b") (bytes "2")

abbrev sizes : List Op
sizes = sizing (bytes "a") ∷ []

refused : (perform first_write backend tt).2 ≡ some denied
unfolding write_object supports contains declares text_eq
refused = refl

abbrev narrowed : Backend (Unit {0})
narrowed = (perform_all sizes (perform first_write backend tt).0 tt).0

denied_for_good_example : perform later_write narrowed tt ≡ (narrowed, tt, some not_supported)
denied_for_good_example = denied_for_good first_write later_write sizes backend tt refused refl

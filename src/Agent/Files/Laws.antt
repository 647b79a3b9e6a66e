-- ===== src/Agent/Files/Laws.antt =====
-- Looking up a file after one was added, replaced or removed.
use forebay.Prelude.{◌≡◌, refl, ◌∙◌, false, none, some, [], ◌∷◌, arith}
use forebay.Prelude.Int.{ℤ}
use forebay.Prelude.Text.{Text, text_eq, text_eq→eq, text_eq_refl}
use forebay.Agent.Files.{Files, find_file, drop_file, add_file, put_file}

pub find_file-drop : (k : Text) (fs : Files) → find_file k (drop_file k fs) ≡ none
unfolding find_file drop_file
find_file-drop k [] = refl
find_file-drop k ((j, n) ∷ fs) = ground (arith, find_file-drop k fs)

pub find_file-drop_ne :
    (j k : Text) (fs : Files) → text_eq j k ≡ false → find_file j (drop_file k fs) ≡ find_file j fs
unfolding find_file drop_file
find_file-drop_ne j k [] h = refl
find_file-drop_ne j k ((i, n) ∷ fs) h = ground (arith, find_file-drop_ne j k fs h, text_eq→eq k i)

find_file-add_ne :
    (j k : Text) (n : ℤ) (fs : Files)
    → text_eq j k ≡ false
    → find_file j (add_file k n fs) ≡ find_file j fs
unfolding find_file add_file
find_file-add_ne j k n [] h = ground (arith, h)
find_file-add_ne j k n ((i, m) ∷ fs) h = ground (arith, find_file-add_ne j k n fs h, h)

find_file-add :
    (k : Text) (n : ℤ) (fs : Files) → find_file k fs ≡ none → find_file k (add_file k n fs) ≡ some n
unfolding find_file add_file
find_file-add k n [] h = ground (arith, text_eq_refl k)
find_file-add k n ((i, m) ∷ fs) h = ground (arith, find_file-add k n fs, h, text_eq_refl k)

pub find_file-put : (k : Text) (n : ℤ) (fs : Files) → find_file k (put_file k n fs) ≡ some n
unfolding put_file
find_file-put k n fs = find_file-add k n (drop_file k fs) (find_file-drop k fs)

pub find_file-put_ne :
    (j k : Text) (n : ℤ) (fs : Files)
    → text_eq j k ≡ false
    → find_file j (put_file k n fs) ≡ find_file j fs
unfolding put_file
find_file-put_ne j k n fs h = find_file-add_ne j k n (drop_file k fs) h ∙ find_file-drop_ne j k fs h

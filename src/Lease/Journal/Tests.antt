-- ===== src/Lease/Journal/Tests.antt =====
-- A codec that is faithful, and the theorems about the journal applied to it.
use forebay.Prelude.{
  ℕ, zero, suc, ◌≡◌, refl, ap, ◌⊎◌, false, true, Option, none, some, List, [], ◌∷◌, ◌++◌, length,
  arith, ◌==◌, if◌then◌else◌,
}
use forebay.Prelude.Int.{ℤ, pos, negsuc, ◌+ℤ◌}
use forebay.Prelude.Text.{Text, bytes, text_eq}
use forebay.Lease.Types.{valid_class, Error, Lease, loaded, Manager, elastic, guaranteed}
use forebay.Lease.Journal.{
  Entry, Document, Codec, Disk, no_faults, journal_format, entries, replace_file, save, load,
  file_journal,
}
use forebay.Lease.Journal.Json.{IsPlain, IsFaithful, valid_from}
use forebay.Lease.Journal.Laws.{save-load, save_atomic, restart-IsSound}
use forebay.Lease.Restore.{restore}
use forebay.Lease.Invariant.{IsSound}

put_int : ℤ → Text → Text
put_int (pos n) t = 0 ∷ n ∷ t
put_int (negsuc n) t = 1 ∷ n ∷ t

get_int : Text → Option (ℤ × Text)
get_int (zero ∷ n ∷ t) = some (pos n, t)
get_int (suc _ ∷ n ∷ t) = some (negsuc n, t)
get_int _ = none

get_int-put_int : (i : ℤ) (t : Text) → get_int (put_int i t) ≡ some (i, t)
unfolding get_int put_int
get_int-put_int (pos n) t = refl
get_int-put_int (negsuc n) t = refl

put_text : Text → Text → Text
put_text [] t = 0 ∷ t
put_text (b ∷ bs) t = 1 ∷ b ∷ put_text bs t

get_text : Text → Option (Text × Text)
get_text [] = none
get_text (zero ∷ t) = some ([], t)
get_text (suc _ ∷ []) = none
get_text (suc _ ∷ b ∷ t) = elim (get_text t) [ none ↦ none | some (bs, u) ↦ some (b ∷ bs, u) ]

get_text-put_text : (s t : Text) → get_text (put_text s t) ≡ some (s, t)
unfolding get_text put_text
get_text-put_text [] t = refl
get_text-put_text (b ∷ bs) t = rw (get_text-put_text bs t) refl

put_entries : List Entry → Text → Text
unfolding put_text put_int
put_entries [] t = t
put_entries (r ∷ rs) t = put_text r.id (
    put_text r.tenant (
      put_text r.class
        (put_int r.size_bytes (put_int r.granted_at (put_text r.term (put_entries rs t))))))

abbrev and_then : {A B : Type 0} → Option A → (A → Option B) → Option B
and_then none f = none
and_then (some a) f = f a

get_entries : ℕ → Text → Option (List Entry)
unfolding get_text get_int
get_entries zero t = some []
get_entries (suc n) t = and_then (get_text t) (λ i. and_then (get_text i.1) (λ v.
    and_then (get_text v.1) (λ c. and_then (get_int c.1) (λ s. and_then (get_int s.1) (λ g.
      and_then (get_text g.1) (λ w. and_then (get_entries n w.1) (λ rs. some (
        record {
          id = i.0;
          tenant = v.0;
          class = c.0;
          size_bytes = s.0;
          granted_at = g.0;
          term = w.0;
        }
        ∷ rs))))))))

get_entries-put_entries :
    (rs : List Entry) (t : Text) → get_entries (length rs) (put_entries rs t) ≡ some rs
unfolding get_entries put_entries
get_entries-put_entries [] t = refl
get_entries-put_entries (r ∷ rs) t =
    let rest = put_entries rs t in
    let w = put_text r.term rest in
    let g = put_int r.granted_at w in
    let s = put_int r.size_bytes g in
    let c = put_text r.class s in
    rw
      (
        get_text-put_text r.id (put_text r.tenant c),
        get_text-put_text r.tenant c,
        get_text-put_text r.class s,
        get_int-put_int r.size_bytes g,
        get_int-put_int r.granted_at w,
        get_text-put_text r.term rest,
        get_entries-put_entries rs t,
      )
      refl

put_text-append : (s t u : Text) → put_text s t ++ u ≡ put_text s (t ++ u)
unfolding put_text
put_text-append [] t u = refl
put_text-append (b ∷ bs) t u = ap (λ z. 1 ∷ b ∷ z) (put_text-append bs t u)

put_int-append : (i : ℤ) (t u : Text) → put_int i t ++ u ≡ put_int i (t ++ u)
unfolding put_int
put_int-append (pos n) t u = refl
put_int-append (negsuc n) t u = refl

put_entries-append :
    (rs : List Entry) (t u : Text) → put_entries rs t ++ u ≡ put_entries rs (t ++ u)
unfolding put_entries
put_entries-append [] t u = refl
put_entries-append (r ∷ rs) t u =
    rw
      (
        put_text-append,
        put_text-append,
        put_text-append,
        put_int-append,
        put_int-append,
        put_text-append,
        put_entries-append rs t u,
      )
      refl

put_document : Document → Text
put_document d = put_int d.format (length d.leases ∷ put_entries d.leases [])

get_counted : ℤ → Text → Option Document
get_counted f [] = none
get_counted f (n ∷ t) = and_then (get_entries n t) (λ rs. some (record { format = f; leases = rs }))

get_document : Text → Option Document
get_document t = and_then (get_int t) (λ f. get_counted f.0 f.1)

get_document-put_document : (d : Document) (u : Text) → get_document (put_document d ++ u) ≡ some d
unfolding get_document put_document get_counted
get_document-put_document d u =
    rw
      (
        put_int-append,
        put_entries-append d.leases [] u,
        get_int-put_int d.format (length d.leases ∷ put_entries d.leases u),
        get_entries-put_entries d.leases u,
      )
      refl

ones : ℕ → Text
ones zero = []
ones (suc n) = b'1' ∷ ones n

-- A duration as that many digits, after a dash where it is negative.
put_duration : ℤ → Text
unfolding ones
put_duration (pos n) = ones n
put_duration (negsuc n) = b'-' ∷ ones n

get_duration : Text → Option ℤ
get_duration [] = some (pos 0)
get_duration (b ∷ t) = some (if b == b'-' then negsuc (length t) else pos (suc (length t)))

length-ones : (n : ℕ) → length (ones n) ≡ n
unfolding ones
length-ones zero = refl
length-ones (suc n) = ap suc (length-ones n)

get_duration-put_duration : (t : ℤ) → get_duration (put_duration t) ≡ some t
unfolding get_duration put_duration ones
get_duration-put_duration (pos zero) = refl
get_duration-put_duration (pos (suc n)) = ap (λ z. some (pos (suc z))) (length-ones n)
get_duration-put_duration (negsuc n) = ap (λ z. some (negsuc z)) (length-ones n)

ones-IsPlain : (n : ℕ) → IsPlain (ones n)
unfolding ones valid_from
ones-IsPlain zero = refl
ones-IsPlain (suc n) = ones-IsPlain n

put_duration-IsPlain : (t : ℤ) → IsPlain (put_duration t)
unfolding put_duration valid_from
put_duration-IsPlain (pos n) = ones-IsPlain n
put_duration-IsPlain (negsuc n) = ones-IsPlain n

codec : Codec
codec = record {
  marshal = λ d. some (put_document d);
  unmarshal = get_document;
  duration_string = put_duration;
  parse_duration = get_duration;
}

codec-IsFaithful : IsFaithful codec
unfolding codec
codec-IsFaithful = record {
  durations = λ t _. get_duration-put_duration t;
  plain_durations = λ t _. put_duration-IsPlain t;
  documents = λ d body _ _ e.
      let e' : put_document d ≡ body = cc in rw (← e') (get_document-put_document d (10 ∷ []));
}

abbrev held : List Lease
held =
    record {
      id = bytes "staging";
      tenant = bytes "train";
      class = guaranteed;
      size = pos 100;
      granted_at = pos 7;
      term = pos 1000;
    }
    ∷ record {
      id = bytes "scratch";
      tenant = [];
      class = elastic;
      size = pos 150;
      granted_at = negsuc 4;
      term = pos 30;
    }
    ∷ []

abbrev empty : Disk
empty = record { file = none; temporary = []; read_fails = false; faults = [] }

saved : save codec empty held ≡ ((save codec empty held).0, none)
unfolding save replace_file codec
saved = refl

save-load_example : load codec (save codec empty held).0 ≡ loaded held
unfolding text_eq valid_class valid_from
save-load_example =
    save-load codec empty (save codec empty held).0 held codec-IsFaithful
      (
        (refl, omega arith, omega arith, refl, refl),
        ((refl, omega arith, omega arith, refl, refl), tt),
      )
      ((refl, tt), (tt, tt)) refl saved

-- A disk on which the first save writes one byte and then fails, and its temporary file stays.
abbrev failing : Disk
failing = record empty {
  file = some (bytes "before");
  faults = record no_faults { write = some (bytes "{"); remove = true } ∷ [];
}

torn :
    save codec failing held
    ≡ (record empty { file = some (bytes "before"); temporary = bytes "{" ∷ [] }, some Error.io)
unfolding save replace_file codec
torn = refl

-- A disk on which the first save cannot flush the directory, which it reports after the renaming.
abbrev unflushed : Disk
unflushed = record empty { faults = record no_faults { sync_dir = true } ∷ [] }

late : (save codec unflushed held).0.file ≡ (save codec empty held).0.file
unfolding save replace_file codec
late = refl

late_error : (save codec unflushed held).1 ≡ some Error.io
unfolding save replace_file codec
late_error = refl

save_atomic_example :
    (((save codec failing held).0.file ≡ some (bytes "before"))
      × ((save codec failing held).1 ≡ some Error.io))
    ⊎ ((body : Text) × (codec.marshal
            (record { format = journal_format; leases = entries codec held })
          ≡ some body)
        × ((save codec failing held).0.file ≡ some (body ++ 10 ∷ [])))
save_atomic_example = save_atomic codec failing held

abbrev node : Manager Disk
node = record {
  cfg = record {
    reclaim_within = pos 30;
    guaranteed_share = λ _. pos 250;
    min_term = pos 30;
    churn_window = pos 600;
    churn_budget = pos 6;
    autonomy = true;
    quota = record { borrowed = pos 0; guaranteed = pos 0 };
  };
  acct = record { capacity = pos 1000; reserved = pos 200; borrowed = pos 0 };
  leases = [];
  reclaims = [];
  journal = some (file_journal codec);
  disk = (save codec empty held).0;
  restored = false;
}

restart-IsSound_example : IsSound (restore node (pos 100)).0
unfolding ◌+ℤ◌
restart-IsSound_example = restart-IsSound codec node (pos 100) refl (omega arith)

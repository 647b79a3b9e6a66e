-- ===== src/Lease/Journal/Laws.antt =====
-- `Save` and `Load` of internal/lease/journal.go, and a manager that restarts over them.
use forebay.Prelude.{
  ◌≡◌, refl, ap, sym, ◌∙◌, ◌⊎◌, true, false, none, some, List, [], ◌∷◌, ◌++◌, All, arith, inl, inr,
  Bool-cases, Option-cases,
}
use forebay.Prelude.Int.{ℤ}
use forebay.Prelude.Text.{Text, text_eq, text_eq_sym}
use forebay.Lease.Types.{Error, Lease, loaded, Manager, valid_class}
use forebay.Lease.Table.Laws.{Distinct, Fresh}
use forebay.Lease.Invariant.{IsSound}
use forebay.Lease.Restore.{restore}
use forebay.Lease.Restore.Laws.{IsMeasured, readable, restore-IsSound}
use forebay.Lease.Journal.Json.{IsWritable, IsFaithful, valid_class-cases, entries-IsPlain}
use forebay.Lease.Journal.{
  next_faults, class_name, parse_class, Entry, Document, journal_format, Codec, Disk, entry,
  entries, replace_file, save, is_seen, read_entries, load, file_journal,
}

-- A class that is written is read back.
parse_class-class_name : (k : ℤ) → valid_class k ≡ true → parse_class (class_name k) ≡ some k
unfolding parse_class class_name valid_class text_eq
parse_class-class_name k h = elim (valid_class-cases k h) [
  | inl e ↦ rw e
  | inr (inl e) ↦ rw e
  | inr (inr e) ↦ rw e
]

-- The identifiers that were read stand apart from those that follow.
abbrev Unseen : List Text → List Lease → Type 0
Unseen seen = All (λ l. is_seen l.id seen ≡ false)

Unseen-cons :
    (x : Lease) (seen : List Text) (ls : List Lease)
    → Fresh x.id ls
    → Unseen seen ls
    → Unseen (x.id ∷ seen) ls
Unseen-cons x seen [] f u = tt
Unseen-cons x seen (l ∷ ls) f u =
    (rw (text_eq_sym l.id x.id, f.0) (u.0), Unseen-cons x seen ls f.1 u.1)

read_entries-entries :
    (c : Codec) (seen : List Text) (ls : List Lease)
    → IsFaithful c
    → All IsWritable ls
    → Distinct ls
    → Unseen seen ls
    → read_entries c seen (entries c ls) ≡ some ls
unfolding read_entries entries entry
read_entries-entries c seen [] f w d u = refl
read_entries-entries c seen (l ∷ ls) f w d u =
    let ih = read_entries-entries c (l.id ∷ seen) ls f w.1 d.1 (Unseen-cons l seen ls d.0 u.1) in
    ground (arith, u.0, parse_class-class_name l.class w.0.0, f.durations l.term w.0.2, ih)

-- What a first entry that could be read says.
read_entries_inv :
    (c : Codec) (seen : List Text) (r : Entry) (rs : List Entry) (ls : List Lease)
    → read_entries c seen (r ∷ rs) ≡ some ls
    → (l : Lease) × (out : List Lease) × (ls ≡ l ∷ out)
      × (l.id ≡ r.id)
      × (is_seen r.id seen ≡ false)
      × (read_entries c (r.id ∷ seen) rs ≡ some out)
unfolding read_entries
read_entries_inv c seen r rs ls h = elim (Bool-cases (is_seen r.id seen)) [
  | inl dup ↦ absurd (ground (arith, dup))
  | inr new ↦ elim (Option-cases (parse_class r.class)) [
    | inl bad ↦ absurd (ground (arith, new, bad))
    | inr (k, e) ↦ elim (Option-cases (c.parse_duration r.term)) [
      | inl bad ↦ absurd (ground (arith, new, e, bad))
      | inr (t, f) ↦ elim (Option-cases (read_entries c (r.id ∷ seen) rs)) [
        | inl bad ↦ absurd (ground (arith, new, e, f, bad))
        | inr (out, g) ↦ (
          record {
            id = r.id;
            tenant = r.tenant;
            class = k;
            size = r.size_bytes;
            granted_at = r.granted_at;
            term = t;
          },
          out,
          ground (arith, new, e, f, g),
          refl,
          new,
          g,
        )
      ]
    ]
  ]
]

Unseen-split :
    (j : Text) (seen : List Text) (ls : List Lease)
    → Unseen (j ∷ seen) ls
    → Fresh j ls × Unseen seen ls
Unseen-split j seen [] u = (tt, tt)
Unseen-split j seen (l ∷ ls) u =
    let ih = Unseen-split j seen ls u.1 in
    let h = u.0 in ((ground (arith, text_eq_sym j l.id), ih.0), (ground arith, ih.1))

-- Whatever is read back has distinct identifiers.
read_entries-Distinct :
    (c : Codec) (seen : List Text) (rs : List Entry) (ls : List Lease)
    → read_entries c seen rs ≡ some ls
    → Distinct ls × Unseen seen ls
unfolding read_entries
read_entries-Distinct c seen [] ls h = let e : [] ≡ ls = cc in rw (← e) (tt, tt)
read_entries-Distinct c seen (r ∷ rs) ls h =
    let (l, out, e, i, new, g) = read_entries_inv c seen r rs ls h in
    let (d, u) = read_entries-Distinct c (r.id ∷ seen) rs out g in
    let (f, v) = Unseen-split r.id seen out u in rw (e, i) ((f, d), (new, v))

all-Unseen : (ls : List Lease) → Unseen [] ls
all-Unseen [] = tt
all-Unseen (l ∷ ls) = (refl, all-Unseen ls)

-- So `Load` returns distinct identifiers from any file at all.
load-Distinct : (c : Codec) (d : Disk) → All Distinct (readable (load c d))
unfolding load
load-Distinct c d = elim (Option-cases d.file) [
  | inl none_e ↦ ground (arith, none_e)
  | inr (body, b) ↦ elim (Option-cases (c.unmarshal body)) [
    | inl bad ↦ ground (arith, b, bad)
    | inr (f, e) ↦ elim (Option-cases (read_entries c [] f.leases)) [
      | inl bad ↦ ground (arith, b, e, bad)
      | inr (ls, g) ↦
          let dist = (read_entries-Distinct c [] f.leases ls g).0 in ground (arith, b, e, g, dist)
    ]
  ]
]

-- A replacement leaves the file as it was and reports an error, or leaves the whole of the text.
replace_file-cases :
    (c : Codec) (d : Disk) (body : Text)
    → (((replace_file c d body).0.file ≡ d.file) × ((replace_file c d body).1 ≡ some Error.io))
      ⊎ ((replace_file c d body).0.file ≡ some body)
unfolding replace_file
replace_file-cases c d body =
    let f = (next_faults d.faults).0 in
    elim (Option-cases f.write) [
      | inr (x, w) ↦ ground (arith, w)
      | inl w ↦ elim (Option-cases f.sync) [
        | inr (x, s) ↦ ground (arith, w, s)
        | inl s ↦ elim (Option-cases f.close) [
          | inr (x, z) ↦ ground (arith, w, s, z)
          | inl z ↦ ground (arith, w, s, z)
        ]
      ]
    ]

replace_file-read_fails :
    (c : Codec) (d : Disk) (body : Text) → (replace_file c d body).0.read_fails ≡ d.read_fails
unfolding replace_file
replace_file-read_fails c d body = ground arith

-- With a codec that reads back durations and documents whose strings are valid UTF-8, a list of
-- leases with distinct identifiers, valid classes, int64 sizes and terms and identifiers and
-- tenants in valid UTF-8, once Save has reported success on a readable file, is what Load returns.
pub save-load :
    (c : Codec) (d d' : Disk) (ls : List Lease)
    → IsFaithful c
    → All IsWritable ls
    → Distinct ls
    → d.read_fails ≡ false
    → save c d ls ≡ (d', none)
    → load c d' ≡ loaded ls
unfolding save load
save-load c d d' ls f w u r h =
    let doc : Document = record { format = journal_format; leases = entries c ls } in
    elim (Option-cases (c.marshal doc)) [
      | inl bad ↦ absurd (ground (arith, h, bad))
      | inr (body, m) ↦
          let back = f.documents doc body (omega arith) (entries-IsPlain c ls f w) m in
          let all = read_entries-entries c [] ls f w u (all-Unseen ls) in
          let text = body ++ 10 ∷ [] in
          let same : replace_file c d text ≡ (d', none) = ground (arith, h, m) in
          let reads : d'.read_fails ≡ false =
            ap (λ z. z.0.read_fails) (sym same) ∙ replace_file-read_fails c d text ∙ r in
          elim (replace_file-cases c d text) [
            | inl (_, bad) ↦ absurd (ground (arith, same, bad))
            | inr whole ↦
                let file : d'.file ≡ some text = ap (λ z. z.0.file) (sym same) ∙ whole in
                ground (arith, file, back, all, reads)
          ]
    ]

-- Save leaves the journal file as it was and reports an error, or leaves in it the whole of what
-- was to be written, the encoded document and a newline, whichever steps fail and whatever a
-- write, a flush or a close that fails leaves in the temporary file.
pub save_atomic :
    (c : Codec) (d : Disk) (ls : List Lease)
    → (((save c d ls).0.file ≡ d.file) × ((save c d ls).1 ≡ some Error.io))
      ⊎ ((body : Text) × (c.marshal (record { format = journal_format; leases = entries c ls })
            ≡ some body)
          × ((save c d ls).0.file ≡ some (body ++ 10 ∷ [])))
unfolding save
save_atomic c d ls =
    elim (Option-cases (c.marshal (record { format = journal_format; leases = entries c ls }))) [
      | inl bad ↦ inl (rw (save, bad) (refl, refl))
      | inr (body, m) ↦ elim (replace_file-cases c d (body ++ 10 ∷ [])) [
        | inl old ↦ inl (rw (save, m) old)
        | inr whole ↦ inr (body, m, rw (save, m) whole)
      ]
    ]

-- Restore with a file journal leaves a sound manager whatever the file holds, the manager held and
-- the codec does, as long as the device apart from what was lent is consistent.
pub restart-IsSound :
    (c : Codec) (m : Manager Disk) (now : ℤ)
    → m.journal ≡ some (file_journal c)
    → IsMeasured m.acct
    → IsSound (restore m now).0
restart-IsSound c m now e b = restore-IsSound m (file_journal c) now e b (load-Distinct c m.disk)

-- ===== src/Dataset/Laws.antt =====
-- The addresses of internal/dataset.
use forebay.Prelude.{
  ◌≡◌, refl, ap, sym, ◌∙◌, ◌⊎◌, inl, inr, ◌↔◌, false, none, some, [], ◌∷◌, ◌++◌, arith, ◌==◌,
  Bool-cases, Option-cases,
}
use forebay.Prelude.Text.{Text}
use forebay.Dataset.{
  done, Ref, Placement, Resolver, slash, has_slash, is_empty, validate, address, object_key,
  backend_address, cut, trim_slash, checked, parse_object_key,
}

cut-address : (a b : Text) → has_slash a ≡ false → cut (a ++ (slash ∷ b)) ≡ some (a, b)
unfolding cut has_slash
cut-address [] b h = refl
cut-address (c ∷ a) b h = ground (arith, cut-address a b)

cut_parts : (s a b : Text) → cut s ≡ some (a, b) → (s ≡ a ++ (slash ∷ b)) × (has_slash a ≡ false)
unfolding cut has_slash
cut_parts [] a b h = absurd (ground (arith, h))
cut_parts (c ∷ s) a b h = elim (Bool-cases (c == slash)) [
  | inl here ↦
      let e : [] ≡ a = ground (arith, h, here) in
      let f : s ≡ b = ground (arith, h, here) in rw (← e, ← f) (ground (arith, here))
  | inr there ↦ elim (Option-cases (cut s)) [
    | inl no_ ↦ absurd (ground (arith, h, there, no_))
    | inr ((x, y), yes_) ↦
        let e : c ∷ x ≡ a = ground (arith, h, there, yes_) in
        let f : y ≡ b = ground (arith, h, there, yes_) in
        let (g, k) = cut_parts s x y yes_ in
        rw (← e, ← f) (ap (λ z. c ∷ z) g, ground (arith, there, k))
  ]
]

-- Names that an address keeps apart.
abbrev pub IsName : Text → Type 0
IsName s = (is_empty s ≡ false) × (has_slash s ≡ false)

trim-address : (a b : Text) → IsName a → trim_slash (a ++ b) ≡ a ++ b
unfolding trim_slash has_slash
trim-address [] b h = absurd (ground (arith, h))
trim-address (c ∷ a) b h = ground (arith, h)

validate_parts :
    (r : Ref)
    → validate r ≡ none
    → IsName r.dataset × IsName r.version × (is_empty r.object ≡ false)
unfolding validate
validate_parts r h = ground (arith, h)

checked-done : (q : Ref) → validate q ≡ none → checked q ≡ done q
checked-done q h = rw (checked, h) refl

-- A reference that Validate accepts is what ParseObjectKey reads from its key.
pub parse_object_key-object_key :
    (r : Ref) → validate r ≡ none → parse_object_key (object_key r) ≡ done r
unfolding parse_object_key object_key address
parse_object_key-object_key r h =
    let (d, v, o) = validate_parts r h in
    let rest = r.version ++ (slash ∷ r.object) in
    let first : cut (trim_slash (object_key r)) ≡ some (r.dataset, rest) =
      ap cut (trim-address r.dataset (slash ∷ rest) d) ∙ cut-address r.dataset rest d.1 in
    let second = cut-address r.version r.object v.1 in
    rw (parse_object_key, first, second) (checked-done r h)

trim_parts : (s : Text) → (s ≡ trim_slash s) ⊎ (s ≡ slash ∷ trim_slash s)
unfolding trim_slash
trim_parts [] = inl refl
trim_parts (c ∷ s) = elim (Bool-cases (c == slash)) [
  | inl here ↦ inr (ground (arith, here))
  | inr there ↦ inl (ground (arith, there))
]

-- What ParseObjectKey reads from a key is a reference that Validate accepts and whose key is that
-- key, or that key without the slash it starts with.
pub parse_object_key-validate :
    (key : Text) (r : Ref)
    → parse_object_key key ≡ done r
    → (validate r ≡ none) × ((key ≡ object_key r) ⊎ (key ≡ slash ∷ object_key r))
unfolding parse_object_key object_key address
parse_object_key-validate key r h = elim (Option-cases (cut (trim_slash key))) [
  | inl no_ ↦ absurd (ground (arith, h, no_))
  | inr ((d, rest), first) ↦ elim (Option-cases (cut rest)) [
    | inl no_ ↦ absurd (ground (arith, h, first, no_))
    | inr ((v, o), second) ↦
        let q : Ref = record { dataset = d; version = v; object = o } in
        elim (Option-cases (validate q)) [
          | inr (e, bad) ↦ absurd (ground (arith, h, first, second, bad))
          | inl fine ↦
              let same : q ≡ r = ground (arith, h, first, second, fine) in
              let whole : trim_slash key ≡ object_key q =
                (cut_parts (trim_slash key) d rest first).0
                ∙ ap (λ z. d ++ (slash ∷ z)) (cut_parts rest v o second).0 in
              rw (← same) (
                fine,
                elim (trim_parts key) [
                  | inl plain ↦ inl (plain ∙ whole)
                  | inr led ↦ inr (led ∙ ap (λ z. slash ∷ z) whole)
                ],
              )
        ]
  ]
]

-- Two addresses of names are one only where the names and the objects are.
address_parts :
    (d v o d' v' o' : Text)
    → has_slash d ≡ false
    → has_slash v ≡ false
    → has_slash d' ≡ false
    → has_slash v' ≡ false
    → address d v o ≡ address d' v' o'
    → (d ≡ d') × (v ≡ v') × (o ≡ o')
unfolding address
address_parts d v o d' v' o' hd hv hd' hv' e =
    let first =
      sym (cut-address d (v ++ (slash ∷ o)) hd)
      ∙ ap cut e
      ∙ cut-address d' (v' ++ (slash ∷ o')) hd' in
    let rest : v ++ (slash ∷ o) ≡ v' ++ (slash ∷ o') = ground (arith, first) in
    let second = sym (cut-address v o hv) ∙ ap cut rest ∙ cut-address v' o' hv' in
    (ground (arith, first), ground (arith, second), ground (arith, second))

backend_address_parts :
    (r : Ref) (f : Resolver) (a : Text)
    → backend_address r (some f) ≡ done a
    → (p : Placement) × (f r.dataset r.version ≡ some p)
      × (a ≡ address p.dataset p.version r.object)
unfolding backend_address
backend_address_parts r f a h = elim (Option-cases (validate r)) [
  | inr (e, bad) ↦ absurd (ground (arith, h, bad))
  | inl fine ↦ elim (Option-cases (f r.dataset r.version)) [
    | inl no_ ↦ absurd (ground (arith, h, fine, no_))
    | inr (p, yes_) ↦ (p, yes_, ground (arith, h, fine, yes_))
  ]
]

-- With a resolver that places bytes under names an address keeps apart, two references that have
-- addresses have the same one exactly when they are placed at the same version and name the same
-- object: a clone shares its parent's blocks, and no other two references share any.
pub backend_address-same_iff :
    (f : Resolver) (r r' : Ref) (a a' : Text)
    → ((d v : Text) (p : Placement) → f d v ≡ some p → IsName p.dataset × IsName p.version)
    → backend_address r (some f) ≡ done a
    → backend_address r' (some f) ≡ done a'
    → (a ≡ a') ↔ ((f r.dataset r.version ≡ f r'.dataset r'.version) × (r.object ≡ r'.object))
backend_address-same_iff f r r' a a' names h h' =
    let (p, at_, e) = backend_address_parts r f a h in
    let (p', at', e') = backend_address_parts r' f a' h' in
    let (d, v) = names r.dataset r.version p at_ in
    let (d', v') = names r'.dataset r'.version p' at' in
    (
      λ same.
          let (x, y, z) =
            address_parts p.dataset p.version r.object p'.dataset p'.version r'.object d.1 v.1 d'.1
              v'.1 (sym e ∙ same ∙ e') in
          (at_ ∙ ground (arith, x, y) ∙ sym at', z),
      λ (placed, object).
          let q : some p ≡ some p' = sym at_ ∙ placed ∙ at' in
          e ∙ ground (arith, q, object) ∙ sym e',
    )

-- ===== src/Gtpv2/Session/Laws.antt =====
-- The TEIDs and the bearers of a session and their lookups (gtpv2/session.go).
use go_gtp.Common.{
  ℕ, ◌≡◌, ◌≢◌, refl, sym, ap, false, Option, none, some, List, [], ◌∷◌, ◌==◌, ==_iff, if◌then◌else◌,
  All, Bool-cases, inl, inr,
}
use go_gtp.Common.Outcome.{Outcome, ok, err, panic, stuck, bearer_not_found}
use go_gtp.Common.Maps.{
  Str, str_eq, str_eq_self, str_eq_eq, load, number_key, str_key, load-store, load-delete, Distinct,
}
use go_gtp.Gtpv2.Session.{
  Session, Bearer, add_teid, get_teid, found, range_find, value_of, lookup_bearer_by_name,
  lookup_bearer_by_ebi, lookup_bearer_name_by_ebi, remove_bearer_by_ebi,
}

differ : (i j : ℕ) → (i == j) ≡ false → i ≢ j
differ i j e e' = let t = (==_iff i j).1 e' in cc

-- AddTEID sets the TEID of one interface type and keeps the others.
pub get_teid-add_teid :
    (s : Session) (i j t : ℕ)
    → get_teid (add_teid s i t) j ≡ (if i == j then ok t else get_teid s j)
unfolding get_teid add_teid
get_teid-add_teid s i j t =
    rw (load-store number_key s.teid_map i j t)
      (elim (Bool-cases (i == j)) [ inl e ↦ rw e refl | inr e ↦ rw e refl ])

-- What a lookup by EBI promises: a bearer with this EBI that some name leads to, or an error where
-- no bearer of the session has it.
abbrev pub FindsEbi : Session → ℕ → Outcome Bearer → Type 0
FindsEbi s e (ok b) = (b.ebi ≡ e) × ((name : Str) × (lookup_bearer_by_name s name ≡ ok b))
FindsEbi s e (err x) = (x ≡ bearer_not_found) × All (λ n. e ≢ (n.1).ebi) s.bearer_map
FindsEbi s e panic = ⊥
FindsEbi s e stuck = ⊥

-- What the Range of the code finds.
abbrev Found : List (Str × Bearer) → ℕ → Option (Str × Bearer) → Type 0
Found m e (some n) = ((n.1).ebi ≡ e) × (load str_key m n.0 ≡ some n.1)
Found m e none = All (λ n. e ≢ (n.1).ebi) m

load_behind :
    (m : List (Str × Bearer)) (k name : Str) (v b : Bearer)
    → load str_key m k ≡ none
    → load str_key m name ≡ some b
    → load str_key ((k, v) ∷ m) name ≡ some b
load_behind m k name v b fresh l = elim (Bool-cases (str_eq k name)) [
  | inl same ↦ let eq = ap (load str_key m) (str_eq_eq k name same) in cc
  | inr other ↦ rw other l
]

Found-behind :
    (m : List (Str × Bearer)) (k : Str) (v : Bearer) (e : ℕ)
    → load str_key m k ≡ none
    → (e == v.ebi) ≡ false
    → (o : Option (Str × Bearer)) → Found m e o
    → Found ((k, v) ∷ m) e o
Found-behind m k v e fresh other (some n) (same, l) = (same, load_behind m k n.0 v n.1 fresh l)
Found-behind m k v e fresh other none a = (differ e v.ebi other, a)

range_find-Found :
    (m : List (Str × Bearer)) (e : ℕ)
    → Distinct str_key m
    → Found m e (range_find (λ b. e == b.ebi) m)
range_find-Found [] e d = tt
range_find-Found ((k, v) ∷ m) e (fresh, d) = elim (Bool-cases (e == v.ebi)) [
  | inl same ↦ rw same (sym ((==_iff e v.ebi).0 same), rw (str_eq_self k) refl)
  | inr other ↦
      rw other
        (Found-behind m k v e fresh other (range_find (λ b. e == b.ebi) m) (range_find-Found m e d))
]

finds :
    (s : Session) (e : ℕ) (o : Option (Str × Bearer))
    → Found s.bearer_map e o
    → FindsEbi s e (found (value_of o))
unfolding lookup_bearer_by_name
finds s e (some n) (same, l) = (same, (n.0, ap found l))
finds s e none a = (refl, a)

-- In a session where no name has two bearers, LookupBearerByEBI returns a bearer with this EBI
-- that some name leads to, or an error where no bearer has it.
pub lookup_bearer_by_ebi_lem :
    (s : Session) (e : ℕ) → Distinct str_key s.bearer_map → FindsEbi s e (lookup_bearer_by_ebi s e)
unfolding lookup_bearer_by_ebi
lookup_bearer_by_ebi_lem s e d =
    finds s e (range_find (λ b. e == b.ebi) s.bearer_map) (range_find-Found s.bearer_map e d)

-- If the lookup of the name by EBI succeeds, removing by EBI removes the bearer of that name and
-- no other.
pub remove_bearer_by_ebi_lem :
    (s : Session) (e : ℕ) (name other : Str)
    → lookup_bearer_name_by_ebi s e ≡ ok name
    → lookup_bearer_by_name (remove_bearer_by_ebi s e) other
      ≡ (if str_eq name other then err bearer_not_found else lookup_bearer_by_name s other)
unfolding remove_bearer_by_ebi lookup_bearer_by_name
remove_bearer_by_ebi_lem s e name other h =
    rw (h, load-delete str_key s.bearer_map name other)
      (elim (Bool-cases (str_eq name other)) [ inl e ↦ rw e refl | inr e ↦ rw e refl ])

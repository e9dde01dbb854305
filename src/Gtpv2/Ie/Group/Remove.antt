-- ===== src/Gtpv2/Ie/Group/Remove.antt =====
-- Remove of gtpv2/ie/ie.go, and what FindByType finds after it.
use go_gtp.Common.{
  ℕ, suc, ◌+◌, ◌^◌, ◌≤◌, ◌<◌, ◌≡◌, ◌≢◌, ◌⊎◌, inl, inr, refl, sym, ap, ◌∙◌, true, false, ◌==◌,
  if◌then◌else◌, Option, none, some, List, [], ◌∷◌, ◌++◌, append_assoc, append-nil, arith, length,
  Bool-cases,
}
use go_gtp.Common.Outcome.{Outcome, ok, err, fmap, ie_not_found, ok-injective}
use go_gtp.Common.Bytes.{Bytes}
use go_gtp.Gtpv2.Ie.{
  Ie, ie, Ies, nil, cons, type_of, children, get_instance, is_grouped, marshal_len, marshal_lens,
}
use go_gtp.Gtpv2.Ie.Wire.{wire, wires, length-wires, IsWf, AllWf}
use go_gtp.Gtpv2.Ie.Encode.{marshal-wire}
use go_gtp.Gtpv2.Ie.RoundTrip.{body_grouped}
use go_gtp.Gtpv2.Ie.Group.{
  append_ies, nils, shrink, put_at, remove_loop, pointed, remove, matches, find, find_by_type,
}
use go_gtp.Gtpv2.Ie.Group.Laws.{rebuilt, rebuilt-IsWf}

-- The elements of another type or of another instance, in their order.
unfoldable pub others : ℕ → ℕ → Ies → Ies
unfolding get_instance
others typ ins nil = nil
others typ ins (cons c cs) =
    let rest = others typ ins cs in
    if type_of c == typ then if get_instance c == ins then rest else cons c rest else cons c rest

others-matches :
    (typ ins : ℕ) (c : Ie) (cs : Ies)
    → others typ ins (cons c cs)
      ≡ (if matches typ ins c then others typ ins cs else cons c (others typ ins cs))
unfolding others matches
others-matches typ ins c cs = elim (Bool-cases (type_of c == typ)) [
  | inl e ↦ rw e refl
  | inr e ↦ rw e refl
]

others_nil : (typ ins : ℕ) → others typ ins nil ≡ nil
unfolding others
others_nil typ ins = refl

-- The slice while the loop runs: the elements kept so far, and a nil for each that is left.
abbrev slots : Ies → List (Option Ie) → List (Option Ie)
slots nil left = left
slots (cons c cs) left = some c ∷ slots cs left

abbrev count : Ies → ℕ
count nil = 0
count (cons c cs) = suc (count cs)

shrink-nils : (c : Ie) (cs : Ies) → shrink (nils (cons c cs)) ≡ ok (nils cs)
shrink-nils c nil = refl
shrink-nils c (cons d ds) = ap (fmap (λ r. none ∷ r)) (shrink-nils d ds)

shrink_behind :
    (s : Option Ie) (done : Ies) (c : Ie) (cs : Ies)
    → shrink (s ∷ slots done (nils (cons c cs)))
      ≡ fmap (λ r. s ∷ r) (shrink (slots done (nils (cons c cs))))
shrink_behind s nil c cs = refl
shrink_behind s (cons d ds) c cs = refl

shrink-slots :
    (done : Ies) (c : Ie) (cs : Ies)
    → shrink (slots done (nils (cons c cs))) ≡ ok (slots done (nils cs))
shrink-slots nil c cs = shrink-nils c cs
shrink-slots (cons d ds) c cs =
    shrink_behind (some d) ds c cs ∙ ap (fmap (λ r. some d ∷ r)) (shrink-slots ds c cs)

put_at-slots :
    (done : Ies) (d c : Ie) (cs : Ies)
    → put_at (slots done (nils (cons d cs))) (count done) c
      ≡ ok (slots (append_ies done (cons c nil)) (nils cs))
unfolding append_ies
put_at-slots nil d c cs = refl
put_at-slots (cons x xs) d c cs = ap (fmap (λ r. some x ∷ r)) (put_at-slots xs d c cs)

count-append_ies : (done : Ies) (c : Ie) → count (append_ies done (cons c nil)) ≡ count done + 1
unfolding append_ies
count-append_ies nil c = refl
count-append_ies (cons x xs) c = omega (arith, count-append_ies xs c)

append_ies_assoc :
    (done : Ies) (c : Ie) (cs : Ies)
    → append_ies (append_ies done (cons c nil)) cs ≡ append_ies done (cons c cs)
unfolding append_ies
append_ies_assoc nil c cs = refl
append_ies_assoc (cons x xs) c cs = ap (cons x) (append_ies_assoc xs c cs)

slots-nil : (done : Ies) → slots (append_ies done nil) [] ≡ slots done []
unfolding append_ies
slots-nil nil = refl
slots-nil (cons x xs) = ap (λ (r : List (Option Ie)). some x ∷ r) (slots-nil xs)

-- The loop neither slices nor indexes past the end, and keeps the other elements.
remove_loop-others :
    (typ ins : ℕ) (cs done : Ies) (p : Bytes)
    → remove_loop typ ins cs (slots done (nils cs)) (count done) p
      ≡ ok (slots (append_ies done (others typ ins cs)) [], p ++ wires (others typ ins cs))
unfolding remove_loop wire
remove_loop-others typ ins nil done p = rw (others_nil typ ins, append-nil p, slots-nil done) refl
remove_loop-others typ ins (cons c cs) done p = elim (Bool-cases (matches typ ins c)) [
  | inl m ↦
      rw (others-matches typ ins c cs, m, shrink-slots done c cs)
        (remove_loop-others typ ins cs done p)
  | inr m ↦
      let more = append_ies done (cons c nil) in
      rw
        (
          others-matches typ ins c cs,
          m,
          put_at-slots done c c cs,
          marshal-wire c,
          sym (count-append_ies done c),
        )
        (remove_loop-others typ ins cs more (p ++ wire c)
          ∙ rw (append_ies_assoc done c, append_assoc p (wire c)) refl)
]

pointed-slots : (cs : Ies) → pointed (slots cs []) ≡ ok cs
pointed-slots nil = refl
pointed-slots (cons c cs) = ap (fmap (cons c)) (pointed-slots cs)

remove-rebuilt :
    (typ ins t l n : ℕ) (p : Bytes) (cs : Ies)
    → is_grouped t ≡ true
    → remove typ ins (ie t l n p cs) ≡ ok (rebuilt t n (others typ ins cs))
unfolding remove append_ies
remove-rebuilt typ ins t l n p cs g =
    rw (g, remove_loop-others typ ins cs nil [], pointed-slots (others typ ins cs)) refl

AllWf-others : (typ ins : ℕ) (cs : Ies) → AllWf cs → AllWf (others typ ins cs)
AllWf-others typ ins nil w = rw (others_nil typ ins) tt
AllWf-others typ ins (cons c cs) (w, ws) = elim (Bool-cases (matches typ ins c)) [
  | inl m ↦ rw (others-matches typ ins c cs, m) (AllWf-others typ ins cs ws)
  | inr m ↦ rw (others-matches typ ins c cs, m) (w, AllWf-others typ ins cs ws)
]

others_shorter : (typ ins : ℕ) (cs : Ies) → marshal_lens (others typ ins cs) ≤ marshal_lens cs
unfolding others marshal_len
others_shorter typ ins nil = omega arith
others_shorter typ ins (cons c cs) = ground (arith, others_shorter typ ins cs)

children_fit :
    (t l n : ℕ) (p : Bytes) (cs : Ies)
    → is_grouped t ≡ true
    → IsWf (ie t l n p cs)
    → marshal_lens cs < 2 ^ 16
children_fit t l n p cs g (wt, wl, wr, wn, wp, wb) =
    omega (arith, length-wires cs, ap length (body_grouped t p cs g wb).0)

find-others_self : (typ ins : ℕ) (cs : Ies) → find typ ins (others typ ins cs) ≡ err ie_not_found
unfolding find
find-others_self typ ins nil = rw (others_nil typ ins) refl
find-others_self typ ins (cons c cs) = elim (Bool-cases (matches typ ins c)) [
  | inl m ↦ rw (others-matches typ ins c cs, m) (find-others_self typ ins cs)
  | inr m ↦ rw (others-matches typ ins c cs, m, m) (find-others_self typ ins cs)
]

matches_other :
    (typ ins typ' ins' : ℕ) (c : Ie)
    → matches typ ins c ≡ true
    → (typ ≢ typ') ⊎ (ins ≢ ins')
    → matches typ' ins' c ≡ false
unfolding matches
matches_other typ ins typ' ins' c m d = ground arith

find-others_ne :
    (typ ins typ' ins' : ℕ) (cs : Ies)
    → (typ ≢ typ') ⊎ (ins ≢ ins')
    → find typ' ins' (others typ ins cs) ≡ find typ' ins' cs
unfolding find
find-others_ne typ ins typ' ins' nil d = rw (others_nil typ ins) refl
find-others_ne typ ins typ' ins' (cons c cs) d = elim (Bool-cases (matches typ ins c)) [
  | inl m ↦
      rw (others-matches typ ins c cs, m, matches_other typ ins typ' ins' c m d)
        (find-others_ne typ ins typ' ins' cs d)
  | inr m ↦
      rw (others-matches typ ins c cs, m)
        (ap (λ (r : Outcome Ie). if matches typ' ins' c then ok c else r)
          (find-others_ne typ ins typ' ins' cs d))
]

find_by_type-grouped :
    (typ ins : ℕ) (i : Ie)
    → is_grouped (type_of i) ≡ true
    → find_by_type typ ins i ≡ find typ ins (children i)
unfolding find_by_type
find_by_type-grouped typ ins i g = rw g refl

-- After Remove of a type and instance FindByType reports that the element has none.
find_by_type-remove_self :
    (typ ins : ℕ) (i j : Ie)
    → is_grouped (type_of i) ≡ true
    → remove typ ins i ≡ ok j
    → find_by_type typ ins j ≡ err ie_not_found
find_by_type-remove_self typ ins (ie t l n p cs) j g e =
    let made = ok-injective (sym e ∙ remove-rebuilt typ ins t l n p cs g) in
    rw made (
      find_by_type-grouped typ ins (rebuilt t n (others typ ins cs)) g
      ∙ find-others_self typ ins cs)

-- Remove leaves every lookup of another type or instance as it was.
find_by_type-remove_ne :
    (typ ins typ' ins' : ℕ) (i j : Ie)
    → is_grouped (type_of i) ≡ true
    → remove typ ins i ≡ ok j
    → (typ ≢ typ') ⊎ (ins ≢ ins')
    → find_by_type typ' ins' j ≡ find_by_type typ' ins' i
find_by_type-remove_ne typ ins typ' ins' (ie t l n p cs) j g e d =
    let made = ok-injective (sym e ∙ remove-rebuilt typ ins t l n p cs g) in
    rw made (
      find_by_type-grouped typ' ins' (rebuilt t n (others typ ins cs)) g
      ∙ find-others_ne typ ins typ' ins' cs d
      ∙ sym (find_by_type-grouped typ' ins' (ie t l n p cs) g))

-- On a well-formed grouped element Remove does not panic and returns a well-formed element, whose
-- children are those of another type or of another instance, in their order; FindByType does not
-- find the removed ones, and finds what it found before for every other type or instance.
pub remove-IsWf :
    (typ ins : ℕ) (i : Ie)
    → is_grouped (type_of i) ≡ true
    → IsWf i
    → (j : Ie) × (remove typ ins i ≡ ok j)
      × IsWf j
      × (children j ≡ others typ ins (children i))
      × (find_by_type typ ins j ≡ err ie_not_found)
      × ((typ' ins' : ℕ)
          → (typ ≢ typ') ⊎ (ins ≢ ins')
          → find_by_type typ' ins' j ≡ find_by_type typ' ins' i)
remove-IsWf typ ins (ie t l n p cs) g (wt, wl, wr, wn, wp, wb) =
    let j = rebuilt t n (others typ ins cs) in
    let e = remove-rebuilt typ ins t l n p cs g in
    (
      j,
      e,
      rebuilt-IsWf t n (others typ ins cs) g wt wn
          (AllWf-others typ ins cs (body_grouped t p cs g wb).1)
          (omega
            (arith, others_shorter typ ins cs, children_fit t l n p cs g (wt, wl, wr, wn, wp, wb))),
      refl,
      find_by_type-remove_self typ ins (ie t l n p cs) j g e,
      λ typ' ins' d. find_by_type-remove_ne typ ins typ' ins' (ie t l n p cs) j g e d,
    )

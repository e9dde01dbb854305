-- ===== src/Gtpv2/Ie/Group.antt =====
-- gtpv2/ie/ie.go: newGroupedIE, Add, Remove and FindByType, which keep the payload of a grouped
-- element in step with its children.
pub mod Laws
pub mod Remove
use go_gtp.Common.{
  ℕ, zero, suc, ◌+◌, ◌%◌, ◌^◌, ◌≤◌, ◌<◌, Bool, true, false, List, [], ◌∷◌, ◌++◌, Option, none, some,
  not, ◌&&◌, ◌==◌, if◌then◌else◌, ◌≡◌,
}
use go_gtp.Common.Outcome.{Outcome, ok, err, panic, stuck, ◌>>=◌, fmap, invalid_type, ie_not_found}
use go_gtp.Common.Bytes.{Bytes}
use go_gtp.Gtpv2.Ie.{
  Ie, ie, Ies, nil, cons, type_of, children, is_grouped, set_length, new, get_instance, marshal,
}

-- `append(i.ChildIEs, ies...)`
unfoldable pub append_ies : Ies → Ies → Ies
append_ies nil js = js
append_ies (cons c cs) js = cons c (append_ies cs js)

-- An error of a child's Marshal skips the child (`continue`).
abbrev pub appended : Outcome Bytes → Bytes → Outcome Bytes
appended (ok s) p = ok (p ++ s)
appended (err e) p = ok p
appended panic p = panic
appended stuck p = stuck

-- The loop of Add and Remove that rebuilds the payload.
unfoldable pub serialize : Ies → Bytes → Outcome Bytes
serialize nil p = ok p
serialize (cons c cs) p = do q ← appended (marshal c) p; serialize cs q

abbrev pub with_group : Ies → Bytes → Ie → Ie
with_group cs' p' (ie t l n p cs) = ie t l n p' cs'

unfoldable pub add : Ies → Ie → Outcome Ie
unfolding append_ies serialize set_length
add ies i =
    if is_grouped (type_of i)
    then (do
      p ← serialize (append_ies (children i) ies) []
      ok (set_length (with_group (append_ies (children i) ies) p i)))
    else ok i

-- `ie.Type == typ && ie.Instance() == instance`
unfoldable pub matches : ℕ → ℕ → Ie → Bool
unfolding get_instance
matches typ ins c = type_of c == typ && get_instance c == ins

-- `make([]*IE, n)`: a slice of nil pointers.
abbrev pub nils : Ies → List (Option Ie)
nils nil = []
nils (cons c cs) = none ∷ nils cs

-- `s[:len(s)-1]`, which panics where `s` is empty.
abbrev pub shrink : List (Option Ie) → Outcome (List (Option Ie))
shrink [] = panic
shrink (s ∷ []) = ok []
shrink (s ∷ t ∷ ss) = fmap (λ r. s ∷ r) (shrink (t ∷ ss))

-- `s[idx] = c`, which panics past the end.
abbrev pub put_at : List (Option Ie) → ℕ → Ie → Outcome (List (Option Ie))
put_at [] n c = panic
put_at (s ∷ ss) zero c = ok (some c ∷ ss)
put_at (s ∷ ss) (suc n) c = fmap (λ r. s ∷ r) (put_at ss n c)

-- The loop of Remove over the children, with newChildren, idx and the payload.
unfoldable pub remove_loop :
    ℕ → ℕ → Ies → List (Option Ie) → ℕ → Bytes → Outcome (List (Option Ie) × Bytes)
unfolding matches
remove_loop typ ins nil slots idx p = ok (slots, p)
remove_loop typ ins (cons c cs) slots idx p =
    let dropped = (do shorter ← shrink slots; remove_loop typ ins cs shorter idx p) in
    let kept = (do
      filled ← put_at slots idx c
      q ← appended (marshal c) p
      remove_loop typ ins cs filled (idx + 1) q) in
    if matches typ ins c then dropped else kept

-- The children that the slice holds. SetLength, which comes next, dereferences a nil among them.
abbrev pub pointed : List (Option Ie) → Outcome Ies
pointed [] = ok nil
pointed (none ∷ ss) = panic
pointed (some c ∷ ss) = fmap (cons c) (pointed ss)

unfoldable pub remove : ℕ → ℕ → Ie → Outcome Ie
unfolding remove_loop set_length
remove typ ins i =
    if is_grouped (type_of i)
    then (do
      r ← remove_loop typ ins (children i) (nils (children i)) 0 []
      cs ← pointed r.0
      ok (set_length (with_group cs r.1 i)))
    else ok i

unfoldable pub find : ℕ → ℕ → Ies → Outcome Ie
unfolding matches
find typ ins nil = err ie_not_found
find typ ins (cons c cs) = let rest = find typ ins cs in if matches typ ins c then ok c else rest

unfoldable pub find_by_type : ℕ → ℕ → Ie → Outcome Ie
unfolding find
find_by_type typ ins i =
    if is_grouped (type_of i) then find typ ins (children i) else err invalid_type

-- The loop of newGroupedIE, which gives up at the first error. The nil result of the code is that
-- error here.
unfoldable pub serialize_all : Ies → Bytes → Outcome Bytes
serialize_all nil p = ok p
serialize_all (cons c cs) p = do s ← marshal c; serialize_all cs (p ++ s)

unfoldable pub new_grouped : ℕ → Ies → Outcome Ie
unfolding serialize_all new set_length
new_grouped itype ies = do
  p ← serialize_all ies []
  ok (set_length (with_group ies p (new itype 0 [])))

-- ===== src/Common/Maps.antt =====
-- sync.Map as an association list: the latest entry of a key is its value, and Range goes through
-- the entries from the front. Go leaves the order of Range open.
use Prim.Native.Nat.{ℕ}
use mathlib.Core.Path.{◌≡◌, refl, sym, ap, subst}
use mathlib.Core.Logic.{inl, inr}
use mathlib.Core.Bool.{Bool, true, false}
use mathlib.Core.Option.{Option, none, some}
use mathlib.Core.List.{List, [], ◌∷◌}
use go_gtp.Common.Tests.{if◌then◌else◌, ◌==◌, ==_iff, Bool-cases}

-- A test on keys that decides their equality.
pub record KeyTest {ℓ} (K : Type ℓ) : Type ℓ where
  pub same : K → K → Bool
  pub same_self : (a : K) → same a a ≡ true
  pub same_eq : (a b : K) → same a b ≡ true → a ≡ b

abbrev pub number_key : KeyTest ℕ
number_key = record {
  same = λ a b. a == b;
  same_self = λ a. (==_iff a a).1 refl;
  same_eq = λ a b h. (==_iff a b).0 h;
}

-- A Go string, as its octets.
abbrev pub Str : Type 0
Str = List ℕ

abbrev pub str_eq : Str → Str → Bool
str_eq [] [] = true
str_eq [] (y ∷ ys) = false
str_eq (x ∷ xs) [] = false
str_eq (x ∷ xs) (y ∷ ys) = if x == y then str_eq xs ys else false

pub str_eq_self : (s : Str) → str_eq s s ≡ true
str_eq_self [] = refl
str_eq_self (x ∷ xs) = rw ((==_iff x x).1 refl) (str_eq_self xs)

pub str_eq_eq : (s t : Str) → str_eq s t ≡ true → s ≡ t
str_eq_eq [] [] h = refl
str_eq_eq [] (y ∷ ys) h = cc
str_eq_eq (x ∷ xs) [] h = cc
str_eq_eq (x ∷ xs) (y ∷ ys) h = elim (Bool-cases (x == y)) [
  | inl e ↦ let ex = (==_iff x y).0 e in let es = str_eq_eq xs ys (rw e at h) in λ i. ex i ∷ es i
  | inr e ↦ let h' = rw e at h in cc
]

abbrev pub str_key : KeyTest Str
str_key = record { same = str_eq; same_self = str_eq_self; same_eq = str_eq_eq }

module _ {ℓ κ} {K : Type ℓ} {V : Type κ} (k : KeyTest K) where
  -- `Load`
  abbrev pub load : List (K × V) → K → Option V
  load [] a = none
  load ((b, v) ∷ m) a = if k.same b a then some v else load m a

  -- `Delete`
  abbrev pub delete : List (K × V) → K → List (K × V)
  delete [] a = []
  delete ((b, v) ∷ m) a = if k.same b a then delete m a else ((b, v) ∷ delete m a)

  -- `Store`
  abbrev pub store : List (K × V) → K → V → List (K × V)
  store m a v = (a, v) ∷ delete m a

  pub load-delete_self : (m : List (K × V)) (a : K) → load (delete m a) a ≡ none
  load-delete_self [] a = refl
  load-delete_self ((b, v) ∷ m) a = elim (Bool-cases (k.same b a)) [
    | inl e ↦ rw e (load-delete_self m a)
    | inr e ↦ rw (e, e) (load-delete_self m a)
  ]

  load-delete_other :
      (m : List (K × V)) (a b : K) → k.same a b ≡ false → load (delete m a) b ≡ load m b
  load-delete_other [] a b ne = refl
  load-delete_other ((c, v) ∷ m) a b ne = elim (Bool-cases (k.same c a)) [
    | inl e ↦
        let other : k.same c b ≡ false =
          subst (λ x. k.same x b ≡ false) (sym (k.same_eq c a e)) ne in
        rw (e, other) (load-delete_other m a b ne)
    | inr e ↦ rw e (ap (λ o. if k.same c b then some v else o) (load-delete_other m a b ne))
  ]

  pub load-store_self : (m : List (K × V)) (a : K) (v : V) → load (store m a v) a ≡ some v
  load-store_self m a v = rw (k.same_self a) refl

  -- No key has two entries.
  abbrev pub Distinct : List (K × V) → Type κ
  Distinct [] = Unit {κ}
  Distinct ((a, v) ∷ m) = (load m a ≡ none) × Distinct m

  delete-absent : (m : List (K × V)) (a b : K) → load m a ≡ none → load (delete m b) a ≡ none
  delete-absent [] a b h = refl
  delete-absent ((c, v) ∷ m) a b h = elim (Bool-cases (k.same c a)) [
    | inl e ↦ let h' = rw e at h in cc
    | inr e ↦ elim (Bool-cases (k.same c b)) [
      | inl e' ↦ rw e' (delete-absent m a b (rw e at h))
      | inr e' ↦ rw (e', e) (delete-absent m a b (rw e at h))
    ]
  ]

  pub delete-Distinct : (m : List (K × V)) (b : K) → Distinct m → Distinct (delete m b)
  delete-Distinct [] b h = tt
  delete-Distinct ((a, v) ∷ m) b (h, hs) = elim (Bool-cases (k.same a b)) [
    | inl e ↦ rw e (delete-Distinct m b hs)
    | inr e ↦ rw e (delete-absent m a b h, delete-Distinct m b hs)
  ]

  pub store-Distinct : (m : List (K × V)) (a : K) (v : V) → Distinct m → Distinct (store m a v)
  store-Distinct m a v h = (load-delete_self m a, delete-Distinct m a h)

  pub load-delete :
      (m : List (K × V)) (a b : K) → load (delete m a) b ≡ (if k.same a b then none else load m b)
  load-delete m a b = elim (Bool-cases (k.same a b)) [
    | inl e ↦
        let gone : load (delete m a) b ≡ none =
          subst (λ c. load (delete m a) c ≡ none) (k.same_eq a b e) (load-delete_self m a) in
        rw e gone
    | inr e ↦ rw e (load-delete_other m a b e)
  ]

  pub load-store :
      (m : List (K × V)) (a b : K) (v : V)
      → load (store m a v) b ≡ (if k.same a b then some v else load m b)
  load-store m a b v = elim (Bool-cases (k.same a b)) [
    | inl e ↦ rw e refl
    | inr e ↦ rw e (load-delete_other m a b e)
  ]

-- ===== src/Common/Bytes.antt =====
-- Go byte slices as lists of numbers. A slice is its visible elements, so an index or a bound past
-- its length panics.
use go_gtp.Common.Outcome.{Outcome, ok, panic, fmap, ◌>>=◌}
use Prim.Native.Nat.{ℕ, zero, suc, ◌+◌, ◌-◌, ◌≤◌, ◌<◌}
use mathlib.Core.Path.{◌≡◌, refl, ap, sym, ◌∙◌}
use mathlib.Core.List.{List, [], ◌∷◌, ◌++◌, append-nil}
use native.Mathlib.Omega.{arith}
use go_gtp.Common.Tests.{ltb, if◌then◌else◌, le→ltb}
use go_gtp.Common.Lists.{length, drop, replicate, length-replicate, drop_exact}

abbrev pub Bytes : Type 0
Bytes = List ℕ

abbrev pub IsByte : ℕ → Type 0
IsByte x = x < 256

-- `make([]byte, n)`
abbrev pub make : ℕ → Bytes
make n = replicate n 0

-- `b[i]`
unfoldable pub index : Bytes → ℕ → Outcome ℕ
index [] i = panic
index (x ∷ b) zero = ok x
index (x ∷ b) (suc i) = index b i

-- `b[k:]`
unfoldable pub from : Bytes → ℕ → Outcome Bytes
from b zero = ok b
from [] (suc k) = panic
from (x ∷ b) (suc k) = from b k

-- `b[:n]`
unfoldable pub first : Bytes → ℕ → Outcome Bytes
first b zero = ok []
first [] (suc n) = panic
first (x ∷ b) (suc n) = fmap (λ r. x ∷ r) (first b n)

-- `b[lo:hi]`
unfoldable pub slice : Bytes → ℕ → ℕ → Outcome Bytes
slice b lo hi = if ltb hi lo then panic else (from b lo >>= λ r. first r (hi - lo))

-- Writes all of the second list over the front of the first.
unfoldable pub overlay : Bytes → Bytes → Outcome Bytes
overlay b [] = ok b
overlay [] (s ∷ ss) = panic
overlay (x ∷ b) (s ∷ ss) = fmap (λ r. s ∷ r) (overlay b ss)

-- A store at an offset: `b[k] = v`, `binary.BigEndian.PutUint16(b[k:k+2], v)` and the like.
unfoldable pub put : Bytes → ℕ → Bytes → Outcome Bytes
unfolding overlay
put b zero src = overlay b src
put [] (suc k) src = panic
put (x ∷ b) (suc k) src = fmap (λ r. x ∷ r) (put b k src)

-- What fits of `src` over the front of `b`: Go's `copy(b, src)`.
unfoldable pub copy : Bytes → Bytes → Bytes
copy b [] = b
copy [] (s ∷ ss) = []
copy (x ∷ b) (s ∷ ss) = s ∷ copy b ss

-- `copy(b[lo:hi], src)`
unfoldable pub copy_at : Bytes → ℕ → ℕ → Bytes → Outcome Bytes
unfolding slice from first put copy
copy_at b lo hi src = do dst ← slice b lo hi; put b lo (copy dst src)

pub from-append : (xs ys : Bytes) → from (xs ++ ys) (length xs) ≡ ok ys
unfolding from
from-append [] ys = refl
from-append (x ∷ xs) ys = from-append xs ys

pub first-append : (xs ys : Bytes) → first (xs ++ ys) (length xs) ≡ ok xs
unfolding first
first-append [] ys = refl
first-append (x ∷ xs) ys = ap (fmap (λ r. x ∷ r)) (first-append xs ys)

-- A cut within bounds succeeds and splits the slice.
pub from_split :
    (b : Bytes) (k : ℕ) → k ≤ length b → (r : Bytes) × (from b k ≡ ok r) × (length r + k ≡ length b)
unfolding from
from_split b zero h = (b, refl, omega arith)
from_split [] (suc k) h = absurd (omega arith)
from_split (x ∷ b) (suc k) h = let (r, e, l) = from_split b k (omega arith) in (r, e, omega arith)

pub first_split :
    (b : Bytes) (n : ℕ) → n ≤ length b → (r : Bytes) × (first b n ≡ ok r) × (length r ≡ n)
unfolding first
first_split b zero h = ([], refl, refl)
first_split [] (suc n) h = absurd (omega arith)
first_split (x ∷ b) (suc n) h =
    let (r, e, l) = first_split b n (omega arith) in (x ∷ r, ap (fmap (λ r. x ∷ r)) e, ap suc l)

pub overlay_all :
    (b src : Bytes) → length src ≤ length b → overlay b src ≡ ok (src ++ drop (length src) b)
unfolding overlay
overlay_all b [] h = refl
overlay_all [] (s ∷ ss) h = absurd (omega arith)
overlay_all (x ∷ b) (s ∷ ss) h = ap (fmap (λ r. s ∷ r)) (overlay_all b ss (omega arith))

-- A store behind a prefix keeps the prefix and what lies behind the store.
pub put-append :
    (pre rest src : Bytes)
    → length src ≤ length rest
    → put (pre ++ rest) (length pre) src ≡ ok (pre ++ (src ++ drop (length src) rest))
unfolding put
put-append [] rest src h = overlay_all rest src h
put-append (x ∷ pre) rest src h = ap (fmap (λ r. x ∷ r)) (put-append pre rest src h)

pub copy_all : (b src : Bytes) → length src ≡ length b → copy b src ≡ src
unfolding copy
copy_all [] [] h = refl
copy_all (x ∷ b) [] h = absurd (omega arith)
copy_all [] (s ∷ ss) h = absurd (omega arith)
copy_all (x ∷ b) (s ∷ ss) h = ap (λ r. s ∷ r) (copy_all b ss (omega arith))

-- The slice behind a prefix.
pub slice_behind :
    (pre rest : Bytes) (lo hi n : ℕ)
    → lo ≡ length pre
    → hi ≡ lo + n
    → n ≤ length rest
    → (sub : Bytes) × (slice (pre ++ rest) lo hi ≡ ok sub) × (length sub ≡ n)
unfolding slice
slice_behind pre rest lo hi n elo ehi h =
    let (sub, e, l) = first_split rest n h in
    let e' : hi - lo ≡ n = omega arith in
    (sub, rw (le→ltb hi lo (omega arith), elo, from-append pre rest, ← elo, e') e, l)

-- A copy that fills its window exactly.
pub copy_at_fit :
    (pre rest src : Bytes) (lo hi : ℕ)
    → lo ≡ length pre
    → hi ≡ lo + length src
    → length src ≤ length rest
    → copy_at (pre ++ rest) lo hi src ≡ ok (pre ++ (src ++ drop (length src) rest))
unfolding copy_at
copy_at_fit pre rest src lo hi elo ehi h =
    let (sub, e, l) = slice_behind pre rest lo hi (length src) elo ehi h in
    rw (e, copy_all sub src (sym l), elo) (put-append pre rest src h)

-- Every slice splits at a length that it has.
pub split_at :
    (b : Bytes) (n : ℕ)
    → n ≤ length b
    → (p : Bytes) × (rest : Bytes) × (b ≡ p ++ rest) × (length p ≡ n)
split_at b zero h = ([], b, refl, refl)
split_at [] (suc n) h = absurd (omega arith)
split_at (x ∷ b) (suc n) h =
    let (p, rest, e, l) = split_at b n (omega arith) in (x ∷ p, rest, ap (λ r. x ∷ r) e, ap suc l)

-- `b[lo:hi]` over a known prefix and a known content.
pub slice_mid :
    (pre p rest : Bytes) (lo hi : ℕ)
    → lo ≡ length pre
    → hi ≡ lo + length p
    → slice (pre ++ (p ++ rest)) lo hi ≡ ok p
unfolding slice
slice_mid pre p rest lo hi elo ehi =
    let e' : hi - lo ≡ length p = omega arith in
    rw (le→ltb hi lo (omega arith), elo, from-append pre (p ++ rest), ← elo, e')
      (first-append p rest)

-- `b[0:n]` of a slice that begins with `n` known octets.
pub slice_front : (s rest : Bytes) → slice (s ++ rest) 0 (length s) ≡ ok s
slice_front s rest = slice_mid [] s rest 0 (length s) refl (omega arith)

-- A fresh buffer, cut at its length, copied over and filled.
pub first_zeros : (n : ℕ) → first (make n) n ≡ ok (make n)
unfolding first
first_zeros zero = refl
first_zeros (suc n) = ap (fmap (λ r. 0 ∷ r)) (first_zeros n)

pub copy_zeros : (src : Bytes) → copy (make (length src)) src ≡ src
copy_zeros src = copy_all (make (length src)) src (sym (length-replicate (length src) 0))

pub overlay_zeros : (src : Bytes) → overlay (make (length src)) src ≡ ok src
overlay_zeros src =
    let l : length (make (length src)) ≡ length src = length-replicate (length src) 0 in
    overlay_all (make (length src)) src (omega arith)
    ∙ rw (drop_exact (make (length src)) (length src) l, append-nil src)

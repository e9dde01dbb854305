-- ===== src/Gtpv2/Ie/Values.antt =====
-- The elements of one number in gtpv2/ie/ie.go: newUint8ValIE and the like.
use go_gtp.Common.{ℕ, ◌<◌, ◌^◌, ◌≡◌, refl, sym, ap, false, ◌∙◌, All, arith, length}
use go_gtp.Common.Outcome.{Outcome, ok, ◌>>=◌, bind_assoc}
use go_gtp.Common.Bytes.{Bytes, IsByte}
use go_gtp.Common.Endian.{
  be16, be32, be16-IsByte, be32-IsByte, be16_value, be32_value, uint16_at, uint32_at,
}
use go_gtp.Gtpv2.Ie.{
  Ie, ie, nil, is_grouped, marshal, parse, payload, new_uint16_val, new_uint32_val,
}
use go_gtp.Gtpv2.Ie.Wire.{IsWf}
use go_gtp.Gtpv2.Ie.RoundTrip.{parse-marshal}

-- A flat element of octets that fit its length.
flat-IsWf :
    (t : ℕ) (p : Bytes)
    → t < 256
    → is_grouped t ≡ false
    → length p < 2 ^ 16
    → All IsByte p
    → IsWf (ie t (length p) 0 p nil)
flat-IsWf t p ht g hl hp = rw g (ht, refl, hl, omega arith, hp, refl)

read_back :
    (t : ℕ) (p : Bytes)
    → t < 256
    → is_grouped t ≡ false
    → length p < 2 ^ 16
    → All IsByte p
    → (marshal (ie t (length p) 0 p nil) >>= λ b. parse b) ≡ ok (ie t (length p) 0 p nil)
read_back t p ht g hl hp = parse-marshal (ie t (length p) 0 p nil) (flat-IsWf t p ht g hl hp)

-- What Marshal and Parse make of an element, read further.
then_read :
    (i : Ie) (f : Ie → Outcome ℕ)
    → (marshal i >>= λ b. parse b) ≡ ok i
    → (marshal i >>= λ b. parse b >>= f) ≡ f i
then_read i f e = sym (bind_assoc (marshal i) (λ b. parse b) f) ∙ ap (λ m. m >>= f) e

new_uint16_val-ie :
    (t v : ℕ) → is_grouped t ≡ false → new_uint16_val t v ≡ ok (ie t 2 0 (be16 v) nil)
unfolding new_uint16_val
new_uint16_val-ie t v g = rw g refl

new_uint32_val-ie :
    (t v : ℕ) → is_grouped t ≡ false → new_uint32_val t v ≡ ok (ie t 4 0 (be32 v) nil)
unfolding new_uint32_val
new_uint32_val-ie t v g = rw g refl

value16 : (t v : ℕ) → v < 2 ^ 16 → uint16_at (payload (ie t 2 0 (be16 v) nil)) 0 ≡ ok v
unfolding uint16_at
value16 t v h = ap ok (be16_value v h)

value32 : (t v : ℕ) → v < 2 ^ 32 → uint32_at (payload (ie t 4 0 (be32 v) nil)) 0 ≡ ok v
unfolding uint32_at
value32 t v h = ap ok (be32_value v h)

-- An element made of a 16-bit number, of a type that is not grouped, is encoded and decoded with that
-- number in its payload.
pub uint16_at-parse :
    (t v : ℕ)
    → t < 256
    → is_grouped t ≡ false
    → v < 2 ^ 16
    → (new_uint16_val t v >>= λ i. marshal i >>= λ b. parse b >>= λ j. uint16_at (payload j) 0)
      ≡ ok v
uint16_at-parse t v ht g hv = rw (new_uint16_val-ie t v g) (
    then_read (ie t 2 0 (be16 v) nil) (λ j. uint16_at (payload j) 0)
      (read_back t (be16 v) ht g (omega arith) (be16-IsByte v))
    ∙ value16 t v hv)

-- An element made of a 32-bit number, of a type that is not grouped, is encoded and decoded with that
-- number in its payload.
pub uint32_at-parse :
    (t v : ℕ)
    → t < 256
    → is_grouped t ≡ false
    → v < 2 ^ 32
    → (new_uint32_val t v >>= λ i. marshal i >>= λ b. parse b >>= λ j. uint32_at (payload j) 0)
      ≡ ok v
uint32_at-parse t v ht g hv = rw (new_uint32_val-ie t v g) (
    then_read (ie t 4 0 (be32 v) nil) (λ j. uint32_at (payload j) 0)
      (read_back t (be32 v) ht g (omega arith) (be32-IsByte v))
    ∙ value32 t v hv)

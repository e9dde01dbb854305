-- ===== src/Utils/Hex.antt =====
-- encoding/hex of the Go library, on the bytes of a string: lower-case output, either case accepted.
use go_gtp.Common.{
  ℕ, ◌+◌, ◌-◌, ◌*◌, ◌/◌, ◌%◌, ◌<◌, ◌≡◌, refl, ◌&&◌, List, [], ◌∷◌, map, length, ltb, leb,
  if◌then◌else◌, arith, All,
}
use go_gtp.Common.Outcome.{Outcome, ok, err, bad_hex, ◌>>=◌}
use go_gtp.Common.Bytes.{Bytes, IsByte}

unfoldable pub hex_digit : ℕ → ℕ
hex_digit d = if ltb d 10 then 48 + d else 87 + d

unfoldable pub hex_value : ℕ → Outcome ℕ
hex_value c =
    if leb 48 c && leb c 57
    then ok (c - 48)
    else if leb 97 c && leb c 102
    then ok (c - 87)
    else if leb 65 c && leb c 70
    then ok (c - 55)
    else err bad_hex

-- A byte is two digits, the high one first. An odd length is an error.
unfoldable pub decode_string : Bytes → Outcome Bytes
unfolding hex_value
decode_string [] = ok []
decode_string (c ∷ []) = err bad_hex
decode_string (c ∷ d ∷ s) = do
  hi ← hex_value c
  lo ← hex_value d
  rest ← decode_string s
  ok ((hi * 16 + lo) ∷ rest)

unfoldable pub encode_to_string : Bytes → Bytes
unfolding hex_digit
encode_to_string [] = []
encode_to_string (x ∷ b) = hex_digit (x / 16) ∷ hex_digit (x % 16) ∷ encode_to_string b

pub hex_value-digit : (d : ℕ) → d < 10 → hex_value (48 + d) ≡ ok d
unfolding hex_value
hex_value-digit d h = ground arith

pub hex_digit-lt : (d : ℕ) → d < 10 → hex_digit d ≡ 48 + d
unfolding hex_digit
hex_digit-lt d h = ground arith

-- Reading back the digits of any number below sixteen.
pub hex_value-hex_digit : (d : ℕ) → d < 16 → hex_value (hex_digit d) ≡ ok d
unfolding hex_value hex_digit
hex_value-hex_digit d h = ground arith

-- An even number of lower-case digits is decoded to octets that encode to the same digits.
pub decode_digits :
    (ds : List ℕ)
    → All (λ d. d < 16) ds
    → length ds % 2 ≡ 0
    → (raw : Bytes) × (decode_string (map hex_digit ds) ≡ ok raw)
      × (encode_to_string raw ≡ map hex_digit ds)
      × All IsByte raw
unfolding decode_string encode_to_string
decode_digits [] h e = ([], refl, refl, tt)
decode_digits (c ∷ []) h e = absurd (omega arith)
decode_digits (c ∷ d ∷ ds) (hc, (hd, hs)) e =
    let (raw, e1, e2, hb) = decode_digits ds hs (omega arith) in
    let high : (c * 16 + d) / 16 ≡ c = omega arith in
    let low : (c * 16 + d) % 16 ≡ d = omega arith in
    (
      (c * 16 + d) ∷ raw,
      rw (hex_value-hex_digit c hc, hex_value-hex_digit d hd, e1) refl,
      rw (high, low, e2) refl,
      (omega arith, hb),
    )

-- ===== src/Utils/Plmn.antt =====
-- EncodePLMN and DecodePLMN on decimal digits.
use go_gtp.Common.{
  ℕ, ◌+◌, ◌*◌, ◌/◌, ◌%◌, ◌<◌, ◌≡◌, refl, ◌∙◌, true, false, [], ◌∷◌, ◌++◌, ◌==◌, ==_iff, arith,
  bit_and, bit_or,
}
use go_gtp.Common.Outcome.{ok, ◌>>=◌}
use go_gtp.Common.Bytes.{Bytes}
use go_gtp.Common.Bits.{table, table-row}
use go_gtp.Utils.Hex.{decode_string, hex_value-digit, hex_digit-lt}
use go_gtp.Utils.Digits.{swap_byte-digits, swapped_even, swapped_odd}
use go_gtp.Utils.{
  swap_byte, swap, str_to_swapped_bytes, filler_f, encode_plmn, decode_plmn, decode_mcc, decode_mnc,
}

-- The decimal digits of a code, as the bytes of a string.
abbrev pub two : ℕ → ℕ → Bytes
two x y = (48 + x) ∷ (48 + y) ∷ []

abbrev pub three : ℕ → ℕ → ℕ → Bytes
three x y z = (48 + x) ∷ (48 + y) ∷ (48 + z) ∷ []

decode_two : (x y : ℕ) → x < 10 → y < 10 → decode_string (two x y) ≡ ok ((x * 16 + y) ∷ [])
unfolding decode_string
decode_two x y hx hy = rw (hex_value-digit x hx, hex_value-digit y hy) refl

decode_three :
    (x y z : ℕ)
    → x < 10
    → y < 10
    → z < 10
    → decode_string (three x y z ++ filler_f) ≡ ok ((x * 16 + y) ∷ (z * 16 + 15) ∷ [])
unfolding decode_string
decode_three x y z hx hy hz =
    rw (hex_value-digit x hx, hex_value-digit y hy, hex_value-digit z hz) refl

swap_pair : (x y : ℕ) → x < 16 → y < 16 → swap_byte (x * 16 + y) ≡ y * 16 + x
swap_pair x y hx hy = omega (arith, swap_byte-digits (x * 16 + y) (omega arith))

pub swapped_two :
    (x y : ℕ) → x < 10 → y < 10 → str_to_swapped_bytes (two x y) filler_f ≡ ok ((y * 16 + x) ∷ [])
unfolding swap
swapped_two x y hx hy =
    swapped_even (two x y) _ refl (decode_two x y hx hy)
    ∙ rw (swap_pair x y (omega arith) (omega arith)) refl

pub swapped_three :
    (x y z : ℕ)
    → x < 10
    → y < 10
    → z < 10
    → str_to_swapped_bytes (three x y z) filler_f ≡ ok ((y * 16 + x) ∷ (240 + z) ∷ [])
unfolding swap
swapped_three x y z hx hy hz =
    let e : 15 * 16 + z ≡ 240 + z = omega arith in
    swapped_odd (three x y z) _ refl (decode_three x y z hx hy hz)
    ∙ rw (swap_pair x y (omega arith) (omega arith), swap_pair z 15 (omega arith) (omega arith), e)
        refl

-- The octets of a PLMN: the second holds the third digits, and 15 for a missing one.
abbrev pub octets : ℕ → ℕ → ℕ → ℕ → ℕ → ℕ → Bytes
octets a b c x y z = (b * 16 + a) ∷ (z * 16 + c) ∷ (y * 16 + x) ∷ []

pub encode_two :
    (a b c x y : ℕ)
    → a < 10
    → b < 10
    → c < 10
    → x < 10
    → y < 10
    → encode_plmn (three a b c) (two x y) ≡ ok (octets a b c x y 15)
unfolding encode_plmn
encode_two a b c x y ha hb hc hx hy = rw (swapped_three a b c ha hb hc, swapped_two x y hx hy) refl

merge_table :
    table 10 (λ c.
      table 10
        (λ z. bit_or (bit_and (240 + c) 0x0f) (bit_and ((240 + z) * 16 % 256) 0xf0) == z * 16 + c))
    ≡ true
unfolding table
merge_table = refl

merge :
    (c z : ℕ)
    → c < 10
    → z < 10
    → bit_or (bit_and (240 + c) 0x0f) (bit_and ((240 + z) * 16 % 256) 0xf0) ≡ z * 16 + c
merge c z hc hz = (==_iff _ _).0 (table-row _ 10 z hz (table-row _ 10 c hc merge_table))

pub encode_three :
    (a b c x y z : ℕ)
    → a < 10
    → b < 10
    → c < 10
    → x < 10
    → y < 10
    → z < 10
    → encode_plmn (three a b c) (three x y z) ≡ ok (octets a b c x y z)
unfolding encode_plmn
encode_three a b c x y z ha hb hc hx hy hz =
    rw (swapped_three a b c ha hb hc, swapped_three x y z hx hy hz, merge c z hc hz) refl

decode_mcc-octets :
    (a b c z : ℕ)
    → a < 10
    → b < 10
    → c < 10
    → z < 16
    → decode_mcc ((b * 16 + a) ∷ (z * 16 + c) ∷ []) ≡ ok (three a b c)
unfolding decode_mcc
decode_mcc-octets a b c z ha hb hc hz =
    let e1 : (b * 16 + a) % 16 ≡ a = omega arith in
    let e2 : (b * 16 + a) / 16 ≡ b = omega arith in
    let e3 : (z * 16 + c) % 16 ≡ c = omega arith in
    rw (e1, e2, e3, hex_digit-lt a ha, hex_digit-lt b hb, hex_digit-lt c hc) refl

decode_mnc-two :
    (c x y : ℕ)
    → c < 10
    → x < 10
    → y < 10
    → decode_mnc ((15 * 16 + c) ∷ (y * 16 + x) ∷ []) ≡ ok (two x y)
unfolding decode_mnc
decode_mnc-two c x y hc hx hy =
    let e1 : (15 * 16 + c) / 16 ≡ 15 = omega arith in
    let e2 : (y * 16 + x) % 16 ≡ x = omega arith in
    let e3 : (y * 16 + x) / 16 ≡ y = omega arith in
    rw (e1, e2, e3, hex_digit-lt x hx, hex_digit-lt y hy) refl

digit_ne_f : (z : ℕ) → z < 10 → (48 + z == b'f') ≡ false
digit_ne_f z h = ground arith

decode_mnc-three :
    (c x y z : ℕ)
    → c < 10
    → x < 10
    → y < 10
    → z < 10
    → decode_mnc ((z * 16 + c) ∷ (y * 16 + x) ∷ []) ≡ ok (three x y z)
unfolding decode_mnc
decode_mnc-three c x y z hc hx hy hz =
    let e1 : (z * 16 + c) / 16 ≡ z = omega arith in
    let e2 : (y * 16 + x) % 16 ≡ x = omega arith in
    let e3 : (y * 16 + x) / 16 ≡ y = omega arith in
    rw (e1, e2, e3, hex_digit-lt x hx, hex_digit-lt y hy, hex_digit-lt z hz, digit_ne_f z hz) refl

-- DecodePLMN reads back a three-digit MCC and a two-digit MNC.
pub decode_plmn-encode_two :
    (a b c x y : ℕ)
    → a < 10
    → b < 10
    → c < 10
    → x < 10
    → y < 10
    → (encode_plmn (three a b c) (two x y) >>= λ p. decode_plmn p) ≡ ok (three a b c, two x y)
unfolding decode_plmn
decode_plmn-encode_two a b c x y ha hb hc hx hy =
    rw
      (
        encode_two a b c x y ha hb hc hx hy,
        decode_mcc-octets a b c 15 ha hb hc (omega arith),
        decode_mnc-two c x y hc hx hy,
      )
      refl

-- DecodePLMN reads back a three-digit MCC and a three-digit MNC.
pub decode_plmn-encode_three :
    (a b c x y z : ℕ)
    → a < 10
    → b < 10
    → c < 10
    → x < 10
    → y < 10
    → z < 10
    → (encode_plmn (three a b c) (three x y z) >>= λ p. decode_plmn p)
      ≡ ok (three a b c, three x y z)
unfolding decode_plmn
decode_plmn-encode_three a b c x y z ha hb hc hx hy hz =
    rw
      (
        encode_three a b c x y z ha hb hc hx hy hz,
        decode_mcc-octets a b c z ha hb hc (omega arith),
        decode_mnc-three c x y z hc hx hy hz,
      )
      refl

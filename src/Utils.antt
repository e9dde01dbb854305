-- ===== src/Utils.antt =====
-- utils/utils.go: swapped BCD digits, three- and five-octet integers, PLMN and ECI codes.
-- A Go string is the list of its bytes.
pub mod Hex
pub mod Widths
pub mod Digits
pub mod Plmn
use go_gtp.Common.{
  ℕ, ◌+◌, ◌-◌, ◌*◌, ◌/◌, ◌%◌, ◌^◌, bit_and, bit_or, Bool, true, false, List, [], ◌∷◌, ◌++◌, map,
  length, ltb, ◌==◌, if◌then◌else◌,
}
use go_gtp.Common.Outcome.{Outcome, ok, ◌>>=◌}
use go_gtp.Common.Bytes.{Bytes, index, slice, first, from}
use go_gtp.Common.Endian.{be32, uint32_at}
use Hex.{decode_string, encode_to_string}

-- `((raw[n] >> 4) & 0xf) + ((raw[n] << 4) & 0xf0)`, in uint8.
unfoldable pub swap_byte : ℕ → ℕ
swap_byte x = (bit_and (x / 16) 0xf + bit_and (x * 16 % 256) 0xf0) % 256

unfoldable pub swap : Bytes → Bytes
unfolding swap_byte
swap = map swap_byte

unfoldable pub str_to_swapped_bytes : Bytes → Bytes → Outcome Bytes
str_to_swapped_bytes s filler = do
  raw ← decode_string (if length s % 2 == 0 then s else s ++ filler)
  ok (swap raw)

unfoldable pub swapped_bytes_to_str : Bytes → Bool → Outcome Bytes
swapped_bytes_to_str raw cut_last_digit =
    if length raw == 0
    then ok []
    else let s = encode_to_string (swap raw) in
      if cut_last_digit then slice s 0 (length s - 1) else ok s

-- `|` joins octets that stand at different places, so it is a sum.
unfoldable pub uint24_to_32 : Bytes → Outcome ℕ
unfolding index
uint24_to_32 b =
    if length b == 3
    then (do b0 ← index b 0; b1 ← index b 1; b2 ← index b 2; ok (b0 * 2 ^ 16 + b1 * 2 ^ 8 + b2))
    else ok 0

unfoldable pub uint32_to_24 : ℕ → Bytes
uint32_to_24 n = n / 2 ^ 16 % 256 ∷ n / 2 ^ 8 % 256 ∷ n % 256 ∷ []

unfoldable pub uint40_to_64 : Bytes → Outcome ℕ
unfolding index
uint40_to_64 b =
    if length b == 5
    then (do
      b0 ← index b 0
      b1 ← index b 1
      b2 ← index b 2
      b3 ← index b 3
      b4 ← index b 4
      ok (b0 * 2 ^ 32 + b1 * 2 ^ 24 + b2 * 2 ^ 16 + b3 * 2 ^ 8 + b4))
    else ok 0

unfoldable pub uint64_to_40 : ℕ → Bytes
uint64_to_40 n =
    n / 2 ^ 32 % 256 ∷ n / 2 ^ 24 % 256 ∷ n / 2 ^ 16 % 256 ∷ n / 2 ^ 8 % 256 ∷ n % 256 ∷ []

-- `"f"`, the filler of an odd number of digits.
abbrev pub filler_f : Bytes
filler_f = b'f' ∷ []

unfoldable pub encode_plmn : Bytes → Bytes → Outcome Bytes
unfolding str_to_swapped_bytes index swap decode_string
encode_plmn mcc mnc = do
  c ← str_to_swapped_bytes mcc filler_f
  n ← str_to_swapped_bytes mnc filler_f
  if length mnc == 2 then ok (c ++ n) else (do
    c0 ← index c 0
    c1 ← index c 1
    n1 ← index n 1
    n0 ← index n 0
    ok (c0 ∷ bit_or (bit_and c1 0x0f) (bit_and (n1 * 16 % 256) 0xf0) ∷ n0 ∷ []))

unfoldable pub decode_mnc : Bytes → Outcome Bytes
unfolding encode_to_string index
decode_mnc b = do
  let raw = encode_to_string b
  r0 ← index raw 0
  r3 ← index raw 3
  r2 ← index raw 2
  if r0 == b'f' then ok (r3 ∷ r2 ∷ []) else ok (r3 ∷ r2 ∷ r0 ∷ [])

unfoldable pub decode_mcc : Bytes → Outcome Bytes
unfolding encode_to_string index
decode_mcc b = do
  let raw = encode_to_string b
  r1 ← index raw 1
  r0 ← index raw 0
  r3 ← index raw 3
  ok (r1 ∷ r0 ∷ r3 ∷ [])

-- The third result of the code is always nil.
unfoldable pub decode_plmn : Bytes → Outcome (Bytes × Bytes)
unfolding slice from first
decode_plmn b = do
  front ← slice b 0 2
  mcc ← decode_mcc front
  back ← slice b 1 3
  mnc ← decode_mnc back
  ok (mcc, mnc)

unfoldable pub parse_eci : ℕ → Outcome (ℕ × ℕ)
unfolding index uint32_at
parse_eci eci = do
  let buf = be32 eci
  cell_id ← index buf 3
  b0 ← index buf 0
  b1 ← index buf 1
  b2 ← index buf 2
  enb_id ← uint32_at (0 ∷ b0 ∷ b1 ∷ b2 ∷ []) 0
  ok (enb_id, cell_id)

-- ===== src/Utils/Widths.antt =====
-- The three- and five-octet integers of utils.go, and ParseECI.
use go_gtp.Common.{ℕ, ◌+◌, ◌*◌, ◌/◌, ◌%◌, ◌^◌, ◌<◌, ◌≡◌, refl, ap, [], ◌∷◌, length, All, arith}
use go_gtp.Common.Outcome.{ok}
use go_gtp.Common.Bytes.{Bytes, IsByte}
use go_gtp.Utils.{uint24_to_32, uint32_to_24, uint40_to_64, uint64_to_40, parse_eci}

-- Uint24To32 reads back the low 24 bits of what Uint32To24 wrote.
pub uint24_to_32-uint32_to_24 : (n : ℕ) → uint24_to_32 (uint32_to_24 n) ≡ ok (n % 2 ^ 24)
unfolding uint24_to_32 uint32_to_24
uint24_to_32-uint32_to_24 n = ap ok (omega arith)

-- Any three octets are read and written back, and any five.
pub uint32_to_24-uint24_to_32 :
    (b : Bytes)
    → All IsByte b
    → length b ≡ 3
    → (n : ℕ) × (uint24_to_32 b ≡ ok n) × (n < 2 ^ 24) × (uint32_to_24 n ≡ b)
unfolding uint24_to_32 uint32_to_24
uint32_to_24-uint24_to_32 (x ∷ y ∷ z ∷ []) (hx, (hy, (hz, h))) e =
    (x * 2 ^ 16 + y * 2 ^ 8 + z, refl, omega arith, ground arith)
uint32_to_24-uint24_to_32 b h e = absurd (omega arith)

pub uint40_to_64-uint64_to_40 : (n : ℕ) → uint40_to_64 (uint64_to_40 n) ≡ ok (n % 2 ^ 40)
unfolding uint40_to_64 uint64_to_40
uint40_to_64-uint64_to_40 n = ap ok (omega arith)

-- ParseECI splits a 32-bit ECI into the low octet, the cell, and the 24 bits above it.
pub parse_eci_lem : (eci : ℕ) → eci < 2 ^ 32 → parse_eci eci ≡ ok (eci / 2 ^ 8, eci % 2 ^ 8)
unfolding parse_eci
parse_eci_lem eci h = ap ok (ground arith)

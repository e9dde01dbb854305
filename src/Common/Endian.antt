-- ===== src/Common/Endian.antt =====
-- encoding/binary.BigEndian on byte slices: what PutUint16 and the like write, and what Uint16 reads.
use Prim.Native.Nat.{ℕ, ◌+◌, ◌*◌, ◌/◌, ◌%◌, ◌^◌, ◌<◌}
use mathlib.Core.Path.{◌≡◌}
use mathlib.Core.List.{[], ◌∷◌}
use native.Mathlib.Omega.{arith}
use go_gtp.Common.Outcome.{Outcome, ok, ◌>>=◌}
use go_gtp.Common.Bytes.{Bytes, index}
use go_gtp.Common.Lists.{All}
use go_gtp.Common.Bytes.{IsByte}

abbrev pub be16 : ℕ → Bytes
be16 n = n / 256 % 256 ∷ n % 256 ∷ []

abbrev pub be32 : ℕ → Bytes
be32 n = n / 2 ^ 24 % 256 ∷ n / 2 ^ 16 % 256 ∷ n / 2 ^ 8 % 256 ∷ n % 256 ∷ []

abbrev pub be64 : ℕ → Bytes
be64 n =
    n / 2 ^ 56 % 256
    ∷ n / 2 ^ 48 % 256
    ∷ n / 2 ^ 40 % 256
    ∷ n / 2 ^ 32 % 256
    ∷ n / 2 ^ 24 % 256
    ∷ n / 2 ^ 16 % 256
    ∷ n / 2 ^ 8 % 256
    ∷ n % 256
    ∷ []

-- `binary.BigEndian.Uint16(b[k:k+2])`
unfoldable pub uint16_at : Bytes → ℕ → Outcome ℕ
unfolding index
uint16_at b k = do hi ← index b k; lo ← index b (k + 1); ok (hi * 256 + lo)

unfoldable pub uint32_at : Bytes → ℕ → Outcome ℕ
unfolding index
uint32_at b k = do
  b0 ← index b k
  b1 ← index b (k + 1)
  b2 ← index b (k + 2)
  b3 ← index b (k + 3)
  ok (b0 * 2 ^ 24 + b1 * 2 ^ 16 + b2 * 2 ^ 8 + b3)

unfoldable pub uint64_at : Bytes → ℕ → Outcome ℕ
unfolding uint32_at
uint64_at b k = do hi ← uint32_at b k; lo ← uint32_at b (k + 4); ok (hi * 2 ^ 32 + lo)

pub be16_value : (n : ℕ) → n < 2 ^ 16 → n / 256 % 256 * 256 + n % 256 ≡ n
be16_value n h = omega arith

pub be32_value :
    (n : ℕ)
    → n < 2 ^ 32
    → n / 2 ^ 24 % 256 * 2 ^ 24 + n / 2 ^ 16 % 256 * 2 ^ 16 + n / 2 ^ 8 % 256 * 2 ^ 8 + n % 256 ≡ n
be32_value n h = omega arith

pub be64_value :
    (n : ℕ)
    → n < 2 ^ 64
    → (n / 2 ^ 56 % 256 * 2 ^ 24
            + n / 2 ^ 48 % 256 * 2 ^ 16
            + n / 2 ^ 40 % 256 * 2 ^ 8
            + n / 2 ^ 32 % 256)
          * 2 ^ 32
        + (n / 2 ^ 24 % 256 * 2 ^ 24
            + n / 2 ^ 16 % 256 * 2 ^ 16
            + n / 2 ^ 8 % 256 * 2 ^ 8
            + n % 256)
      ≡ n
be64_value n h = omega arith

pub be16-IsByte : (n : ℕ) → All IsByte (be16 n)
be16-IsByte n = omega arith

pub be32-IsByte : (n : ℕ) → All IsByte (be32 n)
be32-IsByte n = omega arith

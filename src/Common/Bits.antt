-- ===== src/Common/Bits.antt =====
-- Bit masks as arithmetic. Over a byte each fact is a table, checked by evaluation.
use Prim.Native.Nat.{ℕ, zero, suc, ◌<◌}
use mathlib.Core.Path.{◌≡◌, ap, ◌∙◌}
use mathlib.Core.Logic.{inl, inr}
use mathlib.Core.Bool.{Bool, true, false}
use native.Mathlib.Omega.{arith}
use go_gtp.Common.Tests.{◌==◌, ==_iff, if◌then◌else◌, Bool-cases}

-- A test that all numbers smaller than the bound pass, the greatest first.
unfoldable pub table : ℕ → (ℕ → Bool) → Bool
table zero test = true
table (suc top) test = if test top then table top test else false

-- A row of a table that holds.
pub table-row :
    (test : ℕ → Bool) (bound row : ℕ) → row < bound → table bound test ≡ true → test row ≡ true
unfolding table
table-row test zero row below holds = absurd (omega arith)
table-row test (suc top) row below holds = elim (Bool-cases (test top)) [
  | inr fails ↦ let holds' = rw fails at holds in cc
  | inl passes ↦ elim (Bool-cases (row == top)) [
    | inl same ↦ ap test ((==_iff row top).0 same) ∙ passes
    | inr other ↦ table-row test top row (ground arith) (rw passes at holds)
  ]
]

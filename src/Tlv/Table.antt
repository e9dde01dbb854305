-- ===== src/Tlv/Table.antt =====
-- Tables of the lengths of TV types, as the lists of their entries.
use go_gtp.Common.{
  ℕ, ◌<◌, Option, none, some, List, [], ◌∷◌, ◌==◌, if◌then◌else◌, ==_iff, All, Bool-cases, inl, inr,
  arith,
}
use go_gtp.Tlv.Encode.{IsTvTable}

-- The value for a key of a Go map.
abbrev pub lookup : List (ℕ × ℕ) → ℕ → Option ℕ
lookup [] t = none
lookup (e ∷ es) t = if e.0 == t then some e.1 else lookup es t

-- A table whose keys are all TV types has no other types.
pub lookup-IsTvTable : (es : List (ℕ × ℕ)) → All (λ e. e.0 < 128) es → IsTvTable (lookup es)
lookup-IsTvTable [] a t l h = cc
lookup-IsTvTable (e ∷ es) (lt, a) t l h = elim (Bool-cases (e.0 == t)) [
  | inl same ↦ let eq = (==_iff e.0 t).0 same in omega (arith, eq)
  | inr other ↦ lookup-IsTvTable es a t l (rw other at h)
]

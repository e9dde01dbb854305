-- ===== src/Gtpv1/Ie.antt =====
-- gtpv1/ie/ie.go: the lengths of its TV types, and its codec, which is Tlv over this table.
pub mod Types
use go_gtp.Common.{ℕ, ◌≤◌, ◌≡◌, subst, Option, List, [], ◌∷◌, append-nil, length, All, arith}
use go_gtp.Common.Outcome.{Outcome, ok, Ensures, ◌>>=◌}
use go_gtp.Common.Bytes.{Bytes, IsByte}
use go_gtp.Tlv
use go_gtp.Tlv.{Ie}
use go_gtp.Tlv.Encode.{IsTvTable}
use go_gtp.Tlv.Decode.{IsWf, wire}
use go_gtp.Tlv.RoundTrip.{marshal-form, parse-wire_form, ReadsAll, parse_multi_ies_reads}
use go_gtp.Tlv.Table.{lookup, lookup-IsTvTable}

abbrev pub tv_entries : List (ℕ × ℕ)
tv_entries =
    (0, 0)
    ∷ (1, 1)
    ∷ (2, 8)
    ∷ (3, 6)
    ∷ (4, 4)
    ∷ (5, 4)
    ∷ (8, 1)
    ∷ (9, 28)
    ∷ (11, 1)
    ∷ (12, 3)
    ∷ (13, 1)
    ∷ (14, 1)
    ∷ (15, 1)
    ∷ (16, 4)
    ∷ (17, 4)
    ∷ (18, 4)
    ∷ (19, 1)
    ∷ (20, 1)
    ∷ (21, 1)
    ∷ (22, 9)
    ∷ (23, 1)
    ∷ (24, 1)
    ∷ (25, 2)
    ∷ (26, 2)
    ∷ (27, 2)
    ∷ (28, 2)
    ∷ (29, 1)
    ∷ (127, 4)
    ∷ []

-- `tvLengthMap`
abbrev pub tv_length_map : ℕ → Option ℕ
tv_length_map = lookup tv_entries

pub tv_length_map-IsTvTable : IsTvTable tv_length_map
tv_length_map-IsTvTable = lookup-IsTvTable tv_entries (omega arith)

unfoldable pub new : ℕ → Bytes → Ie
new = Tlv.new tv_length_map

unfoldable pub marshal : Ie → Outcome Bytes
marshal = Tlv.marshal tv_length_map

unfoldable pub parse : Bytes → Outcome Ie
parse = Tlv.parse tv_length_map

unfoldable pub parse_multi_ies : Bytes → Outcome (List Ie)
parse_multi_ies = Tlv.parse_multi_ies tv_length_map

-- Marshal returns octets, and Parse makes the same element of them, if it is well formed and has two
-- octets at least.
pub parse-marshal_v1 :
    (i : Ie) → IsWf tv_length_map i → 2 ≤ length (wire i) → (marshal i >>= λ b. parse b) ≡ ok i
unfolding marshal parse
parse-marshal_v1 i w h = rw (marshal-form tv_length_map tv_length_map-IsTvTable i w) (
    subst (λ b. Tlv.parse tv_length_map b ≡ ok i) (append-nil (wire i))
      (parse-wire_form tv_length_map tv_length_map-IsTvTable i [] w (rw (append-nil (wire i)) h)))

-- On any octets ParseMultiIEs ends: with an error, or with well-formed elements whose octets are the
-- input.
pub parse_multi_ies_sound_v1 :
    (b : Bytes)
    → All IsByte b
    → Ensures (ReadsAll tv_length_map tv_length_map-IsTvTable b) (parse_multi_ies b)
unfolding parse_multi_ies
parse_multi_ies_sound_v1 = parse_multi_ies_reads tv_length_map tv_length_map-IsTvTable

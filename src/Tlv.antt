-- ===== src/Tlv.antt =====
-- gtpv0/ie/ie.go and gtpv1/ie/ie.go: the information elements of GTPv0 and GTPv1. The two files hold
-- the same code over two tables (`tvLengthMap`), so the code is written once over a table.
pub mod Encode
pub mod Decode
pub mod RoundTrip
pub mod New
pub mod Write
pub mod Table
use go_gtp.Common.{
  ℕ, zero, suc, ◌+◌, ◌%◌, ◌^◌, Bool, true, false, Option, none, some, List, [], ◌∷◌, ltb, leb,
  if◌then◌else◌, length,
}
use go_gtp.Common.Outcome.{
  Outcome, ok, err, stuck, ◌>>=◌, guard, too_short_to_marshal, too_short_to_parse, invalid_length,
}
use go_gtp.Common.Bytes.{Bytes, make, index, from, slice, put, copy_at}
use go_gtp.Common.Endian.{be16, uint16_at}

-- `Type`, `Length` and `Payload`.
pub record Ie : Type 0 where
  pub kind : ℕ
  pub size : ℕ
  pub payload : Bytes

abbrev pub ie : ℕ → ℕ → Bytes → Ie
ie t l p = record { kind = t; size = l; payload = p }

-- `IsTV`, which reads the type alone.
abbrev pub is_tv : ℕ → Bool
is_tv t = ltb t 0x80

-- `MarshalLen` for a result of the table, a type and a payload.
abbrev pub serial_len : Option ℕ → ℕ → Bytes → ℕ
serial_len (some l) t p = l + 1
serial_len none t p = if ltb t 128 then 1 + length p else 3 + length p

abbrev pub counted_len : Option ℕ → Bytes → ℕ
counted_len (some l) p = 0
counted_len none p = length p % 2 ^ 16

module _ (table : ℕ → Option ℕ) where
  abbrev pub marshal_len : Ie → ℕ
  marshal_len i = serial_len (table i.kind) i.kind i.payload

  unfoldable pub set_length : Ie → Ie
  set_length i = record i { size = counted_len (table i.kind) i.payload }

  unfoldable pub new : ℕ → Bytes → Ie
  unfolding set_length
  new t p = set_length (ie t 0 p)

  unfoldable pub marshal_to : Ie → Bytes → Outcome Bytes
  unfolding put
  marshal_to i b = if ltb (length b) (marshal_len i) then err too_short_to_marshal else do
    b1 ← put b 0 (i.kind ∷ [])
    elim (is_tv i.kind) [
      | true ↦ copy_at b1 1 (marshal_len i) i.payload
      | false ↦ do b2 ← put b1 1 (be16 i.size); copy_at b2 3 (marshal_len i) i.payload
    ]

  unfoldable pub marshal : Ie → Outcome Bytes
  unfolding marshal_to
  marshal i = marshal_to i (make (marshal_len i))

  -- The element has its type and no payload yet.
  unfoldable pub decode_tv : ℕ → Bytes → Outcome Ie
  decode_tv t b =
      let n = marshal_len (ie t 0 []) in
      guard (leb 2 (length b)) too_short_to_parse
        (guard (leb n (length b)) invalid_length (do p ← slice b 1 n; ok (ie t 0 p)))

  unfoldable pub decode_tlv : ℕ → Bytes → Outcome Ie
  decode_tlv t b = guard (leb 3 (length b)) too_short_to_parse (do
    l ← uint16_at b 1
    guard (leb (l + 3) (length b)) invalid_length (do p ← slice b 3 (3 + l); ok (ie t l p)))

  -- The branch of `UnmarshalBinary` for the format of the type.
  abbrev pub decode_as : Bool → ℕ → Bytes → Outcome Ie
  decode_as true t b = decode_tv t b
  decode_as false t b = decode_tlv t b

  unfoldable pub parse : Bytes → Outcome Ie
  unfolding index decode_tv decode_tlv
  parse b = guard (leb 2 (length b)) too_short_to_parse (do t ← index b 0; decode_as (is_tv t) t b)

  -- The loop of `ParseMultiIEs`.
  unfoldable pub parse_multi : ℕ → Bytes → Outcome (List Ie)
  parse_multi zero b = stuck
  parse_multi (suc fuel) [] = ok []
  parse_multi (suc fuel) (x ∷ b) = do
    i ← parse (x ∷ b)
    rest ← from (x ∷ b) (marshal_len i)
    is ← parse_multi fuel rest
    ok (i ∷ is)

  -- An element is at least one octet long, so a fuel above the length is enough.
  unfoldable pub parse_multi_ies : Bytes → Outcome (List Ie)
  unfolding parse_multi
  parse_multi_ies b = parse_multi (length b + 1) b

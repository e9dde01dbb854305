-- ===== src/Gtpv1/Header.antt =====
-- gtpv1/message/header.go: the GTPv1 common header.
pub mod Codec
pub mod Parse
pub mod RoundTrip
use go_gtp.Common.{
  ℕ, suc, ◌+◌, ◌-◌, ◌*◌, ◌/◌, ◌%◌, ◌^◌, bit_and, bit_or, Bool, true, false, [], ◌∷◌, ltb, leb, ◌==◌,
  if◌then◌else◌, length,
}
use go_gtp.Common.Outcome.{
  Outcome, ok, err, guard, ◌>>=◌, too_short_to_parse, too_short_to_marshal, invalid_length,
}
use go_gtp.Common.Bytes.{Bytes, make, index, slice, from, first, put, copy}
use go_gtp.Common.Endian.{be16, be32, uint16_at, uint32_at}

pub record Header : Type 0 where
  pub flags : ℕ
  pub kind : ℕ
  pub size : ℕ
  pub teid : ℕ
  pub sequence_number : ℕ
  pub reserved : ℕ
  pub payload : Bytes

-- `((int(h.Flags) >> 1) & 0x1) == 1`
unfoldable pub has_sequence : Header → Bool
has_sequence h = bit_and (h.flags / 2 ^ 1) 0x1 == 1

unfoldable pub marshal_len : Header → ℕ
marshal_len h = let l = length h.payload + 8 in if has_sequence h then l + 4 else l

unfoldable pub set_length : Header → Header
set_length h = record h { size = (marshal_len h - 8) % 2 ^ 16 }

unfoldable pub new_header : ℕ → ℕ → ℕ → ℕ → Bytes → Header
unfolding set_length
new_header flags mtype teid seqnum payload = set_length (record {
  flags = flags;
  kind = mtype;
  size = 0;
  teid = teid;
  sequence_number = seqnum;
  reserved = 0;
  payload = payload;
})

unfoldable pub new_header_flags : ℕ → ℕ → ℕ → ℕ → ℕ → ℕ
new_header_flags v p e s n =
    bit_or
      (bit_or
        (bit_or (bit_or (bit_and v 0x7 * 2 ^ 5) (bit_and p 0x1 * 2 ^ 4)) (bit_and e 0x1 * 2 ^ 2))
        (bit_and s 0x1 * 2 ^ 1))
      (bit_and n 0x1)
    % 256

-- The padding behind the sequence number stays as the buffer had it.
unfoldable pub marshal_to : Header → Bytes → Outcome Bytes
unfolding put from copy
marshal_to h b = if ltb (length b) (marshal_len h) then err too_short_to_marshal else do
  b1 ← put b 0 (h.flags ∷ [])
  b2 ← put b1 1 (h.kind ∷ [])
  b3 ← put b2 2 (be16 h.size)
  b4 ← put b3 4 (be32 h.teid)
  b5 ← if has_sequence h then put b4 8 (be16 h.sequence_number) else ok b4
  let offset = if has_sequence h then 12 else 8
  dst ← from b5 offset
  put b5 offset (copy dst h.payload)

unfoldable pub marshal : Header → Outcome Bytes
marshal h = marshal_to h (make (marshal_len h))

-- The end of UnmarshalBinary. The sum of the second test is a uint16.
unfoldable pub payload_from : Bytes → ℕ → ℕ → Outcome Bytes
payload_from b offset size =
    if ltb (length b) (size + 8)
    then from b offset
    else if leb offset ((8 + size) % 2 ^ 16)
    then slice b offset ((8 + size) % 2 ^ 16)
    else err invalid_length

abbrev pub read : ℕ → ℕ → ℕ → ℕ → ℕ → Bytes → Header
read flags kind size teid seq p = record {
  flags = flags;
  kind = kind;
  size = size;
  teid = teid;
  sequence_number = seq;
  reserved = 0;
  payload = p;
}

unfoldable pub parse_header : Bytes → Outcome Header
unfolding index uint16_at uint32_at
parse_header b = if ltb (length b) 11 then err too_short_to_parse else do
  flags ← index b 0
  kind ← index b 1
  size ← uint16_at b 2
  teid ← uint32_at b 4
  let numbered =
      guard (leb 4 size) too_short_to_parse
        (do seq ← uint16_at b 8; p ← payload_from b 12 size; ok (read flags kind size teid seq p))
  let plain = do p ← payload_from b 8 size; ok (read flags kind size teid 0 p)
  if has_sequence (read flags kind size teid 0 []) then numbered else plain

unfoldable pub set_teid : ℕ → Header → Header
set_teid teid h = record h { flags = bit_or h.flags (2 ^ 3); teid = teid }

unfoldable pub set_sequence_number : ℕ → Header → Header
set_sequence_number seq h = record h { sequence_number = seq }

-- ===== src/Gtpv2/Header.antt =====
-- gtpv2/message/header.go: the GTPv2 common header.
pub mod Codec
pub mod Parse
pub mod Sound
pub mod RoundTrip
pub mod Flags
use go_gtp.Common.{
  ℕ, zero, suc, ◌+◌, ◌-◌, ◌*◌, ◌/◌, ◌%◌, ◌^◌, bit_and, bit_or, Bool, true, false, [], ◌∷◌, ltb, leb,
  ◌==◌, if◌then◌else◌, length,
}
use go_gtp.Common.Outcome.{Outcome, ok, err, guard, ◌>>=◌, too_short_to_parse, invalid_length}
use go_gtp.Common.Bytes.{Bytes, make, index, slice, from, first, put, copy_at}
use go_gtp.Common.Endian.{be16, be32, uint16_at, uint32_at}
use go_gtp.Utils.{uint24_to_32, uint32_to_24}

pub record Header : Type 0 where
  pub flags : ℕ
  pub kind : ℕ
  pub size : ℕ
  pub teid : ℕ
  pub sequence_number : ℕ
  pub spare : ℕ
  pub payload : Bytes

-- `(int(h.Flags)>>3)&0x01 == 1`, and the like for the bits 4 and 2.
unfoldable pub has_teid : Header → Bool
has_teid h = bit_and (h.flags / 2 ^ 3) 0x01 == 1

unfoldable pub is_piggybacking : Header → Bool
is_piggybacking h = bit_and (h.flags / 2 ^ 4) 0x01 == 1

unfoldable pub has_message_priority : Header → Bool
has_message_priority h = bit_and (h.flags / 2 ^ 2) 0x01 == 1

unfoldable pub marshal_len : Header → ℕ
marshal_len h = let l = 8 + length h.payload in if has_teid h then l + 4 else l

-- `uint16(4 + len(h.Payload))`, then `+= 4` in uint16.
unfoldable pub set_length : Header → Header
set_length h =
    let l = (4 + length h.payload) % 2 ^ 16 in
    record h { size = if has_teid h then (l + 4) % 2 ^ 16 else l }

-- `uint8(((v & 0x7) << 5) | ((p & 0x1) << 4) | ((t & 0x1) << 3))`
unfoldable pub new_header_flags : ℕ → ℕ → ℕ → ℕ
new_header_flags v p t =
    bit_or (bit_or (bit_and v 0x7 * 2 ^ 5) (bit_and p 0x1 * 2 ^ 4)) (bit_and t 0x1 * 2 ^ 3) % 256

unfoldable pub new_header : ℕ → ℕ → ℕ → ℕ → Bytes → Header
unfolding set_length
new_header flags mtype teid seqnum data' = set_length (record {
  flags = flags;
  kind = mtype;
  size = 0;
  teid = teid;
  sequence_number = seqnum;
  spare = 0;
  payload = data';
})

-- `MarshalTo` checks no bound: a short buffer panics.
unfoldable pub marshal_to : Header → Bytes → Outcome Bytes
unfolding put copy_at
marshal_to h b = do
  b1 ← put b 0 (h.flags ∷ [])
  b2 ← put b1 1 (h.kind ∷ [])
  b3 ← put b2 2 (be16 h.size)
  b4 ← if has_teid h then put b3 4 (be32 h.teid) else ok b3
  let offset = if has_teid h then 8 else 4
  b5 ← copy_at b4 offset (offset + 3) (uint32_to_24 h.sequence_number)
  b6 ← put b5 (offset + 3) (h.spare ∷ [])
  copy_at b6 (offset + 4) (marshal_len h) h.payload

unfoldable pub marshal : Header → Outcome Bytes
marshal h = marshal_to h (make (marshal_len h))

-- The end of UnmarshalBinary, once the fixed fields are read: the payload begins at `start`, which
-- is teidHeaderSize or noTEIDHeaderSize. The sum of the second test is a uint16.
unfoldable pub payload_from : Bytes → ℕ → ℕ → Outcome Bytes
payload_from b start size =
    if ltb (length b) (size + 4)
    then from b start
    else if leb start ((4 + size) % 2 ^ 16)
    then slice b start ((4 + size) % 2 ^ 16)
    else err invalid_length

abbrev pub blank : ℕ → ℕ → ℕ → Header
blank flags kind size = record {
  flags = flags;
  kind = kind;
  size = size;
  teid = 0;
  sequence_number = 0;
  spare = 0;
  payload = [];
}

-- `UnmarshalBinary` on a zero header.
unfoldable pub parse_header : Bytes → Outcome Header
unfolding index uint16_at uint32_at
parse_header b = if ltb (length b) 12 then err too_short_to_parse else do
  flags ← index b 0
  kind ← index b 1
  size ← uint16_at b 2
  let h = blank flags kind size
  let with_teid = guard (leb 8 size) too_short_to_parse (do
    teid ← uint32_at b 4
    octets ← slice b 8 11
    seq ← uint24_to_32 octets
    spare ← index b 11
    p ← payload_from b 12 size
    ok (record h { teid = teid; sequence_number = seq; spare = spare; payload = p }))
  let without_teid = do
    octets ← slice b 4 7
    seq ← uint24_to_32 octets
    spare ← index b 7
    p ← payload_from b 8 size
    ok (record h { sequence_number = seq; spare = spare; payload = p })
  guard (leb 4 size) too_short_to_parse (if has_teid h then with_teid else without_teid)

unfoldable pub set_teid : ℕ → Header → Header
set_teid teid h = record h { flags = bit_or h.flags (2 ^ 3); teid = teid }

-- `teid()`, the TEID of a message.
unfoldable pub teid_of : Header → ℕ
teid_of h = if has_teid h then h.teid else 0

-- `(h.Flags & 0xef) | (val & 0x01 << 4)`: in Go `&` and `<<` bind alike, from the left.
unfoldable pub set_piggybacking : ℕ → Header → Header
set_piggybacking val h = record h {
  flags = bit_or (bit_and h.flags 0xef) (bit_and val 0x01 * 2 ^ 4 % 256);
}

unfoldable pub set_sequence_number : ℕ → Header → Header
set_sequence_number seq h = record h { sequence_number = seq }

unfoldable pub set_message_priority : ℕ → Header → Header
set_message_priority mp h = record h { flags = bit_or h.flags (2 ^ 2); spare = bit_and mp 0xf0 }

unfoldable pub message_priority : Header → ℕ
message_priority h = bit_and h.spare 0xf0

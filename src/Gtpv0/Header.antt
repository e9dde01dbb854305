-- ===== src/Gtpv0/Header.antt =====
-- gtpv0/message/header.go: the GTPv0 common header.
pub mod Codec
use go_gtp.Common.{
  ℕ, suc, ◌+◌, ◌-◌, ◌*◌, ◌/◌, ◌%◌, ◌^◌, bit_and, bit_or, Bool, true, false, [], ◌∷◌, ltb, ◌==◌,
  if◌then◌else◌, length,
}
use go_gtp.Common.Outcome.{Outcome, ok, err, ◌>>=◌, too_short_to_parse, too_short_to_marshal}
use go_gtp.Common.Bytes.{Bytes, make, index, slice, from, first, put, copy_at}
use go_gtp.Common.Endian.{be16, be32, be64, uint16_at, uint64_at}

pub record Header : Type 0 where
  pub flags : ℕ
  pub kind : ℕ
  pub size : ℕ
  pub sequence_number : ℕ
  pub sndcp_number : ℕ
  pub flow_label : ℕ
  pub tid : ℕ
  pub payload : Bytes

unfoldable pub marshal_len : Header → ℕ
marshal_len h = 20 + length h.payload

unfoldable pub set_length : Header → Header
set_length h = record h { size = length h.payload % 2 ^ 16 }

unfoldable pub new_header : ℕ → ℕ → ℕ → ℕ → ℕ → Bytes → Header
unfolding set_length
new_header flags mtype seq label tid payload = set_length (record {
  flags = flags;
  kind = mtype;
  size = 0;
  sequence_number = seq;
  sndcp_number = 0xff;
  flow_label = label;
  tid = tid;
  payload = payload;
})

unfoldable pub header_flags : ℕ → ℕ → ℕ → ℕ
header_flags v p s =
    bit_or (bit_or (bit_or (bit_and v 0x7 * 2 ^ 5) (bit_and p 0x1 * 2 ^ 4)) (bit_and s 0x1)) 0x0e
    % 256

-- `uint32(int(h.SndcpNumber)<<24|0xffffff)`: the low 24 bits of the shifted number are zero.
unfoldable pub marshal_to : Header → Bytes → Outcome Bytes
unfolding put copy_at
marshal_to h b = if ltb (length b) (marshal_len h) then err too_short_to_marshal else do
  b1 ← put b 0 (h.flags ∷ [])
  b2 ← put b1 1 (h.kind ∷ [])
  b3 ← put b2 2 (be16 h.size)
  b4 ← put b3 4 (be16 h.sequence_number)
  b5 ← put b4 6 (be16 h.flow_label)
  b6 ← put b5 8 (be32 ((h.sndcp_number * 2 ^ 24 + 0xffffff) % 2 ^ 32))
  b7 ← put b6 12 (be64 h.tid)
  copy_at b7 20 (marshal_len h) h.payload

unfoldable pub marshal : Header → Outcome Bytes
marshal h = marshal_to h (make (marshal_len h))

-- The bound of the second slice is a uint16.
unfoldable pub payload_from : Bytes → ℕ → Outcome Bytes
payload_from b size = if size + 20 == length b then slice b 20 ((20 + size) % 2 ^ 16) else from b 20

abbrev pub read : ℕ → ℕ → ℕ → ℕ → ℕ → ℕ → ℕ → Bytes → Header
read flags kind size seq sndcp label tid p = record {
  flags = flags;
  kind = kind;
  size = size;
  sequence_number = seq;
  sndcp_number = sndcp;
  flow_label = label;
  tid = tid;
  payload = p;
}

-- Only eleven octets are asked for, and the TID is read up to the twentieth.
unfoldable pub parse_header : Bytes → Outcome Header
unfolding index uint16_at uint64_at slice from first
parse_header b = if ltb (length b) 11 then err too_short_to_parse else do
  flags ← index b 0
  kind ← index b 1
  size ← uint16_at b 2
  seq ← uint16_at b 4
  label ← uint16_at b 6
  sndcp ← index b 9
  octets ← slice b 12 20
  tid ← uint64_at octets 0
  p ← payload_from b size
  ok (read flags kind size seq sndcp label tid p)

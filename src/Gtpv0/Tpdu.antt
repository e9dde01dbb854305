-- ===== src/Gtpv0/Tpdu.antt =====
-- gtpv0/message/t-pdu.go, with Decapsulate of gtpv0/message/message.go: user packets behind a GTPv0
-- header.
use go_gtp.Common.{
  ℕ, ◌+◌, ◌%◌, ◌^◌, ◌<◌, Bool, ltb, ◌==◌, if◌then◌else◌, length, length-replicate, le→ltb, [], ◌≡◌,
  ap, ◌∙◌, arith,
}
use go_gtp.Common.Outcome.{Outcome, ok, err, ◌>>=◌, too_short_to_marshal}
use go_gtp.Common.Bytes.{Bytes, make}
use go_gtp.Gtpv0.Header.{
  Header, marshal_len, set_length, new_header, parse_header, marshal_to, marshal,
}
use go_gtp.Gtpv0.Header.Codec.{wire, IsWf, marshal-wire_v0, parse_header-wire_v0}

-- A T-PDU is its header, which holds the payload.
abbrev pub Tpdu : Type 0
Tpdu = Header

-- `NewTPDU`
unfoldable pub new_tpdu : ℕ → ℕ → ℕ → Bytes → Tpdu
unfolding set_length new_header
new_tpdu seq label tid payload = set_length (new_header 0x1e 255 seq label tid payload)

-- `MarshalTo` sets the length again.
unfoldable pub marshal_tpdu_to : Tpdu → Bytes → Outcome Bytes
unfolding set_length marshal_to marshal_len
marshal_tpdu_to t b =
    if ltb (length b) (marshal_len t) then err too_short_to_marshal else marshal_to (set_length t) b

-- `Marshal`
unfoldable pub marshal_tpdu : Tpdu → Outcome Bytes
unfolding marshal_tpdu_to marshal_len
marshal_tpdu t = marshal_tpdu_to t (make (marshal_len t))

-- `UnmarshalBinary`
unfoldable pub parse_tpdu : Bytes → Outcome Tpdu
unfolding parse_header
parse_tpdu b = parse_header b

-- `Decapsulate` gives no payload, and no error, for another type of message.
abbrev pub taken : Header → Bytes
taken h = if h.kind == 255 then h.payload else []

unfoldable pub decapsulate : Bytes → Outcome Bytes
unfolding parse_header
decapsulate b = do h ← parse_header b; ok (taken h)

-- The header of a user packet, with its length.
abbrev sealed : ℕ → ℕ → ℕ → Bytes → Header
sealed seq label tid p = record {
  flags = 0x1e;
  kind = 255;
  size = length p % 2 ^ 16;
  sequence_number = seq;
  sndcp_number = 0xff;
  flow_label = label;
  tid = tid;
  payload = p;
}

marshal-new_tpdu :
    (seq label tid : ℕ) (p : Bytes)
    → marshal_tpdu (new_tpdu seq label tid p) ≡ ok (wire (sealed seq label tid p))
unfolding marshal_tpdu marshal_tpdu_to new_tpdu set_length new_header marshal_len marshal
marshal-new_tpdu seq label tid p =
    let n = 20 + length p in
    let h = sealed seq label tid p in
    ap (λ (short : Bool). if short then err too_short_to_marshal else marshal h)
      (le→ltb (length (make n)) n (omega (arith, length-replicate {A = ℕ} n 0)))
    ∙ marshal-wire_v0 h

sealed-IsWf :
    (seq label tid : ℕ) (p : Bytes)
    → seq < 2 ^ 16
    → label < 2 ^ 16
    → tid < 2 ^ 64
    → length p + 20 < 2 ^ 16
    → IsWf (sealed seq label tid p)
sealed-IsWf seq label tid p hs hl ht fits = record {
  size_counts = omega arith;
  size_fits = omega arith;
  seq_fits = hs;
  label_fits = hl;
  sndcp_fits = omega arith;
  tid_fits = ht;
}

-- Decapsulate takes the payload out of what Marshal makes of a T-PDU, if the numbers fit and the
-- payload with twenty octets more is shorter than 2 ^ 16.
pub decapsulate-new_tpdu :
    (seq label tid : ℕ) (p : Bytes)
    → seq < 2 ^ 16
    → label < 2 ^ 16
    → tid < 2 ^ 64
    → length p + 20 < 2 ^ 16
    → (marshal_tpdu (new_tpdu seq label tid p) >>= decapsulate) ≡ ok p
unfolding decapsulate
decapsulate-new_tpdu seq label tid p hs hl ht fits =
    ap (λ (o : Outcome Bytes). o >>= λ b. decapsulate b) (marshal-new_tpdu seq label tid p)
    ∙ ap (λ (o : Outcome Header). o >>= λ h. ok (taken h))
        (parse_header-wire_v0 (sealed seq label tid p) (sealed-IsWf seq label tid p hs hl ht fits))

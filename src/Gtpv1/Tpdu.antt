-- ===== src/Gtpv1/Tpdu.antt =====
-- gtpv1/message/t-pdu.go and gtpv1/utils.go: user packets behind a GTPv1 header.
use go_gtp.Common.{
  ℕ, ◌+◌, ◌%◌, ◌^◌, ◌≤◌, ◌<◌, ◌≡◌, refl, ap, subst, ◌∙◌, [], ◌++◌, append-nil, ltb, ◌-◌, lt→ltb,
  le→ltb, ◌==◌, length-append, length-replicate, if◌then◌else◌, length, arith,
}
use go_gtp.Common.Outcome.{
  Outcome, ok, err, ◌>>=◌, too_short_to_parse, invalid_type, too_short_to_marshal,
}
use go_gtp.Common.Bytes.{Bytes, make}
use go_gtp.Gtpv1.Header.{
  Header, marshal_len, set_length, new_header, parse_header, marshal_to, marshal, has_sequence,
}
use go_gtp.Gtpv1.Header.Codec.{head, wire, marshal-wire_v1}
use go_gtp.Gtpv1.Header.RoundTrip.{IsWf, parse_header-wire_v1}

-- A T-PDU is its header, which holds the payload.
abbrev pub Tpdu : Type 0
Tpdu = Header

unfoldable pub new_tpdu : ℕ → Bytes → Tpdu
unfolding set_length new_header
new_tpdu teid payload = set_length (new_header 0x30 255 teid 0 payload)

unfoldable pub new_tpdu_with_sequence : ℕ → ℕ → Bytes → Tpdu
unfolding set_length new_header
new_tpdu_with_sequence teid seq payload = set_length (new_header 0x32 255 teid seq payload)

-- `MarshalTo` sets the length again.
unfoldable pub marshal_tpdu_to : Tpdu → Bytes → Outcome Bytes
unfolding set_length marshal_to
marshal_tpdu_to t b =
    if ltb (length b) (marshal_len t) then err too_short_to_marshal else marshal_to (set_length t) b

unfoldable pub marshal_tpdu : Tpdu → Outcome Bytes
unfolding marshal_tpdu_to
marshal_tpdu t = marshal_tpdu_to t (make (marshal_len t))

-- `UnmarshalBinary` of a T-PDU.
unfoldable pub parse_tpdu : Bytes → Outcome Tpdu
unfolding parse_header
parse_tpdu b = parse_header b

-- `Encapsulate` and `Decapsulate` of utils.go.
unfoldable pub encapsulate : ℕ → Bytes → Tpdu
unfolding new_tpdu
encapsulate teid payload = new_tpdu teid payload

abbrev pub taken : Header → Outcome (ℕ × Bytes)
taken h = if h.kind == 255 then ok (h.teid, h.payload) else err invalid_type

unfoldable pub decapsulate : Bytes → Outcome (ℕ × Bytes)
unfolding parse_header
decapsulate b = do h ← parse_header b; taken h

-- The header of an encapsulated packet, with its length.
abbrev sealed : ℕ → Bytes → Header
sealed t p = record {
  flags = 0x30;
  kind = 255;
  size = length p;
  teid = t;
  sequence_number = 0;
  reserved = 0;
  payload = p;
}

encapsulate-sealed : (t : ℕ) (p : Bytes) → length p < 2 ^ 16 → encapsulate t p ≡ sealed t p
unfolding encapsulate new_tpdu marshal_len has_sequence
encapsulate-sealed t p h = let n : (length p + 8 - 8) % 2 ^ 16 ≡ length p = omega arith in rw n refl

sealed-IsWf : (t : ℕ) (p : Bytes) → t < 2 ^ 32 → length p + 8 < 2 ^ 16 → IsWf (sealed t p)
unfolding has_sequence
sealed-IsWf t p ht hp = record {
  size_counts = refl;
  size_fits = omega arith;
  teid_fits = ht;
  seq_fits = omega arith;
  no_seq = λ e. refl;
  reserved_zero = refl;
}

marshal_tpdu-to :
    (h : Header)
    → marshal_tpdu h ≡ (
        if ltb (length (make (marshal_len h))) (marshal_len h)
        then err too_short_to_marshal
        else marshal_to (set_length h) (make (marshal_len h)))
unfolding marshal_tpdu
marshal_tpdu-to h = refl

marshal-to : (h : Header) → marshal_to h (make (marshal_len h)) ≡ ok (wire h)
unfolding marshal
marshal-to h = marshal-wire_v1 h

-- A T-PDU whose length is set already is encoded as its header is.
marshal_tpdu-octets : (h : Header) → set_length h ≡ h → marshal_tpdu h ≡ ok (wire h)
marshal_tpdu-octets h e =
    let n = marshal_len h in
    let b = make n in
    marshal_tpdu-to h
    ∙ rw (le→ltb (length b) n (omega (arith, length-replicate {A = ℕ} n 0)))
        (ap (λ k. marshal_to k b) e ∙ marshal-to h)

marshal-encapsulate :
    (t : ℕ) (p : Bytes)
    → length p < 2 ^ 16
    → marshal_tpdu (encapsulate t p) ≡ ok (wire (sealed t p))
unfolding marshal_len has_sequence set_length
marshal-encapsulate t p h =
    let n : (length p + 8 - 8) % 2 ^ 16 ≡ length p = omega arith in
    rw (encapsulate-sealed t p h) (marshal_tpdu-octets (sealed t p) (rw n refl))

length-sealed : (t : ℕ) (p : Bytes) → length (wire (sealed t p) ++ []) ≡ 8 + length p
unfolding has_sequence
length-sealed t p = rw append-nil (omega (arith, length-append (head (sealed t p)) p))

parse_header-sealed :
    (t : ℕ) (p : Bytes)
    → t < 2 ^ 32
    → 3 ≤ length p
    → length p + 8 < 2 ^ 16
    → parse_header (wire (sealed t p)) ≡ ok (sealed t p)
parse_header-sealed t p ht lo hi =
    subst (λ b. parse_header b ≡ ok (sealed t p)) (append-nil (wire (sealed t p)))
      (parse_header-wire_v1 (sealed t p) [] (sealed-IsWf t p ht hi)
        (omega (arith, length-sealed t p)))

-- Decapsulate takes the TEID and the payload out of what Marshal makes of an encapsulated packet,
-- if the TEID has 32 bits, and the payload has three octets at least and with eight octets more is
-- shorter than 2 ^ 16.
pub decapsulate-encapsulate :
    (t : ℕ) (p : Bytes)
    → t < 2 ^ 32
    → 3 ≤ length p
    → length p + 8 < 2 ^ 16
    → (marshal_tpdu (encapsulate t p) >>= decapsulate) ≡ ok (t, p)
unfolding decapsulate
decapsulate-encapsulate t p ht lo hi =
    rw (marshal-encapsulate t p (omega arith))
      (ap (λ m. m >>= taken) (parse_header-sealed t p ht lo hi))

-- A packet with fewer than three octets of payload is encapsulated, and not decapsulated again.
pub decapsulate-encapsulate_short :
    (t : ℕ) (p : Bytes)
    → length p < 3
    → (marshal_tpdu (encapsulate t p) >>= decapsulate) ≡ err too_short_to_parse
unfolding decapsulate parse_header
decapsulate-encapsulate_short t p h =
    let few =
      lt→ltb (length (wire (sealed t p))) 11
        (omega (arith, rw append-nil at (length-sealed t p))) in
    rw (marshal-encapsulate t p (omega arith), few) refl

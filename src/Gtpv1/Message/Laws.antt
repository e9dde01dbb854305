-- ===== src/Gtpv1/Message/Laws.antt =====
-- The messages of gtpv1/message through New, Marshal and UnmarshalBinary.
use go_gtp.Common.{
  ℕ, ◌+◌, ◌^◌, ◌≤◌, ◌<◌, true, List, [], append-nil, ◌≡◌, refl, inl, inr, sym, ap, ◌∙◌, Bool-cases,
  All, length, length-append, arith,
}
use go_gtp.Common.Outcome.{ok, ◌>>=◌}
use go_gtp.Common.Bytes.{Bytes, make}
use go_gtp.Message
use go_gtp.Message.{Layout, Message, marshal, parse}
use go_gtp.Message.Collect.{collect-AllHeld}
use go_gtp.Message.Write.{Laws}
use go_gtp.Message.Marshal.{filled_len}
use go_gtp.Message.RoundTrip.{IsConsistent, sent_header, parse-marshal_elements, collect-new_fields}
use go_gtp.Message.{Fields}
use go_gtp.Tlv.{Ie, marshal_len}
use go_gtp.Tlv.Decode.{wire, length-wire_form}
use go_gtp.Tlv.Write.{IsSent, marshal_to-form, parse_multi_ies-octets}
use go_gtp.Gtpv1.Ie.{tv_length_map, tv_length_map-IsTvTable}
use go_gtp.Gtpv1.Header
use go_gtp.Gtpv1.Header.{Header, has_sequence, new_header, set_length}
use go_gtp.Gtpv1.Header.Codec
use go_gtp.Gtpv1.Header.Codec.{head, marshal-wire_v1}
use go_gtp.Gtpv1.Header.RoundTrip
use go_gtp.Gtpv1.Header.RoundTrip.{parse_header-wire_v1}
use go_gtp.Gtpv1.Message.{gtpv1, new_message}

pub two_octets : (i : Ie) → IsSent tv_length_map i → 2 ≤ marshal_len tv_length_map i
two_octets i (w, two) = omega (arith, length-wire_form tv_length_map i w)

pub head_len : (h : Header) → Header.marshal_len h ≡ length (head h) + length h.payload
unfolding Header.marshal_len
head_len h = elim (Bool-cases (has_sequence h)) [
  | inl e ↦ rw e (omega arith)
  | inr e ↦ rw e (omega arith)
]

pub head_same :
    (h : Header) (q : Bytes) → length (head (record h { payload = q })) ≡ length (head h)
unfolding has_sequence
head_same h q = refl

pub length_same : (h : Header) → length (head (set_length h)) ≡ length (head h)
unfolding has_sequence set_length
length_same h = refl

pub payload_same : (h : Header) → (set_length h).payload ≡ h.payload
unfolding set_length
payload_same h = refl

pub header_written :
    (h : Header) → Header.marshal_to h (make (Header.marshal_len h)) ≡ ok (Codec.wire h)
unfolding Header.marshal
header_written h = marshal-wire_v1 h

-- The header is well formed, and long enough for UnmarshalBinary.
abbrev pub ReadsBack : Header → Type 0
ReadsBack h = RoundTrip.IsWf h × (11 ≤ length (Codec.wire h))

pub header_read : (h : Header) → ReadsBack h → Header.parse_header (Codec.wire h) ≡ ok h
header_read h (w, long) =
    ap Header.parse_header (sym (append-nil (Codec.wire h)))
    ∙ parse_header-wire_v1 h [] w (omega (arith, long, length-append (Codec.wire h) []))

abbrev pub laws : Laws gtpv1
laws = record {
  IsWf = IsSent tv_length_map;
  wire = wire;
  head = head;
  ReadsBack = ReadsBack;
  wire_len = λ i w. length-wire_form tv_length_map i w.0;
  two_octets = λ i w. two_octets i w;
  element_written = λ i b w h. marshal_to-form tv_length_map i b w.0 h;
  elements_read = parse_multi_ies-octets tv_length_map tv_length_map-IsTvTable;
  head_len = head_len;
  head_same = head_same;
  length_same = length_same;
  payload_back = λ h q. refl;
  payload_twice = λ h q r. refl;
  payload_same = payload_same;
  header_written = header_written;
  header_read = header_read;
}

size_counts :
    (h : Header)
    → Header.marshal_len (set_length h) < 2 ^ 16
    → has_sequence (set_length h) ≡ true
    → ((set_length h).size ≡ RoundTrip.counted (set_length h))
      × ((set_length h).size + 8 ≡ Header.marshal_len (set_length h))
unfolding Header.marshal_len set_length has_sequence
size_counts h fits numbered = ground arith

module _ (code teid seq : ℕ) (l : Layout) (is : List Ie) where
  abbrev made : Message gtpv1
  made = new_message code l teid seq is

  abbrev pub sent_v1 : Header
  sent_v1 = sent_header gtpv1 laws l (new_header 0x32 code teid seq []) is

  numbered : has_sequence sent_v1 ≡ true
  unfolding has_sequence Message.new Message.set_length new_header set_length
  numbered = refl

  sent_len :
      All (IsSent tv_length_map) is → Header.marshal_len sent_v1 ≡ Message.marshal_len gtpv1 l made
  unfolding new_message Message.new Message.set_length
  sent_len w =
      filled_len gtpv1 laws l made
        (collect-AllHeld gtpv1 (IsSent tv_length_map) l.new_rules is _ w (λ f. tt))

  sent-IsWf :
      teid < 2 ^ 32 → seq < 2 ^ 16 → Header.marshal_len sent_v1 < 2 ^ 16 → RoundTrip.IsWf sent_v1
  unfolding Message.new Message.set_length new_header set_length
  sent-IsWf ht hs fits =
      let (counts, total) = size_counts _ fits numbered in
      record {
        size_counts = counts;
        size_fits = omega (arith, total);
        teid_fits = ht;
        seq_fits = hs;
        no_seq = λ e. let n = numbered in cc;
        reserved_zero = refl;
      }

  fresh : (made.header).payload ≡ []
  unfolding new_message Message.new Message.set_length new_header set_length
  fresh = refl

  wire_long : 12 ≤ length (Codec.wire sent_v1)
  wire_long = let n = numbered in rw n (omega (arith, length-append (head sent_v1) sent_v1.payload))

  -- For a consistent layout: a message that is made by the constructor is marshalled and parsed to
  -- the fields that the constructor has filled, with the header that MarshalTo left, if the numbers
  -- fit, the elements are well formed and have two octets at least, and the message takes fewer
  -- than 2 ^ 16 octets.
  pub parse-marshal_message_v1 :
      teid < 2 ^ 32
      → seq < 2 ^ 16
      → IsConsistent l
      → All (IsSent tv_length_map) is
      → Message.marshal_len gtpv1 l made < 2 ^ 16
      → (marshal gtpv1 l made >>= λ b. parse gtpv1 l b)
        ≡ ok (record { header = sent_v1; fields = made.fields })
  unfolding new_message
  parse-marshal_message_v1 ht hs c w fits =
      let n = sent_len w in
      parse-marshal_elements gtpv1 laws l (new_header 0x32 code teid seq []) is c.same_order
        c.least_two w (inr fresh) (sent-IsWf ht hs (omega arith), omega (arith, wire_long))
      ∙ ap (λ (s : Fields gtpv1). ok (record { header = sent_v1; fields = s }))
          (collect-new_fields gtpv1 laws l (new_header 0x32 code teid seq []) is c)

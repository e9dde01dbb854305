-- ===== src/Gtpv0/Message/Laws.antt =====
-- The messages of gtpv0/message through New, Marshal and UnmarshalBinary.
use go_gtp.Common.{
  ℕ, ◌+◌, ◌^◌, ◌≤◌, ◌<◌, List, [], ◌≡◌, refl, inr, sym, ap, ◌∙◌, All, length, arith,
}
use go_gtp.Common.Outcome.{ok, ◌>>=◌}
use go_gtp.Common.Bytes.{make}
use go_gtp.Message
use go_gtp.Message.{Layout, Message, Fields, marshal, parse}
use go_gtp.Message.Collect.{collect-AllHeld}
use go_gtp.Message.Write.{Laws}
use go_gtp.Message.Marshal.{filled_len}
use go_gtp.Message.RoundTrip.{IsConsistent, sent_header, parse-marshal_elements, collect-new_fields}
use go_gtp.Tlv.{Ie, marshal_len}
use go_gtp.Tlv.Decode.{wire, length-wire_form}
use go_gtp.Tlv.Write.{IsSent, marshal_to-form, parse_multi_ies-octets}
use go_gtp.Gtpv0.Ie.{tv_length_map, tv_length_map-IsTvTable}
use go_gtp.Gtpv0.Header
use go_gtp.Gtpv0.Header.{Header, new_header, set_length}
use go_gtp.Gtpv0.Header.Codec
use go_gtp.Gtpv0.Header.Codec.{head, marshal-wire_v0, parse_header-wire_v0}
use go_gtp.Gtpv0.Message.{gtpv0, new_message}

pub two_octets : (i : Ie) → IsSent tv_length_map i → 2 ≤ marshal_len tv_length_map i
two_octets i (w, two) = omega (arith, length-wire_form tv_length_map i w)

pub head_len : (h : Header) → Header.marshal_len h ≡ length (head h) + length h.payload
unfolding Header.marshal_len
head_len h = refl

pub payload_same : (h : Header) → (set_length h).payload ≡ h.payload
unfolding set_length
payload_same h = refl

pub header_written :
    (h : Header) → Header.marshal_to h (make (Header.marshal_len h)) ≡ ok (Codec.wire h)
unfolding Header.marshal
header_written h = marshal-wire_v0 h

-- The header is well formed, and has the only SNDCP number that is read back.
abbrev pub ReadsBack : Header → Type 0
ReadsBack h = Codec.IsWf h × (h.sndcp_number ≡ 0xff)

pub header_read : (h : Header) → ReadsBack h → Header.parse_header (Codec.wire h) ≡ ok h
header_read h (w, e) = parse_header-wire_v0 h w ∙ λ i. ok (record h { sndcp_number = sym e i })

abbrev pub laws : Laws gtpv0
laws = record {
  IsWf = IsSent tv_length_map;
  wire = wire;
  head = head;
  ReadsBack = ReadsBack;
  wire_len = λ i w. length-wire_form tv_length_map i w.0;
  two_octets = two_octets;
  element_written = λ i b w h. marshal_to-form tv_length_map i b w.0 h;
  elements_read = parse_multi_ies-octets tv_length_map tv_length_map-IsTvTable;
  head_len = head_len;
  head_same = λ h q. refl;
  length_same = λ h. refl;
  payload_back = λ h q. refl;
  payload_twice = λ h q r. refl;
  payload_same = payload_same;
  header_written = header_written;
  header_read = header_read;
}

module _ (code seq label tid : ℕ) (l : Layout) (is : List Ie) where
  abbrev made : Message gtpv0
  made = new_message code l seq label tid is

  abbrev pub sent_v0 : Header
  sent_v0 = sent_header gtpv0 laws l (new_header 0x1e code seq label tid []) is

  sent_len :
      All (IsSent tv_length_map) is → Header.marshal_len sent_v0 ≡ Message.marshal_len gtpv0 l made
  unfolding new_message Message.new Message.set_length
  sent_len w =
      filled_len gtpv0 laws l made
        (collect-AllHeld gtpv0 (IsSent tv_length_map) l.new_rules is _ w (λ f. tt))

  sent-IsWf :
      seq < 2 ^ 16
      → label < 2 ^ 16
      → tid < 2 ^ 64
      → Header.marshal_len sent_v0 < 2 ^ 16
      → Codec.IsWf sent_v0 × (sent_v0.sndcp_number ≡ 0xff)
  unfolding Message.new Message.set_length new_header set_length Header.marshal_len
  sent-IsWf hs hl ht fits = (
    record {
      size_counts = omega arith;
      size_fits = omega arith;
      seq_fits = hs;
      label_fits = hl;
      sndcp_fits = omega arith;
      tid_fits = ht;
    },
    refl,
  )

  fresh : (made.header).payload ≡ []
  unfolding new_message Message.new Message.set_length new_header set_length
  fresh = refl

  -- For a consistent layout: a message that is made by the constructor is marshalled and parsed to
  -- the fields that the constructor has filled, with the header that MarshalTo left, if the numbers
  -- fit, the elements are well formed and have two octets at least, and the message takes fewer
  -- than 2 ^ 16 octets.
  pub parse-marshal_message_v0 :
      seq < 2 ^ 16
      → label < 2 ^ 16
      → tid < 2 ^ 64
      → IsConsistent l
      → All (IsSent tv_length_map) is
      → Message.marshal_len gtpv0 l made < 2 ^ 16
      → (marshal gtpv0 l made >>= λ b. parse gtpv0 l b)
        ≡ ok (record { header = sent_v0; fields = made.fields })
  unfolding new_message
  parse-marshal_message_v0 hs hl ht c w fits =
      let n = sent_len w in
      parse-marshal_elements gtpv0 laws l (new_header 0x1e code seq label tid []) is c.same_order
        c.least_two w (inr fresh) (sent-IsWf hs hl ht (omega arith))
      ∙ ap (λ (s : Fields gtpv0). ok (record { header = sent_v0; fields = s }))
          (collect-new_fields gtpv0 laws l (new_header 0x1e code seq label tid []) is c)

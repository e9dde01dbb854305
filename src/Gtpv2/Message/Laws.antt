-- ===== src/Gtpv2/Message/Laws.antt =====
-- The messages of gtpv2/message through New, Marshal and Parse, for every layout.
use go_gtp.Common.{
  map, ℕ, ◌+◌, ◌^◌, ◌≤◌, ◌<◌, true, false, List, [], ◌∷◌, ◌++◌, append-nil, ◌≡◌, refl, inl, inr,
  sym, ap, ◌∙◌, Bool-cases, All, length, length-append, arith, ◌==◌,
}
use go_gtp.Common.Outcome.{ok, ◌>>=◌, fmap}
use go_gtp.Common.Bytes.{Bytes, make}
use go_gtp.Message.{Layout, Message, Fields, blank, collect, write, marshal, parse}
use go_gtp.Message.Stable.{flatten}
use go_gtp.Message.Collect.{collect-AllHeld}
use go_gtp.Message.Write.{Laws, octets}
use go_gtp.Message.Marshal.{filled_len}
use go_gtp.Message.RoundTrip.{IsConsistent, sent_header, parse-marshal_elements, collect-new_fields}
use go_gtp.Message
use go_gtp.Gtpv2.Ie
use go_gtp.Gtpv2.Ie.{Ies, nil, cons, marshal_to, parse_multi_ies}
use go_gtp.Gtpv2.Ie.Wire
use go_gtp.Gtpv2.Ie.Wire.{IsWf, wire, wires, length-wire}
use go_gtp.Gtpv2.Ie.Encode.{marshal_to-wire, four_le-marshal_len}
use go_gtp.Gtpv2.Ie.RoundTrip.{parse_multi_ies-wires}
use go_gtp.Gtpv2.Header
use go_gtp.Gtpv2.Header.{Header, has_teid, new_header, new_header_flags, set_length}
use go_gtp.Gtpv2.Header.Codec
use go_gtp.Gtpv2.Header.Codec.{head, marshal-wire_header}
use go_gtp.Gtpv2.Header.RoundTrip
use go_gtp.Gtpv2.Header.RoundTrip.{parse_header-wire}
use go_gtp.Utils.{uint32_to_24}
use go_gtp.Gtpv2.Header.Flags.{new_header-flags, new_header_flags_lem}
use go_gtp.Gtpv2.Message.{gtpv2, to_list, new_message}

abbrev to_ies : List Ie.Ie → Ies
to_ies [] = nil
to_ies (i ∷ is) = cons i (to_ies is)

to_list-to_ies : (is : List Ie.Ie) → to_list (to_ies is) ≡ is
to_list-to_ies [] = refl
to_list-to_ies (i ∷ is) = ap (λ (x : List Ie.Ie). i ∷ x) (to_list-to_ies is)

octets-wires : (is : List Ie.Ie) → octets wire is ≡ wires (to_ies is)
unfolding wires
octets-wires [] = refl
octets-wires (i ∷ is) = ap (λ (b : Bytes). wire i ++ b) (octets-wires is)

All-to_ies : (is : List Ie.Ie) → All IsWf is → Wire.AllWf (to_ies is)
All-to_ies [] w = tt
All-to_ies (i ∷ is) (w, ws) = (w, All-to_ies is ws)

pub elements_read :
    (is : List Ie.Ie) → All IsWf is → fmap to_list (parse_multi_ies (octets wire is)) ≡ ok is
elements_read is w =
    rw (octets-wires is, parse_multi_ies-wires (to_ies is) (All-to_ies is w), to_list-to_ies is)
      refl

pub two_octets : (i : Ie.Ie) → 2 ≤ Ie.marshal_len i
two_octets i = omega (arith, four_le-marshal_len i)

pub head_len : (h : Header) → Header.marshal_len h ≡ length (head h) + length h.payload
unfolding Header.marshal_len uint32_to_24
head_len h = elim (Bool-cases (has_teid h)) [
  | inl e ↦ rw e (omega arith)
  | inr e ↦ rw e (omega arith)
]

pub head_same :
    (h : Header) (q : Bytes) → length (head (record h { payload = q })) ≡ length (head h)
unfolding has_teid
head_same h q = refl

pub length_same : (h : Header) → length (head (set_length h)) ≡ length (head h)
unfolding has_teid set_length
length_same h = refl

pub payload_same : (h : Header) → (set_length h).payload ≡ h.payload
unfolding set_length
payload_same h = refl

abbrev pub ReadsBack : Header → Type 0
ReadsBack h = RoundTrip.IsWf h × (12 ≤ length (Codec.wire h))

pub header_read : (h : Header) → ReadsBack h → Header.parse_header (Codec.wire h) ≡ ok h
header_read h (w, long) =
    ap Header.parse_header (sym (append-nil (Codec.wire h)))
    ∙ parse_header-wire h [] w (omega (arith, long, length-append (Codec.wire h) []))

pub header_written :
    (h : Header) → Header.marshal_to h (make (Header.marshal_len h)) ≡ ok (Codec.wire h)
unfolding Header.marshal
header_written h = marshal-wire_header h

abbrev pub laws : Laws gtpv2
laws = record {
  IsWf = IsWf;
  wire = wire;
  head = head;
  ReadsBack = ReadsBack;
  wire_len = λ i w. length-wire i;
  two_octets = λ i w. two_octets i;
  element_written = λ i b w h. marshal_to-wire i b h;
  elements_read = elements_read;
  head_len = head_len;
  head_same = head_same;
  length_same = length_same;
  payload_back = λ h q. refl;
  payload_twice = λ h q r. refl;
  payload_same = payload_same;
  header_written = header_written;
  header_read = header_read;
}

-- SetLength of a header that fits counts what follows its first four octets.
size_counts :
    (h : Header)
    → Header.marshal_len (set_length h) < 2 ^ 16
    → ((set_length h).size ≡ RoundTrip.counted (set_length h))
      × ((set_length h).size + 4 ≡ Header.marshal_len (set_length h))
unfolding Header.marshal_len set_length has_teid
size_counts h fits = ground arith

-- A message of one layout, made by the constructor.
module _ (flag code teid seq : ℕ) (l : Layout) (is : List Ie.Ie) where
  abbrev made : Message gtpv2
  made = new_message flag code l teid seq is

  abbrev pub sent : Header
  sent = sent_header gtpv2 laws l (new_header (new_header_flags 2 0 flag) code teid seq []) is

  sent-flag : flag < 2 → has_teid sent ≡ (flag == 1)
  unfolding has_teid Message.new Message.set_length new_header set_length
  sent-flag hf =
      let (e, e1, e2) = new_header-flags 2 0 flag code teid seq [] (omega arith) (omega arith) hf in
      e

  no_teid : (flag ≡ 0 → teid ≡ 0) → (flag == 1) ≡ false → flag < 2 → teid ≡ 0
  no_teid h e f = h (ground arith)

  flags_octet : flag < 2 → new_header_flags 2 0 flag < 256
  flags_octet hf = omega (arith, new_header_flags_lem 2 0 flag (omega arith) (omega arith) hf)

  sent_len : All IsWf is → Header.marshal_len sent ≡ Message.marshal_len gtpv2 l made
  unfolding new_message Message.new Message.set_length
  sent_len w =
      filled_len gtpv2 laws l made (collect-AllHeld gtpv2 IsWf l.new_rules is _ w (λ f. tt))

  sent-IsWf :
      flag < 2
      → code < 256
      → teid < 2 ^ 32
      → seq < 2 ^ 24
      → (flag ≡ 0 → teid ≡ 0)
      → Header.marshal_len sent < 2 ^ 16
      → RoundTrip.IsWf sent
  unfolding Message.new Message.set_length new_header set_length
  sent-IsWf hf hc ht hs h0 fits =
      let (counts, total) = size_counts _ fits in
      record {
        flags_fit = flags_octet hf;
        kind_fits = hc;
        size_counts = counts;
        size_fits = omega (arith, total);
        teid_fits = ht;
        no_teid = λ e. no_teid h0 (sym (sent-flag hf) ∙ e) hf;
        seq_fits = hs;
        spare_fits = omega arith;
      }

  -- A message whose fields fit is made, marshalled and parsed from the elements of its fields.
  pub parse-marshal_any :
      flag < 2
      → code < 256
      → teid < 2 ^ 32
      → seq < 2 ^ 24
      → (flag ≡ 0 → teid ≡ 0)
      → l.items ≡ map write l.counts
      → l.least ≤ 2
      → l.resets ≡ true
      → All IsWf is
      → Message.marshal_len gtpv2 l made < 2 ^ 16
      → 12 ≤ Message.marshal_len gtpv2 l made
      → (marshal gtpv2 l made >>= λ b. parse gtpv2 l b)
        ≡ ok (record {
          header = sent;
          fields = collect gtpv2 l.parse_rules (flatten gtpv2 l.counts made.fields) (blank gtpv2);
        })
  unfolding new_message
  parse-marshal_any hf hc ht hs h0 order least reset w fits long =
      let n = sent_len w in
      parse-marshal_elements gtpv2 laws l (new_header (new_header_flags 2 0 flag) code teid seq [])
        is order least w (inl reset)
        (
          sent-IsWf hf hc ht hs h0 (omega arith),
          omega (arith, head_len sent, length-append (head sent) sent.payload),
        )

  -- A consistent message whose fields fit is made, marshalled and parsed to the same fields, with
  -- the header that MarshalTo left.
  pub parse-marshal_new :
      flag < 2
      → code < 256
      → teid < 2 ^ 32
      → seq < 2 ^ 24
      → (flag ≡ 0 → teid ≡ 0)
      → IsConsistent l
      → l.resets ≡ true
      → All IsWf is
      → Message.marshal_len gtpv2 l made < 2 ^ 16
      → 12 ≤ Message.marshal_len gtpv2 l made
      → (marshal gtpv2 l made >>= λ b. parse gtpv2 l b)
        ≡ ok (record { header = sent; fields = made.fields })
  unfolding new_message
  parse-marshal_new hf hc ht hs h0 c reset w fits long =
      parse-marshal_any hf hc ht hs h0 c.same_order c.least_two reset w fits long
      ∙ ap (λ (s : Fields gtpv2). ok (record { header = sent; fields = s }))
          (collect-new_fields gtpv2 laws l (new_header (new_header_flags 2 0 flag) code teid seq [])
            is c)

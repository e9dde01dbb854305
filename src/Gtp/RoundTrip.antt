-- ===== src/Gtp/RoundTrip.antt =====
-- Parse of gtp.go on what Marshal of the messages of each version returns.
use go_gtp.Common.{
  ℕ, zero, suc, ◌/◌, ◌^◌, ◌≤◌, ◌<◌, false, ◌==◌, ◌≡◌, refl, sym, ap, ◌∙◌, List, ◌++◌, inl, inr,
  Bool-cases, All, length, le→ltb, arith,
}
use go_gtp.Common.Outcome.{Outcome, ok, ◌>>=◌}
use go_gtp.Common.Bytes.{Bytes, index}
use go_gtp.Message
use go_gtp.Message.{Layout, marshal, marshal_len}
use go_gtp.Message.Marshal.{filled_header, wire_message}
use go_gtp.Utils.{uint32_to_24}
use go_gtp.Tlv.{Ie}
use go_gtp.Tlv.Write.{IsSent}
use go_gtp.Gtpv1.Ie.{tv_length_map}
use go_gtp.Gtpv1.Header
use go_gtp.Gtpv1.Header.Codec
use go_gtp.Gtpv1.Message as M1
use go_gtp.Gtpv1.Message.Laws as L1
use go_gtp.Gtpv1.Message.Dispatch as V1
use go_gtp.Gtpv1.Message.RoundTrip as R1
use go_gtp.Gtpv2.Ie as I2
use go_gtp.Gtpv2.Ie.Wire as W2
use go_gtp.Gtpv2.Header as H2
use go_gtp.Gtpv2.Header.Codec as C2
use go_gtp.Gtpv2.Message as M2
use go_gtp.Gtpv2.Message.Laws as L2
use go_gtp.Gtpv2.Message.Dispatch as V2
use go_gtp.Gtpv2.Message.RoundTrip as R2
use go_gtp.Gtp.{Message, version_1, version_2, by_version, parse}

-- Parse of octets, by their first.
parse-front :
    (o : Outcome Bytes) (b : Bytes) (x : ℕ) (r : Outcome Message)
    → o ≡ ok b
    → index b 0 ≡ ok x
    → 8 ≤ length b
    → by_version (x / 32) b ≡ r
    → (o >>= λ y. parse y) ≡ r
unfolding parse
parse-front o b x r e front long chosen =
    ap (λ (p : Outcome Bytes). p >>= λ y. parse y) e
    ∙ rw (le→ltb (length b) 8 long)
        (ap (λ (p : Outcome ℕ). p >>= λ first. by_version (first / 32) b) front ∙ chosen)

front_v1 :
    (code teid seq : ℕ) (l : Layout) (is : List Ie) (rest : Bytes)
    → index
        (Codec.head (filled_header M1.gtpv1 L1.laws l (M1.new_message code l teid seq is)) ++ rest)
        0
      ≡ ok 0x32
unfolding index M1.new_message Message.new Message.set_length Header.new_header Header.set_length
front_v1 code teid seq l is rest = refl

long_v1 : (h : Header.Header) (rest : Bytes) → 8 ≤ length (Codec.head h ++ rest)
long_v1 h rest = omega arith

-- Parse of what Marshal of a message of version 1 returns chooses version 1, and finds there the type
-- of the message by its code and the fields that the constructor has filled, with the header that
-- MarshalTo left, for every code but 255 and those that create or update a PDP context: if the
-- numbers fit, the elements are well formed and have two octets at least, and the message takes
-- fewer than 2 ^ 16 octets.
pub parse-marshal-version_1 :
    (code teid seq : ℕ) (is : List Ie)
    → teid < 2 ^ 32
    → seq < 2 ^ 16
    → R1.chained code ≡ false
    → (code == 255) ≡ false
    → All (IsSent tv_length_map) is
    → marshal_len M1.gtpv1 (V1.layout_of code) (R1.made code teid seq is) < 2 ^ 16
    → (marshal M1.gtpv1 (V1.layout_of code) (R1.made code teid seq is) >>= λ b. parse b)
      ≡ ok (
          version_1 (
            V1.signalling (V1.layout_of code) (record {
              header = L1.sent_v1 code teid seq (V1.layout_of code) is;
              fields = (R1.made code teid seq is).fields;
            })))
parse-marshal-version_1 code teid seq is ht hs faithful ne w fits =
    let l = V1.layout_of code in
    let e = R1.marshal_made code teid seq l is (R1.layout_of-IsConsistent code faithful) w in
    let back = R1.parse-marshal-made_v1 code teid seq is ht hs faithful ne w fits in
    parse-front _ _ 0x32 _ e (front_v1 code teid seq l is _) (long_v1 _ _) (
      ap (λ (p : Outcome V1.Parsed). p >>= λ m. ok (version_1 m))
        (sym (ap (λ (o : Outcome Bytes). o >>= λ b. V1.parse b) e) ∙ back))

version_of_flags : (flag : ℕ) → flag < 2 → H2.new_header_flags 2 0 flag / 32 ≡ 2
unfolding H2.new_header_flags
version_of_flags zero h = refl
version_of_flags (suc zero) h = refl
version_of_flags (suc (suc n)) h = absurd (omega arith)

front_v2 :
    (flag code teid seq : ℕ) (l : Layout) (is : List I2.Ie) (rest : Bytes)
    → index
        (C2.head (filled_header M2.gtpv2 L2.laws l (M2.new_message flag code l teid seq is))
          ++ rest)
        0
      ≡ ok (H2.new_header_flags 2 0 flag)
unfolding index M2.new_message Message.new Message.set_length H2.new_header H2.set_length
front_v2 flag code teid seq l is rest = refl

long_v2 : (h : H2.Header) (rest : Bytes) → 8 ≤ length (C2.head h ++ rest)
unfolding uint32_to_24
long_v2 h rest = elim (Bool-cases (H2.has_teid h)) [
  | inl e ↦ rw e (omega arith)
  | inr e ↦ rw e (omega arith)
]

-- Parse of what Marshal of a message of version 2 returns chooses version 2, and finds there the type
-- of the message by its code and the fields that the constructor has filled, for every message type
-- but the three lossy ones: if the numbers fit their fields, a message without TEID is given none,
-- the elements are well formed, and the message takes 12 to 65535 octets.
pub parse-marshal-version_2 :
    (code teid seq : ℕ) (is : List I2.Ie)
    → code < 256
    → teid < 2 ^ 32
    → seq < 2 ^ 24
    → R2.lossy code ≡ false
    → ((V2.kind_of code).flag ≡ 0 → teid ≡ 0)
    → All W2.IsWf is
    → marshal_len M2.gtpv2 (V2.kind_of code).layout (R2.made code teid seq is) < 2 ^ 16
    → 12 ≤ marshal_len M2.gtpv2 (V2.kind_of code).layout (R2.made code teid seq is)
    → (marshal M2.gtpv2 (V2.kind_of code).layout (R2.made code teid seq is) >>= λ b. parse b)
      ≡ ok (
          version_2 (record {
            kind = V2.kind_of code;
            message = record {
              header = L2.sent (V2.kind_of code).flag code teid seq (V2.kind_of code).layout is;
              fields = (R2.made code teid seq is).fields;
            };
          }))
parse-marshal-version_2 code teid seq is hc ht hs faithful h0 w fits long =
    let k = V2.kind_of code in
    let e = R2.marshal-made code teid seq is faithful w in
    let b = wire_message M2.gtpv2 L2.laws k.layout (R2.made code teid seq is) in
    let back = R2.parse-marshal-made code teid seq is hc ht hs faithful h0 w fits long in
    parse-front _ _ (H2.new_header_flags 2 0 k.flag) _ e
      (front_v2 k.flag code teid seq k.layout is _) (long_v2 _ _)
      (ap (λ (v : ℕ). by_version v b) (version_of_flags k.flag (R2.kind_of-flag code))
        ∙ ap (λ (p : Outcome V2.Parsed). p >>= λ m. ok (version_2 m))
            (sym (ap (λ (o : Outcome Bytes). o >>= λ b. V2.parse b) e) ∙ back))

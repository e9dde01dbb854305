-- ===== src/Gtpv2/Message/Loss.antt =====
-- The messages of gtpv2/message that lose elements: ContextResponse, CreateSessionRequest and
-- CreateBearerResponse.
use Prim.Native.String.{String}
use go_gtp.Common.{
  ℕ, ◌<◌, ◌^◌, ◌==◌, ◌≤◌, false, List, [], ◌∷◌, ◌++◌, ◌≡◌, refl, inl, ap, ◌∙◌, arith,
}
use go_gtp.Common.Outcome.{ok, ◌>>=◌}
use go_gtp.Common.Bytes.{Bytes}
use go_gtp.Message
use go_gtp.Message.{
  Action, append, drop, Layout, Message, Fields, assign, run, choose, blank, collect, fields_len,
  elements_len, marshal_len,
}
use go_gtp.Message.Stable.{flatten}
use go_gtp.Gtpv2.Ie.Types
use go_gtp.Message.Loss.{
  parse-fields, fields_len-append, collect-spares, overwritten, write_items-overwritten,
  length-overwritten,
}
use go_gtp.Message.Write.{AllWf}
use go_gtp.Message.Marshal.{filled_with, marshal-payload}
use go_gtp.Gtpv2.Ie.{Ie, type_of, get_instance}
use go_gtp.Gtpv2.Ie.Wire.{IsWf}
use go_gtp.Gtpv2.Header.Codec.{head}
use go_gtp.Gtpv2.Message.{gtpv2, new_message}
use go_gtp.Gtpv2.Message.Laws.{laws, sent, parse-marshal_any}
use go_gtp.Gtpv2.Message.ContextResponse
use go_gtp.Gtpv2.Message.CreateSessionRequest
use go_gtp.Gtpv2.Message.CreateBearerResponse

-- The constructor of ContextResponse never sets UEMMContext, whatever the elements.
pub new-uemm_context :
    (teid seq : ℕ) (is : List Ie) → (ContextResponse.new teid seq is).fields "UEMMContext" ≡ []
unfolding ContextResponse.new Message.new Message.set_length
new-uemm_context teid seq is =
    collect-spares gtpv2 "UEMMContext" ContextResponse.new_rules is (blank gtpv2) refl refl

-- Nor does UnmarshalBinary set it, on whatever octets it returns a message.
pub parse-uemm_context :
    (b : Bytes) (m : Message gtpv2) → ContextResponse.parse b ≡ ok m → m.fields "UEMMContext" ≡ []
unfolding ContextResponse.parse
parse-uemm_context b m e =
    let (is, same) = parse-fields gtpv2 ContextResponse.layout b m e in
    ap (λ (s : Fields gtpv2). s "UEMMContext") same
    ∙ collect-spares gtpv2 "UEMMContext" ContextResponse.parse_rules is (blank gtpv2) refl refl

abbrev but_two : List String → List String
but_two [] = []
but_two (x ∷ []) = []
but_two (x ∷ y ∷ []) = []
but_two (x ∷ y ∷ z ∷ rest) = x ∷ but_two (y ∷ z ∷ rest)

-- The fields of CreateSessionRequest in the order of MarshalTo, before PrivateExtension and
-- AdditionalIEs.
abbrev pub front : List String
front = but_two CreateSessionRequest.counts

-- MarshalTo of CreateSessionRequest writes the elements of AdditionalIEs over PrivateExtension: the
-- payload of a message of well-formed elements is that of the fields before, then the octets of
-- AdditionalIEs over those of PrivateExtension, with zeros where the payload is longer.
pub marshal-overwritten :
    (m : Message gtpv2)
    → AllWf gtpv2 laws m.fields
    → let q = overwritten gtpv2 laws front "PrivateExtension" "AdditionalIEs" m.fields in
      CreateSessionRequest.marshal m ≡ ok (head (filled_with gtpv2 laws q m.header) ++ q)
unfolding CreateSessionRequest.marshal
marshal-overwritten m w =
    let s = m.fields in
    let f : String = "PrivateExtension" in
    let g : String = "AdditionalIEs" in
    let split = fields_len-append gtpv2 front (f ∷ g ∷ []) s in
    marshal-payload gtpv2 laws CreateSessionRequest.layout m _
      (write_items-overwritten gtpv2 laws front f g s _ w (omega (arith, split)))
      (omega (arith, split, length-overwritten gtpv2 laws front f g s w)) (inl refl)

module _ (n : ℕ) (h : 4 ≤ n) where
  abbrev Kept : Type 0
  Kept = choose CreateBearerResponse.new_rules Types.fully_qualified_csid n ≡ append "AdditionalIEs"

  far : (k : ℕ) → k < 4 → (k == n) ≡ false
  far k below = ground arith

  new-kept : Kept
  new-kept =
      rw (far 0 (omega arith), far 1 (omega arith), far 2 (omega arith), far 3 (omega arith)) refl

  parse-dropped : choose CreateBearerResponse.parse_rules Types.fully_qualified_csid n ≡ drop
  parse-dropped =
      rw (far 0 (omega arith), far 1 (omega arith), far 2 (omega arith), far 3 (omega arith)) refl

-- A well-formed FullyQualifiedCSID with an instance of 4 or more is kept by the constructor of
-- CreateBearerResponse, and is gone once the message is marshalled and parsed, where the numbers fit
-- and the message takes 12 to 65535 octets.
pub parse-marshal_csid :
    (teid seq : ℕ) (i : Ie)
    → teid < 2 ^ 32
    → seq < 2 ^ 24
    → IsWf i
    → type_of i ≡ Types.fully_qualified_csid
    → 4 ≤ get_instance i
    → let m = CreateBearerResponse.new teid seq (i ∷ []) in
      marshal_len gtpv2 CreateBearerResponse.layout m < 2 ^ 16
      → 12 ≤ marshal_len gtpv2 CreateBearerResponse.layout m
      → (m.fields "AdditionalIEs" ≡ i ∷ [])
        × ((CreateBearerResponse.marshal m >>= λ b. CreateBearerResponse.parse b)
            ≡ ok (record {
              header = sent 1 96 teid seq CreateBearerResponse.layout (i ∷ []);
              fields = blank gtpv2;
            }))
unfolding CreateBearerResponse.new CreateBearerResponse.marshal CreateBearerResponse.parse
    new_message Message.new Message.set_length collect
parse-marshal_csid teid seq i ht hs w et ei fits long =
    let l = CreateBearerResponse.layout in
    let e : choose l.new_rules (type_of i) (get_instance i) ≡ append "AdditionalIEs" =
      rw et (new-kept (get_instance i) ei) in
    let d : choose l.parse_rules (type_of i) (get_instance i) ≡ drop =
      rw et (parse-dropped (get_instance i) ei) in
    let filled : collect gtpv2 l.new_rules (i ∷ []) (blank gtpv2)
        ≡ assign gtpv2 "AdditionalIEs" (i ∷ []) (blank gtpv2) =
      ap (λ (a : Action). run gtpv2 a i (blank gtpv2)) e in
    let none' : collect gtpv2 l.parse_rules (i ∷ []) (blank gtpv2) ≡ blank gtpv2 =
      ap (λ (a : Action). run gtpv2 a i (blank gtpv2)) d in
    (
      ap (λ (s : Fields gtpv2). s "AdditionalIEs") filled,
      parse-marshal_any 1 96 teid seq l (i ∷ []) (omega arith) (omega arith) ht hs
            (λ x. absurd (omega arith)) refl (omega arith) refl (w, tt) fits long
          ∙ ap
              (λ (s : Fields gtpv2). ok (record {
                header = sent 1 96 teid seq l (i ∷ []);
                fields = collect gtpv2 l.parse_rules (flatten gtpv2 l.counts s) (blank gtpv2);
              }))
              filled
          ∙ ap
              (λ (s : Fields gtpv2).
                ok (record { header = sent 1 96 teid seq l (i ∷ []); fields = s }))
              none',
    )

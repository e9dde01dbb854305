-- ===== src/Tests/Messages.antt =====
-- Messages of GTPv2: a Modify Bearer Request, and the messages that lose elements.
use go_gtp.Gtp
use go_gtp.Gtp.RoundTrip.{parse-marshal-version_2}
use go_gtp.Common.{◌≡◌, refl, inl, [], ◌∷◌, ◌++◌, List, arith, All}
use go_gtp.Common.Outcome.{ok, ◌>>=◌, Ensures}
use go_gtp.Common.Bytes.{Bytes, index, slice, from, first}
use go_gtp.Common.Endian.{uint32_at, uint16_at}
use go_gtp.Utils.{uint24_to_32}
use go_gtp.Message
use go_gtp.Message.{blank, marshal, collect}
use go_gtp.Message.Collect.{collect-AllHeld, assign-AllHeld}
use go_gtp.Message.Marshal.{filled_with, wire_message, marshal-wire_message}
use go_gtp.Message.Loss.{overwritten}
use go_gtp.Gtpv2.Ie
use go_gtp.Gtpv2.Ie.{ie, nil, is_grouped, get_instance}
use go_gtp.Gtpv2.Ie.Wire.{IsWf}
use go_gtp.Gtpv2.Header
use go_gtp.Gtpv2.Header.Codec.{head}
use go_gtp.Gtpv2.Message.{gtpv2, new_message}
use go_gtp.Gtpv2.Message.Laws.{laws, sent}
use go_gtp.Gtpv2.Message.Dispatch.{kind_of, parse}
use go_gtp.Gtpv2.Message.RoundTrip.{lossy, made, parse-marshal-made}
use go_gtp.Gtpv2.Message.Sound.{IsTyped, parse-IsTyped}
use go_gtp.Gtpv2.Message.Loss.{
  front, new-uemm_context, parse-uemm_context, marshal-overwritten, parse-marshal_csid,
}
use go_gtp.Gtpv2.Message.ContextResponse
use go_gtp.Gtpv2.Message.CreateSessionRequest
use go_gtp.Gtpv2.Message.CreateBearerResponse
use go_gtp.Gtpv2.Message.ModifyBearerRequest

-- A RAT type, a recovery counter, a private extension and a second recovery counter.
abbrev rat : Ie.Ie
rat = ie 82 1 0 (6 ∷ []) nil

abbrev recovery : Ie.Ie
recovery = ie 3 1 0 (5 ∷ []) nil

abbrev private : Ie.Ie
private = ie 255 3 0 (1 ∷ 2 ∷ 3 ∷ []) nil

abbrev elements : List Ie.Ie
elements = rat ∷ recovery ∷ private ∷ recovery ∷ []

rat-IsWf : IsWf rat
unfolding is_grouped
rat-IsWf = (omega arith, refl, omega arith, omega arith, omega arith, refl)

recovery-IsWf : IsWf recovery
unfolding is_grouped
recovery-IsWf = (omega arith, refl, omega arith, omega arith, omega arith, refl)

private-IsWf : IsWf private
unfolding is_grouped
private-IsWf = (omega arith, refl, omega arith, omega arith, omega arith, refl)

elements-IsWf : All IsWf elements
elements-IsWf = (rat-IsWf, (recovery-IsWf, (private-IsWf, (recovery-IsWf, tt))))

modify_bearer :
    (marshal gtpv2 (kind_of 34).layout (made 34 9 7 elements) >>= λ b. parse b)
    ≡ ok (record {
      kind = kind_of 34;
      message = record {
        header = sent (kind_of 34).flag 34 9 7 (kind_of 34).layout elements;
        fields = (made 34 9 7 elements).fields;
      };
    })
unfolding kind_of lossy Message.marshal_len new_message Message.new Message.set_length collect
    Header.new_header Header.set_length Header.marshal_len Ie.marshal_len is_grouped get_instance
    Header.has_teid Header.new_header_flags
modify_bearer =
    parse-marshal-made 34 9 7 elements (omega arith) (omega arith) (omega arith) refl
      (λ e. absurd (omega (arith, e))) elements-IsWf (omega arith) (omega arith)

modify_bearer_gtp :
    (marshal gtpv2 (kind_of 34).layout (made 34 9 7 elements) >>= λ b. Gtp.parse b)
    ≡ ok (
        Gtp.version_2 (record {
          kind = kind_of 34;
          message = record {
            header = sent (kind_of 34).flag 34 9 7 (kind_of 34).layout elements;
            fields = (made 34 9 7 elements).fields;
          };
        }))
unfolding kind_of lossy Message.marshal_len new_message Message.new Message.set_length collect
    Header.new_header Header.set_length Header.marshal_len Ie.marshal_len is_grouped get_instance
    Header.has_teid Header.new_header_flags
modify_bearer_gtp =
    parse-marshal-version_2 34 9 7 elements (omega arith) (omega arith) (omega arith) refl
      (λ e. absurd (omega (arith, e))) elements-IsWf (omega arith) (omega arith)

-- A packet with a TEID, of code 34, with a recovery counter.
abbrev packet : Bytes
packet = 0x48 ∷ 34 ∷ 0 ∷ 13 ∷ 0 ∷ 0 ∷ 1 ∷ 2 ∷ 0 ∷ 0 ∷ 9 ∷ 0 ∷ 3 ∷ 0 ∷ 1 ∷ 0 ∷ 5 ∷ []

parse-IsTyped-packet : Ensures IsTyped (parse packet)
unfolding index
parse-IsTyped-packet = parse-IsTyped packet 34 (omega arith) refl refl

no_context : (ContextResponse.new 1 2 (ie 103 1 0 (0 ∷ []) nil ∷ [])).fields "UEMMContext" ≡ []
no_context = new-uemm_context 1 2 (ie 103 1 0 (0 ∷ []) nil ∷ [])

-- A context response with one element, which is an MM context.
abbrev response : Bytes
response = 0x48 ∷ 131 ∷ 0 ∷ 13 ∷ 0 ∷ 0 ∷ 1 ∷ 2 ∷ 0 ∷ 0 ∷ 9 ∷ 0 ∷ 103 ∷ 0 ∷ 1 ∷ 0 ∷ 0 ∷ []

abbrev parsed_response : Message.Message gtpv2
parsed_response = record {
  header = record {
    flags = 0x48;
    kind = 131;
    size = 13;
    teid = 258;
    sequence_number = 9;
    spare = 0;
    payload = 103 ∷ 0 ∷ 1 ∷ 0 ∷ 0 ∷ [];
  };
  fields = collect gtpv2 ContextResponse.parse_rules (ie 103 1 0 (0 ∷ []) nil ∷ []) (blank gtpv2);
}

no_context_parsed : parsed_response.fields "UEMMContext" ≡ []
unfolding ContextResponse.parse Header.parse_header Header.payload_from Header.has_teid
    Ie.parse_multi_ies Ie.parse_multi Ie.unmarshal Ie.marshal_len is_grouped slice from first index
    uint24_to_32 uint32_at uint16_at
no_context_parsed = parse-uemm_context response parsed_response refl

abbrev session_request : Message.Message gtpv2
session_request = record {
  header = Header.new_header 0x48 32 0 1 [];
  fields =
      Message.assign gtpv2 "PrivateExtension" (private ∷ [])
        (Message.assign gtpv2 "AdditionalIEs" (recovery ∷ []) (blank gtpv2));
}

overwritten_private :
    let q =
      overwritten gtpv2 laws front "PrivateExtension" "AdditionalIEs" session_request.fields in
    CreateSessionRequest.marshal session_request
    ≡ ok (head (filled_with gtpv2 laws q session_request.header) ++ q)
overwritten_private = marshal-overwritten session_request (
    assign-AllHeld gtpv2 IsWf "PrivateExtension" (private ∷ []) _ (private-IsWf, tt)
      (assign-AllHeld gtpv2 IsWf "AdditionalIEs" (recovery ∷ []) _ (recovery-IsWf, tt) (λ f. tt)))

-- A FullyQualifiedCSID of instance 4.
abbrev csid : Ie.Ie
csid = ie 132 1 4 (0 ∷ []) nil

csid-IsWf : IsWf csid
unfolding is_grouped
csid-IsWf = (omega arith, refl, omega arith, omega arith, omega arith, refl)

dropped_csid :
    ((CreateBearerResponse.new 1 2 (csid ∷ [])).fields "AdditionalIEs" ≡ csid ∷ [])
    × ((CreateBearerResponse.marshal (CreateBearerResponse.new 1 2 (csid ∷ [])) >>= λ b.
          CreateBearerResponse.parse b)
        ≡ ok (record {
          header = sent 1 96 1 2 CreateBearerResponse.layout (csid ∷ []);
          fields = blank gtpv2;
        }))
unfolding CreateBearerResponse.new Message.marshal_len new_message Message.new Message.set_length
    collect Header.new_header Header.set_length Header.marshal_len Ie.marshal_len is_grouped
    get_instance Header.has_teid Header.new_header_flags
dropped_csid =
    parse-marshal_csid 1 2 csid (omega arith) (omega arith) csid-IsWf refl (omega arith)
      (omega arith) (omega arith)

abbrev request : Message.Message gtpv2
request = ModifyBearerRequest.new 9 7 elements

written_request :
    marshal gtpv2 ModifyBearerRequest.layout request
    ≡ ok (wire_message gtpv2 laws ModifyBearerRequest.layout request)
unfolding ModifyBearerRequest.new new_message Message.new Message.set_length
written_request =
    marshal-wire_message gtpv2 laws ModifyBearerRequest.layout request refl
      (collect-AllHeld gtpv2 IsWf ModifyBearerRequest.new_rules elements (blank gtpv2) elements-IsWf
        (λ f. tt))
      (inl refl)

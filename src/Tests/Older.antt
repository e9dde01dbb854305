-- ===== src/Tests/Older.antt =====
-- Messages of GTPv1 and GTPv0.
use go_gtp.Common.{◌≡◌, refl, [], ◌∷◌, List, arith, All}
use go_gtp.Common.Outcome.{ok, err, ◌>>=◌, too_short_to_marshal}
use go_gtp.Message
use go_gtp.Message.{blank, marshal, collect}
use go_gtp.Tlv.{Ie, ie}
use go_gtp.Tlv.Write.{IsSent}
use go_gtp.Gtpv1.Ie as V1
use go_gtp.Gtpv1.Header as H1
use go_gtp.Gtpv0.Header as H0
use go_gtp.Gtpv1.Message as M1
use go_gtp.Gtpv0.Message as M0
use go_gtp.Gtpv1.Message.Laws.{sent_v1}
use go_gtp.Gtpv1.Message.Dispatch as D1
use go_gtp.Gtpv0.Message.Dispatch as D0
use go_gtp.Gtpv1.Message.RoundTrip.{chained as chained_v1, parse-marshal-made_v1}
use go_gtp.Gtpv0.Message.RoundTrip.{chained as chained_v0, parse-marshal-made_v0}
use go_gtp.Gtpv1.Message.Sound.{IsTyped, parse-IsTyped_v1}
use go_gtp.Common.Bytes.{Bytes, IsByte}
use go_gtp.Common.Outcome.{Ensures}
use go_gtp.Gtpv0.Message.Laws.{sent_v0}
use go_gtp.Gtp
use go_gtp.Gtp.Sound as S
use go_gtp.Gtp.RoundTrip.{parse-marshal-version_1}
use go_gtp.Gtpv1.Message.Again.{marshal-again}
use go_gtp.Gtpv1.Message.DeletePdpContextRequest as Delete

-- NSAPI 5 and a teardown indication.
abbrev elements : List Ie
elements = ie 20 0 (5 ∷ []) ∷ ie 19 0 (0xff ∷ []) ∷ []

elements-IsSent : All (IsSent V1.tv_length_map) elements
elements-IsSent = (((refl, refl), omega arith), (((refl, refl), omega arith), tt))

delete_request :
    let l = D1.layout_of 20 in
    let m = M1.new_message 20 l 9 7 elements in
    (marshal M1.gtpv1 l m >>= λ b. D1.parse b)
    ≡ ok (D1.signalling l (record { header = sent_v1 20 9 7 l elements; fields = m.fields }))
unfolding M1.new_message Message.marshal_len Message.new Message.set_length collect H1.new_header
    H1.set_length H1.marshal_len H1.has_sequence D1.layout_of chained_v1
delete_request =
    parse-marshal-made_v1 20 9 7 elements (omega arith) (omega arith) refl refl elements-IsSent
      (omega arith)

delete_request_gtp :
    let l = D1.layout_of 20 in
    let m = M1.new_message 20 l 9 7 elements in
    (marshal M1.gtpv1 l m >>= λ b. Gtp.parse b)
    ≡ ok (
        Gtp.version_1
          (D1.signalling l (record { header = sent_v1 20 9 7 l elements; fields = m.fields })))
unfolding M1.new_message Message.marshal_len Message.new Message.set_length collect H1.new_header
    H1.set_length H1.marshal_len H1.has_sequence D1.layout_of chained_v1
delete_request_gtp =
    parse-marshal-version_1 20 9 7 elements (omega arith) (omega arith) refl refl elements-IsSent
      (omega arith)

-- The cause 128.
abbrev cause : List Ie
cause = ie 1 0 (128 ∷ []) ∷ []

delete_response :
    let l = D0.layout_of 21 in
    let m = M0.new_message 21 l 7 3 99 cause in
    (marshal M0.gtpv0 l m >>= λ b. D0.parse b)
    ≡ ok (D0.signalling l (record { header = sent_v0 21 7 3 99 l cause; fields = m.fields }))
unfolding M0.new_message Message.marshal_len Message.new Message.set_length collect H0.new_header
    H0.set_length H0.marshal_len D0.layout_of chained_v0
delete_response =
    parse-marshal-made_v0 21 7 3 99 cause (omega arith) (omega arith) (omega arith) refl refl
      (((refl, refl), omega arith), tt) (omega arith)

-- A delete request with its NSAPI in the payload, as it is after parsing.
abbrev parsed_request : Message.Message M1.gtpv1
parsed_request = record {
  header = H1.read 0x32 20 6 9 7 (20 ∷ 5 ∷ []);
  fields = Message.assign M1.gtpv1 "NSAPI" (ie 20 0 (5 ∷ []) ∷ []) (blank M1.gtpv1);
}

request_again : marshal M1.gtpv1 Delete.layout parsed_request ≡ err too_short_to_marshal
request_again = marshal-again Delete.layout parsed_request refl refl refl (omega arith)

-- A CreatePDPContextResponse of a cause and two GSN addresses.
abbrev created : Bytes
created =
    0x32 ∷ 17 ∷ 0 ∷ 20 ∷ 0 ∷ 0 ∷ 0 ∷ 9 ∷ 0 ∷ 7 ∷ 0 ∷ 0 ∷ 1 ∷ 128 ∷ 133 ∷ 0 ∷ 4 ∷ 10 ∷ 0 ∷ 0 ∷ 1
    ∷ 133 ∷ 0 ∷ 4 ∷ 10 ∷ 0 ∷ 0 ∷ 2 ∷ []

created-All : All IsByte created
created-All = ground arith

created-IsTyped : Ensures IsTyped (D1.parse created)
created-IsTyped = parse-IsTyped_v1 created created-All (omega arith) (λ e. omega (arith, e))

parse-IsTyped_gtp-created : Ensures (S.IsTyped 1) (Gtp.parse created)
parse-IsTyped_gtp-created =
    S.parse-IsTyped_gtp created created-All
      (λ _. (λ e. omega (arith, e), λ e. omega (arith, e), λ e. omega (arith, e)))

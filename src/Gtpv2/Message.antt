-- ===== src/Gtpv2/Message.antt =====
-- gtpv2/message: what its messages share. A message is a layout with a header.
pub mod ContextAcknowledge
pub mod ContextRequest
pub mod ContextResponse
pub mod CreateBearerRequest
pub mod CreateBearerResponse
pub mod CreateSessionRequest
pub mod CreateSessionResponse
pub mod DeleteBearerCommand
pub mod DeleteBearerFailureIndication
pub mod DeleteBearerRequest
pub mod DeleteBearerResponse
pub mod DeletePdnConnectionSetRequest
pub mod DeletePdnConnectionSetResponse
pub mod DeleteSessionRequest
pub mod DeleteSessionResponse
pub mod DetachAcknowledge
pub mod DetachNotification
pub mod DownlinkDataNotificationAcknowledge
pub mod DownlinkDataNotificationFailureIndication
pub mod DownlinkDataNotification
pub mod EchoRequest
pub mod EchoResponse
pub mod ModifyAccessBearersRequest
pub mod ModifyAccessBearersResponse
pub mod ModifyBearerCommand
pub mod ModifyBearerFailureIndication
pub mod ModifyBearerRequest
pub mod ModifyBearerResponse
pub mod PgwRestartNotificationAcknowledge
pub mod PgwRestartNotification
pub mod ReleaseAccessBearersRequest
pub mod ReleaseAccessBearersResponse
pub mod StopPagingIndication
pub mod UpdateBearerRequest
pub mod UpdateBearerResponse
pub mod UpdatePdnConnectionSetRequest
pub mod UpdatePdnConnectionSetResponse
pub mod VersionNotSupportedIndication
pub mod Generic
pub mod Dispatch
pub mod Laws
pub mod RoundTrip
pub mod Sound
pub mod Loss
use go_gtp.Common.{ℕ, ◌+◌, List, [], ◌∷◌}
use go_gtp.Common.Outcome.{Outcome, ok, fmap}
use go_gtp.Common.Bytes.{Bytes}
use go_gtp.Message
use go_gtp.Message.{Protocol, Layout, Message}
use go_gtp.Gtpv2.Ie
use go_gtp.Gtpv2.Ie.{Ies, nil, cons}
use go_gtp.Gtpv2.Header

-- `[]*ie.IE`
abbrev pub to_list : Ies → List Ie.Ie
to_list nil = []
to_list (cons i is) = i ∷ to_list is

abbrev pub gtpv2 : Protocol
gtpv2 = record {
  Ie = Ie.Ie;
  type_of = Ie.type_of;
  instance_of = Ie.get_instance;
  element_len = Ie.marshal_len;
  element_to = Ie.marshal_to;
  parse_elements = λ b. fmap to_list (Ie.parse_multi_ies b);
  Header = Header.Header;
  payload_of = λ h. h.payload;
  with_payload = λ q h. record h { payload = q };
  with_size = λ n h. record h { size = n };
  header_len = Header.marshal_len;
  header_to = Header.marshal_to;
  parse_header = Header.parse_header;
  header_set_length = Header.set_length;
  base = 4;
}

-- The constructor of a message: `NewHeader(NewHeaderFlags(2, 0, flag), code, teid, seq, nil)`, the
-- loop over the elements and SetLength.
unfoldable pub new_message : ℕ → ℕ → Layout → ℕ → ℕ → List Ie.Ie → Message gtpv2
new_message flag code l teid seq is =
    Message.new gtpv2 l (Header.new_header (Header.new_header_flags 2 0 flag) code teid seq []) is

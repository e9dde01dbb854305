-- ===== src/Gtpv1/Message.antt =====
-- gtpv1/message: what its messages share. A message is a layout with a header.
pub mod CreatePdpContextRequest
pub mod CreatePdpContextResponse
pub mod DeletePdpContextRequest
pub mod DeletePdpContextResponse
pub mod EchoRequest
pub mod EchoResponse
pub mod ErrorIndication
pub mod UpdatePdpContextRequest
pub mod UpdatePdpContextResponse
pub mod VersionNotSupported
pub mod Generic
pub mod Dispatch
pub mod Laws
pub mod Sound
pub mod RoundTrip
pub mod Again
use go_gtp.Common.{ℕ, List, []}
use go_gtp.Message
use go_gtp.Message.{Protocol, Layout, Message}
use go_gtp.Tlv
use go_gtp.Gtpv1.Ie
use go_gtp.Gtpv1.Header

abbrev pub gtpv1 : Protocol
gtpv1 = record {
  Ie = Tlv.Ie;
  type_of = λ i. i.kind;
  instance_of = λ i. 0;
  element_len = Tlv.marshal_len Ie.tv_length_map;
  element_to = Tlv.marshal_to Ie.tv_length_map;
  parse_elements = Tlv.parse_multi_ies Ie.tv_length_map;
  Header = Header.Header;
  payload_of = λ h. h.payload;
  with_payload = λ q h. record h { payload = q };
  with_size = λ n h. record h { size = n };
  header_len = Header.marshal_len;
  header_to = Header.marshal_to;
  parse_header = Header.parse_header;
  header_set_length = Header.set_length;
  base = 8;
}

-- The constructor of a message: `NewHeader(0x32, code, teid, seq, nil)`, the loop over the elements
-- and SetLength.
unfoldable pub new_message : ℕ → Layout → ℕ → ℕ → List Tlv.Ie → Message gtpv1
new_message code l teid seq is = Message.new gtpv1 l (Header.new_header 0x32 code teid seq []) is

-- ===== src/Gtpv0/Message/Dispatch.antt =====
-- gtpv0/message/message.go: Parse, which chooses the type of the message by the second octet. A
-- T-PDU (t-pdu.go) has no elements: it is read by its header alone.
use go_gtp.Common.{ℕ, List, [], ◌∷◌, ◌==◌, if◌then◌else◌}
use go_gtp.Common.Outcome.{Outcome, ok, ◌>>=◌}
use go_gtp.Common.Bytes.{Bytes, index}
use go_gtp.Message
use go_gtp.Message.{Layout, Message}
use go_gtp.Gtpv0.Tpdu.{Tpdu, parse_tpdu}
use go_gtp.Gtpv0.Message.{gtpv0}
use go_gtp.Gtpv0.Message.EchoRequest
use go_gtp.Gtpv0.Message.EchoResponse
use go_gtp.Gtpv0.Message.CreatePdpContextRequest
use go_gtp.Gtpv0.Message.CreatePdpContextResponse
use go_gtp.Gtpv0.Message.UpdatePdpContextRequest
use go_gtp.Gtpv0.Message.UpdatePdpContextResponse
use go_gtp.Gtpv0.Message.DeletePdpContextRequest
use go_gtp.Gtpv0.Message.DeletePdpContextResponse
use go_gtp.Gtpv0.Message.Generic

-- The cases of the switch but that of the T-PDU.
abbrev pub layouts : List (ℕ × Layout)
layouts =
    (EchoRequest.code, EchoRequest.layout)
    ∷ (EchoResponse.code, EchoResponse.layout)
    ∷ (CreatePdpContextRequest.code, CreatePdpContextRequest.layout)
    ∷ (CreatePdpContextResponse.code, CreatePdpContextResponse.layout)
    ∷ (UpdatePdpContextRequest.code, UpdatePdpContextRequest.layout)
    ∷ (UpdatePdpContextResponse.code, UpdatePdpContextResponse.layout)
    ∷ (DeletePdpContextRequest.code, DeletePdpContextRequest.layout)
    ∷ (DeletePdpContextResponse.code, DeletePdpContextResponse.layout)
    ∷ []

abbrev pub select : List (ℕ × Layout) → ℕ → Layout
select [] code = Generic.layout
select ((c, l) ∷ ls) code = if c == code then l else select ls code

-- The layout of the messages with a code.
unfoldable pub layout_of : ℕ → Layout
layout_of code = select layouts code

pub data Parsed : Type 0 where
  user_packet : Tpdu → Parsed
  signalling : (l : Layout) → Message gtpv0 → Parsed

-- `UnmarshalBinary` of the type that the switch has chosen.
abbrev pub unmarshal : ℕ → Bytes → Outcome Parsed
unmarshal code b =
    let packet = parse_tpdu b >>= λ t. ok (user_packet t) in
    let message =
      Message.parse gtpv0 (layout_of code) b >>= λ m. ok (signalling (layout_of code) m) in
    if code == 255 then packet else message

-- `Parse`: an input of fewer than two octets panics. An error keeps its cause, which is the one here.
unfoldable pub parse : Bytes → Outcome Parsed
unfolding index layout_of parse_tpdu Message.parse
parse b = do code ← index b 1; unmarshal code b

-- ===== src/Gtpv2/Message/Dispatch.antt =====
-- gtpv2/message/message.go: Parse, which chooses the type of the message by the second octet.
use go_gtp.Common.{ℕ, List, [], ◌∷◌, ◌==◌, if◌then◌else◌}
use go_gtp.Common.Outcome.{Outcome, ok, ◌>>=◌}
use go_gtp.Common.Bytes.{Bytes, index}
use go_gtp.Message
use go_gtp.Message.{Layout, Message}
use go_gtp.Gtpv2.Message.{gtpv2}
use go_gtp.Gtpv2.Message.Generic
use go_gtp.Gtpv2.Message.EchoRequest
use go_gtp.Gtpv2.Message.EchoResponse
use go_gtp.Gtpv2.Message.VersionNotSupportedIndication
use go_gtp.Gtpv2.Message.CreateSessionRequest
use go_gtp.Gtpv2.Message.CreateSessionResponse
use go_gtp.Gtpv2.Message.DeleteSessionRequest
use go_gtp.Gtpv2.Message.DeleteSessionResponse
use go_gtp.Gtpv2.Message.ModifyBearerCommand
use go_gtp.Gtpv2.Message.ModifyBearerFailureIndication
use go_gtp.Gtpv2.Message.DeleteBearerCommand
use go_gtp.Gtpv2.Message.DeleteBearerFailureIndication
use go_gtp.Gtpv2.Message.DeleteBearerRequest
use go_gtp.Gtpv2.Message.CreateBearerRequest
use go_gtp.Gtpv2.Message.CreateBearerResponse
use go_gtp.Gtpv2.Message.DeleteBearerResponse
use go_gtp.Gtpv2.Message.ModifyBearerRequest
use go_gtp.Gtpv2.Message.ModifyBearerResponse
use go_gtp.Gtpv2.Message.UpdateBearerRequest
use go_gtp.Gtpv2.Message.UpdateBearerResponse
use go_gtp.Gtpv2.Message.ContextRequest
use go_gtp.Gtpv2.Message.ContextResponse
use go_gtp.Gtpv2.Message.ContextAcknowledge
use go_gtp.Gtpv2.Message.ReleaseAccessBearersRequest
use go_gtp.Gtpv2.Message.ReleaseAccessBearersResponse
use go_gtp.Gtpv2.Message.StopPagingIndication
use go_gtp.Gtpv2.Message.ModifyAccessBearersRequest
use go_gtp.Gtpv2.Message.ModifyAccessBearersResponse
use go_gtp.Gtpv2.Message.DeletePdnConnectionSetRequest
use go_gtp.Gtpv2.Message.DeletePdnConnectionSetResponse
use go_gtp.Gtpv2.Message.UpdatePdnConnectionSetRequest
use go_gtp.Gtpv2.Message.UpdatePdnConnectionSetResponse
use go_gtp.Gtpv2.Message.PgwRestartNotification
use go_gtp.Gtpv2.Message.PgwRestartNotificationAcknowledge
use go_gtp.Gtpv2.Message.DetachNotification
use go_gtp.Gtpv2.Message.DetachAcknowledge
use go_gtp.Gtpv2.Message.DownlinkDataNotification
use go_gtp.Gtpv2.Message.DownlinkDataNotificationAcknowledge
use go_gtp.Gtpv2.Message.DownlinkDataNotificationFailureIndication

-- A type of message: the TEID flag of its constructor, and its layout.
pub record Kind : Type 0 where
  pub flag : ℕ
  pub layout : Layout

abbrev pub kind : ℕ → Layout → Kind
kind flag l = record { flag = flag; layout = l }

-- The cases of the switch.
abbrev pub kinds : List (ℕ × Kind)
kinds =
    (EchoRequest.code, kind 0 EchoRequest.layout)
    ∷ (EchoResponse.code, kind 0 EchoResponse.layout)
    ∷ (VersionNotSupportedIndication.code, kind 1 VersionNotSupportedIndication.layout)
    ∷ (CreateSessionRequest.code, kind 1 CreateSessionRequest.layout)
    ∷ (CreateSessionResponse.code, kind 1 CreateSessionResponse.layout)
    ∷ (DeleteSessionRequest.code, kind 1 DeleteSessionRequest.layout)
    ∷ (DeleteSessionResponse.code, kind 1 DeleteSessionResponse.layout)
    ∷ (ModifyBearerCommand.code, kind 1 ModifyBearerCommand.layout)
    ∷ (ModifyBearerFailureIndication.code, kind 1 ModifyBearerFailureIndication.layout)
    ∷ (DeleteBearerCommand.code, kind 1 DeleteBearerCommand.layout)
    ∷ (DeleteBearerFailureIndication.code, kind 1 DeleteBearerFailureIndication.layout)
    ∷ (DeleteBearerRequest.code, kind 1 DeleteBearerRequest.layout)
    ∷ (CreateBearerRequest.code, kind 1 CreateBearerRequest.layout)
    ∷ (CreateBearerResponse.code, kind 1 CreateBearerResponse.layout)
    ∷ (DeleteBearerResponse.code, kind 1 DeleteBearerResponse.layout)
    ∷ (ModifyBearerRequest.code, kind 1 ModifyBearerRequest.layout)
    ∷ (ModifyBearerResponse.code, kind 1 ModifyBearerResponse.layout)
    ∷ (UpdateBearerRequest.code, kind 1 UpdateBearerRequest.layout)
    ∷ (UpdateBearerResponse.code, kind 1 UpdateBearerResponse.layout)
    ∷ (ContextRequest.code, kind 1 ContextRequest.layout)
    ∷ (ContextResponse.code, kind 1 ContextResponse.layout)
    ∷ (ContextAcknowledge.code, kind 1 ContextAcknowledge.layout)
    ∷ (ReleaseAccessBearersRequest.code, kind 1 ReleaseAccessBearersRequest.layout)
    ∷ (ReleaseAccessBearersResponse.code, kind 1 ReleaseAccessBearersResponse.layout)
    ∷ (StopPagingIndication.code, kind 1 StopPagingIndication.layout)
    ∷ (ModifyAccessBearersRequest.code, kind 1 ModifyAccessBearersRequest.layout)
    ∷ (ModifyAccessBearersResponse.code, kind 1 ModifyAccessBearersResponse.layout)
    ∷ (DeletePdnConnectionSetRequest.code, kind 1 DeletePdnConnectionSetRequest.layout)
    ∷ (DeletePdnConnectionSetResponse.code, kind 1 DeletePdnConnectionSetResponse.layout)
    ∷ (UpdatePdnConnectionSetRequest.code, kind 1 UpdatePdnConnectionSetRequest.layout)
    ∷ (UpdatePdnConnectionSetResponse.code, kind 1 UpdatePdnConnectionSetResponse.layout)
    ∷ (PgwRestartNotification.code, kind 1 PgwRestartNotification.layout)
    ∷ (PgwRestartNotificationAcknowledge.code, kind 1 PgwRestartNotificationAcknowledge.layout)
    ∷ (DetachNotification.code, kind 1 DetachNotification.layout)
    ∷ (DetachAcknowledge.code, kind 1 DetachAcknowledge.layout)
    ∷ (DownlinkDataNotification.code, kind 1 DownlinkDataNotification.layout)
    ∷ (DownlinkDataNotificationAcknowledge.code, kind 1 DownlinkDataNotificationAcknowledge.layout)
    ∷ (
      DownlinkDataNotificationFailureIndication.code,
      kind 1 DownlinkDataNotificationFailureIndication.layout,
    )
    ∷ []

abbrev pub generic : Kind
generic = kind 1 Generic.layout

abbrev pub select : List (ℕ × Kind) → ℕ → Kind
select [] code = generic
select ((c, k) ∷ ks) code = if c == code then k else select ks code

-- The type of message for a code.
unfoldable pub kind_of : ℕ → Kind
kind_of code = select kinds code

pub record Parsed : Type 0 where
  pub kind : Kind
  pub message : Message gtpv2

-- `Parse`: an input of fewer than two octets panics.
unfoldable pub parse : Bytes → Outcome Parsed
unfolding index kind_of Message.parse
parse b = do
  code ← index b 1
  m ← Message.parse gtpv2 (kind_of code).layout b
  ok (record { kind = kind_of code; message = m })

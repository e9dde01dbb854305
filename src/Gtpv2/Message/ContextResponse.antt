-- ===== src/Gtpv2/Message/ContextResponse.antt =====
-- gtpv2/message/context-res.go: the fields and the functions of ContextResponse.
mod Rules
mod Order
pub use Rules.*
pub use Order.*
use Prim.Native.String.{String}
use go_gtp.Common.{ℕ, List, [], ◌∷◌, false, true}
use go_gtp.Common.Outcome.{Outcome}
use go_gtp.Common.Bytes.{Bytes}
use go_gtp.Message
use go_gtp.Message.{FieldType, pointer, slice, Layout, Message}
use go_gtp.Gtpv2.Ie.{Ie}
use go_gtp.Gtpv2.Message.{gtpv2, new_message}

-- The fields of the struct.
abbrev pub struct : List (String × FieldType)
struct =
    ("Cause", pointer)
    ∷ ("IMSI", pointer)
    ∷ ("UEMMContext", pointer)
    ∷ ("UEPDNConnections", pointer)
    ∷ ("SenderFTEID", pointer)
    ∷ ("SGWS11S4FTEID", pointer)
    ∷ ("SGWNodeName", pointer)
    ∷ ("IndicationFlags", pointer)
    ∷ ("TraceInformation", pointer)
    ∷ ("S101IPAddress", pointer)
    ∷ ("S102IPAddress", pointer)
    ∷ ("SubscribedRFSPIndex", pointer)
    ∷ ("RFSPIndexInUse", pointer)
    ∷ ("UETimeZone", pointer)
    ∷ ("MMESGSNLDN", pointer)
    ∷ ("MDTConfiguration", pointer)
    ∷ ("SGSNNodeName", pointer)
    ∷ ("MMENodeName", pointer)
    ∷ ("UCI", pointer)
    ∷ ("MonitoringEventInformation", pointer)
    ∷ ("MonitoringEventExtensionInformation", pointer)
    ∷ ("UEUsageType", pointer)
    ∷ ("SCEFPDNConnection", pointer)
    ∷ ("RATType", pointer)
    ∷ ("ServingPLMNRateControl", pointer)
    ∷ ("MOExceptionDataCounter", pointer)
    ∷ ("RemainingRunningServiceGapTimer", pointer)
    ∷ ("ExtendedTraceInformation", pointer)
    ∷ ("SubscribedAdditionalRRMPolicyIndex", pointer)
    ∷ ("AdditionalRRMPolicyIndexInUse", pointer)
    ∷ ("PrivateExtension", pointer)
    ∷ ("AdditionalIEs", slice)
    ∷ []

-- MsgTypeContextResponse
abbrev pub code : ℕ
code = 131

abbrev pub layout : Layout
layout = record {
  struct = struct;
  new_rules = new_rules;
  checks = false;
  resets = true;
  items = items;
  least = 2;
  parse_rules = parse_rules;
  counts = counts;
}

unfoldable pub new : ℕ → ℕ → List Ie → Message gtpv2
unfolding new_message
new teid seq is = new_message 1 code layout teid seq is

unfoldable pub set_length : Message gtpv2 → Message gtpv2
unfolding Message.set_length
set_length m = Message.set_length gtpv2 layout m

unfoldable pub marshal : Message gtpv2 → Outcome Bytes
unfolding Message.marshal
marshal m = Message.marshal gtpv2 layout m

unfoldable pub parse : Bytes → Outcome (Message gtpv2)
unfolding Message.parse
parse b = Message.parse gtpv2 layout b

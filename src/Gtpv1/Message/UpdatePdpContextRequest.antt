-- ===== src/Gtpv1/Message/UpdatePdpContextRequest.antt =====
-- gtpv1/message/update-pdp-context-req.go: the fields and the functions of UpdatePDPContextRequest.
mod Rules
mod Order
pub use Rules.*
pub use Order.*
use Prim.Native.String.{String}
use go_gtp.Common.{ℕ, List, [], ◌∷◌, false, true}
use go_gtp.Common.Outcome.{Outcome}
use go_gtp.Common.Bytes.{Bytes}
use go_gtp.Message
use go_gtp.Message.{FieldType, pointer, slice, Layout, Message}
use go_gtp.Tlv.{Ie}
use go_gtp.Gtpv1.Message.{gtpv1, new_message}

-- The fields of the struct.
abbrev pub struct : List (String × FieldType)
struct =
    ("IMSI", pointer)
    ∷ ("RAI", pointer)
    ∷ ("Recovery", pointer)
    ∷ ("TEIDDataI", pointer)
    ∷ ("TEIDCPlane", pointer)
    ∷ ("NSAPI", pointer)
    ∷ ("TraceReference", pointer)
    ∷ ("TraceType", pointer)
    ∷ ("PCO", pointer)
    ∷ ("SGSNAddressForCPlane", pointer)
    ∷ ("SGSNAddressForUserTraffic", pointer)
    ∷ ("AlternativeSGSNAddressForCPlane", pointer)
    ∷ ("AlternativeSGSNAddressForUserTraffic", pointer)
    ∷ ("QoSProfile", pointer)
    ∷ ("TFT", pointer)
    ∷ ("TriggerID", pointer)
    ∷ ("OMCIdentity", pointer)
    ∷ ("CommonFlags", pointer)
    ∷ ("RATType", pointer)
    ∷ ("ULI", pointer)
    ∷ ("MSTimeZone", pointer)
    ∷ ("AdditionalTraceInfo", pointer)
    ∷ ("DirectTunnelFlags", pointer)
    ∷ ("EvolvedARPI", pointer)
    ∷ ("ExtendedCommonFlags", pointer)
    ∷ ("UCI", pointer)
    ∷ ("APNAMBR", pointer)
    ∷ ("SignallingPriorityIndication", pointer)
    ∷ ("CNOperatorSelectionEntity", pointer)
    ∷ ("IMEI", pointer)
    ∷ ("PrivateExtension", pointer)
    ∷ ("AdditionalIEs", slice)
    ∷ []

-- MsgTypeUpdatePDPContextRequest
abbrev pub code : ℕ
code = 18

abbrev pub layout : Layout
layout = record {
  struct = struct;
  new_rules = new_rules;
  checks = true;
  resets = false;
  items = items;
  least = 2;
  parse_rules = parse_rules;
  counts = counts;
}

unfoldable pub new : ℕ → ℕ → List Ie → Message gtpv1
unfolding new_message
new teid seq is = new_message code layout teid seq is

unfoldable pub set_length : Message gtpv1 → Message gtpv1
unfolding Message.set_length
set_length m = Message.set_length gtpv1 layout m

unfoldable pub marshal : Message gtpv1 → Outcome Bytes
unfolding Message.marshal
marshal m = Message.marshal gtpv1 layout m

unfoldable pub parse : Bytes → Outcome (Message gtpv1)
unfolding Message.parse
parse b = Message.parse gtpv1 layout b

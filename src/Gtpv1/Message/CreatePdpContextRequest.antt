-- ===== src/Gtpv1/Message/CreatePdpContextRequest.antt =====
-- gtpv1/message/create-pdp-context-req.go: the fields and the functions of CreatePDPContextRequest.
mod Rules
mod Order
pub use Rules.*
pub use Order.*
use Prim.Native.String.{String}
use go_gtp.Common.{ℕ, List, [], ◌∷◌, false, true}
use go_gtp.Common.Outcome.{Outcome}
use go_gtp.Common.Bytes.{Bytes}
use go_gtp.Message
use go_gtp.Message.{FieldType, pointer, slice, Layout, Message}
use go_gtp.Tlv.{Ie}
use go_gtp.Gtpv1.Message.{gtpv1, new_message}

-- The fields of the struct.
abbrev pub struct : List (String × FieldType)
struct =
    ("IMSI", pointer)
    ∷ ("RAI", pointer)
    ∷ ("Recovery", pointer)
    ∷ ("SelectionMode", pointer)
    ∷ ("TEIDDataI", pointer)
    ∷ ("TEIDCPlane", pointer)
    ∷ ("NSAPI", pointer)
    ∷ ("LinkedNSAPI", pointer)
    ∷ ("ChargingCharacteristics", pointer)
    ∷ ("TraceReference", pointer)
    ∷ ("TraceType", pointer)
    ∷ ("EndUserAddress", pointer)
    ∷ ("APN", pointer)
    ∷ ("PCO", pointer)
    ∷ ("SGSNAddressForSignalling", pointer)
    ∷ ("SGSNAddressForUserTraffic", pointer)
    ∷ ("MSISDN", pointer)
    ∷ ("QoSProfile", pointer)
    ∷ ("TFT", pointer)
    ∷ ("TriggerID", pointer)
    ∷ ("OMCIdentity", pointer)
    ∷ ("CommonFlags", pointer)
    ∷ ("APNRestriction", pointer)
    ∷ ("RATType", pointer)
    ∷ ("UserLocationInformation", pointer)
    ∷ ("MSTimeZone", pointer)
    ∷ ("IMEI", pointer)
    ∷ ("CAMELChargingInformationContainer", pointer)
    ∷ ("AdditionalTraceInfo", pointer)
    ∷ ("CorrelationID", pointer)
    ∷ ("EvolvedARPI", pointer)
    ∷ ("ExtendedCommonFlags", pointer)
    ∷ ("UCI", pointer)
    ∷ ("APNAMBR", pointer)
    ∷ ("SignallingPriorityIndication", pointer)
    ∷ ("CNOperatorSelectionEntity", pointer)
    ∷ ("MappedUEUsageType", pointer)
    ∷ ("UPFunctionSelectionIndicationFlags", pointer)
    ∷ ("PrivateExtension", pointer)
    ∷ ("AdditionalIEs", slice)
    ∷ []

-- MsgTypeCreatePDPContextRequest
abbrev pub code : ℕ
code = 16

abbrev pub layout : Layout
layout = record {
  struct = struct;
  new_rules = new_rules;
  checks = true;
  resets = false;
  items = items;
  least = 2;
  parse_rules = parse_rules;
  counts = counts;
}

unfoldable pub new : ℕ → ℕ → List Ie → Message gtpv1
unfolding new_message
new teid seq is = new_message code layout teid seq is

unfoldable pub set_length : Message gtpv1 → Message gtpv1
unfolding Message.set_length
set_length m = Message.set_length gtpv1 layout m

unfoldable pub marshal : Message gtpv1 → Outcome Bytes
unfolding Message.marshal
marshal m = Message.marshal gtpv1 layout m

unfoldable pub parse : Bytes → Outcome (Message gtpv1)
unfolding Message.parse
parse b = Message.parse gtpv1 layout b

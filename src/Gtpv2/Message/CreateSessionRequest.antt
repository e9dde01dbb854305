-- ===== src/Gtpv2/Message/CreateSessionRequest.antt =====
-- gtpv2/message/create-session-req.go: the fields and the functions of CreateSessionRequest.
mod Rules
mod Order
pub use Rules.*
pub use Order.*
use Prim.Native.String.{String}
use go_gtp.Common.{ℕ, List, [], ◌∷◌, false, true}
use go_gtp.Common.Outcome.{Outcome}
use go_gtp.Common.Bytes.{Bytes}
use go_gtp.Message
use go_gtp.Message.{FieldType, pointer, slice, Layout, Message}
use go_gtp.Gtpv2.Ie.{Ie}
use go_gtp.Gtpv2.Message.{gtpv2, new_message}

-- The fields of the struct.
abbrev pub struct : List (String × FieldType)
struct =
    ("IMSI", pointer)
    ∷ ("MSISDN", pointer)
    ∷ ("MEI", pointer)
    ∷ ("ULI", pointer)
    ∷ ("ServingNetwork", pointer)
    ∷ ("RATType", pointer)
    ∷ ("IndicationFlags", pointer)
    ∷ ("SenderFTEIDC", pointer)
    ∷ ("PGWS5S8FTEIDC", pointer)
    ∷ ("APN", pointer)
    ∷ ("SelectionMode", pointer)
    ∷ ("PDNType", pointer)
    ∷ ("PAA", pointer)
    ∷ ("APNRestriction", pointer)
    ∷ ("AMBR", pointer)
    ∷ ("LinkedEBI", pointer)
    ∷ ("TWMI", pointer)
    ∷ ("PCO", pointer)
    ∷ ("BearerContextsToBeCreated", pointer)
    ∷ ("BearerContextsToBeRemoved", pointer)
    ∷ ("TraceInformation", pointer)
    ∷ ("Recovery", pointer)
    ∷ ("MMEFQCSID", pointer)
    ∷ ("SGWFQCSID", pointer)
    ∷ ("EPDGFQCSID", pointer)
    ∷ ("TWANFQCSID", pointer)
    ∷ ("UETimeZone", pointer)
    ∷ ("UCI", pointer)
    ∷ ("ChargingCharacteristics", pointer)
    ∷ ("MMESGSNLDN", pointer)
    ∷ ("SGWLDN", pointer)
    ∷ ("EPDGLDN", pointer)
    ∷ ("TWANLDN", pointer)
    ∷ ("SignallingPriorityIndication", pointer)
    ∷ ("UELocalIPAddress", pointer)
    ∷ ("UEUDPPort", pointer)
    ∷ ("APCO", pointer)
    ∷ ("HeNBLocalIPAddress", pointer)
    ∷ ("HeNBUDPPort", pointer)
    ∷ ("MMESGSNIdentifier", pointer)
    ∷ ("TWANIdentifier", pointer)
    ∷ ("EPDGIPAddress", pointer)
    ∷ ("CNOperatorSelectionEntity", pointer)
    ∷ ("PresenceReportingAreaInformation", pointer)
    ∷ ("MMESGSNOverloadControlInformation", pointer)
    ∷ ("SGWOverloadControlInformation", pointer)
    ∷ ("TWANePDGOverloadControlInformation", pointer)
    ∷ ("OriginationTimeStamp", pointer)
    ∷ ("MaximumWaitTime", pointer)
    ∷ ("WLANLocationInformation", pointer)
    ∷ ("WLANLocationTimeStamp", pointer)
    ∷ ("NBIFOMContainer", pointer)
    ∷ ("RemoteUEContextConnected", pointer)
    ∷ ("TGPPAAAServerIdentifier", pointer)
    ∷ ("EPCO", pointer)
    ∷ ("ServingPLMNRateControl", pointer)
    ∷ ("MOExceptionDataCounter", pointer)
    ∷ ("UETCPPort", pointer)
    ∷ ("MappedUEUsageType", pointer)
    ∷ ("ULIForSGW", pointer)
    ∷ ("SGWUNodeName", pointer)
    ∷ ("SecondaryRATUsageDataReport", pointer)
    ∷ ("UPFunctionSelectionIndicationFlags", pointer)
    ∷ ("APNRateControlStatus", pointer)
    ∷ ("PrivateExtension", pointer)
    ∷ ("AdditionalIEs", slice)
    ∷ []

-- MsgTypeCreateSessionRequest
abbrev pub code : ℕ
code = 32

abbrev pub layout : Layout
layout = record {
  struct = struct;
  new_rules = new_rules;
  checks = false;
  resets = true;
  items = items;
  least = 2;
  parse_rules = parse_rules;
  counts = counts;
}

unfoldable pub new : ℕ → ℕ → List Ie → Message gtpv2
unfolding new_message
new teid seq is = new_message 1 code layout teid seq is

unfoldable pub set_length : Message gtpv2 → Message gtpv2
unfolding Message.set_length
set_length m = Message.set_length gtpv2 layout m

unfoldable pub marshal : Message gtpv2 → Outcome Bytes
unfolding Message.marshal
marshal m = Message.marshal gtpv2 layout m

unfoldable pub parse : Bytes → Outcome (Message gtpv2)
unfolding Message.parse
parse b = Message.parse gtpv2 layout b

-- ===== src/Gtpv2/Message/ModifyBearerRequest.antt =====
-- gtpv2/message/modify-bearer-req.go: the fields and the functions of ModifyBearerRequest.
mod Rules
mod Order
pub use Rules.*
pub use Order.*
use Prim.Native.String.{String}
use go_gtp.Common.{ℕ, List, [], ◌∷◌, false, true, ◌≡◌, refl, arith}
use go_gtp.Common.Outcome.{Outcome}
use go_gtp.Common.Bytes.{Bytes}
use go_gtp.Message
use go_gtp.Message.{FieldType, pointer, slice, Layout, Message}
use go_gtp.Message.RoundTrip.{IsConsistent}
use go_gtp.Gtpv2.Ie.{Ie}
use go_gtp.Gtpv2.Message.{gtpv2, new_message}

-- The fields of the struct.
abbrev pub struct : List (String × FieldType)
struct =
    ("MEI", pointer)
    ∷ ("ULI", pointer)
    ∷ ("ServingNetwork", pointer)
    ∷ ("RATType", pointer)
    ∷ ("IndicationFlags", pointer)
    ∷ ("SenderFTEIDC", pointer)
    ∷ ("AMBR", pointer)
    ∷ ("DelayDownlinkPacketNotificationRequest", pointer)
    ∷ ("BearerContextsToBeModified", pointer)
    ∷ ("BearerContextsToBeRemoved", pointer)
    ∷ ("Recovery", pointer)
    ∷ ("UETimeZone", pointer)
    ∷ ("MMEFQCSID", pointer)
    ∷ ("SGWFQCSID", pointer)
    ∷ ("UCI", pointer)
    ∷ ("UELocalIPAddress", pointer)
    ∷ ("UEUDPPort", pointer)
    ∷ ("MMESGSNLDN", pointer)
    ∷ ("SGWLDN", pointer)
    ∷ ("HeNBLocalIPAddress", pointer)
    ∷ ("HeNBUDPPort", pointer)
    ∷ ("MMESGSNIdentifier", pointer)
    ∷ ("CNOperatorSelectionEntity", pointer)
    ∷ ("PresenceReportingAreaInformation", pointer)
    ∷ ("MMESGSNOverloadControlInformation", pointer)
    ∷ ("SGWOverloadControlInformation", pointer)
    ∷ ("EPDGOverloadControlInformation", pointer)
    ∷ ("ServingPLMNRateControl", pointer)
    ∷ ("MOExceptionDataCounter", pointer)
    ∷ ("IMSI", pointer)
    ∷ ("ULIForSGW", pointer)
    ∷ ("WLANLocationInformation", pointer)
    ∷ ("WLANLocationTimeStamp", pointer)
    ∷ ("SecondaryRATUsageDataReport", pointer)
    ∷ ("PrivateExtension", pointer)
    ∷ ("AdditionalIEs", slice)
    ∷ []

-- MsgTypeModifyBearerRequest
abbrev pub code : ℕ
code = 34

abbrev pub layout : Layout
layout = record {
  struct = struct;
  new_rules = new_rules;
  checks = false;
  resets = true;
  items = items;
  least = 2;
  parse_rules = parse_rules;
  counts = counts;
}

unfoldable pub new : ℕ → ℕ → List Ie → Message gtpv2
unfolding new_message
new teid seq is = new_message 1 code layout teid seq is

unfoldable pub set_length : Message gtpv2 → Message gtpv2
unfolding Message.set_length
set_length m = Message.set_length gtpv2 layout m

unfoldable pub marshal : Message gtpv2 → Outcome Bytes
unfolding Message.marshal
marshal m = Message.marshal gtpv2 layout m

unfoldable pub parse : Bytes → Outcome (Message gtpv2)
unfolding Message.parse
parse b = Message.parse gtpv2 layout b

pub modify_bearer_request-IsConsistent : IsConsistent layout
modify_bearer_request-IsConsistent = record {
  same_rules = refl;
  same_order = refl;
  routed = refl;
  complete = refl;
  once = refl;
  least_two = omega arith;
}

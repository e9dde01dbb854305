-- ===== src/Gtpv2/Message/DeleteSessionRequest.antt =====
-- gtpv2/message/delete-session-req.go: the fields and the functions of DeleteSessionRequest.
mod Rules
mod Order
pub use Rules.*
pub use Order.*
use Prim.Native.String.{String}
use go_gtp.Common.{ℕ, List, [], ◌∷◌, false, true, ◌≡◌, refl, arith}
use go_gtp.Common.Outcome.{Outcome}
use go_gtp.Common.Bytes.{Bytes}
use go_gtp.Message
use go_gtp.Message.{FieldType, pointer, slice, Layout, Message}
use go_gtp.Message.RoundTrip.{IsConsistent}
use go_gtp.Gtpv2.Ie.{Ie}
use go_gtp.Gtpv2.Message.{gtpv2, new_message}

-- The fields of the struct.
abbrev pub struct : List (String × FieldType)
struct =
    ("Cause", pointer)
    ∷ ("LinkedEBI", pointer)
    ∷ ("ULI", pointer)
    ∷ ("IndicationFlags", pointer)
    ∷ ("PCO", pointer)
    ∷ ("OriginatingNode", pointer)
    ∷ ("SenderFTEIDC", pointer)
    ∷ ("UETimeZone", pointer)
    ∷ ("ULITimestamp", pointer)
    ∷ ("RANNASReleaseCause", pointer)
    ∷ ("TWANIdentifier", pointer)
    ∷ ("TWANIdentifierTimestamp", pointer)
    ∷ ("MMESGSNOverloadControlInformation", pointer)
    ∷ ("SGWOverloadControlInformaion", pointer)
    ∷ ("TWANePDGOverloadControlInformaion", pointer)
    ∷ ("WLANLocationInformation", pointer)
    ∷ ("WLANLocationTimeStamp", pointer)
    ∷ ("UELocalIPAddress", pointer)
    ∷ ("UEUDPPort", pointer)
    ∷ ("EPCO", pointer)
    ∷ ("UETCPPort", pointer)
    ∷ ("SecondaryRATUsageDataReport", pointer)
    ∷ ("PrivateExtension", pointer)
    ∷ ("AdditionalIEs", slice)
    ∷ []

-- MsgTypeDeleteSessionRequest
abbrev pub code : ℕ
code = 36

abbrev pub layout : Layout
layout = record {
  struct = struct;
  new_rules = new_rules;
  checks = false;
  resets = true;
  items = items;
  least = 2;
  parse_rules = parse_rules;
  counts = counts;
}

unfoldable pub new : ℕ → ℕ → List Ie → Message gtpv2
unfolding new_message
new teid seq is = new_message 1 code layout teid seq is

unfoldable pub set_length : Message gtpv2 → Message gtpv2
unfolding Message.set_length
set_length m = Message.set_length gtpv2 layout m

unfoldable pub marshal : Message gtpv2 → Outcome Bytes
unfolding Message.marshal
marshal m = Message.marshal gtpv2 layout m

unfoldable pub parse : Bytes → Outcome (Message gtpv2)
unfolding Message.parse
parse b = Message.parse gtpv2 layout b

pub delete_session_request-IsConsistent : IsConsistent layout
delete_session_request-IsConsistent = record {
  same_rules = refl;
  same_order = refl;
  routed = refl;
  complete = refl;
  once = refl;
  least_two = omega arith;
}

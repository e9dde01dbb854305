-- ===== src/Gtpv2/Message/ModifyAccessBearersRequest.antt =====
-- gtpv2/message/modify-access-bearers-req.go: the fields and the functions of ModifyAccessBearersRequest.
use Prim.Native.String.{String}
use go_gtp.Common.{ℕ, List, [], ◌∷◌, false, true, refl, arith}
use go_gtp.Common.Outcome.{Outcome}
use go_gtp.Common.Bytes.{Bytes}
use go_gtp.Message
use go_gtp.Message.{
  FieldType, pointer, slice, Rules, always, by_instance, set, append, drop, Item, write, Layout,
  Message,
}
use go_gtp.Message.RoundTrip.{IsConsistent}
use go_gtp.Gtpv2.Ie.Types
use go_gtp.Gtpv2.Ie.{Ie}
use go_gtp.Gtpv2.Message.{gtpv2, new_message}

-- The fields of the struct.
abbrev pub struct : List (String × FieldType)
struct =
    ("IndicationFlags", pointer)
    ∷ ("SenderFTEIDC", pointer)
    ∷ ("DelayDownlinkPacketNotificationRequest", pointer)
    ∷ ("BearerContextsToBeModified", pointer)
    ∷ ("BearerContextsToBeRemoved", pointer)
    ∷ ("Recovery", pointer)
    ∷ ("SecondaryRATUsageDataReport", pointer)
    ∷ ("PrivateExtension", pointer)
    ∷ ("AdditionalIEs", slice)
    ∷ []

-- The fields in the order of MarshalTo.
abbrev pub items : List Item
items =
    write "IndicationFlags"
    ∷ write "SenderFTEIDC"
    ∷ write "DelayDownlinkPacketNotificationRequest"
    ∷ write "BearerContextsToBeModified"
    ∷ write "BearerContextsToBeRemoved"
    ∷ write "Recovery"
    ∷ write "SecondaryRATUsageDataReport"
    ∷ write "PrivateExtension"
    ∷ write "AdditionalIEs"
    ∷ []

-- The fields in the order of MarshalLen.
abbrev pub counts : List String
counts =
    "IndicationFlags" ∷ "SenderFTEIDC" ∷ "DelayDownlinkPacketNotificationRequest"
    ∷ "BearerContextsToBeModified" ∷ "BearerContextsToBeRemoved" ∷ "Recovery"
    ∷ "SecondaryRATUsageDataReport" ∷ "PrivateExtension" ∷ "AdditionalIEs" ∷ []

-- The cases of the constructor.
abbrev pub new_rules : Rules
new_rules = record {
  cases =
      (Types.indication, always (set "IndicationFlags"))
      ∷ (Types.node_type, always (set "SenderFTEIDC"))
      ∷ (Types.delay_value, always (set "DelayDownlinkPacketNotificationRequest"))
      ∷ (
        Types.bearer_context,
        by_instance
            ((0, set "BearerContextsToBeModified") ∷ (1, set "BearerContextsToBeRemoved") ∷ [])
            drop,
      )
      ∷ (Types.recovery, always (set "Recovery"))
      ∷ (Types.secondary_rat_usage_data_report, always (set "SecondaryRATUsageDataReport"))
      ∷ (Types.private_extension, always (set "PrivateExtension"))
      ∷ [];
  otherwise = append "AdditionalIEs";
}

-- The cases of UnmarshalBinary.
abbrev pub parse_rules : Rules
parse_rules = record {
  cases =
      (Types.indication, always (set "IndicationFlags"))
      ∷ (Types.node_type, always (set "SenderFTEIDC"))
      ∷ (Types.delay_value, always (set "DelayDownlinkPacketNotificationRequest"))
      ∷ (
        Types.bearer_context,
        by_instance
            ((0, set "BearerContextsToBeModified") ∷ (1, set "BearerContextsToBeRemoved") ∷ [])
            drop,
      )
      ∷ (Types.recovery, always (set "Recovery"))
      ∷ (Types.secondary_rat_usage_data_report, always (set "SecondaryRATUsageDataReport"))
      ∷ (Types.private_extension, always (set "PrivateExtension"))
      ∷ [];
  otherwise = append "AdditionalIEs";
}

-- MsgTypeModifyAccessBearersRequest
abbrev pub code : ℕ
code = 211

abbrev pub layout : Layout
layout = record {
  struct = struct;
  new_rules = new_rules;
  checks = false;
  resets = true;
  items = items;
  least = 2;
  parse_rules = parse_rules;
  counts = counts;
}

unfoldable pub new : ℕ → ℕ → List Ie → Message gtpv2
unfolding new_message
new teid seq is = new_message 1 code layout teid seq is

unfoldable pub set_length : Message gtpv2 → Message gtpv2
unfolding Message.set_length
set_length m = Message.set_length gtpv2 layout m

unfoldable pub marshal : Message gtpv2 → Outcome Bytes
unfolding Message.marshal
marshal m = Message.marshal gtpv2 layout m

unfoldable pub parse : Bytes → Outcome (Message gtpv2)
unfolding Message.parse
parse b = Message.parse gtpv2 layout b

pub modify_access_bearers_request-IsConsistent : IsConsistent layout
modify_access_bearers_request-IsConsistent = record {
  same_rules = refl;
  same_order = refl;
  routed = refl;
  complete = refl;
  once = refl;
  least_two = omega arith;
}

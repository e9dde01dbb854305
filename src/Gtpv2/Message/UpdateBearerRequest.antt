-- ===== src/Gtpv2/Message/UpdateBearerRequest.antt =====
-- gtpv2/message/update-bearer-req.go: the fields and the functions of UpdateBearerRequest.
use Prim.Native.String.{String}
use go_gtp.Common.{ℕ, List, [], ◌∷◌, false, true, refl, arith}
use go_gtp.Common.Outcome.{Outcome}
use go_gtp.Common.Bytes.{Bytes}
use go_gtp.Message
use go_gtp.Message.{
  FieldType, pointer, slice, Rules, always, by_instance, set, append, Item, write, Layout, Message,
}
use go_gtp.Message.RoundTrip.{IsConsistent}
use go_gtp.Gtpv2.Ie.Types
use go_gtp.Gtpv2.Ie.{Ie}
use go_gtp.Gtpv2.Message.{gtpv2, new_message}

-- The fields of the struct.
abbrev pub struct : List (String × FieldType)
struct =
    ("BearerContexts", pointer)
    ∷ ("PTI", pointer)
    ∷ ("PCO", pointer)
    ∷ ("APNAMBR", pointer)
    ∷ ("ChangeReportingAction", pointer)
    ∷ ("CSGInformationReportingAction", pointer)
    ∷ ("HeNBInformationReporting", pointer)
    ∷ ("IndicationFlags", pointer)
    ∷ ("PGWFQCSID", pointer)
    ∷ ("SGWFQCSID", pointer)
    ∷ ("PresenceReportingAction", pointer)
    ∷ ("PGWNodeLoadControlInformation", pointer)
    ∷ ("PGWAPNLoadControlInformation", pointer)
    ∷ ("SGWNodeLoadControlInformation", pointer)
    ∷ ("PGWOverloadControlInformation", pointer)
    ∷ ("SGWOverloadControlInformation", pointer)
    ∷ ("NBIFOMContainer", pointer)
    ∷ ("PrivateExtension", pointer)
    ∷ ("AdditionalIEs", slice)
    ∷ []

-- The fields in the order of MarshalTo.
abbrev pub items : List Item
items =
    write "BearerContexts"
    ∷ write "PTI"
    ∷ write "PCO"
    ∷ write "APNAMBR"
    ∷ write "ChangeReportingAction"
    ∷ write "CSGInformationReportingAction"
    ∷ write "HeNBInformationReporting"
    ∷ write "IndicationFlags"
    ∷ write "PGWFQCSID"
    ∷ write "SGWFQCSID"
    ∷ write "PresenceReportingAction"
    ∷ write "PGWNodeLoadControlInformation"
    ∷ write "PGWAPNLoadControlInformation"
    ∷ write "SGWNodeLoadControlInformation"
    ∷ write "PGWOverloadControlInformation"
    ∷ write "SGWOverloadControlInformation"
    ∷ write "NBIFOMContainer"
    ∷ write "PrivateExtension"
    ∷ write "AdditionalIEs"
    ∷ []

-- The fields in the order of MarshalLen.
abbrev pub counts : List String
counts =
    "BearerContexts" ∷ "PTI" ∷ "PCO" ∷ "APNAMBR" ∷ "ChangeReportingAction"
    ∷ "CSGInformationReportingAction" ∷ "HeNBInformationReporting" ∷ "IndicationFlags" ∷ "PGWFQCSID"
    ∷ "SGWFQCSID" ∷ "PresenceReportingAction" ∷ "PGWNodeLoadControlInformation"
    ∷ "PGWAPNLoadControlInformation" ∷ "SGWNodeLoadControlInformation"
    ∷ "PGWOverloadControlInformation" ∷ "SGWOverloadControlInformation" ∷ "NBIFOMContainer"
    ∷ "PrivateExtension" ∷ "AdditionalIEs" ∷ []

-- The cases of the constructor.
abbrev pub new_rules : Rules
new_rules = record {
  cases =
      (Types.bearer_context, always (set "BearerContexts"))
      ∷ (Types.procedure_transaction_id, always (set "PTI"))
      ∷ (Types.protocol_configuration_options, always (set "PCO"))
      ∷ (Types.aggregate_maximum_bit_rate, always (set "APNAMBR"))
      ∷ (Types.change_reporting_action, always (set "ChangeReportingAction"))
      ∷ (Types.csg_information_reporting_action, always (set "CSGInformationReportingAction"))
      ∷ (Types.henb_information_reporting, always (set "HeNBInformationReporting"))
      ∷ (Types.indication, always (set "IndicationFlags"))
      ∷ (
        Types.fully_qualified_csid,
        by_instance ((0, set "PGWFQCSID") ∷ (1, set "SGWFQCSID") ∷ []) (append "AdditionalIEs"),
      )
      ∷ (Types.presence_reporting_area_action, always (set "PresenceReportingAction"))
      ∷ (
        Types.load_control_information,
        by_instance
            ((0, set "PGWNodeLoadControlInformation")
              ∷ (1, set "PGWAPNLoadControlInformation")
              ∷ (2, set "SGWNodeLoadControlInformation")
              ∷ [])
            (append "AdditionalIEs"),
      )
      ∷ (
        Types.overload_control_information,
        by_instance
            ((0, set "PGWOverloadControlInformation")
              ∷ (1, set "SGWOverloadControlInformation")
              ∷ [])
            (append "AdditionalIEs"),
      )
      ∷ (Types.f_container, always (set "NBIFOMContainer"))
      ∷ (Types.private_extension, always (set "PrivateExtension"))
      ∷ [];
  otherwise = append "AdditionalIEs";
}

-- The cases of UnmarshalBinary.
abbrev pub parse_rules : Rules
parse_rules = record {
  cases =
      (Types.bearer_context, always (set "BearerContexts"))
      ∷ (Types.procedure_transaction_id, always (set "PTI"))
      ∷ (Types.protocol_configuration_options, always (set "PCO"))
      ∷ (Types.aggregate_maximum_bit_rate, always (set "APNAMBR"))
      ∷ (Types.change_reporting_action, always (set "ChangeReportingAction"))
      ∷ (Types.csg_information_reporting_action, always (set "CSGInformationReportingAction"))
      ∷ (Types.henb_information_reporting, always (set "HeNBInformationReporting"))
      ∷ (Types.indication, always (set "IndicationFlags"))
      ∷ (
        Types.fully_qualified_csid,
        by_instance ((0, set "PGWFQCSID") ∷ (1, set "SGWFQCSID") ∷ []) (append "AdditionalIEs"),
      )
      ∷ (Types.presence_reporting_area_action, always (set "PresenceReportingAction"))
      ∷ (
        Types.load_control_information,
        by_instance
            ((0, set "PGWNodeLoadControlInformation")
              ∷ (1, set "PGWAPNLoadControlInformation")
              ∷ (2, set "SGWNodeLoadControlInformation")
              ∷ [])
            (append "AdditionalIEs"),
      )
      ∷ (
        Types.overload_control_information,
        by_instance
            ((0, set "PGWOverloadControlInformation")
              ∷ (1, set "SGWOverloadControlInformation")
              ∷ [])
            (append "AdditionalIEs"),
      )
      ∷ (Types.f_container, always (set "NBIFOMContainer"))
      ∷ (Types.private_extension, always (set "PrivateExtension"))
      ∷ [];
  otherwise = append "AdditionalIEs";
}

-- MsgTypeUpdateBearerRequest
abbrev pub code : ℕ
code = 97

abbrev pub layout : Layout
layout = record {
  struct = struct;
  new_rules = new_rules;
  checks = false;
  resets = true;
  items = items;
  least = 2;
  parse_rules = parse_rules;
  counts = counts;
}

unfoldable pub new : ℕ → ℕ → List Ie → Message gtpv2
unfolding new_message
new teid seq is = new_message 1 code layout teid seq is

unfoldable pub set_length : Message gtpv2 → Message gtpv2
unfolding Message.set_length
set_length m = Message.set_length gtpv2 layout m

unfoldable pub marshal : Message gtpv2 → Outcome Bytes
unfolding Message.marshal
marshal m = Message.marshal gtpv2 layout m

unfoldable pub parse : Bytes → Outcome (Message gtpv2)
unfolding Message.parse
parse b = Message.parse gtpv2 layout b

pub update_bearer_request-IsConsistent : IsConsistent layout
update_bearer_request-IsConsistent = record {
  same_rules = refl;
  same_order = refl;
  routed = refl;
  complete = refl;
  once = refl;
  least_two = omega arith;
}

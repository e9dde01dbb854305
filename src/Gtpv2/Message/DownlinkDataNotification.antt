-- ===== src/Gtpv2/Message/DownlinkDataNotification.antt =====
-- gtpv2/message/downlink-data-notification.go: the fields and the functions of DownlinkDataNotification.
use Prim.Native.String.{String}
use go_gtp.Common.{ℕ, List, [], ◌∷◌, false, true, refl, arith}
use go_gtp.Common.Outcome.{Outcome}
use go_gtp.Common.Bytes.{Bytes}
use go_gtp.Message
use go_gtp.Message.{
  FieldType, pointer, slice, Rules, always, set, append, Item, write, Layout, Message,
}
use go_gtp.Message.RoundTrip.{IsConsistent}
use go_gtp.Gtpv2.Ie.Types
use go_gtp.Gtpv2.Ie.{Ie}
use go_gtp.Gtpv2.Message.{gtpv2, new_message}

-- The fields of the struct.
abbrev pub struct : List (String × FieldType)
struct =
    ("Cause", pointer)
    ∷ ("EPSBearerID", pointer)
    ∷ ("AllocationRetensionPriority", pointer)
    ∷ ("IMSI", pointer)
    ∷ ("SenderFTEIDC", pointer)
    ∷ ("IndicationFlags", pointer)
    ∷ ("SGWNodeLoadControlInformation", pointer)
    ∷ ("SGWOverloadControlInformation", pointer)
    ∷ ("PagingAndServiceInformation", pointer)
    ∷ ("DLDataPacketsSize", pointer)
    ∷ ("PrivateExtension", pointer)
    ∷ ("AdditionalIEs", slice)
    ∷ []

-- The fields in the order of MarshalTo.
abbrev pub items : List Item
items =
    write "Cause"
    ∷ write "EPSBearerID"
    ∷ write "AllocationRetensionPriority"
    ∷ write "IMSI"
    ∷ write "SenderFTEIDC"
    ∷ write "IndicationFlags"
    ∷ write "SGWNodeLoadControlInformation"
    ∷ write "SGWOverloadControlInformation"
    ∷ write "PagingAndServiceInformation"
    ∷ write "DLDataPacketsSize"
    ∷ write "PrivateExtension"
    ∷ write "AdditionalIEs"
    ∷ []

-- The fields in the order of MarshalLen.
abbrev pub counts : List String
counts =
    "Cause" ∷ "EPSBearerID" ∷ "AllocationRetensionPriority" ∷ "IMSI" ∷ "SenderFTEIDC"
    ∷ "IndicationFlags" ∷ "SGWNodeLoadControlInformation" ∷ "SGWOverloadControlInformation"
    ∷ "PagingAndServiceInformation" ∷ "DLDataPacketsSize" ∷ "PrivateExtension" ∷ "AdditionalIEs"
    ∷ []

-- The cases of the constructor.
abbrev pub new_rules : Rules
new_rules = record {
  cases =
      (Types.cause, always (set "Cause"))
      ∷ (Types.eps_bearer_id, always (set "EPSBearerID"))
      ∷ (Types.allocation_retension_priority, always (set "AllocationRetensionPriority"))
      ∷ (Types.imsi, always (set "IMSI"))
      ∷ (Types.fully_qualified_teid, always (set "SenderFTEIDC"))
      ∷ (Types.indication, always (set "IndicationFlags"))
      ∷ (Types.load_control_information, always (set "SGWNodeLoadControlInformation"))
      ∷ (Types.overload_control_information, always (set "SGWOverloadControlInformation"))
      ∷ (Types.paging_and_service_information, always (set "PagingAndServiceInformation"))
      ∷ (Types.integer_number, always (set "DLDataPacketsSize"))
      ∷ (Types.private_extension, always (set "PrivateExtension"))
      ∷ [];
  otherwise = append "AdditionalIEs";
}

-- The cases of UnmarshalBinary.
abbrev pub parse_rules : Rules
parse_rules = record {
  cases =
      (Types.cause, always (set "Cause"))
      ∷ (Types.eps_bearer_id, always (set "EPSBearerID"))
      ∷ (Types.allocation_retension_priority, always (set "AllocationRetensionPriority"))
      ∷ (Types.imsi, always (set "IMSI"))
      ∷ (Types.fully_qualified_teid, always (set "SenderFTEIDC"))
      ∷ (Types.indication, always (set "IndicationFlags"))
      ∷ (Types.load_control_information, always (set "SGWNodeLoadControlInformation"))
      ∷ (Types.overload_control_information, always (set "SGWOverloadControlInformation"))
      ∷ (Types.paging_and_service_information, always (set "PagingAndServiceInformation"))
      ∷ (Types.integer_number, always (set "DLDataPacketsSize"))
      ∷ (Types.private_extension, always (set "PrivateExtension"))
      ∷ [];
  otherwise = append "AdditionalIEs";
}

-- MsgTypeDownlinkDataNotification
abbrev pub code : ℕ
code = 176

abbrev pub layout : Layout
layout = record {
  struct = struct;
  new_rules = new_rules;
  checks = false;
  resets = true;
  items = items;
  least = 2;
  parse_rules = parse_rules;
  counts = counts;
}

unfoldable pub new : ℕ → ℕ → List Ie → Message gtpv2
unfolding new_message
new teid seq is = new_message 1 code layout teid seq is

unfoldable pub set_length : Message gtpv2 → Message gtpv2
unfolding Message.set_length
set_length m = Message.set_length gtpv2 layout m

unfoldable pub marshal : Message gtpv2 → Outcome Bytes
unfolding Message.marshal
marshal m = Message.marshal gtpv2 layout m

unfoldable pub parse : Bytes → Outcome (Message gtpv2)
unfolding Message.parse
parse b = Message.parse gtpv2 layout b

pub downlink_data_notification-IsConsistent : IsConsistent layout
downlink_data_notification-IsConsistent = record {
  same_rules = refl;
  same_order = refl;
  routed = refl;
  complete = refl;
  once = refl;
  least_two = omega arith;
}

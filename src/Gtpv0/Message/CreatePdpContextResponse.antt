-- ===== src/Gtpv0/Message/CreatePdpContextResponse.antt =====
-- gtpv0/message/create-pdp-context-res.go: the fields and the functions of CreatePDPContextResponse.
use Prim.Native.String.{String}
use go_gtp.Common.{ℕ, List, [], ◌∷◌, false, true}
use go_gtp.Common.Outcome.{Outcome}
use go_gtp.Common.Bytes.{Bytes}
use go_gtp.Message
use go_gtp.Message.{
  FieldType, pointer, slice, Rules, always, set, append, if_nil, Item, write, Layout, Message,
}
use go_gtp.Gtpv0.Ie.Types
use go_gtp.Tlv.{Ie}
use go_gtp.Gtpv0.Message.{gtpv0, new_message}

-- The fields of the struct.
abbrev pub struct : List (String × FieldType)
struct =
    ("Cause", pointer)
    ∷ ("QoSProfile", pointer)
    ∷ ("ReorderingRequired", pointer)
    ∷ ("Recovery", pointer)
    ∷ ("FlowLabelDataI", pointer)
    ∷ ("FlowLabelSignalling", pointer)
    ∷ ("ChargingID", pointer)
    ∷ ("EndUserAddress", pointer)
    ∷ ("PCO", pointer)
    ∷ ("GGSNAddressForSignalling", pointer)
    ∷ ("GGSNAddressForUserTraffic", pointer)
    ∷ ("ChargingGatewayAddress", pointer)
    ∷ ("PrivateExtension", pointer)
    ∷ ("AdditionalIEs", slice)
    ∷ []

-- The fields in the order of MarshalTo.
abbrev pub items : List Item
items =
    write "Cause"
    ∷ write "QoSProfile"
    ∷ write "ReorderingRequired"
    ∷ write "Recovery"
    ∷ write "FlowLabelDataI"
    ∷ write "FlowLabelSignalling"
    ∷ write "ChargingID"
    ∷ write "EndUserAddress"
    ∷ write "PCO"
    ∷ write "GGSNAddressForSignalling"
    ∷ write "GGSNAddressForUserTraffic"
    ∷ write "ChargingGatewayAddress"
    ∷ write "PrivateExtension"
    ∷ write "AdditionalIEs"
    ∷ []

-- The fields in the order of MarshalLen.
abbrev pub counts : List String
counts =
    "Cause" ∷ "QoSProfile" ∷ "ReorderingRequired" ∷ "Recovery" ∷ "FlowLabelDataI"
    ∷ "FlowLabelSignalling" ∷ "ChargingID" ∷ "EndUserAddress" ∷ "PCO" ∷ "GGSNAddressForSignalling"
    ∷ "GGSNAddressForUserTraffic" ∷ "ChargingGatewayAddress" ∷ "PrivateExtension" ∷ "AdditionalIEs"
    ∷ []

-- The cases of the constructor.
abbrev pub new_rules : Rules
new_rules = record {
  cases =
      (Types.cause, always (set "Cause"))
      ∷ (Types.quality_of_service_profile, always (set "QoSProfile"))
      ∷ (Types.reordering_required, always (set "ReorderingRequired"))
      ∷ (Types.recovery, always (set "Recovery"))
      ∷ (Types.flow_label_data_i, always (set "FlowLabelDataI"))
      ∷ (Types.flow_label_signalling, always (set "FlowLabelSignalling"))
      ∷ (Types.charging_id, always (set "ChargingID"))
      ∷ (Types.end_user_address, always (set "EndUserAddress"))
      ∷ (Types.protocol_configuration_options, always (set "PCO"))
      ∷ (
        Types.gsn_address,
        always (
            if_nil "GGSNAddressForSignalling" (set "GGSNAddressForSignalling")
              (set "GGSNAddressForUserTraffic")),
      )
      ∷ (Types.charging_gateway_address, always (set "ChargingGatewayAddress"))
      ∷ (Types.private_extension, always (set "PrivateExtension"))
      ∷ [];
  otherwise = append "AdditionalIEs";
}

-- The cases of UnmarshalBinary.
abbrev pub parse_rules : Rules
parse_rules = record {
  cases =
      (Types.cause, always (set "Cause"))
      ∷ (Types.quality_of_service_profile, always (set "QoSProfile"))
      ∷ (Types.reordering_required, always (set "ReorderingRequired"))
      ∷ (Types.recovery, always (set "Recovery"))
      ∷ (Types.flow_label_data_i, always (set "FlowLabelDataI"))
      ∷ (Types.flow_label_signalling, always (set "FlowLabelSignalling"))
      ∷ (Types.charging_id, always (set "ChargingID"))
      ∷ (Types.end_user_address, always (set "EndUserAddress"))
      ∷ (Types.protocol_configuration_options, always (set "PCO"))
      ∷ (
        Types.gsn_address,
        always (
            if_nil "GGSNAddressForSignalling" (set "GGSNAddressForSignalling")
              (set "GGSNAddressForUserTraffic")),
      )
      ∷ (Types.charging_gateway_address, always (set "ChargingGatewayAddress"))
      ∷ (Types.private_extension, always (set "PrivateExtension"))
      ∷ [];
  otherwise = append "AdditionalIEs";
}

-- MsgTypeCreatePDPContextResponse
abbrev pub code : ℕ
code = 17

abbrev pub layout : Layout
layout = record {
  struct = struct;
  new_rules = new_rules;
  checks = false;
  resets = true;
  items = items;
  least = 2;
  parse_rules = parse_rules;
  counts = counts;
}

unfoldable pub new : ℕ → ℕ → ℕ → List Ie → Message gtpv0
unfolding new_message
new seq label tid is = new_message code layout seq label tid is

unfoldable pub set_length : Message gtpv0 → Message gtpv0
unfolding Message.set_length
set_length m = Message.set_length gtpv0 layout m

unfoldable pub marshal : Message gtpv0 → Outcome Bytes
unfolding Message.marshal
marshal m = Message.marshal gtpv0 layout m

unfoldable pub parse : Bytes → Outcome (Message gtpv0)
unfolding Message.parse
parse b = Message.parse gtpv0 layout b

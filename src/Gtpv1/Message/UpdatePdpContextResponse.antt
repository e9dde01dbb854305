-- ===== src/Gtpv1/Message/UpdatePdpContextResponse.antt =====
-- gtpv1/message/update-pdp-context-res.go: the fields and the functions of UpdatePDPContextResponse.
use Prim.Native.String.{String}
use go_gtp.Common.{ℕ, List, [], ◌∷◌, false, true}
use go_gtp.Common.Outcome.{Outcome}
use go_gtp.Common.Bytes.{Bytes}
use go_gtp.Message
use go_gtp.Message.{
  FieldType, pointer, slice, Rules, always, set, append, drop, if_nil, Item, write, Layout, Message,
}
use go_gtp.Gtpv1.Ie.Types
use go_gtp.Tlv.{Ie}
use go_gtp.Gtpv1.Message.{gtpv1, new_message}

-- The fields of the struct.
abbrev pub struct : List (String × FieldType)
struct =
    ("Cause", pointer)
    ∷ ("Recovery", pointer)
    ∷ ("TEIDDataI", pointer)
    ∷ ("TEIDCPlane", pointer)
    ∷ ("ChargingID", pointer)
    ∷ ("PCO", pointer)
    ∷ ("GGSNAddressForCPlane", pointer)
    ∷ ("GGSNAddressForUserTraffic", pointer)
    ∷ ("AltGGSNAddressForCPlane", pointer)
    ∷ ("AltGGSNAddressForUserTraffic", pointer)
    ∷ ("QoSProfile", pointer)
    ∷ ("ChargingGatewayAddress", pointer)
    ∷ ("AltChargingGatewayAddress", pointer)
    ∷ ("CommonFlags", pointer)
    ∷ ("APNRestriction", pointer)
    ∷ ("BearerControlMode", pointer)
    ∷ ("MSInfoChangeReportingAction", pointer)
    ∷ ("EvolvedARPI", pointer)
    ∷ ("CSGInformationReportingAction", pointer)
    ∷ ("APNAMBR", pointer)
    ∷ ("PrivateExtension", pointer)
    ∷ ("AdditionalIEs", slice)
    ∷ []

-- The fields in the order of MarshalTo.
abbrev pub items : List Item
items =
    write "Cause"
    ∷ write "Recovery"
    ∷ write "TEIDDataI"
    ∷ write "TEIDCPlane"
    ∷ write "ChargingID"
    ∷ write "PCO"
    ∷ write "GGSNAddressForCPlane"
    ∷ write "GGSNAddressForUserTraffic"
    ∷ write "AltGGSNAddressForCPlane"
    ∷ write "AltGGSNAddressForUserTraffic"
    ∷ write "QoSProfile"
    ∷ write "ChargingGatewayAddress"
    ∷ write "AltChargingGatewayAddress"
    ∷ write "CommonFlags"
    ∷ write "APNRestriction"
    ∷ write "BearerControlMode"
    ∷ write "MSInfoChangeReportingAction"
    ∷ write "EvolvedARPI"
    ∷ write "CSGInformationReportingAction"
    ∷ write "APNAMBR"
    ∷ write "PrivateExtension"
    ∷ write "AdditionalIEs"
    ∷ []

-- The fields in the order of MarshalLen.
abbrev pub counts : List String
counts =
    "Cause" ∷ "Recovery" ∷ "TEIDDataI" ∷ "TEIDCPlane" ∷ "ChargingID" ∷ "PCO"
    ∷ "GGSNAddressForCPlane" ∷ "GGSNAddressForUserTraffic" ∷ "AltGGSNAddressForCPlane"
    ∷ "AltGGSNAddressForUserTraffic" ∷ "QoSProfile" ∷ "ChargingGatewayAddress"
    ∷ "AltChargingGatewayAddress" ∷ "CommonFlags" ∷ "APNRestriction" ∷ "BearerControlMode"
    ∷ "MSInfoChangeReportingAction" ∷ "EvolvedARPI" ∷ "CSGInformationReportingAction" ∷ "APNAMBR"
    ∷ "PrivateExtension" ∷ "AdditionalIEs" ∷ []

-- The cases of the constructor.
abbrev pub new_rules : Rules
new_rules = record {
  cases =
      (Types.cause, always (set "Cause"))
      ∷ (Types.recovery, always (set "Recovery"))
      ∷ (Types.teid_data_i, always (set "TEIDDataI"))
      ∷ (Types.teidc_plane, always (set "TEIDCPlane"))
      ∷ (Types.charging_id, always (set "ChargingID"))
      ∷ (Types.protocol_configuration_options, always (set "PCO"))
      ∷ (
        Types.gsn_address,
        always (
            if_nil "GGSNAddressForCPlane" (set "GGSNAddressForCPlane") (
              if_nil "GGSNAddressForUserTraffic" (set "GGSNAddressForUserTraffic") (
                if_nil "AltGGSNAddressForCPlane" (set "AltGGSNAddressForCPlane") (
                  if_nil "AltGGSNAddressForUserTraffic" (set "AltGGSNAddressForUserTraffic")
                    drop)))),
      )
      ∷ (Types.qos_profile, always (set "QoSProfile"))
      ∷ (
        Types.charging_gateway_address,
        always (
            if_nil "ChargingGatewayAddress" (set "ChargingGatewayAddress")
              (if_nil "AltChargingGatewayAddress" (set "AltChargingGatewayAddress") drop)),
      )
      ∷ (Types.common_flags, always (set "CommonFlags"))
      ∷ (Types.apn_restriction, always (set "APNRestriction"))
      ∷ (Types.bearer_control_mode, always (set "BearerControlMode"))
      ∷ (Types.ms_info_change_reporting_action, always (set "MSInfoChangeReportingAction"))
      ∷ (Types.evolved_allocation_retention_priority_i, always (set "EvolvedARPI"))
      ∷ (Types.csg_information_reporting_action, always (set "CSGInformationReportingAction"))
      ∷ (Types.aggregate_maximum_bit_rate, always (set "APNAMBR"))
      ∷ (Types.private_extension, always (set "PrivateExtension"))
      ∷ [];
  otherwise = append "AdditionalIEs";
}

-- The cases of UnmarshalBinary.
abbrev pub parse_rules : Rules
parse_rules = record {
  cases =
      (Types.cause, always (set "Cause"))
      ∷ (Types.recovery, always (set "Recovery"))
      ∷ (Types.teid_data_i, always (set "TEIDDataI"))
      ∷ (Types.teidc_plane, always (set "TEIDCPlane"))
      ∷ (Types.charging_id, always (set "ChargingID"))
      ∷ (Types.protocol_configuration_options, always (set "PCO"))
      ∷ (
        Types.gsn_address,
        always (
            if_nil "GGSNAddressForCPlane" (set "GGSNAddressForCPlane") (
              if_nil "GGSNAddressForUserTraffic" (set "GGSNAddressForUserTraffic") (
                if_nil "AltGGSNAddressForCPlane" (set "AltGGSNAddressForCPlane") (
                  if_nil "AltGGSNAddressForUserTraffic" (set "AltGGSNAddressForUserTraffic")
                    drop)))),
      )
      ∷ (Types.qos_profile, always (set "QoSProfile"))
      ∷ (
        Types.charging_gateway_address,
        always (
            if_nil "ChargingGatewayAddress" (set "ChargingGatewayAddress")
              (if_nil "AltChargingGatewayAddress" (set "AltChargingGatewayAddress") drop)),
      )
      ∷ (Types.common_flags, always (set "CommonFlags"))
      ∷ (Types.apn_restriction, always (set "APNRestriction"))
      ∷ (Types.bearer_control_mode, always (set "BearerControlMode"))
      ∷ (Types.ms_info_change_reporting_action, always (set "MSInfoChangeReportingAction"))
      ∷ (Types.evolved_allocation_retention_priority_i, always (set "EvolvedARPI"))
      ∷ (Types.csg_information_reporting_action, always (set "CSGInformationReportingAction"))
      ∷ (Types.aggregate_maximum_bit_rate, always (set "APNAMBR"))
      ∷ (Types.private_extension, always (set "PrivateExtension"))
      ∷ [];
  otherwise = append "AdditionalIEs";
}

-- MsgTypeUpdatePDPContextResponse
abbrev pub code : ℕ
code = 19

abbrev pub layout : Layout
layout = record {
  struct = struct;
  new_rules = new_rules;
  checks = true;
  resets = false;
  items = items;
  least = 2;
  parse_rules = parse_rules;
  counts = counts;
}

unfoldable pub new : ℕ → ℕ → List Ie → Message gtpv1
unfolding new_message
new teid seq is = new_message code layout teid seq is

unfoldable pub set_length : Message gtpv1 → Message gtpv1
unfolding Message.set_length
set_length m = Message.set_length gtpv1 layout m

unfoldable pub marshal : Message gtpv1 → Outcome Bytes
unfolding Message.marshal
marshal m = Message.marshal gtpv1 layout m

unfoldable pub parse : Bytes → Outcome (Message gtpv1)
unfolding Message.parse
parse b = Message.parse gtpv1 layout b

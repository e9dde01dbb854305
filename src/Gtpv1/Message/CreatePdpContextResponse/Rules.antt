-- ===== src/Gtpv1/Message/CreatePdpContextResponse/Rules.antt =====
-- gtpv1/message/create-pdp-context-res.go: which field an element of CreatePDPContextResponse reaches.
use go_gtp.Common.{[], ◌∷◌}
use go_gtp.Message.{Rules, always, set, append, drop, if_nil}
use go_gtp.Gtpv1.Ie.Types

-- The cases of the constructor.
abbrev pub new_rules : Rules
new_rules = record {
  cases =
      (Types.cause, always (set "Cause"))
      ∷ (Types.reordering_required, always (set "ReorderingRequired"))
      ∷ (Types.recovery, always (set "Recovery"))
      ∷ (Types.teid_data_i, always (set "TEIDDataI"))
      ∷ (Types.teidc_plane, always (set "TEIDCPlane"))
      ∷ (Types.nsapi, always (set "NSAPI"))
      ∷ (Types.charging_id, always (set "ChargingID"))
      ∷ (Types.end_user_address, always (set "EndUserAddress"))
      ∷ (Types.protocol_configuration_options, always (set "PCO"))
      ∷ (
        Types.gsn_address,
        always (
            if_nil "GGSNAddressForCPlane" (set "GGSNAddressForCPlane") (
              if_nil "GGSNAddressForUserTraffic" (set "GGSNAddressForUserTraffic") (
                if_nil "AltGGSNAddressForCPlane" (set "AltGGSNAddressForCPlane") (
                  if_nil "AltGGSNAddressForUserTraffic" (set "AltGGSNAddressForUserTraffic")
                    drop)))),
      )
      ∷ (Types.qos_profile, always (set "QoSProfile"))
      ∷ (
        Types.charging_gateway_address,
        always (
            if_nil "ChargingGatewayAddress" (set "ChargingGatewayAddress")
              (if_nil "AltChargingGatewayAddress" (set "AltChargingGatewayAddress") drop)),
      )
      ∷ (Types.common_flags, always (set "CommonFlags"))
      ∷ (Types.apn_restriction, always (set "APNRestriction"))
      ∷ (Types.ms_info_change_reporting_action, always (set "MSInfoChangeReportingAction"))
      ∷ (Types.bearer_control_mode, always (set "BearerControlMode"))
      ∷ (Types.evolved_allocation_retention_priority_i, always (set "EvolvedARPI"))
      ∷ (Types.extended_common_flags, always (set "ExtendedCommonFlag"))
      ∷ (Types.csg_information_reporting_action, always (set "CSGInformationReportingAction"))
      ∷ (Types.aggregate_maximum_bit_rate, always (set "APNAMBR"))
      ∷ (Types.ggsn_back_off_time, always (set "GGSNBackOffTime"))
      ∷ (Types.extended_common_flags_ii, always (set "ExtendedCommonFlagsII"))
      ∷ (Types.private_extension, always (set "PrivateExtension"))
      ∷ [];
  otherwise = append "AdditionalIEs";
}

-- The cases of UnmarshalBinary.
abbrev pub parse_rules : Rules
parse_rules = record {
  cases =
      (Types.cause, always (set "Cause"))
      ∷ (Types.reordering_required, always (set "ReorderingRequired"))
      ∷ (Types.recovery, always (set "Recovery"))
      ∷ (Types.teid_data_i, always (set "TEIDDataI"))
      ∷ (Types.teidc_plane, always (set "TEIDCPlane"))
      ∷ (Types.nsapi, always (set "NSAPI"))
      ∷ (Types.charging_id, always (set "ChargingID"))
      ∷ (Types.end_user_address, always (set "EndUserAddress"))
      ∷ (Types.protocol_configuration_options, always (set "PCO"))
      ∷ (
        Types.gsn_address,
        always (
            if_nil "GGSNAddressForCPlane" (set "GGSNAddressForCPlane") (
              if_nil "GGSNAddressForUserTraffic" (set "GGSNAddressForUserTraffic") (
                if_nil "AltGGSNAddressForCPlane" (set "AltGGSNAddressForCPlane") (
                  if_nil "AltGGSNAddressForUserTraffic" (set "AltGGSNAddressForUserTraffic")
                    drop)))),
      )
      ∷ (Types.qos_profile, always (set "QoSProfile"))
      ∷ (
        Types.charging_gateway_address,
        always (
            if_nil "ChargingGatewayAddress" (set "ChargingGatewayAddress")
              (if_nil "AltChargingGatewayAddress" (set "AltChargingGatewayAddress") drop)),
      )
      ∷ (Types.common_flags, always (set "CommonFlags"))
      ∷ (Types.apn_restriction, always (set "APNRestriction"))
      ∷ (Types.ms_info_change_reporting_action, always (set "MSInfoChangeReportingAction"))
      ∷ (Types.bearer_control_mode, always (set "BearerControlMode"))
      ∷ (Types.evolved_allocation_retention_priority_i, always (set "EvolvedARPI"))
      ∷ (Types.extended_common_flags, always (set "ExtendedCommonFlag"))
      ∷ (Types.csg_information_reporting_action, always (set "CSGInformationReportingAction"))
      ∷ (Types.aggregate_maximum_bit_rate, always (set "APNAMBR"))
      ∷ (Types.ggsn_back_off_time, always (set "GGSNBackOffTime"))
      ∷ (Types.extended_common_flags_ii, always (set "ExtendedCommonFlagsII"))
      ∷ (Types.private_extension, always (set "PrivateExtension"))
      ∷ [];
  otherwise = append "AdditionalIEs";
}

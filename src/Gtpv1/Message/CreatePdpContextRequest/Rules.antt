-- ===== src/Gtpv1/Message/CreatePdpContextRequest/Rules.antt =====
-- gtpv1/message/create-pdp-context-req.go: which field an element of CreatePDPContextRequest reaches.
use go_gtp.Common.{[], ◌∷◌}
use go_gtp.Message.{Rules, always, set, append, if_nil}
use go_gtp.Gtpv1.Ie.Types

-- The cases of the constructor.
abbrev pub new_rules : Rules
new_rules = record {
  cases =
      (Types.imsi, always (set "IMSI"))
      ∷ (Types.routeing_area_identity, always (set "RAI"))
      ∷ (Types.recovery, always (set "Recovery"))
      ∷ (Types.selection_mode, always (set "SelectionMode"))
      ∷ (Types.teid_data_i, always (set "TEIDDataI"))
      ∷ (Types.teidc_plane, always (set "TEIDCPlane"))
      ∷ (
        Types.nsapi,
        always (
            if_nil "NSAPI" (set "NSAPI")
              (if_nil "LinkedNSAPI" (set "LinkedNSAPI") (append "AdditionalIEs"))),
      )
      ∷ (Types.charging_characteristics, always (set "ChargingCharacteristics"))
      ∷ (Types.trace_reference, always (set "TraceReference"))
      ∷ (Types.trace_type, always (set "TraceType"))
      ∷ (Types.end_user_address, always (set "EndUserAddress"))
      ∷ (Types.access_point_name, always (set "APN"))
      ∷ (Types.protocol_configuration_options, always (set "PCO"))
      ∷ (
        Types.gsn_address,
        always (
            if_nil "SGSNAddressForSignalling" (set "SGSNAddressForSignalling") (
              if_nil "SGSNAddressForUserTraffic" (set "SGSNAddressForUserTraffic")
                (append "AdditionalIEs"))),
      )
      ∷ (Types.msisdn, always (set "MSISDN"))
      ∷ (Types.qos_profile, always (set "QoSProfile"))
      ∷ (Types.traffic_flow_template, always (set "TFT"))
      ∷ (Types.trigger_id, always (set "TriggerID"))
      ∷ (Types.omc_identity, always (set "OMCIdentity"))
      ∷ (Types.common_flags, always (set "CommonFlags"))
      ∷ (Types.apn_restriction, always (set "APNRestriction"))
      ∷ (Types.rat_type, always (set "RATType"))
      ∷ (Types.user_location_information, always (set "UserLocationInformation"))
      ∷ (Types.ms_time_zone, always (set "MSTimeZone"))
      ∷ (Types.imeisv, always (set "IMEI"))
      ∷ (
        Types.camel_charging_information_container,
        always (set "CAMELChargingInformationContainer"),
      )
      ∷ (Types.additional_trace_info, always (set "AdditionalTraceInfo"))
      ∷ (Types.correlation_id, always (set "CorrelationID"))
      ∷ (Types.evolved_allocation_retention_priority_i, always (set "EvolvedARPI"))
      ∷ (Types.extended_common_flags, always (set "ExtendedCommonFlags"))
      ∷ (Types.user_csg_information, always (set "UCI"))
      ∷ (Types.aggregate_maximum_bit_rate, always (set "APNAMBR"))
      ∷ (Types.signalling_priority_indication, always (set "SignallingPriorityIndication"))
      ∷ (Types.cn_operator_selection_entity, always (set "CNOperatorSelectionEntity"))
      ∷ (Types.mapped_ue_usage_type, always (set "MappedUEUsageType"))
      ∷ (
        Types.up_function_selection_indication_flags,
        always (set "UPFunctionSelectionIndicationFlags"),
      )
      ∷ (Types.private_extension, always (set "PrivateExtension"))
      ∷ [];
  otherwise = append "AdditionalIEs";
}

-- The cases of UnmarshalBinary.
abbrev pub parse_rules : Rules
parse_rules = record {
  cases =
      (Types.imsi, always (set "IMSI"))
      ∷ (Types.routeing_area_identity, always (set "RAI"))
      ∷ (Types.recovery, always (set "Recovery"))
      ∷ (Types.selection_mode, always (set "SelectionMode"))
      ∷ (Types.teid_data_i, always (set "TEIDDataI"))
      ∷ (Types.teidc_plane, always (set "TEIDCPlane"))
      ∷ (
        Types.nsapi,
        always (
            if_nil "NSAPI" (set "NSAPI")
              (if_nil "LinkedNSAPI" (set "LinkedNSAPI") (append "AdditionalIEs"))),
      )
      ∷ (Types.charging_characteristics, always (set "ChargingCharacteristics"))
      ∷ (Types.trace_reference, always (set "TraceReference"))
      ∷ (Types.trace_type, always (set "TraceType"))
      ∷ (Types.end_user_address, always (set "EndUserAddress"))
      ∷ (Types.access_point_name, always (set "APN"))
      ∷ (Types.protocol_configuration_options, always (set "PCO"))
      ∷ (
        Types.gsn_address,
        always (
            if_nil "SGSNAddressForSignalling" (set "SGSNAddressForSignalling") (
              if_nil "SGSNAddressForUserTraffic" (set "SGSNAddressForUserTraffic")
                (append "AdditionalIEs"))),
      )
      ∷ (Types.msisdn, always (set "MSISDN"))
      ∷ (Types.qos_profile, always (set "QoSProfile"))
      ∷ (Types.traffic_flow_template, always (set "TFT"))
      ∷ (Types.trigger_id, always (set "TriggerID"))
      ∷ (Types.omc_identity, always (set "OMCIdentity"))
      ∷ (Types.common_flags, always (set "CommonFlags"))
      ∷ (Types.apn_restriction, always (set "APNRestriction"))
      ∷ (Types.rat_type, always (set "RATType"))
      ∷ (Types.user_location_information, always (set "UserLocationInformation"))
      ∷ (Types.ms_time_zone, always (set "MSTimeZone"))
      ∷ (Types.imeisv, always (set "IMEI"))
      ∷ (
        Types.camel_charging_information_container,
        always (set "CAMELChargingInformationContainer"),
      )
      ∷ (Types.additional_trace_info, always (set "AdditionalTraceInfo"))
      ∷ (Types.correlation_id, always (set "CorrelationID"))
      ∷ (Types.evolved_allocation_retention_priority_i, always (set "EvolvedARPI"))
      ∷ (Types.extended_common_flags, always (set "ExtendedCommonFlags"))
      ∷ (Types.user_csg_information, always (set "UCI"))
      ∷ (Types.aggregate_maximum_bit_rate, always (set "APNAMBR"))
      ∷ (Types.signalling_priority_indication, always (set "SignallingPriorityIndication"))
      ∷ (Types.cn_operator_selection_entity, always (set "CNOperatorSelectionEntity"))
      ∷ (Types.mapped_ue_usage_type, always (set "MappedUEUsageType"))
      ∷ (
        Types.up_function_selection_indication_flags,
        always (set "UPFunctionSelectionIndicationFlags"),
      )
      ∷ (Types.private_extension, always (set "PrivateExtension"))
      ∷ [];
  otherwise = append "AdditionalIEs";
}

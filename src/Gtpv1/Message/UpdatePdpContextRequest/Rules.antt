-- ===== src/Gtpv1/Message/UpdatePdpContextRequest/Rules.antt =====
-- gtpv1/message/update-pdp-context-req.go: which field an element of UpdatePDPContextRequest reaches.
use go_gtp.Common.{[], ◌∷◌}
use go_gtp.Message.{Rules, always, set, append, drop, if_nil}
use go_gtp.Gtpv1.Ie.Types

-- The cases of the constructor.
abbrev pub new_rules : Rules
new_rules = record {
  cases =
      (Types.imsi, always (set "IMSI"))
      ∷ (Types.routeing_area_identity, always (set "RAI"))
      ∷ (Types.recovery, always (set "Recovery"))
      ∷ (Types.teid_data_i, always (set "TEIDDataI"))
      ∷ (Types.teidc_plane, always (set "TEIDCPlane"))
      ∷ (Types.nsapi, always (set "NSAPI"))
      ∷ (Types.trace_reference, always (set "TraceReference"))
      ∷ (Types.trace_type, always (set "TraceType"))
      ∷ (Types.protocol_configuration_options, always (set "PCO"))
      ∷ (
        Types.gsn_address,
        always (
            if_nil "SGSNAddressForCPlane" (set "SGSNAddressForCPlane") (
              if_nil "SGSNAddressForUserTraffic" (set "SGSNAddressForUserTraffic") (
                if_nil "AlternativeSGSNAddressForCPlane" (set "AlternativeSGSNAddressForCPlane") (
                  if_nil "AlternativeSGSNAddressForUserTraffic"
                    (set "AlternativeSGSNAddressForUserTraffic") drop)))),
      )
      ∷ (Types.qos_profile, always (set "QoSProfile"))
      ∷ (Types.traffic_flow_template, always (set "TFT"))
      ∷ (Types.trigger_id, always (set "TriggerID"))
      ∷ (Types.omc_identity, always (set "OMCIdentity"))
      ∷ (Types.common_flags, always (set "CommonFlags"))
      ∷ (Types.rat_type, always (set "RATType"))
      ∷ (Types.user_location_information, always (set "ULI"))
      ∷ (Types.ms_time_zone, always (set "MSTimeZone"))
      ∷ (Types.additional_trace_info, always (set "AdditionalTraceInfo"))
      ∷ (Types.direct_tunnel_flags, always (set "DirectTunnelFlags"))
      ∷ (Types.evolved_allocation_retention_priority_i, always (set "EvolvedARPI"))
      ∷ (Types.extended_common_flags, always (set "ExtendedCommonFlags"))
      ∷ (Types.user_csg_information, always (set "UCI"))
      ∷ (Types.aggregate_maximum_bit_rate, always (set "APNAMBR"))
      ∷ (Types.signalling_priority_indication, always (set "SignallingPriorityIndication"))
      ∷ (Types.cn_operator_selection_entity, always (set "CNOperatorSelectionEntity"))
      ∷ (Types.imeisv, always (set "IMEI"))
      ∷ (Types.private_extension, always (set "PrivateExtension"))
      ∷ [];
  otherwise = append "AdditionalIEs";
}

-- The cases of UnmarshalBinary.
abbrev pub parse_rules : Rules
parse_rules = record {
  cases =
      (Types.imsi, always (set "IMSI"))
      ∷ (Types.routeing_area_identity, always (set "RAI"))
      ∷ (Types.recovery, always (set "Recovery"))
      ∷ (Types.teid_data_i, always (set "TEIDDataI"))
      ∷ (Types.teidc_plane, always (set "TEIDCPlane"))
      ∷ (Types.nsapi, always (set "NSAPI"))
      ∷ (Types.trace_reference, always (set "TraceReference"))
      ∷ (Types.trace_type, always (set "TraceType"))
      ∷ (Types.protocol_configuration_options, always (set "PCO"))
      ∷ (
        Types.gsn_address,
        always (
            if_nil "SGSNAddressForCPlane" (set "SGSNAddressForCPlane") (
              if_nil "SGSNAddressForUserTraffic" (set "SGSNAddressForUserTraffic") (
                if_nil "AlternativeSGSNAddressForCPlane" (set "AlternativeSGSNAddressForCPlane") (
                  if_nil "AlternativeSGSNAddressForUserTraffic"
                    (set "AlternativeSGSNAddressForUserTraffic") drop)))),
      )
      ∷ (Types.qos_profile, always (set "QoSProfile"))
      ∷ (Types.traffic_flow_template, always (set "TFT"))
      ∷ (Types.trigger_id, always (set "TriggerID"))
      ∷ (Types.omc_identity, always (set "OMCIdentity"))
      ∷ (Types.common_flags, always (set "CommonFlags"))
      ∷ (Types.rat_type, always (set "RATType"))
      ∷ (Types.user_location_information, always (set "ULI"))
      ∷ (Types.ms_time_zone, always (set "MSTimeZone"))
      ∷ (Types.additional_trace_info, always (set "AdditionalTraceInfo"))
      ∷ (Types.direct_tunnel_flags, always (set "DirectTunnelFlags"))
      ∷ (Types.evolved_allocation_retention_priority_i, always (set "EvolvedARPI"))
      ∷ (Types.extended_common_flags, always (set "ExtendedCommonFlags"))
      ∷ (Types.user_csg_information, always (set "UCI"))
      ∷ (Types.aggregate_maximum_bit_rate, always (set "APNAMBR"))
      ∷ (Types.signalling_priority_indication, always (set "SignallingPriorityIndication"))
      ∷ (Types.cn_operator_selection_entity, always (set "CNOperatorSelectionEntity"))
      ∷ (Types.imeisv, always (set "IMEI"))
      ∷ (Types.private_extension, always (set "PrivateExtension"))
      ∷ [];
  otherwise = append "AdditionalIEs";
}

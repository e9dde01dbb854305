-- ===== src/Gtpv2/Message/CreateSessionRequest/Rules.antt =====
-- gtpv2/message/create-session-req.go: which field an element of CreateSessionRequest reaches.
use go_gtp.Common.{[], ◌∷◌}
use go_gtp.Message.{Rules, always, by_instance, set, append, drop}
use go_gtp.Gtpv2.Ie.Types

-- The cases of the constructor.
abbrev pub new_rules : Rules
new_rules = record {
  cases =
      (Types.imsi, always (set "IMSI"))
      ∷ (Types.msisdn, always (set "MSISDN"))
      ∷ (Types.mobile_equipment_identity, always (set "MEI"))
      ∷ (
        Types.user_location_information,
        by_instance ((0, set "ULI") ∷ (1, set "ULIForSGW") ∷ []) (append "AdditionalIEs"),
      )
      ∷ (Types.serving_network, always (set "ServingNetwork"))
      ∷ (Types.rat_type, always (set "RATType"))
      ∷ (Types.indication, always (set "IndicationFlags"))
      ∷ (
        Types.fully_qualified_teid,
        by_instance ((0, set "SenderFTEIDC") ∷ (1, set "PGWS5S8FTEIDC") ∷ [])
            (append "AdditionalIEs"),
      )
      ∷ (Types.access_point_name, always (set "APN"))
      ∷ (Types.selection_mode, always (set "SelectionMode"))
      ∷ (Types.pdn_type, always (set "PDNType"))
      ∷ (Types.pdn_address_allocation, always (set "PAA"))
      ∷ (Types.apn_restriction, always (set "APNRestriction"))
      ∷ (Types.aggregate_maximum_bit_rate, always (set "AMBR"))
      ∷ (Types.eps_bearer_id, always (set "LinkedEBI"))
      ∷ (Types.trusted_wlan_mode_indication, always (set "TWMI"))
      ∷ (Types.protocol_configuration_options, always (set "PCO"))
      ∷ (
        Types.bearer_context,
        by_instance
            ((0, set "BearerContextsToBeCreated") ∷ (1, set "BearerContextsToBeRemoved") ∷ [])
            (append "AdditionalIEs"),
      )
      ∷ (
        Types.fully_qualified_csid,
        by_instance
            ((0, set "MMEFQCSID")
              ∷ (1, set "SGWFQCSID")
              ∷ (2, set "EPDGFQCSID")
              ∷ (3, set "TWANFQCSID")
              ∷ [])
            (append "AdditionalIEs"),
      )
      ∷ (Types.trace_information, always (set "TraceInformation"))
      ∷ (Types.recovery, always (set "Recovery"))
      ∷ (Types.ue_time_zone, always (set "UETimeZone"))
      ∷ (Types.user_csg_information, always (set "UCI"))
      ∷ (Types.charging_characteristics, always (set "ChargingCharacteristics"))
      ∷ (
        Types.local_distinguished_name,
        by_instance
            ((0, set "MMESGSNLDN")
              ∷ (1, set "SGWLDN")
              ∷ (2, set "EPDGLDN")
              ∷ (3, set "TWANLDN")
              ∷ [])
            (append "AdditionalIEs"),
      )
      ∷ (Types.signalling_priority_indication, always (set "SignallingPriorityIndication"))
      ∷ (
        Types.ip_address,
        by_instance
            ((0, set "UELocalIPAddress")
              ∷ (1, set "HeNBLocalIPAddress")
              ∷ (2, set "MMESGSNIdentifier")
              ∷ (3, set "EPDGIPAddress")
              ∷ [])
            (append "AdditionalIEs"),
      )
      ∷ (
        Types.port_number,
        by_instance ((0, set "UEUDPPort") ∷ (1, set "HeNBUDPPort") ∷ (2, set "UETCPPort") ∷ [])
            (append "AdditionalIEs"),
      )
      ∷ (Types.additional_protocol_configuration_options, always (set "APCO"))
      ∷ (
        Types.twan_identifier,
        by_instance ((0, set "TWANIdentifier") ∷ (1, set "WLANLocationInformation") ∷ []) drop,
      )
      ∷ (Types.cn_operator_selection_entity, always (set "CNOperatorSelectionEntity"))
      ∷ (Types.presence_reporting_area_information, always (set "PresenceReportingAreaInformation"))
      ∷ (
        Types.overload_control_information,
        by_instance
            ((0, set "MMESGSNOverloadControlInformation")
              ∷ (1, set "SGWOverloadControlInformation")
              ∷ (2, set "TWANePDGOverloadControlInformation")
              ∷ [])
            (append "AdditionalIEs"),
      )
      ∷ (Types.millisecond_time_stamp, always (set "OriginationTimeStamp"))
      ∷ (Types.integer_number, always (set "MaximumWaitTime"))
      ∷ (Types.twan_identifier_timestamp, always (set "WLANLocationTimeStamp"))
      ∷ (Types.f_container, always (set "NBIFOMContainer"))
      ∷ (Types.remote_ue_context, always (set "RemoteUEContextConnected"))
      ∷ (Types.node_identifier, always (set "TGPPAAAServerIdentifier"))
      ∷ (Types.extended_protocol_configuration_options, always (set "EPCO"))
      ∷ (Types.serving_plmn_rate_control, always (set "ServingPLMNRateControl"))
      ∷ (Types.counter, always (set "MOExceptionDataCounter"))
      ∷ (Types.mapped_ue_usage_type, always (set "MappedUEUsageType"))
      ∷ (Types.fully_qualified_domain_name, always (set "SGWUNodeName"))
      ∷ (Types.secondary_rat_usage_data_report, always (set "SecondaryRATUsageDataReport"))
      ∷ (
        Types.up_function_selection_indication_flags,
        always (set "UPFunctionSelectionIndicationFlags"),
      )
      ∷ (Types.apn_rate_control_status, always (set "APNRateControlStatus"))
      ∷ (Types.private_extension, always (set "PrivateExtension"))
      ∷ [];
  otherwise = append "AdditionalIEs";
}

-- The cases of UnmarshalBinary.
abbrev pub parse_rules : Rules
parse_rules = record {
  cases =
      (Types.imsi, always (set "IMSI"))
      ∷ (Types.msisdn, always (set "MSISDN"))
      ∷ (Types.mobile_equipment_identity, always (set "MEI"))
      ∷ (
        Types.user_location_information,
        by_instance ((0, set "ULI") ∷ (1, set "ULIForSGW") ∷ []) (append "AdditionalIEs"),
      )
      ∷ (Types.serving_network, always (set "ServingNetwork"))
      ∷ (Types.rat_type, always (set "RATType"))
      ∷ (Types.indication, always (set "IndicationFlags"))
      ∷ (
        Types.fully_qualified_teid,
        by_instance ((0, set "SenderFTEIDC") ∷ (1, set "PGWS5S8FTEIDC") ∷ [])
            (append "AdditionalIEs"),
      )
      ∷ (Types.access_point_name, always (set "APN"))
      ∷ (Types.selection_mode, always (set "SelectionMode"))
      ∷ (Types.pdn_type, always (set "PDNType"))
      ∷ (Types.pdn_address_allocation, always (set "PAA"))
      ∷ (Types.apn_restriction, always (set "APNRestriction"))
      ∷ (Types.aggregate_maximum_bit_rate, always (set "AMBR"))
      ∷ (Types.eps_bearer_id, always (set "LinkedEBI"))
      ∷ (Types.trusted_wlan_mode_indication, always (set "TWMI"))
      ∷ (Types.protocol_configuration_options, always (set "PCO"))
      ∷ (
        Types.bearer_context,
        by_instance
            ((0, set "BearerContextsToBeCreated") ∷ (1, set "BearerContextsToBeRemoved") ∷ [])
            (append "AdditionalIEs"),
      )
      ∷ (
        Types.fully_qualified_csid,
        by_instance
            ((0, set "MMEFQCSID")
              ∷ (1, set "SGWFQCSID")
              ∷ (2, set "EPDGFQCSID")
              ∷ (3, set "TWANFQCSID")
              ∷ [])
            (append "AdditionalIEs"),
      )
      ∷ (Types.trace_information, always (set "TraceInformation"))
      ∷ (Types.recovery, always (set "Recovery"))
      ∷ (Types.ue_time_zone, always (set "UETimeZone"))
      ∷ (Types.user_csg_information, always (set "UCI"))
      ∷ (Types.charging_characteristics, always (set "ChargingCharacteristics"))
      ∷ (
        Types.local_distinguished_name,
        by_instance
            ((0, set "MMESGSNLDN")
              ∷ (1, set "SGWLDN")
              ∷ (2, set "EPDGLDN")
              ∷ (3, set "TWANLDN")
              ∷ [])
            (append "AdditionalIEs"),
      )
      ∷ (Types.signalling_priority_indication, always (set "SignallingPriorityIndication"))
      ∷ (
        Types.ip_address,
        by_instance
            ((0, set "UELocalIPAddress")
              ∷ (1, set "HeNBLocalIPAddress")
              ∷ (2, set "MMESGSNIdentifier")
              ∷ (3, set "EPDGIPAddress")
              ∷ [])
            (append "AdditionalIEs"),
      )
      ∷ (
        Types.port_number,
        by_instance ((0, set "UEUDPPort") ∷ (1, set "HeNBUDPPort") ∷ (2, set "UETCPPort") ∷ [])
            (append "AdditionalIEs"),
      )
      ∷ (Types.additional_protocol_configuration_options, always (set "APCO"))
      ∷ (
        Types.twan_identifier,
        by_instance ((0, set "TWANIdentifier") ∷ (1, set "WLANLocationInformation") ∷ [])
            (append "AdditionalIEs"),
      )
      ∷ (Types.cn_operator_selection_entity, always (set "CNOperatorSelectionEntity"))
      ∷ (Types.presence_reporting_area_information, always (set "PresenceReportingAreaInformation"))
      ∷ (
        Types.overload_control_information,
        by_instance
            ((0, set "MMESGSNOverloadControlInformation")
              ∷ (1, set "SGWOverloadControlInformation")
              ∷ (2, set "TWANePDGOverloadControlInformation")
              ∷ [])
            (append "AdditionalIEs"),
      )
      ∷ (Types.millisecond_time_stamp, always (set "OriginationTimeStamp"))
      ∷ (Types.integer_number, always (set "MaximumWaitTime"))
      ∷ (Types.twan_identifier_timestamp, always (set "WLANLocationTimeStamp"))
      ∷ (Types.f_container, always (set "NBIFOMContainer"))
      ∷ (Types.remote_ue_context, always (set "RemoteUEContextConnected"))
      ∷ (Types.node_identifier, always (set "TGPPAAAServerIdentifier"))
      ∷ (Types.extended_protocol_configuration_options, always (set "EPCO"))
      ∷ (Types.serving_plmn_rate_control, always (set "ServingPLMNRateControl"))
      ∷ (Types.counter, always (set "MOExceptionDataCounter"))
      ∷ (Types.mapped_ue_usage_type, always (set "MappedUEUsageType"))
      ∷ (Types.fully_qualified_domain_name, always (set "SGWUNodeName"))
      ∷ (Types.secondary_rat_usage_data_report, always (set "SecondaryRATUsageDataReport"))
      ∷ (
        Types.up_function_selection_indication_flags,
        always (set "UPFunctionSelectionIndicationFlags"),
      )
      ∷ (Types.apn_rate_control_status, always (set "APNRateControlStatus"))
      ∷ (Types.private_extension, always (set "PrivateExtension"))
      ∷ [];
  otherwise = append "AdditionalIEs";
}

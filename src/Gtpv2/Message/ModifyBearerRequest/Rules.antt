-- ===== src/Gtpv2/Message/ModifyBearerRequest/Rules.antt =====
-- gtpv2/message/modify-bearer-req.go: which field an element of ModifyBearerRequest reaches.
use go_gtp.Common.{[], ◌∷◌}
use go_gtp.Message.{Rules, always, by_instance, set, append}
use go_gtp.Gtpv2.Ie.Types

-- The cases of the constructor.
abbrev pub new_rules : Rules
new_rules = record {
  cases =
      (Types.mobile_equipment_identity, always (set "MEI"))
      ∷ (
        Types.user_location_information,
        by_instance ((0, set "ULI") ∷ (1, set "ULIForSGW") ∷ []) (append "AdditionalIEs"),
      )
      ∷ (Types.serving_network, always (set "ServingNetwork"))
      ∷ (Types.rat_type, always (set "RATType"))
      ∷ (Types.indication, always (set "IndicationFlags"))
      ∷ (Types.fully_qualified_teid, always (set "SenderFTEIDC"))
      ∷ (Types.aggregate_maximum_bit_rate, always (set "AMBR"))
      ∷ (Types.delay_value, always (set "DelayDownlinkPacketNotificationRequest"))
      ∷ (
        Types.bearer_context,
        by_instance
            ((0, set "BearerContextsToBeModified") ∷ (1, set "BearerContextsToBeRemoved") ∷ [])
            (append "AdditionalIEs"),
      )
      ∷ (Types.recovery, always (set "Recovery"))
      ∷ (Types.ue_time_zone, always (set "UETimeZone"))
      ∷ (
        Types.fully_qualified_csid,
        by_instance ((0, set "MMEFQCSID") ∷ (1, set "SGWFQCSID") ∷ []) (append "AdditionalIEs"),
      )
      ∷ (Types.user_csg_information, always (set "UCI"))
      ∷ (
        Types.ip_address,
        by_instance ((0, set "UELocalIPAddress") ∷ (1, set "HeNBLocalIPAddress") ∷ [])
            (append "AdditionalIEs"),
      )
      ∷ (
        Types.port_number,
        by_instance
            ((0, set "UEUDPPort") ∷ (1, set "HeNBUDPPort") ∷ (2, set "MMESGSNIdentifier") ∷ [])
            (append "AdditionalIEs"),
      )
      ∷ (
        Types.local_distinguished_name,
        by_instance ((0, set "MMESGSNLDN") ∷ (1, set "SGWLDN") ∷ []) (append "AdditionalIEs"),
      )
      ∷ (Types.cn_operator_selection_entity, always (set "CNOperatorSelectionEntity"))
      ∷ (Types.presence_reporting_area_information, always (set "PresenceReportingAreaInformation"))
      ∷ (
        Types.overload_control_information,
        by_instance
            ((0, set "MMESGSNOverloadControlInformation")
              ∷ (1, set "SGWOverloadControlInformation")
              ∷ (2, set "EPDGOverloadControlInformation")
              ∷ [])
            (append "AdditionalIEs"),
      )
      ∷ (Types.serving_plmn_rate_control, always (set "ServingPLMNRateControl"))
      ∷ (Types.counter, always (set "MOExceptionDataCounter"))
      ∷ (Types.imsi, always (set "IMSI"))
      ∷ (Types.twan_identifier, always (set "WLANLocationInformation"))
      ∷ (Types.twan_identifier_timestamp, always (set "WLANLocationTimeStamp"))
      ∷ (Types.secondary_rat_usage_data_report, always (set "SecondaryRATUsageDataReport"))
      ∷ (Types.private_extension, always (set "PrivateExtension"))
      ∷ [];
  otherwise = append "AdditionalIEs";
}

-- The cases of UnmarshalBinary.
abbrev pub parse_rules : Rules
parse_rules = record {
  cases =
      (Types.mobile_equipment_identity, always (set "MEI"))
      ∷ (
        Types.user_location_information,
        by_instance ((0, set "ULI") ∷ (1, set "ULIForSGW") ∷ []) (append "AdditionalIEs"),
      )
      ∷ (Types.serving_network, always (set "ServingNetwork"))
      ∷ (Types.rat_type, always (set "RATType"))
      ∷ (Types.indication, always (set "IndicationFlags"))
      ∷ (Types.fully_qualified_teid, always (set "SenderFTEIDC"))
      ∷ (Types.aggregate_maximum_bit_rate, always (set "AMBR"))
      ∷ (Types.delay_value, always (set "DelayDownlinkPacketNotificationRequest"))
      ∷ (
        Types.bearer_context,
        by_instance
            ((0, set "BearerContextsToBeModified") ∷ (1, set "BearerContextsToBeRemoved") ∷ [])
            (append "AdditionalIEs"),
      )
      ∷ (Types.recovery, always (set "Recovery"))
      ∷ (Types.ue_time_zone, always (set "UETimeZone"))
      ∷ (
        Types.fully_qualified_csid,
        by_instance ((0, set "MMEFQCSID") ∷ (1, set "SGWFQCSID") ∷ []) (append "AdditionalIEs"),
      )
      ∷ (Types.user_csg_information, always (set "UCI"))
      ∷ (
        Types.ip_address,
        by_instance ((0, set "UELocalIPAddress") ∷ (1, set "HeNBLocalIPAddress") ∷ [])
            (append "AdditionalIEs"),
      )
      ∷ (
        Types.port_number,
        by_instance
            ((0, set "UEUDPPort") ∷ (1, set "HeNBUDPPort") ∷ (2, set "MMESGSNIdentifier") ∷ [])
            (append "AdditionalIEs"),
      )
      ∷ (
        Types.local_distinguished_name,
        by_instance ((0, set "MMESGSNLDN") ∷ (1, set "SGWLDN") ∷ []) (append "AdditionalIEs"),
      )
      ∷ (Types.cn_operator_selection_entity, always (set "CNOperatorSelectionEntity"))
      ∷ (Types.presence_reporting_area_information, always (set "PresenceReportingAreaInformation"))
      ∷ (
        Types.overload_control_information,
        by_instance
            ((0, set "MMESGSNOverloadControlInformation")
              ∷ (1, set "SGWOverloadControlInformation")
              ∷ (2, set "EPDGOverloadControlInformation")
              ∷ [])
            (append "AdditionalIEs"),
      )
      ∷ (Types.serving_plmn_rate_control, always (set "ServingPLMNRateControl"))
      ∷ (Types.counter, always (set "MOExceptionDataCounter"))
      ∷ (Types.imsi, always (set "IMSI"))
      ∷ (Types.twan_identifier, always (set "WLANLocationInformation"))
      ∷ (Types.twan_identifier_timestamp, always (set "WLANLocationTimeStamp"))
      ∷ (Types.secondary_rat_usage_data_report, always (set "SecondaryRATUsageDataReport"))
      ∷ (Types.private_extension, always (set "PrivateExtension"))
      ∷ [];
  otherwise = append "AdditionalIEs";
}

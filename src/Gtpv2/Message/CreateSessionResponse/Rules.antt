-- ===== src/Gtpv2/Message/CreateSessionResponse/Rules.antt =====
-- gtpv2/message/create-session-res.go: which field an element of CreateSessionResponse reaches.
use go_gtp.Common.{[], ◌∷◌}
use go_gtp.Message.{Rules, always, by_instance, set, append}
use go_gtp.Gtpv2.Ie.Types

-- The cases of the constructor.
abbrev pub new_rules : Rules
new_rules = record {
  cases =
      (Types.cause, always (set "Cause"))
      ∷ (Types.change_reporting_action, always (set "ChangeReportingAction"))
      ∷ (Types.csg_information_reporting_action, always (set "CSGInformationReportingAction"))
      ∷ (Types.henb_information_reporting, always (set "HeNBInformationReporting"))
      ∷ (
        Types.fully_qualified_teid,
        by_instance ((0, set "SenderFTEIDC") ∷ (1, set "PGWS5S8FTEIDC") ∷ [])
            (append "AdditionalIEs"),
      )
      ∷ (Types.pdn_address_allocation, always (set "PAA"))
      ∷ (Types.apn_restriction, always (set "APNRestriction"))
      ∷ (Types.aggregate_maximum_bit_rate, always (set "AMBR"))
      ∷ (Types.eps_bearer_id, always (set "EBI"))
      ∷ (Types.protocol_configuration_options, always (set "PCO"))
      ∷ (
        Types.bearer_context,
        by_instance
            ((0, set "BearerContextsCreated") ∷ (1, set "BearerContextMarkedForRemoval") ∷ [])
            (append "AdditionalIEs"),
      )
      ∷ (Types.recovery, always (set "Recovery"))
      ∷ (Types.fully_qualified_domain_name, always (set "ChargingGatewayName"))
      ∷ (Types.ip_address, always (set "ChargingGatewayAddress"))
      ∷ (
        Types.fully_qualified_csid,
        by_instance ((0, set "PGWFQCSID") ∷ (1, set "SGWFQCSID") ∷ []) (append "AdditionalIEs"),
      )
      ∷ (
        Types.local_distinguished_name,
        by_instance ((0, set "PGWLDN") ∷ (1, set "SGWLDN") ∷ []) (append "AdditionalIEs"),
      )
      ∷ (Types.epc_timer, always (set "PGWBackOffTime"))
      ∷ (Types.additional_protocol_configuration_options, always (set "APCO"))
      ∷ (Types.ipv4_configuration_parameters, always (set "TrustedTWANIPv4Parameters"))
      ∷ (Types.indication, always (set "IndicationFlags"))
      ∷ (Types.presence_reporting_area_action, always (set "PresenceReportingAreaAction"))
      ∷ (
        Types.load_control_information,
        by_instance
            ((0, set "PGWNodeLoadControlInformation")
              ∷ (1, set "PGWAPNLoadControlInformation")
              ∷ (2, set "SGWNodeLoadControlInformation")
              ∷ [])
            (append "AdditionalIEs"),
      )
      ∷ (
        Types.overload_control_information,
        by_instance
            ((0, set "PGWOverloadControlInformation")
              ∷ (1, set "SGWOverloadControlInformation")
              ∷ [])
            (append "AdditionalIEs"),
      )
      ∷ (Types.f_container, always (set "NBIFOMContainer"))
      ∷ (Types.charging_id, always (set "PDNConnectionChargingID"))
      ∷ (Types.extended_protocol_configuration_options, always (set "EPCO"))
      ∷ (Types.private_extension, always (set "PrivateExtension"))
      ∷ [];
  otherwise = append "AdditionalIEs";
}

-- The cases of UnmarshalBinary.
abbrev pub parse_rules : Rules
parse_rules = record {
  cases =
      (Types.cause, always (set "Cause"))
      ∷ (Types.change_reporting_action, always (set "ChangeReportingAction"))
      ∷ (Types.csg_information_reporting_action, always (set "CSGInformationReportingAction"))
      ∷ (Types.henb_information_reporting, always (set "HeNBInformationReporting"))
      ∷ (
        Types.fully_qualified_teid,
        by_instance ((0, set "SenderFTEIDC") ∷ (1, set "PGWS5S8FTEIDC") ∷ [])
            (append "AdditionalIEs"),
      )
      ∷ (Types.pdn_address_allocation, always (set "PAA"))
      ∷ (Types.apn_restriction, always (set "APNRestriction"))
      ∷ (Types.aggregate_maximum_bit_rate, always (set "AMBR"))
      ∷ (Types.eps_bearer_id, always (set "EBI"))
      ∷ (Types.protocol_configuration_options, always (set "PCO"))
      ∷ (
        Types.bearer_context,
        by_instance
            ((0, set "BearerContextsCreated") ∷ (1, set "BearerContextMarkedForRemoval") ∷ [])
            (append "AdditionalIEs"),
      )
      ∷ (Types.recovery, always (set "Recovery"))
      ∷ (Types.fully_qualified_domain_name, always (set "ChargingGatewayName"))
      ∷ (Types.ip_address, always (set "ChargingGatewayAddress"))
      ∷ (
        Types.fully_qualified_csid,
        by_instance ((0, set "PGWFQCSID") ∷ (1, set "SGWFQCSID") ∷ []) (append "AdditionalIEs"),
      )
      ∷ (
        Types.local_distinguished_name,
        by_instance ((0, set "PGWLDN") ∷ (1, set "SGWLDN") ∷ []) (append "AdditionalIEs"),
      )
      ∷ (Types.epc_timer, always (set "PGWBackOffTime"))
      ∷ (Types.additional_protocol_configuration_options, always (set "APCO"))
      ∷ (Types.ipv4_configuration_parameters, always (set "TrustedTWANIPv4Parameters"))
      ∷ (Types.indication, always (set "IndicationFlags"))
      ∷ (Types.presence_reporting_area_action, always (set "PresenceReportingAreaAction"))
      ∷ (
        Types.load_control_information,
        by_instance
            ((0, set "PGWNodeLoadControlInformation")
              ∷ (1, set "PGWAPNLoadControlInformation")
              ∷ (2, set "SGWNodeLoadControlInformation")
              ∷ [])
            (append "AdditionalIEs"),
      )
      ∷ (
        Types.overload_control_information,
        by_instance
            ((0, set "PGWOverloadControlInformation")
              ∷ (1, set "SGWOverloadControlInformation")
              ∷ [])
            (append "AdditionalIEs"),
      )
      ∷ (Types.f_container, always (set "NBIFOMContainer"))
      ∷ (Types.charging_id, always (set "PDNConnectionChargingID"))
      ∷ (Types.extended_protocol_configuration_options, always (set "EPCO"))
      ∷ (Types.private_extension, always (set "PrivateExtension"))
      ∷ [];
  otherwise = append "AdditionalIEs";
}

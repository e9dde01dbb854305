-- ===== src/Gtpv2/Message/ModifyBearerResponse/Rules.antt =====
-- gtpv2/message/modify-bearer-res.go: which field an element of ModifyBearerResponse reaches.
use go_gtp.Common.{[], ◌∷◌}
use go_gtp.Message.{Rules, always, by_instance, set, append}
use go_gtp.Gtpv2.Ie.Types

-- The cases of the constructor.
abbrev pub new_rules : Rules
new_rules = record {
  cases =
      (Types.cause, always (set "Cause"))
      ∷ (Types.msisdn, always (set "MSISDN"))
      ∷ (Types.eps_bearer_id, always (set "LinkedEBI"))
      ∷ (Types.apn_restriction, always (set "APNRestriction"))
      ∷ (Types.protocol_configuration_options, always (set "PCO"))
      ∷ (
        Types.bearer_context,
        by_instance
            ((0, set "BearerContextsModified") ∷ (1, set "BearerContextsMarkedForRemoval") ∷ [])
            (append "AdditionalIEs"),
      )
      ∷ (Types.change_reporting_action, always (set "ChangeReportingAction"))
      ∷ (Types.csg_information_reporting_action, always (set "CSGInformationReportingAction"))
      ∷ (Types.henb_information_reporting, always (set "HeNBInformationReporting"))
      ∷ (Types.fully_qualified_domain_name, always (set "ChargingGatewayName"))
      ∷ (Types.ip_address, always (set "ChargingGatewayAddress"))
      ∷ (
        Types.fully_qualified_csid,
        by_instance ((0, set "PGWFQCSID") ∷ (1, set "SGWFQCSID") ∷ []) (append "AdditionalIEs"),
      )
      ∷ (Types.recovery, always (set "Recovery"))
      ∷ (
        Types.local_distinguished_name,
        by_instance ((0, set "SGWLDN") ∷ (1, set "PGWLDN") ∷ []) (append "AdditionalIEs"),
      )
      ∷ (Types.indication, always (set "IndicationFlags"))
      ∷ (Types.presence_reporting_area_action, always (set "PresenceReportingAreaAction"))
      ∷ (
        Types.load_control_information,
        by_instance
            ((0, set "PGWNodeLoadControlInformation")
              ∷ (1, set "PGWAPNLoadControlInformation")
              ∷ [])
            (append "AdditionalIEs"),
      )
      ∷ (
        Types.overload_control_information,
        by_instance
            ((0, set "SGWNodeLoadControlInformation")
              ∷ (1, set "PGWOverloadControlInformation")
              ∷ (2, set "SGWOverloadControlInformation")
              ∷ [])
            (append "AdditionalIEs"),
      )
      ∷ (Types.charging_id, always (set "PDNConnectionChargingID"))
      ∷ (Types.private_extension, always (set "PrivateExtension"))
      ∷ [];
  otherwise = append "AdditionalIEs";
}

-- The cases of UnmarshalBinary.
abbrev pub parse_rules : Rules
parse_rules = record {
  cases =
      (Types.cause, always (set "Cause"))
      ∷ (Types.msisdn, always (set "MSISDN"))
      ∷ (Types.eps_bearer_id, always (set "LinkedEBI"))
      ∷ (Types.apn_restriction, always (set "APNRestriction"))
      ∷ (Types.protocol_configuration_options, always (set "PCO"))
      ∷ (
        Types.bearer_context,
        by_instance
            ((0, set "BearerContextsModified") ∷ (1, set "BearerContextsMarkedForRemoval") ∷ [])
            (append "AdditionalIEs"),
      )
      ∷ (Types.change_reporting_action, always (set "ChangeReportingAction"))
      ∷ (Types.csg_information_reporting_action, always (set "CSGInformationReportingAction"))
      ∷ (Types.henb_information_reporting, always (set "HeNBInformationReporting"))
      ∷ (Types.fully_qualified_domain_name, always (set "ChargingGatewayName"))
      ∷ (Types.ip_address, always (set "ChargingGatewayAddress"))
      ∷ (
        Types.fully_qualified_csid,
        by_instance ((0, set "PGWFQCSID") ∷ (1, set "SGWFQCSID") ∷ []) (append "AdditionalIEs"),
      )
      ∷ (Types.recovery, always (set "Recovery"))
      ∷ (
        Types.local_distinguished_name,
        by_instance ((0, set "SGWLDN") ∷ (1, set "PGWLDN") ∷ []) (append "AdditionalIEs"),
      )
      ∷ (Types.indication, always (set "IndicationFlags"))
      ∷ (Types.presence_reporting_area_action, always (set "PresenceReportingAreaAction"))
      ∷ (
        Types.load_control_information,
        by_instance
            ((0, set "PGWNodeLoadControlInformation")
              ∷ (1, set "PGWAPNLoadControlInformation")
              ∷ [])
            (append "AdditionalIEs"),
      )
      ∷ (
        Types.overload_control_information,
        by_instance
            ((0, set "SGWNodeLoadControlInformation")
              ∷ (1, set "PGWOverloadControlInformation")
              ∷ (2, set "SGWOverloadControlInformation")
              ∷ [])
            (append "AdditionalIEs"),
      )
      ∷ (Types.charging_id, always (set "PDNConnectionChargingID"))
      ∷ (Types.private_extension, always (set "PrivateExtension"))
      ∷ [];
  otherwise = append "AdditionalIEs";
}

-- ===== src/Gtpv2/Message/CreateBearerResponse/Rules.antt =====
-- gtpv2/message/create-bearer-res.go: which field an element of CreateBearerResponse reaches.
use go_gtp.Common.{[], ◌∷◌}
use go_gtp.Message.{Rules, always, by_instance, set, append, drop}
use go_gtp.Gtpv2.Ie.Types

-- The cases of the constructor.
abbrev pub new_rules : Rules
new_rules = record {
  cases =
      (Types.cause, always (set "Cause"))
      ∷ (Types.bearer_context, always (set "BearerContexts"))
      ∷ (Types.recovery, always (set "Recovery"))
      ∷ (
        Types.fully_qualified_csid,
        by_instance
            ((0, set "MMEFQCSID")
              ∷ (1, set "SGWFQCSID")
              ∷ (2, set "EPDGFQCSID")
              ∷ (3, set "TWANFQCSID")
              ∷ [])
            (append "AdditionalIEs"),
      )
      ∷ (Types.protocol_configuration_options, always (set "PCO"))
      ∷ (Types.ue_time_zone, always (set "UETimeZone"))
      ∷ (Types.user_location_information, always (set "ULI"))
      ∷ (
        Types.twan_identifier,
        by_instance ((0, set "TWANIdentifier") ∷ (1, set "WLANLocationInformation") ∷ [])
            (append "AdditionalIEs"),
      )
      ∷ (
        Types.twan_identifier_timestamp,
        by_instance ((1, set "WLANLocationTimestamp") ∷ []) (append "AdditionalIEs"),
      )
      ∷ (
        Types.overload_control_information,
        by_instance
            ((0, set "MMEOverloadControlInformation")
              ∷ (1, set "SGWOverloadControlInformation")
              ∷ (2, set "TWANePDGOverloadControlInformation")
              ∷ [])
            (append "AdditionalIEs"),
      )
      ∷ (Types.presence_reporting_area_action, always (set "PresenceReportingAction"))
      ∷ (
        Types.ip_address,
        by_instance ((0, set "MMESGSNIdentifier") ∷ (1, set "UELocalIPAddress") ∷ []) drop,
      )
      ∷ (
        Types.port_number,
        by_instance ((0, set "UEUDPPort") ∷ (1, set "UETCPPort") ∷ []) (append "AdditionalIEs"),
      )
      ∷ (Types.f_container, always (set "NBIFOMContainer"))
      ∷ (Types.private_extension, always (set "PrivateExtension"))
      ∷ [];
  otherwise = append "AdditionalIEs";
}

-- The cases of UnmarshalBinary.
abbrev pub parse_rules : Rules
parse_rules = record {
  cases =
      (Types.cause, always (set "Cause"))
      ∷ (Types.bearer_context, always (set "BearerContexts"))
      ∷ (Types.recovery, always (set "Recovery"))
      ∷ (
        Types.fully_qualified_csid,
        by_instance
            ((0, set "MMEFQCSID")
              ∷ (1, set "SGWFQCSID")
              ∷ (2, set "EPDGFQCSID")
              ∷ (3, set "TWANFQCSID")
              ∷ [])
            drop,
      )
      ∷ (Types.protocol_configuration_options, always (set "PCO"))
      ∷ (Types.ue_time_zone, always (set "UETimeZone"))
      ∷ (Types.user_location_information, always (set "ULI"))
      ∷ (
        Types.twan_identifier,
        by_instance ((0, set "TWANIdentifier") ∷ (1, set "WLANLocationInformation") ∷ []) drop,
      )
      ∷ (Types.twan_identifier_timestamp, by_instance ((1, set "WLANLocationTimestamp") ∷ []) drop)
      ∷ (
        Types.overload_control_information,
        by_instance
            ((0, set "MMEOverloadControlInformation")
              ∷ (1, set "SGWOverloadControlInformation")
              ∷ (2, set "TWANePDGOverloadControlInformation")
              ∷ [])
            drop,
      )
      ∷ (Types.presence_reporting_area_action, always (set "PresenceReportingAction"))
      ∷ (
        Types.ip_address,
        by_instance ((0, set "MMESGSNIdentifier") ∷ (1, set "UELocalIPAddress") ∷ []) drop,
      )
      ∷ (Types.port_number, by_instance ((0, set "UEUDPPort") ∷ (1, set "UETCPPort") ∷ []) drop)
      ∷ (Types.f_container, always (set "NBIFOMContainer"))
      ∷ (Types.private_extension, always (set "PrivateExtension"))
      ∷ [];
  otherwise = append "AdditionalIEs";
}

-- ===== src/Gtpv2/Message/DeleteBearerResponse/Rules.antt =====
-- gtpv2/message/delete-bearer-res.go: which field an element of DeleteBearerResponse reaches.
use go_gtp.Common.{[], ◌∷◌}
use go_gtp.Message.{Rules, always, by_instance, set, append}
use go_gtp.Gtpv2.Ie.Types

-- The cases of the constructor.
abbrev pub new_rules : Rules
new_rules = record {
  cases =
      (Types.cause, always (set "Cause"))
      ∷ (Types.eps_bearer_id, always (set "LinkedEBI"))
      ∷ (Types.bearer_context, always (set "BearerContexts"))
      ∷ (Types.recovery, always (set "Recovery"))
      ∷ (
        Types.fully_qualified_csid,
        by_instance
            ((0, set "MMEFQCSID")
              ∷ (1, set "SGWFQCSID")
              ∷ (2, set "EPDGFQCSID")
              ∷ (3, set "TWANFQCSID")
              ∷ [])
            (append "AdditionalIEs"),
      )
      ∷ (Types.protocol_configuration_options, always (set "PCO"))
      ∷ (Types.ue_time_zone, always (set "UETimeZone"))
      ∷ (Types.user_location_information, always (set "ULI"))
      ∷ (Types.uli_timestamp, always (set "ULITimestamp"))
      ∷ (
        Types.twan_identifier,
        by_instance ((0, set "TWANIdentifier") ∷ (1, set "WLANLocationInformation") ∷ [])
            (append "AdditionalIEs"),
      )
      ∷ (
        Types.twan_identifier_timestamp,
        by_instance ((0, set "TWANIdentifierTimestamp") ∷ (1, set "WLANLocationTimestamp") ∷ [])
            (append "AdditionalIEs"),
      )
      ∷ (
        Types.overload_control_information,
        by_instance
            ((0, set "MMEOverloadControlInformation")
              ∷ (1, set "SGWOverloadControlInformation")
              ∷ (2, set "TWANePDGOverloadControlInformation")
              ∷ [])
            (append "AdditionalIEs"),
      )
      ∷ (
        Types.ip_address,
        by_instance ((0, set "MMESGSNIdentifier") ∷ (1, set "UELocalIPAddress") ∷ [])
            (append "AdditionalIEs"),
      )
      ∷ (
        Types.port_number,
        by_instance ((0, set "UEUDPPort") ∷ (1, set "UETCPPort") ∷ []) (append "AdditionalIEs"),
      )
      ∷ (Types.f_container, always (set "NBIFOMContainer"))
      ∷ (Types.secondary_rat_usage_data_report, always (set "SecondaryRATUsageDataReport"))
      ∷ (Types.private_extension, always (set "PrivateExtension"))
      ∷ [];
  otherwise = append "AdditionalIEs";
}

-- The cases of UnmarshalBinary.
abbrev pub parse_rules : Rules
parse_rules = record {
  cases =
      (Types.cause, always (set "Cause"))
      ∷ (Types.eps_bearer_id, always (set "LinkedEBI"))
      ∷ (Types.bearer_context, always (set "BearerContexts"))
      ∷ (Types.recovery, always (set "Recovery"))
      ∷ (
        Types.fully_qualified_csid,
        by_instance
            ((0, set "MMEFQCSID")
              ∷ (1, set "SGWFQCSID")
              ∷ (2, set "EPDGFQCSID")
              ∷ (3, set "TWANFQCSID")
              ∷ [])
            (append "AdditionalIEs"),
      )
      ∷ (Types.protocol_configuration_options, always (set "PCO"))
      ∷ (Types.ue_time_zone, always (set "UETimeZone"))
      ∷ (Types.user_location_information, always (set "ULI"))
      ∷ (Types.uli_timestamp, always (set "ULITimestamp"))
      ∷ (
        Types.twan_identifier,
        by_instance ((0, set "TWANIdentifier") ∷ (1, set "WLANLocationInformation") ∷ [])
            (append "AdditionalIEs"),
      )
      ∷ (
        Types.twan_identifier_timestamp,
        by_instance ((0, set "TWANIdentifierTimestamp") ∷ (1, set "WLANLocationTimestamp") ∷ [])
            (append "AdditionalIEs"),
      )
      ∷ (
        Types.overload_control_information,
        by_instance
            ((0, set "MMEOverloadControlInformation")
              ∷ (1, set "SGWOverloadControlInformation")
              ∷ (2, set "TWANePDGOverloadControlInformation")
              ∷ [])
            (append "AdditionalIEs"),
      )
      ∷ (
        Types.ip_address,
        by_instance ((0, set "MMESGSNIdentifier") ∷ (1, set "UELocalIPAddress") ∷ [])
            (append "AdditionalIEs"),
      )
      ∷ (
        Types.port_number,
        by_instance ((0, set "UEUDPPort") ∷ (1, set "UETCPPort") ∷ []) (append "AdditionalIEs"),
      )
      ∷ (Types.f_container, always (set "NBIFOMContainer"))
      ∷ (Types.secondary_rat_usage_data_report, always (set "SecondaryRATUsageDataReport"))
      ∷ (Types.private_extension, always (set "PrivateExtension"))
      ∷ [];
  otherwise = append "AdditionalIEs";
}

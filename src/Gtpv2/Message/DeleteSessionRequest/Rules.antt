-- ===== src/Gtpv2/Message/DeleteSessionRequest/Rules.antt =====
-- gtpv2/message/delete-session-req.go: which field an element of DeleteSessionRequest reaches.
use go_gtp.Common.{[], ◌∷◌}
use go_gtp.Message.{Rules, always, by_instance, set, append}
use go_gtp.Gtpv2.Ie.Types

-- The cases of the constructor.
abbrev pub new_rules : Rules
new_rules = record {
  cases =
      (Types.cause, always (set "Cause"))
      ∷ (Types.eps_bearer_id, always (set "LinkedEBI"))
      ∷ (Types.user_location_information, always (set "ULI"))
      ∷ (Types.indication, always (set "IndicationFlags"))
      ∷ (Types.protocol_configuration_options, always (set "PCO"))
      ∷ (Types.node_type, always (set "OriginatingNode"))
      ∷ (Types.fully_qualified_teid, always (set "SenderFTEIDC"))
      ∷ (Types.ue_time_zone, always (set "UETimeZone"))
      ∷ (Types.uli_timestamp, always (set "ULITimestamp"))
      ∷ (Types.rannas_cause, always (set "RANNASReleaseCause"))
      ∷ (
        Types.twan_identifier,
        by_instance ((0, set "TWANIdentifier") ∷ (1, set "WLANLocationInformation") ∷ [])
            (append "AdditionalIEs"),
      )
      ∷ (
        Types.twan_identifier_timestamp,
        by_instance ((0, set "TWANIdentifierTimestamp") ∷ (1, set "WLANLocationTimeStamp") ∷ [])
            (append "AdditionalIEs"),
      )
      ∷ (
        Types.overload_control_information,
        by_instance
            ((0, set "MMESGSNOverloadControlInformation")
              ∷ (1, set "SGWOverloadControlInformaion")
              ∷ (2, set "TWANePDGOverloadControlInformaion")
              ∷ [])
            (append "AdditionalIEs"),
      )
      ∷ (Types.ip_address, always (set "UELocalIPAddress"))
      ∷ (
        Types.port_number,
        by_instance ((0, set "UEUDPPort") ∷ (1, set "UETCPPort") ∷ []) (append "AdditionalIEs"),
      )
      ∷ (Types.extended_protocol_configuration_options, always (set "EPCO"))
      ∷ (Types.secondary_rat_usage_data_report, always (set "SecondaryRATUsageDataReport"))
      ∷ (Types.private_extension, always (set "PrivateExtension"))
      ∷ [];
  otherwise = append "AdditionalIEs";
}

-- The cases of UnmarshalBinary.
abbrev pub parse_rules : Rules
parse_rules = record {
  cases =
      (Types.cause, always (set "Cause"))
      ∷ (Types.eps_bearer_id, always (set "LinkedEBI"))
      ∷ (Types.user_location_information, always (set "ULI"))
      ∷ (Types.indication, always (set "IndicationFlags"))
      ∷ (Types.protocol_configuration_options, always (set "PCO"))
      ∷ (Types.node_type, always (set "OriginatingNode"))
      ∷ (Types.fully_qualified_teid, always (set "SenderFTEIDC"))
      ∷ (Types.ue_time_zone, always (set "UETimeZone"))
      ∷ (Types.uli_timestamp, always (set "ULITimestamp"))
      ∷ (Types.rannas_cause, always (set "RANNASReleaseCause"))
      ∷ (
        Types.twan_identifier,
        by_instance ((0, set "TWANIdentifier") ∷ (1, set "WLANLocationInformation") ∷ [])
            (append "AdditionalIEs"),
      )
      ∷ (
        Types.twan_identifier_timestamp,
        by_instance ((0, set "TWANIdentifierTimestamp") ∷ (1, set "WLANLocationTimeStamp") ∷ [])
            (append "AdditionalIEs"),
      )
      ∷ (
        Types.overload_control_information,
        by_instance
            ((0, set "MMESGSNOverloadControlInformation")
              ∷ (1, set "SGWOverloadControlInformaion")
              ∷ (2, set "TWANePDGOverloadControlInformaion")
              ∷ [])
            (append "AdditionalIEs"),
      )
      ∷ (Types.ip_address, always (set "UELocalIPAddress"))
      ∷ (
        Types.port_number,
        by_instance ((0, set "UEUDPPort") ∷ (1, set "UETCPPort") ∷ []) (append "AdditionalIEs"),
      )
      ∷ (Types.extended_protocol_configuration_options, always (set "EPCO"))
      ∷ (Types.secondary_rat_usage_data_report, always (set "SecondaryRATUsageDataReport"))
      ∷ (Types.private_extension, always (set "PrivateExtension"))
      ∷ [];
  otherwise = append "AdditionalIEs";
}

-- ===== src/Gtpv2/Message/ContextResponse/Rules.antt =====
-- gtpv2/message/context-res.go: which field an element of ContextResponse reaches.
use go_gtp.Common.{[], ◌∷◌}
use go_gtp.Message.{Rules, always, by_instance, set, append, if_nil}
use go_gtp.Gtpv2.Ie.Types

-- The cases of the constructor.
abbrev pub new_rules : Rules
new_rules = record {
  cases =
      (Types.cause, always (set "Cause"))
      ∷ (Types.imsi, always (set "IMSI"))
      ∷ (
        Types.mm_context_eps_security_context_quadruplets_and_quintuplets,
        always (if_nil "UEMMContext" (append "AdditionalIEs") (set "UEMMContext")),
      )
      ∷ (
        Types.mm_context_gsm_key_and_triplets,
        always (if_nil "UEMMContext" (append "AdditionalIEs") (set "UEMMContext")),
      )
      ∷ (
        Types.mm_context_gsm_key_used_cipher_and_quintuplets,
        always (if_nil "UEMMContext" (append "AdditionalIEs") (set "UEMMContext")),
      )
      ∷ (
        Types.mm_context_umts_key_and_quintuplets,
        always (if_nil "UEMMContext" (append "AdditionalIEs") (set "UEMMContext")),
      )
      ∷ (
        Types.mm_context_umts_key_quadruplets_and_quintuplets,
        always (if_nil "UEMMContext" (append "AdditionalIEs") (set "UEMMContext")),
      )
      ∷ (
        Types.mm_context_umts_key_used_cipher_and_quintuplets,
        always (if_nil "UEMMContext" (append "AdditionalIEs") (set "UEMMContext")),
      )
      ∷ (Types.pdn_connection, always (set "UEPDNConnections"))
      ∷ (
        Types.fully_qualified_teid,
        by_instance ((0, set "SenderFTEID") ∷ (1, set "SGWS11S4FTEID") ∷ [])
            (append "AdditionalIEs"),
      )
      ∷ (
        Types.fully_qualified_domain_name,
        by_instance ((0, set "SGWNodeName") ∷ (1, set "SGSNNodeName") ∷ (2, set "MMENodeName") ∷ [])
            (append "AdditionalIEs"),
      )
      ∷ (Types.indication, always (set "IndicationFlags"))
      ∷ (Types.trace_information, always (set "TraceInformation"))
      ∷ (
        Types.ip_address,
        by_instance ((0, set "S101IPAddress") ∷ (1, set "S102IPAddress") ∷ [])
            (append "AdditionalIEs"),
      )
      ∷ (
        Types.rfsp_index,
        by_instance ((0, set "SubscribedRFSPIndex") ∷ (1, set "RFSPIndexInUse") ∷ [])
            (append "AdditionalIEs"),
      )
      ∷ (Types.ue_time_zone, always (set "UETimeZone"))
      ∷ (Types.local_distinguished_name, always (set "MMESGSNLDN"))
      ∷ (Types.mdt_configuration, always (set "MDTConfiguration"))
      ∷ (Types.user_csg_information, always (set "UCI"))
      ∷ (Types.monitoring_event_information, always (set "MonitoringEventInformation"))
      ∷ (
        Types.monitoring_event_extension_information,
        always (set "MonitoringEventExtensionInformation"),
      )
      ∷ (
        Types.integer_number,
        by_instance ((0, set "UEUsageType") ∷ (1, set "RemainingRunningServiceGapTimer") ∷ [])
            (append "AdditionalIEs"),
      )
      ∷ (Types.scefpdn_connection, always (set "SCEFPDNConnection"))
      ∷ (Types.rat_type, always (set "RATType"))
      ∷ (Types.serving_plmn_rate_control, always (set "ServingPLMNRateControl"))
      ∷ (Types.counter, always (set "MOExceptionDataCounter"))
      ∷ (Types.extended_trace_information, always (set "ExtendedTraceInformation"))
      ∷ (
        Types.additional_rrm_policy_index,
        by_instance
            ((0, set "SubscribedAdditionalRRMPolicyIndex")
              ∷ (1, set "AdditionalRRMPolicyIndexInUse")
              ∷ [])
            (append "AdditionalIEs"),
      )
      ∷ (Types.private_extension, always (set "PrivateExtension"))
      ∷ [];
  otherwise = append "AdditionalIEs";
}

-- The cases of UnmarshalBinary.
abbrev pub parse_rules : Rules
parse_rules = record {
  cases =
      (Types.cause, always (set "Cause"))
      ∷ (Types.imsi, always (set "IMSI"))
      ∷ (
        Types.mm_context_eps_security_context_quadruplets_and_quintuplets,
        always (if_nil "UEMMContext" (append "AdditionalIEs") (set "UEMMContext")),
      )
      ∷ (
        Types.mm_context_gsm_key_and_triplets,
        always (if_nil "UEMMContext" (append "AdditionalIEs") (set "UEMMContext")),
      )
      ∷ (
        Types.mm_context_gsm_key_used_cipher_and_quintuplets,
        always (if_nil "UEMMContext" (append "AdditionalIEs") (set "UEMMContext")),
      )
      ∷ (
        Types.mm_context_umts_key_and_quintuplets,
        always (if_nil "UEMMContext" (append "AdditionalIEs") (set "UEMMContext")),
      )
      ∷ (
        Types.mm_context_umts_key_quadruplets_and_quintuplets,
        always (if_nil "UEMMContext" (append "AdditionalIEs") (set "UEMMContext")),
      )
      ∷ (
        Types.mm_context_umts_key_used_cipher_and_quintuplets,
        always (if_nil "UEMMContext" (append "AdditionalIEs") (set "UEMMContext")),
      )
      ∷ (Types.pdn_connection, always (set "UEPDNConnections"))
      ∷ (
        Types.fully_qualified_teid,
        by_instance ((0, set "SenderFTEID") ∷ (1, set "SGWS11S4FTEID") ∷ [])
            (append "AdditionalIEs"),
      )
      ∷ (
        Types.fully_qualified_domain_name,
        by_instance ((0, set "SGWNodeName") ∷ (1, set "SGSNNodeName") ∷ (2, set "MMENodeName") ∷ [])
            (append "AdditionalIEs"),
      )
      ∷ (Types.indication, always (set "IndicationFlags"))
      ∷ (Types.trace_information, always (set "TraceInformation"))
      ∷ (
        Types.ip_address,
        by_instance ((0, set "S101IPAddress") ∷ (1, set "S102IPAddress") ∷ [])
            (append "AdditionalIEs"),
      )
      ∷ (
        Types.rfsp_index,
        by_instance ((0, set "SubscribedRFSPIndex") ∷ (1, set "RFSPIndexInUse") ∷ [])
            (append "AdditionalIEs"),
      )
      ∷ (Types.ue_time_zone, always (set "UETimeZone"))
      ∷ (Types.local_distinguished_name, always (set "MMESGSNLDN"))
      ∷ (Types.mdt_configuration, always (set "MDTConfiguration"))
      ∷ (Types.user_csg_information, always (set "UCI"))
      ∷ (Types.monitoring_event_information, always (set "MonitoringEventInformation"))
      ∷ (
        Types.integer_number,
        by_instance ((0, set "UEUsageType") ∷ (1, set "RemainingRunningServiceGapTimer") ∷ [])
            (append "AdditionalIEs"),
      )
      ∷ (Types.scefpdn_connection, always (set "SCEFPDNConnection"))
      ∷ (Types.rat_type, always (set "RATType"))
      ∷ (Types.serving_plmn_rate_control, always (set "ServingPLMNRateControl"))
      ∷ (Types.counter, always (set "MOExceptionDataCounter"))
      ∷ (Types.extended_trace_information, always (set "ExtendedTraceInformation"))
      ∷ (Types.private_extension, always (set "PrivateExtension"))
      ∷ [];
  otherwise = append "AdditionalIEs";
}

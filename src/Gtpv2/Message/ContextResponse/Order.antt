-- ===== src/Gtpv2/Message/ContextResponse/Order.antt =====
-- gtpv2/message/context-res.go: the order in which the fields of ContextResponse are written.
use Prim.Native.String.{String}
use go_gtp.Common.{List, [], ◌∷◌}
use go_gtp.Message.{Item, write}

-- The fields in the order of MarshalTo.
abbrev pub items : List Item
items =
    write "Cause"
    ∷ write "IMSI"
    ∷ write "UEMMContext"
    ∷ write "UEPDNConnections"
    ∷ write "SenderFTEID"
    ∷ write "SGWS11S4FTEID"
    ∷ write "SGWNodeName"
    ∷ write "IndicationFlags"
    ∷ write "TraceInformation"
    ∷ write "S101IPAddress"
    ∷ write "S102IPAddress"
    ∷ write "SubscribedRFSPIndex"
    ∷ write "RFSPIndexInUse"
    ∷ write "UETimeZone"
    ∷ write "MMESGSNLDN"
    ∷ write "MDTConfiguration"
    ∷ write "SGSNNodeName"
    ∷ write "MMENodeName"
    ∷ write "UCI"
    ∷ write "MonitoringEventInformation"
    ∷ write "UEUsageType"
    ∷ write "SCEFPDNConnection"
    ∷ write "RATType"
    ∷ write "ServingPLMNRateControl"
    ∷ write "MOExceptionDataCounter"
    ∷ write "RemainingRunningServiceGapTimer"
    ∷ write "ExtendedTraceInformation"
    ∷ write "PrivateExtension"
    ∷ write "AdditionalIEs"
    ∷ []

-- The fields in the order of MarshalLen.
abbrev pub counts : List String
counts =
    "Cause" ∷ "IMSI" ∷ "UEMMContext" ∷ "UEPDNConnections" ∷ "SenderFTEID" ∷ "SGWS11S4FTEID"
    ∷ "SGWNodeName" ∷ "IndicationFlags" ∷ "TraceInformation" ∷ "S101IPAddress" ∷ "S102IPAddress"
    ∷ "SubscribedRFSPIndex" ∷ "RFSPIndexInUse" ∷ "UETimeZone" ∷ "MMESGSNLDN" ∷ "MDTConfiguration"
    ∷ "SGSNNodeName" ∷ "MMENodeName" ∷ "UCI" ∷ "MonitoringEventInformation" ∷ "UEUsageType"
    ∷ "SCEFPDNConnection" ∷ "RATType" ∷ "ServingPLMNRateControl" ∷ "MOExceptionDataCounter"
    ∷ "RemainingRunningServiceGapTimer" ∷ "ExtendedTraceInformation" ∷ "PrivateExtension"
    ∷ "AdditionalIEs" ∷ []

-- ===== src/Gtpv1/Message/CreatePdpContextRequest/Order.antt =====
-- gtpv1/message/create-pdp-context-req.go: the order in which the fields of CreatePDPContextRequest are written.
use Prim.Native.String.{String}
use go_gtp.Common.{List, [], ◌∷◌}
use go_gtp.Message.{Item, write}

-- The fields in the order of MarshalTo.
abbrev pub items : List Item
items =
    write "IMSI"
    ∷ write "RAI"
    ∷ write "Recovery"
    ∷ write "SelectionMode"
    ∷ write "TEIDDataI"
    ∷ write "TEIDCPlane"
    ∷ write "NSAPI"
    ∷ write "LinkedNSAPI"
    ∷ write "ChargingCharacteristics"
    ∷ write "TraceReference"
    ∷ write "TraceType"
    ∷ write "EndUserAddress"
    ∷ write "APN"
    ∷ write "PCO"
    ∷ write "SGSNAddressForSignalling"
    ∷ write "SGSNAddressForUserTraffic"
    ∷ write "MSISDN"
    ∷ write "QoSProfile"
    ∷ write "TFT"
    ∷ write "TriggerID"
    ∷ write "OMCIdentity"
    ∷ write "CommonFlags"
    ∷ write "APNRestriction"
    ∷ write "RATType"
    ∷ write "UserLocationInformation"
    ∷ write "MSTimeZone"
    ∷ write "IMEI"
    ∷ write "CAMELChargingInformationContainer"
    ∷ write "AdditionalTraceInfo"
    ∷ write "CorrelationID"
    ∷ write "EvolvedARPI"
    ∷ write "ExtendedCommonFlags"
    ∷ write "UCI"
    ∷ write "APNAMBR"
    ∷ write "SignallingPriorityIndication"
    ∷ write "CNOperatorSelectionEntity"
    ∷ write "MappedUEUsageType"
    ∷ write "UPFunctionSelectionIndicationFlags"
    ∷ write "PrivateExtension"
    ∷ write "AdditionalIEs"
    ∷ []

-- The fields in the order of MarshalLen.
abbrev pub counts : List String
counts =
    "IMSI" ∷ "RAI" ∷ "Recovery" ∷ "SelectionMode" ∷ "TEIDDataI" ∷ "TEIDCPlane" ∷ "NSAPI"
    ∷ "LinkedNSAPI" ∷ "ChargingCharacteristics" ∷ "TraceReference" ∷ "TraceType" ∷ "EndUserAddress"
    ∷ "APN" ∷ "PCO" ∷ "SGSNAddressForSignalling" ∷ "SGSNAddressForUserTraffic" ∷ "MSISDN"
    ∷ "QoSProfile" ∷ "TFT" ∷ "TriggerID" ∷ "OMCIdentity" ∷ "CommonFlags" ∷ "APNRestriction"
    ∷ "RATType" ∷ "UserLocationInformation" ∷ "MSTimeZone" ∷ "IMEI"
    ∷ "CAMELChargingInformationContainer" ∷ "AdditionalTraceInfo" ∷ "CorrelationID" ∷ "EvolvedARPI"
    ∷ "ExtendedCommonFlags" ∷ "UCI" ∷ "APNAMBR" ∷ "SignallingPriorityIndication"
    ∷ "CNOperatorSelectionEntity" ∷ "MappedUEUsageType" ∷ "UPFunctionSelectionIndicationFlags"
    ∷ "PrivateExtension" ∷ "AdditionalIEs" ∷ []

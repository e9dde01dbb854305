-- ===== src/Gtpv1/Message/UpdatePdpContextRequest/Order.antt =====
-- gtpv1/message/update-pdp-context-req.go: the order in which the fields of UpdatePDPContextRequest are written.
use Prim.Native.String.{String}
use go_gtp.Common.{List, [], ◌∷◌}
use go_gtp.Message.{Item, write}

-- The fields in the order of MarshalTo.
abbrev pub items : List Item
items =
    write "IMSI"
    ∷ write "RAI"
    ∷ write "Recovery"
    ∷ write "TEIDDataI"
    ∷ write "TEIDCPlane"
    ∷ write "NSAPI"
    ∷ write "TraceReference"
    ∷ write "TraceType"
    ∷ write "PCO"
    ∷ write "SGSNAddressForCPlane"
    ∷ write "SGSNAddressForUserTraffic"
    ∷ write "AlternativeSGSNAddressForCPlane"
    ∷ write "AlternativeSGSNAddressForUserTraffic"
    ∷ write "QoSProfile"
    ∷ write "TFT"
    ∷ write "TriggerID"
    ∷ write "OMCIdentity"
    ∷ write "CommonFlags"
    ∷ write "RATType"
    ∷ write "ULI"
    ∷ write "MSTimeZone"
    ∷ write "AdditionalTraceInfo"
    ∷ write "DirectTunnelFlags"
    ∷ write "EvolvedARPI"
    ∷ write "ExtendedCommonFlags"
    ∷ write "UCI"
    ∷ write "APNAMBR"
    ∷ write "SignallingPriorityIndication"
    ∷ write "CNOperatorSelectionEntity"
    ∷ write "IMEI"
    ∷ write "PrivateExtension"
    ∷ write "AdditionalIEs"
    ∷ []

-- The fields in the order of MarshalLen.
abbrev pub counts : List String
counts =
    "IMSI" ∷ "RAI" ∷ "Recovery" ∷ "TEIDDataI" ∷ "TEIDCPlane" ∷ "NSAPI" ∷ "TraceReference"
    ∷ "TraceType" ∷ "PCO" ∷ "SGSNAddressForCPlane" ∷ "SGSNAddressForUserTraffic"
    ∷ "AlternativeSGSNAddressForCPlane" ∷ "AlternativeSGSNAddressForUserTraffic" ∷ "QoSProfile"
    ∷ "TFT" ∷ "TriggerID" ∷ "OMCIdentity" ∷ "CommonFlags" ∷ "RATType" ∷ "ULI" ∷ "MSTimeZone"
    ∷ "AdditionalTraceInfo" ∷ "DirectTunnelFlags" ∷ "EvolvedARPI" ∷ "ExtendedCommonFlags" ∷ "UCI"
    ∷ "APNAMBR" ∷ "SignallingPriorityIndication" ∷ "CNOperatorSelectionEntity" ∷ "IMEI"
    ∷ "PrivateExtension" ∷ "AdditionalIEs" ∷ []

-- ===== src/Gtpv1/Message/CreatePdpContextResponse/Order.antt =====
-- gtpv1/message/create-pdp-context-res.go: the order in which the fields of CreatePDPContextResponse are written.
use Prim.Native.String.{String}
use go_gtp.Common.{List, [], ◌∷◌}
use go_gtp.Message.{Item, write}

-- The fields in the order of MarshalTo.
abbrev pub items : List Item
items =
    write "Cause"
    ∷ write "ReorderingRequired"
    ∷ write "Recovery"
    ∷ write "TEIDDataI"
    ∷ write "TEIDCPlane"
    ∷ write "NSAPI"
    ∷ write "ChargingID"
    ∷ write "EndUserAddress"
    ∷ write "PCO"
    ∷ write "GGSNAddressForCPlane"
    ∷ write "GGSNAddressForUserTraffic"
    ∷ write "AltGGSNAddressForCPlane"
    ∷ write "AltGGSNAddressForUserTraffic"
    ∷ write "QoSProfile"
    ∷ write "ChargingGatewayAddress"
    ∷ write "AltChargingGatewayAddress"
    ∷ write "CommonFlags"
    ∷ write "APNRestriction"
    ∷ write "MSInfoChangeReportingAction"
    ∷ write "BearerControlMode"
    ∷ write "EvolvedARPI"
    ∷ write "ExtendedCommonFlag"
    ∷ write "CSGInformationReportingAction"
    ∷ write "APNAMBR"
    ∷ write "GGSNBackOffTime"
    ∷ write "ExtendedCommonFlagsII"
    ∷ write "PrivateExtension"
    ∷ write "AdditionalIEs"
    ∷ []

-- The fields in the order of MarshalLen.
abbrev pub counts : List String
counts =
    "Cause" ∷ "ReorderingRequired" ∷ "Recovery" ∷ "TEIDDataI" ∷ "TEIDCPlane" ∷ "NSAPI"
    ∷ "ChargingID" ∷ "EndUserAddress" ∷ "PCO" ∷ "GGSNAddressForCPlane" ∷ "GGSNAddressForUserTraffic"
    ∷ "AltGGSNAddressForCPlane" ∷ "AltGGSNAddressForUserTraffic" ∷ "QoSProfile"
    ∷ "ChargingGatewayAddress" ∷ "AltChargingGatewayAddress" ∷ "CommonFlags" ∷ "APNRestriction"
    ∷ "MSInfoChangeReportingAction" ∷ "BearerControlMode" ∷ "EvolvedARPI" ∷ "ExtendedCommonFlag"
    ∷ "CSGInformationReportingAction" ∷ "APNAMBR" ∷ "GGSNBackOffTime" ∷ "ExtendedCommonFlagsII"
    ∷ "PrivateExtension" ∷ "AdditionalIEs" ∷ []

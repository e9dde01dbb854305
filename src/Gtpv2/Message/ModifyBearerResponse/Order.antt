-- ===== src/Gtpv2/Message/ModifyBearerResponse/Order.antt =====
-- gtpv2/message/modify-bearer-res.go: the order in which the fields of ModifyBearerResponse are written.
use Prim.Native.String.{String}
use go_gtp.Common.{List, [], ◌∷◌}
use go_gtp.Message.{Item, write}

-- The fields in the order of MarshalTo.
abbrev pub items : List Item
items =
    write "Cause"
    ∷ write "MSISDN"
    ∷ write "LinkedEBI"
    ∷ write "APNRestriction"
    ∷ write "PCO"
    ∷ write "BearerContextsModified"
    ∷ write "BearerContextsMarkedForRemoval"
    ∷ write "ChangeReportingAction"
    ∷ write "CSGInformationReportingAction"
    ∷ write "HeNBInformationReporting"
    ∷ write "ChargingGatewayName"
    ∷ write "ChargingGatewayAddress"
    ∷ write "PGWFQCSID"
    ∷ write "SGWFQCSID"
    ∷ write "Recovery"
    ∷ write "SGWLDN"
    ∷ write "PGWLDN"
    ∷ write "IndicationFlags"
    ∷ write "PresenceReportingAreaAction"
    ∷ write "PGWNodeLoadControlInformation"
    ∷ write "PGWAPNLoadControlInformation"
    ∷ write "SGWNodeLoadControlInformation"
    ∷ write "PGWOverloadControlInformation"
    ∷ write "SGWOverloadControlInformation"
    ∷ write "PDNConnectionChargingID"
    ∷ write "PrivateExtension"
    ∷ write "AdditionalIEs"
    ∷ []

-- The fields in the order of MarshalLen.
abbrev pub counts : List String
counts =
    "Cause" ∷ "MSISDN" ∷ "LinkedEBI" ∷ "APNRestriction" ∷ "PCO" ∷ "BearerContextsModified"
    ∷ "BearerContextsMarkedForRemoval" ∷ "ChangeReportingAction" ∷ "CSGInformationReportingAction"
    ∷ "HeNBInformationReporting" ∷ "ChargingGatewayName" ∷ "ChargingGatewayAddress" ∷ "PGWFQCSID"
    ∷ "SGWFQCSID" ∷ "Recovery" ∷ "SGWLDN" ∷ "PGWLDN" ∷ "IndicationFlags"
    ∷ "PresenceReportingAreaAction" ∷ "PGWNodeLoadControlInformation"
    ∷ "PGWAPNLoadControlInformation" ∷ "SGWNodeLoadControlInformation"
    ∷ "PGWOverloadControlInformation" ∷ "SGWOverloadControlInformation" ∷ "PDNConnectionChargingID"
    ∷ "PrivateExtension" ∷ "AdditionalIEs" ∷ []

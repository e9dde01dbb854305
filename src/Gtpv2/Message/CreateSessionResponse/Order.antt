-- ===== src/Gtpv2/Message/CreateSessionResponse/Order.antt =====
-- gtpv2/message/create-session-res.go: the order in which the fields of CreateSessionResponse are written.
use Prim.Native.String.{String}
use go_gtp.Common.{List, [], ◌∷◌}
use go_gtp.Message.{Item, write}

-- The fields in the order of MarshalTo.
abbrev pub items : List Item
items =
    write "Cause"
    ∷ write "ChangeReportingAction"
    ∷ write "CSGInformationReportingAction"
    ∷ write "HeNBInformationReporting"
    ∷ write "SenderFTEIDC"
    ∷ write "PGWS5S8FTEIDC"
    ∷ write "PAA"
    ∷ write "APNRestriction"
    ∷ write "AMBR"
    ∷ write "EBI"
    ∷ write "PCO"
    ∷ write "BearerContextsCreated"
    ∷ write "BearerContextMarkedForRemoval"
    ∷ write "Recovery"
    ∷ write "ChargingGatewayName"
    ∷ write "ChargingGatewayAddress"
    ∷ write "PGWFQCSID"
    ∷ write "SGWFQCSID"
    ∷ write "PGWLDN"
    ∷ write "SGWLDN"
    ∷ write "PGWBackOffTime"
    ∷ write "APCO"
    ∷ write "TrustedTWANIPv4Parameters"
    ∷ write "IndicationFlags"
    ∷ write "PresenceReportingAreaAction"
    ∷ write "PGWNodeLoadControlInformation"
    ∷ write "PGWAPNLoadControlInformation"
    ∷ write "SGWNodeLoadControlInformation"
    ∷ write "PGWOverloadControlInformation"
    ∷ write "SGWOverloadControlInformation"
    ∷ write "NBIFOMContainer"
    ∷ write "PDNConnectionChargingID"
    ∷ write "EPCO"
    ∷ write "PrivateExtension"
    ∷ write "AdditionalIEs"
    ∷ []

-- The fields in the order of MarshalLen.
abbrev pub counts : List String
counts =
    "Cause" ∷ "ChangeReportingAction" ∷ "CSGInformationReportingAction" ∷ "HeNBInformationReporting"
    ∷ "SenderFTEIDC" ∷ "PGWS5S8FTEIDC" ∷ "PAA" ∷ "APNRestriction" ∷ "AMBR" ∷ "EBI" ∷ "PCO"
    ∷ "BearerContextsCreated" ∷ "BearerContextMarkedForRemoval" ∷ "Recovery" ∷ "ChargingGatewayName"
    ∷ "ChargingGatewayAddress" ∷ "PGWFQCSID" ∷ "SGWFQCSID" ∷ "PGWLDN" ∷ "SGWLDN" ∷ "PGWBackOffTime"
    ∷ "APCO" ∷ "TrustedTWANIPv4Parameters" ∷ "IndicationFlags" ∷ "PresenceReportingAreaAction"
    ∷ "PGWNodeLoadControlInformation" ∷ "PGWAPNLoadControlInformation"
    ∷ "SGWNodeLoadControlInformation" ∷ "PGWOverloadControlInformation"
    ∷ "SGWOverloadControlInformation" ∷ "NBIFOMContainer" ∷ "PDNConnectionChargingID" ∷ "EPCO"
    ∷ "PrivateExtension" ∷ "AdditionalIEs" ∷ []

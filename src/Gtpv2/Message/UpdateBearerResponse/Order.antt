-- ===== src/Gtpv2/Message/UpdateBearerResponse/Order.antt =====
-- gtpv2/message/update-bearer-res.go: the order in which the fields of UpdateBearerResponse are written.
use Prim.Native.String.{String}
use go_gtp.Common.{List, [], ◌∷◌}
use go_gtp.Message.{Item, write}

-- The fields in the order of MarshalTo.
abbrev pub items : List Item
items =
    write "Cause"
    ∷ write "BearerContexts"
    ∷ write "PCO"
    ∷ write "Recovery"
    ∷ write "MMEFQCSID"
    ∷ write "SGWFQCSID"
    ∷ write "EPDGFQCSID"
    ∷ write "TWANFQCSID"
    ∷ write "IndicationFlags"
    ∷ write "UETimeZone"
    ∷ write "ULI"
    ∷ write "TWANIdentifier"
    ∷ write "MMESGSNOverloadControlInformation"
    ∷ write "SGWOverloadControlInformation"
    ∷ write "PresenceReportingAreaAction"
    ∷ write "MMESGSNIdentifier"
    ∷ write "TWANePDGOverloadControlInformation"
    ∷ write "WLANLocationInformation"
    ∷ write "WLANLocationTimeStamp"
    ∷ write "UELocalIPAddress"
    ∷ write "UEUDPPort"
    ∷ write "NBIFOMContainer"
    ∷ write "UETCPPort"
    ∷ write "PrivateExtension"
    ∷ write "AdditionalIEs"
    ∷ []

-- The fields in the order of MarshalLen.
abbrev pub counts : List String
counts =
    "Cause" ∷ "BearerContexts" ∷ "PCO" ∷ "Recovery" ∷ "MMEFQCSID" ∷ "SGWFQCSID" ∷ "EPDGFQCSID"
    ∷ "TWANFQCSID" ∷ "IndicationFlags" ∷ "UETimeZone" ∷ "ULI" ∷ "TWANIdentifier"
    ∷ "MMESGSNOverloadControlInformation" ∷ "SGWOverloadControlInformation"
    ∷ "PresenceReportingAreaAction" ∷ "MMESGSNIdentifier" ∷ "TWANePDGOverloadControlInformation"
    ∷ "WLANLocationInformation" ∷ "WLANLocationTimeStamp" ∷ "UELocalIPAddress" ∷ "UEUDPPort"
    ∷ "NBIFOMContainer" ∷ "UETCPPort" ∷ "PrivateExtension" ∷ "AdditionalIEs" ∷ []

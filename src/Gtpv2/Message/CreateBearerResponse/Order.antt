-- ===== src/Gtpv2/Message/CreateBearerResponse/Order.antt =====
-- gtpv2/message/create-bearer-res.go: the order in which the fields of CreateBearerResponse are written.
use Prim.Native.String.{String}
use go_gtp.Common.{List, [], ◌∷◌}
use go_gtp.Message.{Item, write}

-- The fields in the order of MarshalTo.
abbrev pub items : List Item
items =
    write "Cause"
    ∷ write "BearerContexts"
    ∷ write "Recovery"
    ∷ write "MMEFQCSID"
    ∷ write "SGWFQCSID"
    ∷ write "EPDGFQCSID"
    ∷ write "TWANFQCSID"
    ∷ write "PCO"
    ∷ write "UETimeZone"
    ∷ write "ULI"
    ∷ write "TWANIdentifier"
    ∷ write "MMEOverloadControlInformation"
    ∷ write "SGWOverloadControlInformation"
    ∷ write "PresenceReportingAction"
    ∷ write "MMESGSNIdentifier"
    ∷ write "TWANePDGOverloadControlInformation"
    ∷ write "WLANLocationInformation"
    ∷ write "WLANLocationTimestamp"
    ∷ write "UELocalIPAddress"
    ∷ write "UEUDPPort"
    ∷ write "NBIFOMContainer"
    ∷ write "UETCPPort"
    ∷ write "PrivateExtension"
    ∷ write "AdditionalIEs"
    ∷ []

-- The fields in the order of MarshalLen.
abbrev pub counts : List String
counts =
    "Cause" ∷ "BearerContexts" ∷ "Recovery" ∷ "MMEFQCSID" ∷ "SGWFQCSID" ∷ "EPDGFQCSID"
    ∷ "TWANFQCSID" ∷ "PCO" ∷ "UETimeZone" ∷ "ULI" ∷ "TWANIdentifier"
    ∷ "MMEOverloadControlInformation" ∷ "SGWOverloadControlInformation" ∷ "PresenceReportingAction"
    ∷ "MMESGSNIdentifier" ∷ "TWANePDGOverloadControlInformation" ∷ "WLANLocationInformation"
    ∷ "WLANLocationTimestamp" ∷ "UELocalIPAddress" ∷ "UEUDPPort" ∷ "NBIFOMContainer" ∷ "UETCPPort"
    ∷ "PrivateExtension" ∷ "AdditionalIEs" ∷ []

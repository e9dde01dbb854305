-- ===== src/Gtpv2/Message/DeleteBearerResponse/Order.antt =====
-- gtpv2/message/delete-bearer-res.go: the order in which the fields of DeleteBearerResponse are written.
use Prim.Native.String.{String}
use go_gtp.Common.{List, [], ◌∷◌}
use go_gtp.Message.{Item, write}

-- The fields in the order of MarshalTo.
abbrev pub items : List Item
items =
    write "Cause"
    ∷ write "LinkedEBI"
    ∷ write "BearerContexts"
    ∷ write "Recovery"
    ∷ write "MMEFQCSID"
    ∷ write "SGWFQCSID"
    ∷ write "EPDGFQCSID"
    ∷ write "TWANFQCSID"
    ∷ write "PCO"
    ∷ write "UETimeZone"
    ∷ write "ULI"
    ∷ write "ULITimestamp"
    ∷ write "TWANIdentifier"
    ∷ write "TWANIdentifierTimestamp"
    ∷ write "MMEOverloadControlInformation"
    ∷ write "SGWOverloadControlInformation"
    ∷ write "MMESGSNIdentifier"
    ∷ write "TWANePDGOverloadControlInformation"
    ∷ write "WLANLocationInformation"
    ∷ write "WLANLocationTimestamp"
    ∷ write "UELocalIPAddress"
    ∷ write "UEUDPPort"
    ∷ write "NBIFOMContainer"
    ∷ write "UETCPPort"
    ∷ write "SecondaryRATUsageDataReport"
    ∷ write "PrivateExtension"
    ∷ write "AdditionalIEs"
    ∷ []

-- The fields in the order of MarshalLen.
abbrev pub counts : List String
counts =
    "Cause" ∷ "LinkedEBI" ∷ "BearerContexts" ∷ "Recovery" ∷ "MMEFQCSID" ∷ "SGWFQCSID" ∷ "EPDGFQCSID"
    ∷ "TWANFQCSID" ∷ "PCO" ∷ "UETimeZone" ∷ "ULI" ∷ "ULITimestamp" ∷ "TWANIdentifier"
    ∷ "TWANIdentifierTimestamp" ∷ "MMEOverloadControlInformation" ∷ "SGWOverloadControlInformation"
    ∷ "MMESGSNIdentifier" ∷ "TWANePDGOverloadControlInformation" ∷ "WLANLocationInformation"
    ∷ "WLANLocationTimestamp" ∷ "UELocalIPAddress" ∷ "UEUDPPort" ∷ "NBIFOMContainer" ∷ "UETCPPort"
    ∷ "SecondaryRATUsageDataReport" ∷ "PrivateExtension" ∷ "AdditionalIEs" ∷ []

-- ===== src/Gtpv2/Message/DeleteSessionRequest/Order.antt =====
-- gtpv2/message/delete-session-req.go: the order in which the fields of DeleteSessionRequest are written.
use Prim.Native.String.{String}
use go_gtp.Common.{List, [], ◌∷◌}
use go_gtp.Message.{Item, write}

-- The fields in the order of MarshalTo.
abbrev pub items : List Item
items =
    write "Cause"
    ∷ write "LinkedEBI"
    ∷ write "ULI"
    ∷ write "IndicationFlags"
    ∷ write "PCO"
    ∷ write "OriginatingNode"
    ∷ write "SenderFTEIDC"
    ∷ write "UETimeZone"
    ∷ write "ULITimestamp"
    ∷ write "RANNASReleaseCause"
    ∷ write "TWANIdentifier"
    ∷ write "TWANIdentifierTimestamp"
    ∷ write "MMESGSNOverloadControlInformation"
    ∷ write "SGWOverloadControlInformaion"
    ∷ write "TWANePDGOverloadControlInformaion"
    ∷ write "WLANLocationInformation"
    ∷ write "WLANLocationTimeStamp"
    ∷ write "UELocalIPAddress"
    ∷ write "UEUDPPort"
    ∷ write "EPCO"
    ∷ write "UETCPPort"
    ∷ write "SecondaryRATUsageDataReport"
    ∷ write "PrivateExtension"
    ∷ write "AdditionalIEs"
    ∷ []

-- The fields in the order of MarshalLen.
abbrev pub counts : List String
counts =
    "Cause" ∷ "LinkedEBI" ∷ "ULI" ∷ "IndicationFlags" ∷ "PCO" ∷ "OriginatingNode" ∷ "SenderFTEIDC"
    ∷ "UETimeZone" ∷ "ULITimestamp" ∷ "RANNASReleaseCause" ∷ "TWANIdentifier"
    ∷ "TWANIdentifierTimestamp" ∷ "MMESGSNOverloadControlInformation"
    ∷ "SGWOverloadControlInformaion" ∷ "TWANePDGOverloadControlInformaion"
    ∷ "WLANLocationInformation" ∷ "WLANLocationTimeStamp" ∷ "UELocalIPAddress" ∷ "UEUDPPort"
    ∷ "EPCO" ∷ "UETCPPort" ∷ "SecondaryRATUsageDataReport" ∷ "PrivateExtension" ∷ "AdditionalIEs"
    ∷ []

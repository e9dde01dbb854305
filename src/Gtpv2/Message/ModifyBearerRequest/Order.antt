-- ===== src/Gtpv2/Message/ModifyBearerRequest/Order.antt =====
-- gtpv2/message/modify-bearer-req.go: the order in which the fields of ModifyBearerRequest are written.
use Prim.Native.String.{String}
use go_gtp.Common.{List, [], ◌∷◌}
use go_gtp.Message.{Item, write}

-- The fields in the order of MarshalTo.
abbrev pub items : List Item
items =
    write "MEI"
    ∷ write "ULI"
    ∷ write "ServingNetwork"
    ∷ write "RATType"
    ∷ write "IndicationFlags"
    ∷ write "SenderFTEIDC"
    ∷ write "AMBR"
    ∷ write "DelayDownlinkPacketNotificationRequest"
    ∷ write "BearerContextsToBeModified"
    ∷ write "BearerContextsToBeRemoved"
    ∷ write "Recovery"
    ∷ write "UETimeZone"
    ∷ write "MMEFQCSID"
    ∷ write "SGWFQCSID"
    ∷ write "UCI"
    ∷ write "UELocalIPAddress"
    ∷ write "UEUDPPort"
    ∷ write "MMESGSNLDN"
    ∷ write "SGWLDN"
    ∷ write "HeNBLocalIPAddress"
    ∷ write "HeNBUDPPort"
    ∷ write "MMESGSNIdentifier"
    ∷ write "CNOperatorSelectionEntity"
    ∷ write "PresenceReportingAreaInformation"
    ∷ write "MMESGSNOverloadControlInformation"
    ∷ write "SGWOverloadControlInformation"
    ∷ write "EPDGOverloadControlInformation"
    ∷ write "ServingPLMNRateControl"
    ∷ write "MOExceptionDataCounter"
    ∷ write "IMSI"
    ∷ write "ULIForSGW"
    ∷ write "WLANLocationInformation"
    ∷ write "WLANLocationTimeStamp"
    ∷ write "SecondaryRATUsageDataReport"
    ∷ write "PrivateExtension"
    ∷ write "AdditionalIEs"
    ∷ []

-- The fields in the order of MarshalLen.
abbrev pub counts : List String
counts =
    "MEI" ∷ "ULI" ∷ "ServingNetwork" ∷ "RATType" ∷ "IndicationFlags" ∷ "SenderFTEIDC" ∷ "AMBR"
    ∷ "DelayDownlinkPacketNotificationRequest" ∷ "BearerContextsToBeModified"
    ∷ "BearerContextsToBeRemoved" ∷ "Recovery" ∷ "UETimeZone" ∷ "MMEFQCSID" ∷ "SGWFQCSID" ∷ "UCI"
    ∷ "UELocalIPAddress" ∷ "UEUDPPort" ∷ "MMESGSNLDN" ∷ "SGWLDN" ∷ "HeNBLocalIPAddress"
    ∷ "HeNBUDPPort" ∷ "MMESGSNIdentifier" ∷ "CNOperatorSelectionEntity"
    ∷ "PresenceReportingAreaInformation" ∷ "MMESGSNOverloadControlInformation"
    ∷ "SGWOverloadControlInformation" ∷ "EPDGOverloadControlInformation" ∷ "ServingPLMNRateControl"
    ∷ "MOExceptionDataCounter" ∷ "IMSI" ∷ "ULIForSGW" ∷ "WLANLocationInformation"
    ∷ "WLANLocationTimeStamp" ∷ "SecondaryRATUsageDataReport" ∷ "PrivateExtension" ∷ "AdditionalIEs"
    ∷ []

-- ===== src/Gtpv2/Message/CreateSessionRequest/Order.antt =====
-- gtpv2/message/create-session-req.go: the order in which the fields of CreateSessionRequest are written.
use Prim.Native.String.{String}
use go_gtp.Common.{List, [], ◌∷◌}
use go_gtp.Message.{Item, write, write_in_place}

-- The fields in the order of MarshalTo.
abbrev pub items : List Item
items =
    write "IMSI"
    ∷ write "MSISDN"
    ∷ write "MEI"
    ∷ write "ULI"
    ∷ write "ServingNetwork"
    ∷ write "RATType"
    ∷ write "IndicationFlags"
    ∷ write "SenderFTEIDC"
    ∷ write "PGWS5S8FTEIDC"
    ∷ write "APN"
    ∷ write "SelectionMode"
    ∷ write "PDNType"
    ∷ write "PAA"
    ∷ write "APNRestriction"
    ∷ write "AMBR"
    ∷ write "LinkedEBI"
    ∷ write "TWMI"
    ∷ write "PCO"
    ∷ write "BearerContextsToBeCreated"
    ∷ write "BearerContextsToBeRemoved"
    ∷ write "TraceInformation"
    ∷ write "Recovery"
    ∷ write "MMEFQCSID"
    ∷ write "SGWFQCSID"
    ∷ write "EPDGFQCSID"
    ∷ write "TWANFQCSID"
    ∷ write "UETimeZone"
    ∷ write "UCI"
    ∷ write "ChargingCharacteristics"
    ∷ write "MMESGSNLDN"
    ∷ write "SGWLDN"
    ∷ write "EPDGLDN"
    ∷ write "TWANLDN"
    ∷ write "SignallingPriorityIndication"
    ∷ write "UELocalIPAddress"
    ∷ write "UEUDPPort"
    ∷ write "APCO"
    ∷ write "HeNBLocalIPAddress"
    ∷ write "HeNBUDPPort"
    ∷ write "MMESGSNIdentifier"
    ∷ write "TWANIdentifier"
    ∷ write "EPDGIPAddress"
    ∷ write "CNOperatorSelectionEntity"
    ∷ write "PresenceReportingAreaInformation"
    ∷ write "MMESGSNOverloadControlInformation"
    ∷ write "SGWOverloadControlInformation"
    ∷ write "TWANePDGOverloadControlInformation"
    ∷ write "OriginationTimeStamp"
    ∷ write "MaximumWaitTime"
    ∷ write "WLANLocationInformation"
    ∷ write "WLANLocationTimeStamp"
    ∷ write "NBIFOMContainer"
    ∷ write "RemoteUEContextConnected"
    ∷ write "TGPPAAAServerIdentifier"
    ∷ write "EPCO"
    ∷ write "ServingPLMNRateControl"
    ∷ write "MOExceptionDataCounter"
    ∷ write "UETCPPort"
    ∷ write "MappedUEUsageType"
    ∷ write "ULIForSGW"
    ∷ write "SGWUNodeName"
    ∷ write "SecondaryRATUsageDataReport"
    ∷ write "UPFunctionSelectionIndicationFlags"
    ∷ write "APNRateControlStatus"
    ∷ write_in_place "PrivateExtension"
    ∷ write "AdditionalIEs"
    ∷ []

-- The fields in the order of MarshalLen.
abbrev pub counts : List String
counts =
    "IMSI" ∷ "MSISDN" ∷ "MEI" ∷ "ULI" ∷ "ServingNetwork" ∷ "RATType" ∷ "IndicationFlags"
    ∷ "SenderFTEIDC" ∷ "PGWS5S8FTEIDC" ∷ "APN" ∷ "SelectionMode" ∷ "PDNType" ∷ "PAA"
    ∷ "APNRestriction" ∷ "AMBR" ∷ "LinkedEBI" ∷ "TWMI" ∷ "PCO" ∷ "BearerContextsToBeCreated"
    ∷ "BearerContextsToBeRemoved" ∷ "TraceInformation" ∷ "Recovery" ∷ "MMEFQCSID" ∷ "SGWFQCSID"
    ∷ "EPDGFQCSID" ∷ "TWANFQCSID" ∷ "UETimeZone" ∷ "UCI" ∷ "ChargingCharacteristics" ∷ "MMESGSNLDN"
    ∷ "SGWLDN" ∷ "EPDGLDN" ∷ "TWANLDN" ∷ "SignallingPriorityIndication" ∷ "UELocalIPAddress"
    ∷ "UEUDPPort" ∷ "APCO" ∷ "HeNBLocalIPAddress" ∷ "HeNBUDPPort" ∷ "MMESGSNIdentifier"
    ∷ "TWANIdentifier" ∷ "EPDGIPAddress" ∷ "CNOperatorSelectionEntity"
    ∷ "PresenceReportingAreaInformation" ∷ "MMESGSNOverloadControlInformation"
    ∷ "SGWOverloadControlInformation" ∷ "TWANePDGOverloadControlInformation"
    ∷ "OriginationTimeStamp" ∷ "MaximumWaitTime" ∷ "WLANLocationInformation"
    ∷ "WLANLocationTimeStamp" ∷ "NBIFOMContainer" ∷ "RemoteUEContextConnected"
    ∷ "TGPPAAAServerIdentifier" ∷ "EPCO" ∷ "ServingPLMNRateControl" ∷ "MOExceptionDataCounter"
    ∷ "UETCPPort" ∷ "MappedUEUsageType" ∷ "ULIForSGW" ∷ "SGWUNodeName"
    ∷ "SecondaryRATUsageDataReport" ∷ "UPFunctionSelectionIndicationFlags" ∷ "APNRateControlStatus"
    ∷ "PrivateExtension" ∷ "AdditionalIEs" ∷ []

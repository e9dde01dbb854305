-- ===== src/Gtpv2/Message/ContextRequest.antt =====
-- gtpv2/message/context-req.go: the fields and the functions of ContextRequest.
use Prim.Native.String.{String}
use go_gtp.Common.{ℕ, List, [], ◌∷◌, false, true, refl, arith}
use go_gtp.Common.Outcome.{Outcome}
use go_gtp.Common.Bytes.{Bytes}
use go_gtp.Message
use go_gtp.Message.{
  FieldType, pointer, slice, Rules, always, by_instance, set, append, Item, write, Layout, Message,
}
use go_gtp.Message.RoundTrip.{IsConsistent}
use go_gtp.Gtpv2.Ie.Types
use go_gtp.Gtpv2.Ie.{Ie}
use go_gtp.Gtpv2.Message.{gtpv2, new_message}

-- The fields of the struct.
abbrev pub struct : List (String × FieldType)
struct =
    ("IMSI", pointer)
    ∷ ("GUTI", pointer)
    ∷ ("RAI", pointer)
    ∷ ("PTMSI", pointer)
    ∷ ("PTMSISignature", pointer)
    ∷ ("CompleteTAURequestMessage", pointer)
    ∷ ("AddressAndTEIDForCPlane", pointer)
    ∷ ("UDPSourcePortNumber", pointer)
    ∷ ("RATType", pointer)
    ∷ ("Indication", pointer)
    ∷ ("HopCounter", pointer)
    ∷ ("TargetPLMNID", pointer)
    ∷ ("MMESGSNLDN", pointer)
    ∷ ("SGSNNodeName", pointer)
    ∷ ("MMENodeName", pointer)
    ∷ ("SGSNNumber", pointer)
    ∷ ("SGSNIdentifier", pointer)
    ∷ ("MMEIdentifier", pointer)
    ∷ ("CIoTOptimizationsSupportIndication", pointer)
    ∷ ("PrivateExtension", pointer)
    ∷ ("AdditionalIEs", slice)
    ∷ []

-- The fields in the order of MarshalTo.
abbrev pub items : List Item
items =
    write "IMSI"
    ∷ write "GUTI"
    ∷ write "RAI"
    ∷ write "PTMSI"
    ∷ write "PTMSISignature"
    ∷ write "CompleteTAURequestMessage"
    ∷ write "AddressAndTEIDForCPlane"
    ∷ write "UDPSourcePortNumber"
    ∷ write "RATType"
    ∷ write "Indication"
    ∷ write "HopCounter"
    ∷ write "TargetPLMNID"
    ∷ write "MMESGSNLDN"
    ∷ write "SGSNNodeName"
    ∷ write "MMENodeName"
    ∷ write "SGSNNumber"
    ∷ write "SGSNIdentifier"
    ∷ write "MMEIdentifier"
    ∷ write "CIoTOptimizationsSupportIndication"
    ∷ write "PrivateExtension"
    ∷ write "AdditionalIEs"
    ∷ []

-- The fields in the order of MarshalLen.
abbrev pub counts : List String
counts =
    "IMSI" ∷ "GUTI" ∷ "RAI" ∷ "PTMSI" ∷ "PTMSISignature" ∷ "CompleteTAURequestMessage"
    ∷ "AddressAndTEIDForCPlane" ∷ "UDPSourcePortNumber" ∷ "RATType" ∷ "Indication" ∷ "HopCounter"
    ∷ "TargetPLMNID" ∷ "MMESGSNLDN" ∷ "SGSNNodeName" ∷ "MMENodeName" ∷ "SGSNNumber"
    ∷ "SGSNIdentifier" ∷ "MMEIdentifier" ∷ "CIoTOptimizationsSupportIndication" ∷ "PrivateExtension"
    ∷ "AdditionalIEs" ∷ []

-- The cases of the constructor.
abbrev pub new_rules : Rules
new_rules = record {
  cases =
      (Types.imsi, always (set "IMSI"))
      ∷ (Types.guti, always (set "GUTI"))
      ∷ (Types.user_location_information, always (set "RAI"))
      ∷ (Types.packet_tmsi, always (set "PTMSI"))
      ∷ (Types.ptmsi_signature, always (set "PTMSISignature"))
      ∷ (Types.complete_request_message, always (set "CompleteTAURequestMessage"))
      ∷ (Types.fully_qualified_teid, always (set "AddressAndTEIDForCPlane"))
      ∷ (Types.port_number, always (set "UDPSourcePortNumber"))
      ∷ (Types.rat_type, always (set "RATType"))
      ∷ (Types.indication, always (set "Indication"))
      ∷ (Types.hop_counter, always (set "HopCounter"))
      ∷ (Types.serving_network, always (set "TargetPLMNID"))
      ∷ (Types.local_distinguished_name, always (set "MMESGSNLDN"))
      ∷ (
        Types.fully_qualified_domain_name,
        by_instance ((0, set "SGSNNodeName") ∷ (1, set "MMENodeName") ∷ [])
            (append "AdditionalIEs"),
      )
      ∷ (Types.node_number, always (set "SGSNNumber"))
      ∷ (
        Types.node_identifier,
        by_instance ((0, set "SGSNIdentifier") ∷ (1, set "MMEIdentifier") ∷ [])
            (append "AdditionalIEs"),
      )
      ∷ (
        Types.ciot_optimizations_support_indication,
        always (set "CIoTOptimizationsSupportIndication"),
      )
      ∷ (Types.private_extension, always (set "PrivateExtension"))
      ∷ [];
  otherwise = append "AdditionalIEs";
}

-- The cases of UnmarshalBinary.
abbrev pub parse_rules : Rules
parse_rules = record {
  cases =
      (Types.imsi, always (set "IMSI"))
      ∷ (Types.guti, always (set "GUTI"))
      ∷ (Types.user_location_information, always (set "RAI"))
      ∷ (Types.packet_tmsi, always (set "PTMSI"))
      ∷ (Types.ptmsi_signature, always (set "PTMSISignature"))
      ∷ (Types.complete_request_message, always (set "CompleteTAURequestMessage"))
      ∷ (Types.fully_qualified_teid, always (set "AddressAndTEIDForCPlane"))
      ∷ (Types.port_number, always (set "UDPSourcePortNumber"))
      ∷ (Types.rat_type, always (set "RATType"))
      ∷ (Types.indication, always (set "Indication"))
      ∷ (Types.hop_counter, always (set "HopCounter"))
      ∷ (Types.serving_network, always (set "TargetPLMNID"))
      ∷ (Types.local_distinguished_name, always (set "MMESGSNLDN"))
      ∷ (
        Types.fully_qualified_domain_name,
        by_instance ((0, set "SGSNNodeName") ∷ (1, set "MMENodeName") ∷ [])
            (append "AdditionalIEs"),
      )
      ∷ (Types.node_number, always (set "SGSNNumber"))
      ∷ (
        Types.node_identifier,
        by_instance ((0, set "SGSNIdentifier") ∷ (1, set "MMEIdentifier") ∷ [])
            (append "AdditionalIEs"),
      )
      ∷ (
        Types.ciot_optimizations_support_indication,
        always (set "CIoTOptimizationsSupportIndication"),
      )
      ∷ (Types.private_extension, always (set "PrivateExtension"))
      ∷ [];
  otherwise = append "AdditionalIEs";
}

-- MsgTypeContextRequest
abbrev pub code : ℕ
code = 130

abbrev pub layout : Layout
layout = record {
  struct = struct;
  new_rules = new_rules;
  checks = false;
  resets = true;
  items = items;
  least = 2;
  parse_rules = parse_rules;
  counts = counts;
}

unfoldable pub new : ℕ → ℕ → List Ie → Message gtpv2
unfolding new_message
new teid seq is = new_message 1 code layout teid seq is

unfoldable pub set_length : Message gtpv2 → Message gtpv2
unfolding Message.set_length
set_length m = Message.set_length gtpv2 layout m

unfoldable pub marshal : Message gtpv2 → Outcome Bytes
unfolding Message.marshal
marshal m = Message.marshal gtpv2 layout m

unfoldable pub parse : Bytes → Outcome (Message gtpv2)
unfolding Message.parse
parse b = Message.parse gtpv2 layout b

pub context_request-IsConsistent : IsConsistent layout
context_request-IsConsistent = record {
  same_rules = refl;
  same_order = refl;
  routed = refl;
  complete = refl;
  once = refl;
  least_two = omega arith;
}

-- ===== src/Gtpv2/Message/ContextAcknowledge.antt =====
-- gtpv2/message/context-ack.go: the fields and the functions of ContextAcknowledge.
use Prim.Native.String.{String}
use go_gtp.Common.{ℕ, List, [], ◌∷◌, false, true, refl, arith}
use go_gtp.Common.Outcome.{Outcome}
use go_gtp.Common.Bytes.{Bytes}
use go_gtp.Message
use go_gtp.Message.{
  FieldType, pointer, slice, Rules, always, by_instance, set, append, Item, write, Layout, Message,
}
use go_gtp.Message.RoundTrip.{IsConsistent}
use go_gtp.Gtpv2.Ie.Types
use go_gtp.Gtpv2.Ie.{Ie}
use go_gtp.Gtpv2.Message.{gtpv2, new_message}

-- The fields of the struct.
abbrev pub struct : List (String × FieldType)
struct =
    ("Cause", pointer)
    ∷ ("IndicationFlags", pointer)
    ∷ ("ForwardingFTEID", pointer)
    ∷ ("BearerContexts", pointer)
    ∷ ("SGSNNumber", pointer)
    ∷ ("MMENumberForMTSMS", pointer)
    ∷ ("SGSNIdentifierForMTSMS", pointer)
    ∷ ("MMEIdentifierForMTSMS", pointer)
    ∷ ("PrivateExtension", pointer)
    ∷ ("AdditionalIEs", slice)
    ∷ []

-- The fields in the order of MarshalTo.
abbrev pub items : List Item
items =
    write "Cause"
    ∷ write "IndicationFlags"
    ∷ write "ForwardingFTEID"
    ∷ write "BearerContexts"
    ∷ write "SGSNNumber"
    ∷ write "MMENumberForMTSMS"
    ∷ write "SGSNIdentifierForMTSMS"
    ∷ write "MMEIdentifierForMTSMS"
    ∷ write "PrivateExtension"
    ∷ write "AdditionalIEs"
    ∷ []

-- The fields in the order of MarshalLen.
abbrev pub counts : List String
counts =
    "Cause" ∷ "IndicationFlags" ∷ "ForwardingFTEID" ∷ "BearerContexts" ∷ "SGSNNumber"
    ∷ "MMENumberForMTSMS" ∷ "SGSNIdentifierForMTSMS" ∷ "MMEIdentifierForMTSMS" ∷ "PrivateExtension"
    ∷ "AdditionalIEs" ∷ []

-- The cases of the constructor.
abbrev pub new_rules : Rules
new_rules = record {
  cases =
      (Types.cause, always (set "Cause"))
      ∷ (Types.indication, always (set "IndicationFlags"))
      ∷ (Types.fully_qualified_teid, always (set "ForwardingFTEID"))
      ∷ (Types.bearer_context, always (set "BearerContexts"))
      ∷ (
        Types.node_number,
        by_instance ((0, set "SGSNNumber") ∷ (1, set "MMENumberForMTSMS") ∷ [])
            (append "AdditionalIEs"),
      )
      ∷ (
        Types.node_identifier,
        by_instance ((0, set "SGSNIdentifierForMTSMS") ∷ (1, set "MMEIdentifierForMTSMS") ∷ [])
            (append "AdditionalIEs"),
      )
      ∷ (Types.private_extension, always (set "PrivateExtension"))
      ∷ [];
  otherwise = append "AdditionalIEs";
}

-- The cases of UnmarshalBinary.
abbrev pub parse_rules : Rules
parse_rules = record {
  cases =
      (Types.cause, always (set "Cause"))
      ∷ (Types.indication, always (set "IndicationFlags"))
      ∷ (Types.fully_qualified_teid, always (set "ForwardingFTEID"))
      ∷ (Types.bearer_context, always (set "BearerContexts"))
      ∷ (
        Types.node_number,
        by_instance ((0, set "SGSNNumber") ∷ (1, set "MMENumberForMTSMS") ∷ [])
            (append "AdditionalIEs"),
      )
      ∷ (
        Types.node_identifier,
        by_instance ((0, set "SGSNIdentifierForMTSMS") ∷ (1, set "MMEIdentifierForMTSMS") ∷ [])
            (append "AdditionalIEs"),
      )
      ∷ (Types.private_extension, always (set "PrivateExtension"))
      ∷ [];
  otherwise = append "AdditionalIEs";
}

-- MsgTypeContextAcknowledge
abbrev pub code : ℕ
code = 132

abbrev pub layout : Layout
layout = record {
  struct = struct;
  new_rules = new_rules;
  checks = false;
  resets = true;
  items = items;
  least = 2;
  parse_rules = parse_rules;
  counts = counts;
}

unfoldable pub new : ℕ → ℕ → List Ie → Message gtpv2
unfolding new_message
new teid seq is = new_message 1 code layout teid seq is

unfoldable pub set_length : Message gtpv2 → Message gtpv2
unfolding Message.set_length
set_length m = Message.set_length gtpv2 layout m

unfoldable pub marshal : Message gtpv2 → Outcome Bytes
unfolding Message.marshal
marshal m = Message.marshal gtpv2 layout m

unfoldable pub parse : Bytes → Outcome (Message gtpv2)
unfolding Message.parse
parse b = Message.parse gtpv2 layout b

pub context_acknowledge-IsConsistent : IsConsistent layout
context_acknowledge-IsConsistent = record {
  same_rules = refl;
  same_order = refl;
  routed = refl;
  complete = refl;
  once = refl;
  least_two = omega arith;
}

-- ===== src/Gtpv2/Message/ModifyBearerFailureIndication.antt =====
-- gtpv2/message/modify-bearer-failure-indication.go: the fields and the functions of ModifyBearerFailureIndication.
use Prim.Native.String.{String}
use go_gtp.Common.{ℕ, List, [], ◌∷◌, false, true, refl, arith}
use go_gtp.Common.Outcome.{Outcome}
use go_gtp.Common.Bytes.{Bytes}
use go_gtp.Message
use go_gtp.Message.{
  FieldType, pointer, slice, Rules, always, by_instance, set, append, drop, Item, write, Layout,
  Message,
}
use go_gtp.Message.RoundTrip.{IsConsistent}
use go_gtp.Gtpv2.Ie.Types
use go_gtp.Gtpv2.Ie.{Ie}
use go_gtp.Gtpv2.Message.{gtpv2, new_message}

-- The fields of the struct.
abbrev pub struct : List (String × FieldType)
struct =
    ("Cause", pointer)
    ∷ ("Recovery", pointer)
    ∷ ("IndicationFlags", pointer)
    ∷ ("PGWOverloadControlInformation", pointer)
    ∷ ("SGWOverloadControlInformation", pointer)
    ∷ ("PrivateExtension", pointer)
    ∷ ("AdditionalIEs", slice)
    ∷ []

-- The fields in the order of MarshalTo.
abbrev pub items : List Item
items =
    write "Cause"
    ∷ write "Recovery"
    ∷ write "IndicationFlags"
    ∷ write "PGWOverloadControlInformation"
    ∷ write "SGWOverloadControlInformation"
    ∷ write "PrivateExtension"
    ∷ write "AdditionalIEs"
    ∷ []

-- The fields in the order of MarshalLen.
abbrev pub counts : List String
counts =
    "Cause" ∷ "Recovery" ∷ "IndicationFlags" ∷ "PGWOverloadControlInformation"
    ∷ "SGWOverloadControlInformation" ∷ "PrivateExtension" ∷ "AdditionalIEs" ∷ []

-- The cases of the constructor.
abbrev pub new_rules : Rules
new_rules = record {
  cases =
      (Types.cause, always (set "Cause"))
      ∷ (Types.recovery, always (set "Recovery"))
      ∷ (Types.indication, always (set "IndicationFlags"))
      ∷ (
        Types.overload_control_information,
        by_instance
            ((0, set "PGWOverloadControlInformation")
              ∷ (1, set "SGWOverloadControlInformation")
              ∷ [])
            drop,
      )
      ∷ (Types.private_extension, always (set "PrivateExtension"))
      ∷ [];
  otherwise = append "AdditionalIEs";
}

-- The cases of UnmarshalBinary.
abbrev pub parse_rules : Rules
parse_rules = record {
  cases =
      (Types.cause, always (set "Cause"))
      ∷ (Types.recovery, always (set "Recovery"))
      ∷ (Types.indication, always (set "IndicationFlags"))
      ∷ (
        Types.overload_control_information,
        by_instance
            ((0, set "PGWOverloadControlInformation")
              ∷ (1, set "SGWOverloadControlInformation")
              ∷ [])
            drop,
      )
      ∷ (Types.private_extension, always (set "PrivateExtension"))
      ∷ [];
  otherwise = append "AdditionalIEs";
}

-- MsgTypeModifyBearerFailureIndication
abbrev pub code : ℕ
code = 65

abbrev pub layout : Layout
layout = record {
  struct = struct;
  new_rules = new_rules;
  checks = false;
  resets = true;
  items = items;
  least = 2;
  parse_rules = parse_rules;
  counts = counts;
}

unfoldable pub new : ℕ → ℕ → List Ie → Message gtpv2
unfolding new_message
new teid seq is = new_message 1 code layout teid seq is

unfoldable pub set_length : Message gtpv2 → Message gtpv2
unfolding Message.set_length
set_length m = Message.set_length gtpv2 layout m

unfoldable pub marshal : Message gtpv2 → Outcome Bytes
unfolding Message.marshal
marshal m = Message.marshal gtpv2 layout m

unfoldable pub parse : Bytes → Outcome (Message gtpv2)
unfolding Message.parse
parse b = Message.parse gtpv2 layout b

pub modify_bearer_failure_indication-IsConsistent : IsConsistent layout
modify_bearer_failure_indication-IsConsistent = record {
  same_rules = refl;
  same_order = refl;
  routed = refl;
  complete = refl;
  once = refl;
  least_two = omega arith;
}

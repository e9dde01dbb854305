-- ===== src/Gtpv0/Message/DeletePdpContextRequest.antt =====
-- gtpv0/message/delete-pdp-context-req.go: the fields and the functions of DeletePDPContextRequest.
use Prim.Native.String.{String}
use go_gtp.Common.{ℕ, List, [], ◌∷◌, false, true, refl, arith}
use go_gtp.Common.Outcome.{Outcome}
use go_gtp.Common.Bytes.{Bytes}
use go_gtp.Message
use go_gtp.Message.{
  FieldType, pointer, slice, Rules, always, set, append, Item, write, Layout, Message,
}
use go_gtp.Message.RoundTrip.{IsConsistent}
use go_gtp.Gtpv0.Ie.Types
use go_gtp.Tlv.{Ie}
use go_gtp.Gtpv0.Message.{gtpv0, new_message}

-- The fields of the struct.
abbrev pub struct : List (String × FieldType)
struct = ("PrivateExtension", pointer) ∷ ("AdditionalIEs", slice) ∷ []

-- The fields in the order of MarshalTo.
abbrev pub items : List Item
items = write "PrivateExtension" ∷ write "AdditionalIEs" ∷ []

-- The fields in the order of MarshalLen.
abbrev pub counts : List String
counts = "PrivateExtension" ∷ "AdditionalIEs" ∷ []

-- The cases of the constructor.
abbrev pub new_rules : Rules
new_rules = record {
  cases = (Types.private_extension, always (set "PrivateExtension")) ∷ [];
  otherwise = append "AdditionalIEs";
}

-- The cases of UnmarshalBinary.
abbrev pub parse_rules : Rules
parse_rules = record {
  cases = (Types.private_extension, always (set "PrivateExtension")) ∷ [];
  otherwise = append "AdditionalIEs";
}

-- MsgTypeDeletePDPContextRequest
abbrev pub code : ℕ
code = 20

abbrev pub layout : Layout
layout = record {
  struct = struct;
  new_rules = new_rules;
  checks = false;
  resets = true;
  items = items;
  least = 2;
  parse_rules = parse_rules;
  counts = counts;
}

unfoldable pub new : ℕ → ℕ → ℕ → List Ie → Message gtpv0
unfolding new_message
new seq label tid is = new_message code layout seq label tid is

unfoldable pub set_length : Message gtpv0 → Message gtpv0
unfolding Message.set_length
set_length m = Message.set_length gtpv0 layout m

unfoldable pub marshal : Message gtpv0 → Outcome Bytes
unfolding Message.marshal
marshal m = Message.marshal gtpv0 layout m

unfoldable pub parse : Bytes → Outcome (Message gtpv0)
unfolding Message.parse
parse b = Message.parse gtpv0 layout b

-- The layout is consistent.
pub delete_pdp_context_request-IsConsistent : IsConsistent layout
delete_pdp_context_request-IsConsistent = record {
  same_rules = refl;
  same_order = refl;
  routed = refl;
  complete = refl;
  once = refl;
  least_two = omega arith;
}

-- ===== src/Gtpv2/Message/Generic.antt =====
-- gtpv2/message/generic.go: a message of any type, with its elements in one slice.
use go_gtp.Common.{ℕ, List, [], ◌∷◌, ◌++◌, false, true, refl, arith}
use go_gtp.Message
use go_gtp.Message.{slice, append, write, Rules, Layout, Message}
use go_gtp.Message.RoundTrip.{IsConsistent}
use go_gtp.Gtpv2.Ie.{Ie}
use go_gtp.Gtpv2.Header.{new_header, new_header_flags}
use go_gtp.Gtpv2.Message.{gtpv2, new_message}

-- The elements as they come.
abbrev pub rules : Rules
rules = record { cases = []; otherwise = append "IEs" }

abbrev pub layout : Layout
layout = record {
  struct = ("IEs", slice) ∷ [];
  new_rules = rules;
  checks = false;
  resets = true;
  items = write "IEs" ∷ [];
  least = 2;
  parse_rules = rules;
  counts = "IEs" ∷ [];
}

-- `NewGeneric`
unfoldable pub new : ℕ → ℕ → ℕ → List Ie → Message gtpv2
unfolding new_message
new code teid seq is = new_message 1 code layout teid seq is

-- `NewGenericWithoutTEID`, which leaves the length of the header alone.
unfoldable pub new_without_teid : ℕ → ℕ → ℕ → List Ie → Message gtpv2
unfolding new_header
new_without_teid code teid seq is = record {
  header = new_header (new_header_flags 2 0 0) code teid seq [];
  fields = Message.assign gtpv2 "IEs" is (Message.blank gtpv2);
}

-- `SetLength`
unfoldable pub set_length : Message gtpv2 → Message gtpv2
unfolding Message.set_length
set_length m = Message.set_length gtpv2 layout m

-- `AddIE`
unfoldable pub add_ie : List Ie → Message gtpv2 → Message gtpv2
unfolding set_length
add_ie is m =
    let all = m.fields "IEs" ++ is in
    set_length (record m { fields = Message.assign gtpv2 "IEs" all m.fields })

pub generic-IsConsistent : IsConsistent layout
generic-IsConsistent = record {
  same_rules = refl;
  same_order = refl;
  routed = refl;
  complete = refl;
  once = refl;
  least_two = omega arith;
}

-- ===== src/Gtpv0/Message/Generic.antt =====
-- gtpv0/message/generic.go: a message of any type, with its elements in one slice.
use go_gtp.Common.{ℕ, List, [], ◌∷◌, ◌++◌, false, true, refl, arith}
use go_gtp.Message
use go_gtp.Message.{slice, append, write, Rules, Layout, Message}
use go_gtp.Message.RoundTrip.{IsConsistent}
use go_gtp.Tlv.{Ie}
use go_gtp.Gtpv0.Message.{gtpv0, new_message}

abbrev pub rules : Rules
rules = record { cases = []; otherwise = append "IEs" }

abbrev pub layout : Layout
layout = record {
  struct = ("IEs", slice) ∷ [];
  new_rules = rules;
  checks = false;
  resets = true;
  items = write "IEs" ∷ [];
  least = 2;
  parse_rules = rules;
  counts = "IEs" ∷ [];
}

-- `NewGeneric`
unfoldable pub new : ℕ → ℕ → ℕ → ℕ → List Ie → Message gtpv0
unfolding new_message
new code seq label tid is = new_message code layout seq label tid is

-- `SetLength`
unfoldable pub set_length : Message gtpv0 → Message gtpv0
unfolding Message.set_length
set_length m = Message.set_length gtpv0 layout m

-- `AddIE`
unfoldable pub add_ie : List Ie → Message gtpv0 → Message gtpv0
unfolding set_length
add_ie is m =
    let all = m.fields "IEs" ++ is in
    set_length (record m { fields = Message.assign gtpv0 "IEs" all m.fields })

pub generic-IsConsistent : IsConsistent layout
generic-IsConsistent = record {
  same_rules = refl;
  same_order = refl;
  routed = refl;
  complete = refl;
  once = refl;
  least_two = omega arith;
}

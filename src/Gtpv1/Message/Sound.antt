-- ===== src/Gtpv1/Message/Sound.antt =====
-- Parse of gtpv1/message on any octets.
use go_gtp.Common.{
  ℕ, ◌≤◌, Bool, true, false, List, [], ◌∷◌, ◌==◌, if◌then◌else◌, ◌≡◌, ◌≢◌, refl, subst, inl, inr,
  Bool-cases, All, All-left, All-right, length, arith,
}
use go_gtp.Common.Outcome.{Outcome, ok, err, panic, stuck, ◌>>=◌, Ensures}
use go_gtp.Common.Bytes.{Bytes, IsByte, index}
use go_gtp.Message
use go_gtp.Message.{Layout, Message, blank, slices}
use go_gtp.Message.Collect.{cases_pass}
use go_gtp.Message.Room.{action_fills, HasRoom, collect-HasRoom}
use go_gtp.Message.Sound.{HoldsWf, parse-Good}
use go_gtp.Tlv.{Ie}
use go_gtp.Tlv.Decode.{IsWf}
use go_gtp.Tlv.RoundTrip.{ReadsAll}
use go_gtp.Gtpv1.Ie.{
  tv_length_map, tv_length_map-IsTvTable, parse_multi_ies, parse_multi_ies_sound_v1,
}
use go_gtp.Gtpv1.Header.{Header, parse_header}
use go_gtp.Gtpv1.Header.Parse.{Cuts, parse_header_sound_v1}
use go_gtp.Gtpv1.Tpdu.{parse_tpdu}
use go_gtp.Gtpv1.Message.{gtpv1}
use go_gtp.Gtpv1.Message.Dispatch.{
  Parsed, user_packet, signalling, layouts, select, layout_of, unmarshal, parse,
}

listed :
    (b : Bytes) (m : Outcome (List Ie))
    → Ensures (ReadsAll tv_length_map tv_length_map-IsTvTable b) m
    → Ensures (All (IsWf tv_length_map)) m
listed b (ok is) (w, e) = w
listed b (err x) h = tt
listed b panic h = h
listed b stuck h = h

elements_sound :
    (b : Bytes) → All IsByte b → Ensures (All (IsWf tv_length_map)) (gtpv1.parse_elements b)
unfolding parse_multi_ies
elements_sound b w = listed b (parse_multi_ies b) (parse_multi_ies_sound_v1 b w)

octets_kept :
    (b : Bytes) (m : Outcome Header)
    → All IsByte b
    → Ensures (Cuts b) m
    → Ensures (λ h. All IsByte h.payload) m
octets_kept b (ok h) w (pre, rest, e, n) =
    All-left IsByte h.payload rest (All-right IsByte pre _ (subst (All IsByte) e w))
octets_kept b (err x) w h = tt
octets_kept b panic w h = h
octets_kept b stuck w h = h

abbrev fits : Layout → Bool
fits l =
    cases_pass (action_fills (slices l.struct) l.counts) l.parse_rules.cases l.parse_rules.otherwise

abbrev all_fit : List (ℕ × Layout) → Bool
all_fit [] = true
all_fit ((c, l) ∷ ls) = if fits l then all_fit ls else false

layouts_fit : all_fit layouts ≡ true
layouts_fit = refl

both : (a b : Bool) → (if a then b else false) ≡ true → (a ≡ true) × (b ≡ true)
both true b h = (refl, h)
both false b h = cc

select-fits : (ls : List (ℕ × Layout)) (code : ℕ) → all_fit ls ≡ true → fits (select ls code) ≡ true
select-fits [] code h = refl
select-fits ((c, l) ∷ ls) code h =
    let (now, later) = both (fits l) (all_fit ls) h in
    elim (Bool-cases (c == code)) [ inl e ↦ rw e now | inr e ↦ rw e (select-fits ls code later) ]

layout_of-fits : (code : ℕ) → fits (layout_of code) ≡ true
unfolding layout_of
layout_of-fits code = select-fits layouts code layouts_fit

-- A T-PDU holds octets; the elements of any other message are well formed, and lie in fields of its
-- struct that have room for them.
abbrev pub IsTyped : Parsed → Type 0
IsTyped (user_packet t) = All IsByte t.payload
IsTyped (signalling l m) =
    HoldsWf gtpv1 (IsWf tv_length_map) m × HasRoom (slices l.struct) l.counts gtpv1 m.fields

packed :
    (m : Outcome Header)
    → Ensures (λ h. All IsByte h.payload) m
    → Ensures IsTyped (m >>= λ t. ok (user_packet t))
packed (ok t) h = h
packed (err e) h = tt
packed panic h = h
packed stuck h = h

parsed :
    (l : Layout) (m : Outcome (Message gtpv1))
    → Ensures
        (λ r.
          HoldsWf gtpv1 (IsWf tv_length_map) r × HasRoom (slices l.struct) l.counts gtpv1 r.fields)
        m
    → Ensures IsTyped (m >>= λ x. ok (signalling l x))
parsed l (ok x) h = h
parsed l (err e) h = tt
parsed l panic h = h
parsed l stuck h = h

message-IsTyped :
    (l : Layout) (b : Bytes)
    → Ensures (λ h. All IsByte h.payload) (parse_header b)
    → fits l ≡ true
    → Ensures IsTyped (Message.parse gtpv1 l b >>= λ m. ok (signalling l m))
message-IsTyped l b read e = parsed l (Message.parse gtpv1 l b) (
    parse-Good gtpv1 (IsWf tv_length_map) elements_sound l
      (HasRoom (slices l.struct) l.counts gtpv1)
      (λ is.
        collect-HasRoom (slices l.struct) l.counts gtpv1 l.parse_rules is (blank gtpv1) e
          (λ f. (λ _. omega arith, λ _. refl)))
      b read)

unmarshal-IsTyped :
    (b : Bytes) (code : ℕ) → All IsByte b → length b ≢ 11 → Ensures IsTyped (unmarshal code b)
unfolding parse_tpdu
unmarshal-IsTyped b code w n =
    let read = octets_kept b (parse_header b) w (parse_header_sound_v1 b n) in
    elim (Bool-cases (code == 255)) [
      | inl e ↦ rw e (packed (parse_header b) read)
      | inr e ↦ rw e (message-IsTyped (layout_of code) b read (layout_of-fits code))
    ]

-- On two octets or more, but not eleven, Parse returns: with an error, with a T-PDU whose payload is
-- of octets, or with a message whose elements are well formed and lie in fields that have room for
-- them.
pub parse-IsTyped_v1 :
    (b : Bytes) → All IsByte b → 2 ≤ length b → length b ≢ 11 → Ensures IsTyped (parse b)
unfolding parse index
parse-IsTyped_v1 [] w h n = absurd (omega arith)
parse-IsTyped_v1 (x ∷ []) w h n = absurd (omega arith)
parse-IsTyped_v1 (x ∷ code ∷ b) w h n = unmarshal-IsTyped (x ∷ code ∷ b) code w n

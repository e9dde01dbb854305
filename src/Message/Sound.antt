-- ===== src/Message/Sound.antt =====
-- UnmarshalBinary of the messages of gtpv0/message, gtpv1/message and gtpv2/message on any octets.
use Prim.Native.String.{String}
use go_gtp.Common.{true, List, [], if◌then◌else◌, ◌≡◌, All, Bool-cases, inl, inr, ltb, length}
use go_gtp.Common.Outcome.{Outcome, ok, err, panic, stuck, ◌>>=◌, Ensures}
use go_gtp.Common.Bytes.{Bytes, IsByte}
use go_gtp.Message.{Layout, Protocol, Message, Fields, blank, collect, slices, parse}
use go_gtp.Message.Collect.{cases_fit, HasShape, blank-HasShape, collect-HasShape, collect-AllHeld}

-- The elements of every field are well formed.
abbrev pub HoldsWf : (p : Protocol) → (p.Ie → Type 0) → Message p → Type 0
HoldsWf p IsWf m = (f : String) → All IsWf (m.fields f)

-- The fields hold what the struct has room for, each element in a field of its type.
abbrev pub FitsStruct : (p : Protocol) → Layout → Message p → Type 0
FitsStruct p l m = HasShape (slices l.struct) l.counts p l.parse_rules m.fields

-- UnmarshalBinary behind the header.
abbrev pub rest_of : (p : Protocol) → Layout → p.Header → Outcome (Message p)
rest_of p l h =
    let read = (do
      is ← p.parse_elements (p.payload_of h)
      ok (record { header = h; fields = collect p l.parse_rules is (blank p) })) in
    if ltb (length (p.payload_of h)) l.least
    then ok (record { header = h; fields = blank p })
    else read

module _ (p : Protocol) (IsWf : p.Ie → Type 0)
    (elements_sound : (b : Bytes) → All IsByte b → Ensures (All IsWf) (p.parse_elements b))
    (l : Layout) (Good : Fields p → Type 0)
    (good : (is : List p.Ie) → Good (collect p l.parse_rules is (blank p))) where
  fill_fields :
      (h : p.Header) (m : Outcome (List p.Ie))
      → Ensures (All IsWf) m
      → Ensures
          (λ r. HoldsWf p IsWf r × Good r.fields)
          (m >>= λ is. ok (record { header = h; fields = collect p l.parse_rules is (blank p) }))
  fill_fields h (ok is) w = (collect-AllHeld p IsWf l.parse_rules is (blank p) w (λ f. tt), good is)
  fill_fields h (err e) w = tt
  fill_fields h panic w = w
  fill_fields h stuck w = w

  no_elements : Good (blank p)
  unfolding collect
  no_elements = good []

  behind_header :
      (m : Outcome p.Header)
      → Ensures (λ h. All IsByte (p.payload_of h)) m
      → Ensures (λ r. HoldsWf p IsWf r × Good r.fields) (m >>= rest_of p l)
  behind_header (ok h) w = elim (Bool-cases (ltb (length (p.payload_of h)) l.least)) [
    | inl e ↦ rw (e, Ensures) (λ f. tt, no_elements)
    | inr e ↦
        rw (e, Ensures)
          (fill_fields h (p.parse_elements (p.payload_of h)) (elements_sound (p.payload_of h) w))
  ]
  behind_header (err e) w = tt
  behind_header panic w = w
  behind_header stuck w = w

  -- If the loop fills fields of a property, and the header is read with octets for its payload, then
  -- UnmarshalBinary returns: with an error, or with well-formed elements in fields of that property.
  pub parse-Good :
      (b : Bytes)
      → Ensures (λ h. All IsByte (p.payload_of h)) (p.parse_header b)
      → Ensures (λ r. HoldsWf p IsWf r × Good r.fields) (parse p l b)
  unfolding parse collect
  parse-Good b read = behind_header (p.parse_header b) read

-- The same of the fields that fit the struct, if the cases of the layout pass the check.
pub parse-FitsStruct :
    (p : Protocol) (IsWf : p.Ie → Type 0)
    → ((b : Bytes) → All IsByte b → Ensures (All IsWf) (p.parse_elements b))
    → (l : Layout) (b : Bytes) → Ensures (λ h. All IsByte (p.payload_of h)) (p.parse_header b)
    → cases_fit (slices l.struct) l.counts l.parse_rules.cases l.parse_rules.otherwise ≡ true
    → Ensures (λ r. HoldsWf p IsWf r × FitsStruct p l r) (parse p l b)
parse-FitsStruct p IsWf elements_sound l b read fits =
    let many = slices l.struct in
    parse-Good p IsWf elements_sound l (HasShape many l.counts p l.parse_rules)
      (λ is.
        collect-HasShape many l.counts p l.parse_rules is (blank p) fits
          (blank-HasShape many l.counts p l.parse_rules))
      b read

-- ===== src/Gtpv2/Message/Sound.antt =====
-- Parse of gtpv2/message on any octets.
use go_gtp.Common.{
  ℕ, ◌<◌, Bool, true, false, ◌||◌, List, [], ◌∷◌, ◌==◌, ==_iff, if◌then◌else◌, ◌≡◌, refl, subst,
  inl, inr, Bool-cases, All, All-left, All-right, length, arith,
}
use go_gtp.Common.Outcome.{Outcome, ok, err, panic, stuck, ◌>>=◌, Ensures, fmap}
use go_gtp.Common.Bytes.{Bytes, IsByte, index}
use go_gtp.Message
use go_gtp.Message.{Layout, Message, slices}
use go_gtp.Message.Collect.{cases_fit}
use go_gtp.Message.Sound.{HoldsWf, FitsStruct, parse-FitsStruct}
use go_gtp.Gtpv2.Ie.{Ies, nil, cons, parse_multi_ies}
use go_gtp.Gtpv2.Ie.Wire
use go_gtp.Gtpv2.Ie.Wire.{IsWf}
use go_gtp.Gtpv2.Ie.Decode.{ReadsAll, parse_multi_ies_sound}
use go_gtp.Gtpv2.Header.{Header, parse_header}
use go_gtp.Gtpv2.Header.Codec.{wire, head}
use go_gtp.Gtpv2.Header.Sound.{Reads, parse_header_sound}
use go_gtp.Gtpv2.Message.{gtpv2, to_list}
use go_gtp.Gtpv2.Message.Dispatch.{Kind, Parsed, kinds, select, kind_of, parse}

All-to_list : (is : Ies) → Wire.AllWf is → All IsWf (to_list is)
All-to_list nil w = tt
All-to_list (cons i is) (w, ws) = (w, All-to_list is ws)

listed :
    (b : Bytes) (m : Outcome Ies) → Ensures (ReadsAll b) m → Ensures (All IsWf) (fmap to_list m)
listed b (ok is) (w, e) = All-to_list is w
listed b (err x) h = tt
listed b panic h = h
listed b stuck h = h

octets_kept :
    (b : Bytes) (m : Outcome Header)
    → All IsByte b
    → Ensures (Reads b) m
    → Ensures (λ h. All IsByte h.payload) m
octets_kept b (ok h) w (rest, e) =
    All-right IsByte (head h) h.payload (All-left IsByte (wire h) rest (subst (All IsByte) e w))
octets_kept b (err x) w h = tt
octets_kept b panic w h = h
octets_kept b stuck w h = h

elements_sound : (b : Bytes) → All IsByte b → Ensures (All IsWf) (fmap to_list (parse_multi_ies b))
elements_sound b w = listed b (parse_multi_ies b) (parse_multi_ies_sound b w)

header_sound : (b : Bytes) → All IsByte b → Ensures (λ h. All IsByte h.payload) (parse_header b)
header_sound b w = octets_kept b (parse_header b) w (parse_header_sound b w)

abbrev fits : Kind → Bool
fits k =
    cases_fit (slices k.layout.struct) k.layout.counts k.layout.parse_rules.cases
      k.layout.parse_rules.otherwise

-- All but ContextResponse.
abbrev all_fit : List (ℕ × Kind) → Bool
all_fit [] = true
all_fit ((c, k) ∷ ks) = if c == 131 || fits k then all_fit ks else false

kinds_fit : all_fit kinds ≡ true
kinds_fit = refl

one_fits :
    (c code : ℕ) (k : Kind)
    → (c == 131 || fits k) ≡ true
    → c ≡ code
    → (code == 131) ≡ false
    → fits k ≡ true
one_fits c code k h e ne = elim (Bool-cases (fits k)) [
  | inl yes' ↦ yes'
  | inr no' ↦ absurd (ground arith)
]

both : (a b : Bool) → (if a then b else false) ≡ true → (a ≡ true) × (b ≡ true)
both true b h = (refl, h)
both false b h = cc

select-fits :
    (ks : List (ℕ × Kind)) (code : ℕ)
    → all_fit ks ≡ true
    → (code == 131) ≡ false
    → fits (select ks code) ≡ true
select-fits [] code h ne = refl
select-fits ((c, k) ∷ ks) code h ne =
    let (now, later) = both (c == 131 || fits k) (all_fit ks) h in
    elim (Bool-cases (c == code)) [
      | inl e ↦ rw e (one_fits c code k now ((==_iff c code).0 e) ne)
      | inr e ↦ rw e (select-fits ks code later ne)
    ]

kind_of-fits : (code : ℕ) → (code == 131) ≡ false → fits (kind_of code) ≡ true
unfolding kind_of
kind_of-fits code ne = select-fits kinds code kinds_fit ne

-- The elements are well formed, and lie in fields of the message's struct that have room for them.
abbrev pub IsTyped : Parsed → Type 0
IsTyped r = HoldsWf gtpv2 IsWf r.message × FitsStruct gtpv2 r.kind.layout r.message

parsed :
    (k : Kind) (m : Outcome (Message gtpv2))
    → Ensures (λ r. HoldsWf gtpv2 IsWf r × FitsStruct gtpv2 k.layout r) m
    → Ensures IsTyped (m >>= λ x. ok (record { kind = k; message = x }))
parsed k (ok x) h = h
parsed k (err e) h = tt
parsed k panic h = h
parsed k stuck h = h

-- On any octets of which the second is not 131, the code of ContextResponse, Parse returns: with an
-- error, or with a message whose elements are well formed and lie in fields that have room for them.
pub parse-IsTyped :
    (b : Bytes) (code : ℕ)
    → All IsByte b
    → index b 1 ≡ ok code
    → (code == 131) ≡ false
    → Ensures IsTyped (parse b)
unfolding parse
parse-IsTyped b code w e ne =
    let k = kind_of code in
    rw e (
      parsed k (Message.parse gtpv2 k.layout b) (
        parse-FitsStruct gtpv2 IsWf elements_sound k.layout b (header_sound b w)
          (kind_of-fits code ne)))

-- Parse panics on fewer than two octets.
pub parse-panic : (b : Bytes) → length b < 2 → parse b ≡ panic
unfolding parse index
parse-panic [] h = refl
parse-panic (x ∷ []) h = refl
parse-panic (x ∷ y ∷ b) h = absurd (omega arith)

-- ===== src/Gtpv2/Ie/Group/Laws.antt =====
-- Add, Remove, FindByType and newGroupedIE of gtpv2/ie/ie.go on well-formed elements.
use go_gtp.Common.{
  ℕ, ◌+◌, ◌%◌, ◌^◌, ◌<◌, ◌≡◌, inl, inr, refl, ◌∙◌, true, [], ◌++◌, append_assoc, append-nil, arith,
  length, All, All-append, Bool-cases,
}
use go_gtp.Common.Outcome.{ok}
use go_gtp.Common.Bytes.{Bytes, IsByte}
use go_gtp.Gtpv2.Ie.{
  Ie, ie, Ies, nil, cons, type_of, children, is_grouped, marshal_len, marshal_lens,
}
use go_gtp.Gtpv2.Ie.Wire.{wire, wires, length-wires, IsWf, AllWf}
use go_gtp.Gtpv2.Ie.Encode.{marshal-wire}
use go_gtp.Gtpv2.Ie.RoundTrip.{body_grouped}
use go_gtp.Gtpv2.Ie.Group.{append_ies, serialize, serialize_all, add, new_grouped}

serialize-wires : (cs : Ies) (p : Bytes) → serialize cs p ≡ ok (p ++ wires cs)
unfolding serialize wire
serialize-wires nil p = rw (append-nil p)
serialize-wires (cons c cs) p =
    rw (marshal-wire c) (serialize-wires cs (p ++ wire c) ∙ rw (append_assoc p (wire c)) refl)

serialize_all-wires : (cs : Ies) (p : Bytes) → serialize_all cs p ≡ ok (p ++ wires cs)
unfolding serialize_all wire
serialize_all-wires nil p = rw (append-nil p)
serialize_all-wires (cons c cs) p =
    rw (marshal-wire c) (serialize_all-wires cs (p ++ wire c) ∙ rw (append_assoc p (wire c)) refl)

AllWf-append_ies : (cs js : Ies) → AllWf cs → AllWf js → AllWf (append_ies cs js)
unfolding append_ies
AllWf-append_ies nil js wc wj = wj
AllWf-append_ies (cons c cs) js (w, wc) wj = (w, AllWf-append_ies cs js wc wj)

marshal_lens-append_ies :
    (cs js : Ies) → marshal_lens (append_ies cs js) ≡ marshal_lens cs + marshal_lens js
unfolding append_ies marshal_len
marshal_lens-append_ies nil js = omega arith
marshal_lens-append_ies (cons c cs) js = omega (arith, marshal_lens-append_ies cs js)

mutual
  unfolding wire

  wire-IsByte : (i : Ie) → IsWf i → All IsByte (wire i)
  wire-IsByte (ie t l n p cs) (wt, wl, wr, wn, wp, wb) = elim (Bool-cases (is_grouped t)) [
    | inl g ↦
        rw g (wt, (omega arith, (omega arith, (wn, wires-IsByte cs (body_grouped t p cs g wb).1))))
    | inr g ↦ rw g (wt, (omega arith, (omega arith, (wn, wp))))
  ]

  wires-IsByte : (cs : Ies) → AllWf cs → All IsByte (wires cs)
  wires-IsByte nil w = tt
  wires-IsByte (cons c cs) (w, ws) =
      All-append IsByte (wire c) (wires cs) (wire-IsByte c w, wires-IsByte cs ws)

-- What Add, Remove and newGroupedIE build: a grouped element over the given children.
abbrev pub rebuilt : ℕ → ℕ → Ies → Ie
rebuilt t n cs = ie t (length (wires cs) % 2 ^ 16) n (wires cs) cs

pub rebuilt-IsWf :
    (t n : ℕ) (cs : Ies)
    → is_grouped t ≡ true
    → t < 256
    → n < 256
    → AllWf cs
    → marshal_lens cs < 2 ^ 16
    → IsWf (rebuilt t n cs)
rebuilt-IsWf t n cs g ht hn w h =
    rw g (ht, omega (arith, length-wires cs), omega arith, hn, wires-IsByte cs w, (refl, w))

add-rebuilt :
    (t l n : ℕ) (p : Bytes) (cs ies : Ies)
    → is_grouped t ≡ true
    → add ies (ie t l n p cs) ≡ ok (rebuilt t n (append_ies cs ies))
unfolding add
add-rebuilt t l n p cs ies g = rw (g, serialize-wires (append_ies cs ies) []) refl

-- On a grouped element Add returns an element with the given children behind the old ones, and
-- keeps it well formed as long as the children's octets fit the length field.
pub add-IsWf :
    (ies : Ies) (i : Ie)
    → is_grouped (type_of i) ≡ true
    → IsWf i
    → AllWf ies
    → marshal_lens (children i) + marshal_lens ies < 2 ^ 16
    → (j : Ie) × (add ies i ≡ ok j) × IsWf j × (children j ≡ append_ies (children i) ies)
add-IsWf ies (ie t l n p cs) g (wt, wl, wr, wn, wp, wb) ws h = (
  rebuilt t n (append_ies cs ies),
  add-rebuilt t l n p cs ies g,
  rebuilt-IsWf t n (append_ies cs ies) g wt wn
      (AllWf-append_ies cs ies (body_grouped t p cs g wb).1 ws)
      (omega (arith, marshal_lens-append_ies cs ies)),
  refl,
)

-- newGroupedIE of a grouped type succeeds and is well formed, if the children are and their octets
-- fit the length field.
pub new_grouped-IsWf :
    (itype : ℕ) (ies : Ies)
    → is_grouped itype ≡ true
    → itype < 256
    → AllWf ies
    → marshal_lens ies < 2 ^ 16
    → (j : Ie) × (new_grouped itype ies ≡ ok j) × IsWf j × (children j ≡ ies)
unfolding new_grouped
new_grouped-IsWf itype ies g ht ws h = (
  rebuilt itype 0 ies,
  rw (serialize_all-wires ies [], g) (rw g refl),
  rebuilt-IsWf itype 0 ies g ht (omega arith) ws h,
  refl,
)

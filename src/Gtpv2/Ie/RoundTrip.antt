-- ===== src/Gtpv2/Ie/RoundTrip.antt =====
-- Decoding what was encoded.
use go_gtp.Common.{
  ℕ, zero, suc, ◌+◌, ◌≤◌, ◌<◌, ◌≡◌, refl, sym, ap, subst, ◌∙◌, true, false, [], ◌∷◌, ◌++◌,
  append-nil, arith, length, length-append, Bool-cases, inl, inr,
}
use go_gtp.Common.Outcome.{Outcome, ok, ◌>>=◌}
use go_gtp.Common.Bytes.{Bytes, from, from-append}
use go_gtp.Common.Endian.{be16_value}
use go_gtp.Gtpv2.Ie.{
  Ie, ie, Ies, nil, cons, is_grouped, marshal_len, marshal, unmarshal, parse_multi, parse,
  parse_multi_ies,
}
use go_gtp.Gtpv2.Ie.Wire.{wire, wires, length-wire, IsWf, AllWf, IsBody}
use go_gtp.Gtpv2.Ie.Encode.{four_le-marshal_len, marshal-wire}
use go_gtp.Gtpv2.Ie.Decode.{unmarshal-head, finish}

-- One round of the loop, on an element and what lies behind it.
parse_multi-cons :
    (f : ℕ) (b : Bytes) (i : Ie) (rest : Bytes)
    → b ≡ wire i ++ rest
    → 0 < length b
    → unmarshal f b ≡ ok i
    → parse_multi (suc f) b ≡ (parse_multi f rest >>= λ is. ok (cons i is))
unfolding parse_multi
parse_multi-cons f [] i rest e pos u = absurd (omega arith)
parse_multi-cons f (x ∷ b) i rest e pos u =
    let cut : from (x ∷ b) (marshal_len i) ≡ ok rest =
      rw (e, ← length-wire i) (from-append (wire i) rest) in
    rw (u, cut) refl

parse_multi-nil : (f : ℕ) → parse_multi (suc f) [] ≡ ok nil
unfolding parse_multi
parse_multi-nil f = refl

wire_pos : (i : Ie) (rest : Bytes) → 4 ≤ length (wire i ++ rest)
wire_pos i rest = omega (arith, length-append (wire i) rest, length-wire i, four_le-marshal_len i)

finish_grouped :
    (f t l n : ℕ) (p : Bytes) (cs : Ies)
    → is_grouped t ≡ true
    → parse_multi f p ≡ ok cs
    → finish f t l n p ≡ ok (ie t l n p cs)
finish_grouped f t l n p cs g e = rw (g, finish) (rw e refl)

finish_flat :
    (f t l n : ℕ) (p : Bytes) → is_grouped t ≡ false → finish f t l n p ≡ ok (ie t l n p nil)
finish_flat f t l n p g = rw (g, finish) refl

pub body_grouped :
    (t : ℕ) (p : Bytes) (cs : Ies)
    → is_grouped t ≡ true
    → IsBody (is_grouped t) p cs (AllWf cs)
    → (p ≡ wires cs) × AllWf cs
body_grouped t p cs g wb = subst (λ x. IsBody x p cs (AllWf cs)) g wb

pub body_flat :
    (t : ℕ) (p : Bytes) (cs : Ies)
    → is_grouped t ≡ false
    → IsBody (is_grouped t) p cs (AllWf cs)
    → cs ≡ nil
body_flat t p cs g wb = subst (λ x. IsBody x p cs (AllWf cs)) g wb

mutual
  unfolding wire

  decode_wire :
      (i : Ie) (f : ℕ) (rest : Bytes)
      → IsWf i
      → length (wire i ++ rest) ≤ f
      → unmarshal f (wire i ++ rest) ≡ ok i
  decode_wire (ie t l n p cs) zero rest w h = absurd (omega arith)
  decode_wire (ie t l n p cs) (suc f) rest (wt, wl, wr, wn, wp, wb) h =
      elim (Bool-cases (is_grouped t)) [
        | inl g ↦
            let (ep, ws) = body_grouped t p cs g wb in
            let enough : length (wires cs) < f =
              ground (arith, h, g, length-append (wires cs) rest) in
            rw g (
              unmarshal-head f t _ _ n l (wires cs) rest (be16_value l wr) (sym (wl ∙ ap length ep))
              ∙ finish_grouped f t l n (wires cs) cs g (decode_wires cs f ws enough)
              ∙ ap (λ (q : Bytes). ok (ie t l n q cs)) (sym ep))
        | inr g ↦ rw g (
            unmarshal-head f t _ _ n l p rest (be16_value l wr) (sym wl)
            ∙ finish_flat f t l n p g
            ∙ ap (λ (x : Ies). ok (ie t l n p x)) (sym (body_flat t p cs g wb)))
      ]

  decode_wires :
      (cs : Ies) (f : ℕ) → AllWf cs → length (wires cs) < f → parse_multi f (wires cs) ≡ ok cs
  decode_wires nil zero w h = absurd (omega arith)
  decode_wires nil (suc f) w h = parse_multi-nil f
  decode_wires (cons c cs) zero w h = absurd (omega arith)
  decode_wires (cons c cs) (suc f) (wc, ws) h =
      parse_multi-cons f (wire c ++ wires cs) c (wires cs) refl
        (omega (arith, wire_pos c (wires cs))) (decode_wire c f (wires cs) wc (omega arith))
      ∙ ap (λ (m : Outcome Ies). m >>= λ is. ok (cons c is))
          (decode_wires cs f ws (
            omega (arith, length-append (wire c) (wires cs), length-wire c, four_le-marshal_len c)))

-- Parse reads back a well-formed element, whatever follows it in the packet.
pub parse-wire : (i : Ie) (rest : Bytes) → IsWf i → parse (wire i ++ rest) ≡ ok i
unfolding parse
parse-wire i rest w = decode_wire i (length (wire i ++ rest) + 1) rest w (omega arith)

-- Marshal of a well-formed element returns octets of which Parse makes the same element.
pub parse-marshal : (i : Ie) → IsWf i → (marshal i >>= λ b. parse b) ≡ ok i
parse-marshal i w = rw (marshal-wire i) (ap parse (sym (append-nil (wire i))) ∙ parse-wire i [] w)

-- ParseMultiIEs reads back the elements of a sequence, in their order.
pub parse_multi_ies-wires : (cs : Ies) → AllWf cs → parse_multi_ies (wires cs) ≡ ok cs
unfolding parse_multi_ies
parse_multi_ies-wires cs w = decode_wires cs (length (wires cs) + 1) w (omega arith)

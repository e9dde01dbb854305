-- ===== src/Gtpv2/Ie/Encode.antt =====
-- MarshalTo and Marshal of gtpv2/ie/ie.go against the wire format.
use go_gtp.Common.{
  ℕ, suc, ◌+◌, ◌/◌, ◌%◌, ◌≤◌, ◌≡◌, ◌∙◌, refl, true, false, [], ◌∷◌, ◌++◌, arith, length,
  length-append, drop, drop_exact, drop_add, length-drop, append_assoc, append-nil, Bool-cases, inl,
  inr, le→ltb, length-replicate,
}
use go_gtp.Common.Outcome.{ok}
use go_gtp.Common.Bytes.{Bytes, slice, put, slice_behind, put-append, copy_at_fit, make}
use go_gtp.Gtpv2.Ie.{
  Ie, ie, Ies, nil, cons, is_grouped, marshal_len, marshal_lens, marshal_to, marshal_children,
  marshal,
}
use go_gtp.Gtpv2.Ie.Wire.{wire, wires, length-wire}

-- Every element has a four-octet head.
pub four_le-marshal_len : (i : Ie) → 4 ≤ marshal_len i
unfolding marshal_len
four_le-marshal_len (ie t l n p cs) = ground arith

-- The four octets of the head, in place.
abbrev head : ℕ → ℕ → ℕ → Bytes
head t l n = t ∷ l / 256 % 256 ∷ l % 256 ∷ n ∷ []

marshal_to-grouped :
    (t l n : ℕ) (p : Bytes) (cs : Ies) (x0 x1 x2 x3 : ℕ) (r : Bytes)
    → is_grouped t ≡ true
    → marshal_to (ie t l n p cs) (x0 ∷ x1 ∷ x2 ∷ x3 ∷ r)
      ≡ marshal_children cs 4 (4 + length r) (head t l n ++ r)
unfolding marshal_to put
marshal_to-grouped t l n p cs x0 x1 x2 x3 r g =
    let e : 4 + length r ≡ suc (suc (suc (suc (length r)))) = omega arith in
    rw (le→ltb (suc (suc (suc (suc (length r))))) 4 (omega arith), g, e) refl

marshal_to-flat :
    (t l n : ℕ) (p : Bytes) (cs : Ies) (x0 x1 x2 x3 : ℕ) (r : Bytes)
    → is_grouped t ≡ false
    → length p ≤ length r
    → marshal_to (ie t l n p cs) (x0 ∷ x1 ∷ x2 ∷ x3 ∷ r)
      ≡ ok (head t l n ++ (p ++ drop (length p) r))
unfolding marshal_to marshal_len put
marshal_to-flat t l n p cs x0 x1 x2 x3 r g h =
    rw
      (
        le→ltb (suc (suc (suc (suc (length r))))) 4 (omega arith),
        g,
        le→ltb (suc (suc (suc (suc (length r))))) (4 + length p) (omega arith),
      )
      (copy_at_fit (head t l n) r p 4 (4 + length p) refl refl h)

-- One round of the loop over the children.
marshal_children-cons :
    (c : Ie) (cs : Ies) (offset l : ℕ) (b sub written b' : Bytes)
    → offset + marshal_len c ≤ l
    → slice b offset (offset + marshal_len c) ≡ ok sub
    → marshal_to c sub ≡ ok written
    → put b offset written ≡ ok b'
    → marshal_children (cons c cs) offset l b ≡ marshal_children cs (offset + marshal_len c) l b'
unfolding marshal_children
marshal_children-cons c cs offset l b sub written b' fits es ew ep =
    rw (le→ltb l (offset + marshal_len c) fits, es, ew, ep) refl

marshal_children-nil : (offset l : ℕ) (b : Bytes) → marshal_children nil offset l b ≡ ok b
unfolding marshal_children
marshal_children-nil offset l b = refl

four_add : (n : ℕ) → 4 + n ≡ suc (suc (suc (suc n)))
four_add n = omega arith

mutual
  unfolding wire marshal_len

  -- On a buffer that is long enough MarshalTo writes the octets and keeps what lies behind them.
  write_wire :
      (i : Ie) (b : Bytes)
      → marshal_len i ≤ length b
      → marshal_to i b ≡ ok (wire i ++ drop (marshal_len i) b)
  write_wire (ie t l n p cs) [] h = absurd (omega (arith, four_le-marshal_len (ie t l n p cs)))
  write_wire (ie t l n p cs) (x0 ∷ []) h =
      absurd (omega (arith, four_le-marshal_len (ie t l n p cs)))
  write_wire (ie t l n p cs) (x0 ∷ x1 ∷ []) h =
      absurd (omega (arith, four_le-marshal_len (ie t l n p cs)))
  write_wire (ie t l n p cs) (x0 ∷ x1 ∷ x2 ∷ []) h =
      absurd (omega (arith, four_le-marshal_len (ie t l n p cs)))
  write_wire (ie t l n p cs) (x0 ∷ x1 ∷ x2 ∷ x3 ∷ r) h = elim (Bool-cases (is_grouped t)) [
    | inl g ↦
        marshal_to-grouped t l n p cs x0 x1 x2 x3 r g
        ∙ rw (g, four_add (marshal_lens cs))
            (write_wires cs (head t l n) r 4 (4 + length r) refl refl (ground arith))
    | inr g ↦
        marshal_to-flat t l n p cs x0 x1 x2 x3 r g (ground arith) ∙ rw (g, four_add (length p)) refl
  ]

  write_wires :
      (cs : Ies) (pre rest : Bytes) (offset l : ℕ)
      → offset ≡ length pre
      → l ≡ length pre + length rest
      → marshal_lens cs ≤ length rest
      → marshal_children cs offset l (pre ++ rest)
        ≡ ok (pre ++ (wires cs ++ drop (marshal_lens cs) rest))
  write_wires nil pre rest offset l ho hl h = marshal_children-nil offset l (pre ++ rest)
  write_wires (cons c cs) pre rest offset l ho hl h =
      let (sub, es, ls) =
        slice_behind pre rest offset (offset + marshal_len c) (marshal_len c) ho refl
          (omega arith) in
      let m = marshal_len c in
      let w = wire c in
      let ew : marshal_to c sub ≡ ok w =
        write_wire c sub (omega arith) ∙ rw (drop_exact sub m ls, append-nil w) in
      let ep : put (pre ++ rest) offset w ≡ ok ((pre ++ w) ++ drop m rest) =
        rw
          (
            ho,
            put-append pre rest w (omega (arith, length-wire c)),
            length-wire c,
            append_assoc pre w (drop m rest),
          )
          refl in
      marshal_children-cons c cs offset l (pre ++ rest) sub w _ (omega arith) es ew ep
      ∙ write_wires cs (pre ++ w) (drop m rest) (offset + m) l
          (omega (arith, length-append pre w, length-wire c))
          (omega (arith, length-append pre w, length-wire c, length-drop m rest))
          (omega (arith, length-drop m rest))
      ∙ rw (append_assoc pre w, append_assoc w (wires cs), drop_add m (marshal_lens cs) rest) refl

-- On a buffer that is long enough MarshalTo succeeds, writes the octets of the element at its front
-- and leaves what lies behind them as it was.
pub marshal_to-wire :
    (i : Ie) (b : Bytes)
    → marshal_len i ≤ length b
    → marshal_to i b ≡ ok (wire i ++ drop (marshal_len i) b)
marshal_to-wire = write_wire

-- Marshal succeeds on every element and returns its octets.
pub marshal-wire : (i : Ie) → marshal i ≡ ok (wire i)
unfolding marshal
marshal-wire i =
    let len = marshal_len i in
    let e : length (make len) ≡ len = length-replicate len 0 in
    marshal_to-wire i (make len) (omega arith)
    ∙ rw (drop_exact (make len) len e, append-nil (wire i))

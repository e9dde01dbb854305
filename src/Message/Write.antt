-- ===== src/Message/Write.antt =====
-- MarshalLen, MarshalTo and Marshal of the messages of gtpv0/message, gtpv1/message and
-- gtpv2/message, over the laws that a version's elements and header have.
use Prim.Native.String.{String}
use go_gtp.Common.{
  ℕ, ◌+◌, ◌≤◌, List, [], ◌∷◌, ◌++◌, append_assoc, append-nil, map, ◌≡◌, refl, sym, ap, ◌∙◌, All,
  length, length-append, length-replicate, drop, drop_exact, drop_add, length-drop, arith,
}
use go_gtp.Common.Outcome.{ok}
use go_gtp.Common.Bytes.{Bytes, make, put, from-append, put-append}
use go_gtp.Message.{
  Item, write, Layout, Protocol, Fields, Message, elements_len, fields_len, marshal_len,
  write_elements, write_items,
}

-- The octets of elements, one behind the other.
abbrev pub octets {ℓ} : {A : Type ℓ} → (A → Bytes) → List A → Bytes
octets f [] = []
octets f (x ∷ xs) = f x ++ octets f xs

-- What a version's elements and its header do. `wire` and `head` are the octets of an element and
-- of the fixed part of a header; `ReadsBack` says of a header that its octets are parsed to it.
pub record Laws (p : Protocol) : Type 1 where
  pub IsWf : p.Ie → Type 0
  pub wire : p.Ie → Bytes
  pub head : p.Header → Bytes
  pub ReadsBack : p.Header → Type 0
  pub wire_len : (i : p.Ie) → IsWf i → length (wire i) ≡ p.element_len i
  pub two_octets : (i : p.Ie) → IsWf i → 2 ≤ p.element_len i
  pub element_written :
      (i : p.Ie) (b : Bytes)
      → IsWf i
      → p.element_len i ≤ length b
      → p.element_to i b ≡ ok (wire i ++ drop (p.element_len i) b)
  pub elements_read : (is : List p.Ie) → All IsWf is → p.parse_elements (octets wire is) ≡ ok is
  pub head_len : (h : p.Header) → p.header_len h ≡ length (head h) + length (p.payload_of h)
  pub head_same : (h : p.Header) (q : Bytes) → length (head (p.with_payload q h)) ≡ length (head h)
  pub length_same : (h : p.Header) → length (head (p.header_set_length h)) ≡ length (head h)
  pub payload_back : (h : p.Header) (q : Bytes) → p.payload_of (p.with_payload q h) ≡ q
  pub payload_twice :
      (h : p.Header) (q r : Bytes) → p.with_payload q (p.with_payload r h) ≡ p.with_payload q h
  pub payload_same : (h : p.Header) → p.payload_of (p.header_set_length h) ≡ p.payload_of h
  pub header_written :
      (h : p.Header) → p.header_to h (make (p.header_len h)) ≡ ok (head h ++ p.payload_of h)
  pub header_read : (h : p.Header) → ReadsBack h → p.parse_header (head h ++ p.payload_of h) ≡ ok h

module _ (p : Protocol) (laws : Laws p) where
  -- The octets of elements, and of fields in an order.
  abbrev pub wires : List p.Ie → Bytes
  wires is = octets laws.wire is

  abbrev pub body : List String → Fields p → Bytes
  body [] s = []
  body (f ∷ fs) s = wires (s f) ++ body fs s

  abbrev pub AllWf : Fields p → Type 0
  AllWf s = (f : String) → All laws.IsWf (s f)

  pub length-wires : (is : List p.Ie) → All laws.IsWf is → length (wires is) ≡ elements_len p is
  length-wires [] w = refl
  length-wires (i ∷ is) (w, ws) =
      omega (arith, length-append (laws.wire i) (wires is), laws.wire_len i w, length-wires is ws)

  pub length-body :
      (fs : List String) (s : Fields p) → AllWf s → length (body fs s) ≡ fields_len p fs s
  length-body [] s w = refl
  length-body (f ∷ fs) s w =
      omega (
        arith,
        length-append (wires (s f)) (body fs s),
        length-wires (s f) (w f),
        length-body fs s w,
      )

  -- The elements of a field are written behind what is written, and what lies behind them is kept.
  pub write_elements-wires :
      (is : List p.Ie) (pre rest : Bytes)
      → All laws.IsWf is
      → elements_len p is ≤ length rest
      → write_elements p is (length pre) (pre ++ rest)
        ≡ ok (length (pre ++ wires is), (pre ++ wires is) ++ drop (elements_len p is) rest)
  unfolding write_elements
  write_elements-wires [] pre rest w h = rw (append-nil pre) refl
  write_elements-wires (i ∷ is) pre rest (w, ws) h =
      let n = p.element_len i in
      let x = laws.wire i in
      let lx : length x ≡ n = laws.wire_len i w in
      let written = x ++ drop n rest in
      let lw : length written ≡ length rest =
        omega (arith, length-append x (drop n rest), length-drop n rest) in
      let stored : put (pre ++ rest) (length pre) written ≡ ok ((pre ++ x) ++ drop n rest) =
        put-append pre rest written (omega arith)
        ∙ rw
            (
              lw,
              drop_exact rest (length rest) refl,
              append-nil written,
              append_assoc pre x (drop n rest),
            )
            refl in
      let moved : length pre + n ≡ length (pre ++ x) = omega (arith, length-append pre x) in
      rw (from-append pre rest, laws.element_written i rest w (omega arith), stored, moved)
        (write_elements-wires is (pre ++ x) (drop n rest) ws (omega (arith, length-drop n rest))
          ∙ rw (append_assoc pre x (wires is), drop_add n (elements_len p is) rest) refl)

  -- Likewise the fields, in the order of MarshalTo, and then what comes behind them.
  pub write_items-fields :
      (fs : List String) (js : List Item) (s : Fields p) (pre rest : Bytes)
      → AllWf s
      → fields_len p fs s ≤ length rest
      → write_items p (map write fs ++ js) s (length pre) (pre ++ rest)
        ≡ write_items p js s
            (length (pre ++ body fs s))
            ((pre ++ body fs s) ++ drop (fields_len p fs s) rest)
  unfolding write_items
  write_items-fields [] js s pre rest w h = rw (append-nil pre) refl
  write_items-fields (f ∷ fs) js s pre rest w h =
      let n = elements_len p (s f) in
      rw (write_elements-wires (s f) pre rest (w f) (omega arith)) (
        write_items-fields fs js s (pre ++ wires (s f)) (drop n rest) w
          (omega (arith, length-drop n rest))
        ∙ rw (append_assoc pre (wires (s f)) (body fs s), drop_add n (fields_len p fs s) rest) refl)

  -- Into a buffer of their length.
  pub write_items-fresh :
      (fs : List String) (s : Fields p) (n : ℕ)
      → AllWf s
      → n ≡ fields_len p fs s
      → write_items p (map write fs) s 0 (make n) ≡ ok (body fs s)
  unfolding write_items
  write_items-fresh fs s n w e =
      let l : length (make n) ≡ n = length-replicate n 0 in
      ap (λ (x : List Item). write_items p x s 0 (make n)) (sym (append-nil (map write fs)))
      ∙ write_items-fields fs [] s [] (make n) w (omega arith)
      ∙ rw (drop_exact (make n) (fields_len p fs s) (omega arith), append-nil (body fs s)) refl

  -- MarshalLen counts the fixed part of the header and the elements of the fields.
  pub marshal_len_lem :
      (l : Layout) (m : Message p)
      → marshal_len p l m ≡ length (laws.head m.header) + fields_len p l.counts m.fields
  unfolding marshal_len
  marshal_len_lem l m = omega (arith, laws.head_len m.header)

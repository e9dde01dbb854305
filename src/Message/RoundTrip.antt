-- ===== src/Message/RoundTrip.antt =====
-- The messages of gtpv0/message, gtpv1/message and gtpv2/message through their constructor, Marshal
-- and UnmarshalBinary.
use Prim.Native.String.{String}
use go_gtp.Common.{
  ◌≤◌, ◌<◌, Bool, true, ◌&&◌, List, [], ◌∷◌, ◌++◌, append_assoc, map, ◌≡◌, inl, inr, refl, sym, ap,
  ◌∙◌, Bool-cases, All, All-append, length, length-append, ltb, ltb→lt, arith,
}
use go_gtp.Common.Outcome.{ok, ◌>>=◌}
use go_gtp.Common.Bytes.{Bytes}
use go_gtp.Message.{
  slices, FieldType, write, Layout, Rules, Protocol, Fields, blank, collect, set_length, new,
  marshal, parse,
}
use go_gtp.Message.Collect.{has, distinct, cases_fit, collect-AllHeld}
use go_gtp.Message.Stable.{flatten, collect-flatten}
use go_gtp.Message.Write.{Laws, wires, body, AllWf}
use go_gtp.Message.Marshal.{filled_header, IsFresh, marshal-wire_message}

-- Every field of the struct is among the names.
abbrev pub covers : List String → List (String × FieldType) → Bool
covers fs [] = true
covers fs ((f, t) ∷ rest) = has fs f && covers fs rest

-- The parts of a layout agree: the constructor and UnmarshalBinary have the same cases, MarshalTo
-- and MarshalLen the fields of the struct in the same order, each of them once, and each case sets a pointer
-- or appends to a slice of these.
pub record IsConsistent (l : Layout) : Type 0 where
  pub same_rules : l.new_rules ≡ l.parse_rules
  pub same_order : l.items ≡ map write l.counts
  pub routed :
      cases_fit (slices l.struct) l.counts l.parse_rules.cases l.parse_rules.otherwise ≡ true
  pub complete : covers l.counts l.struct ≡ true
  pub once : distinct l.counts ≡ true
  pub least_two : l.least ≤ 2

module _ (p : Protocol) (laws : Laws p) where
  body-flatten :
      (fs : List String) (s : Fields p) → body p laws fs s ≡ wires p laws (flatten p fs s)
  body-flatten [] s = refl
  body-flatten (f ∷ fs) s =
      ap (λ (b : Bytes). wires p laws (s f) ++ b) (body-flatten fs s)
      ∙ sym (wires-append (s f) (flatten p fs s))
    where
      wires-append :
          (xs ys : List p.Ie) → wires p laws (xs ++ ys) ≡ wires p laws xs ++ wires p laws ys
      wires-append [] ys = refl
      wires-append (x ∷ xs) ys =
          ap (λ (b : Bytes). laws.wire x ++ b) (wires-append xs ys)
          ∙ sym (append_assoc (laws.wire x) (wires p laws xs) (wires p laws ys))

  flatten-All : (fs : List String) (s : Fields p) → AllWf p laws s → All laws.IsWf (flatten p fs s)
  flatten-All [] s w = tt
  flatten-All (f ∷ fs) s w = All-append laws.IsWf (s f) (flatten p fs s) (w f, flatten-All fs s w)

  -- Fewer than two octets are no element.
  short : (is : List p.Ie) → All laws.IsWf is → length (wires p laws is) < 2 → is ≡ []
  short [] w h = refl
  short (i ∷ is) (w, ws) h = absurd (
      omega (
        arith,
        length-append (laws.wire i) (wires p laws is),
        laws.wire_len i w,
        laws.two_octets i w,
      ))

  -- UnmarshalBinary behind a header: the elements of its payload in the fields.
  parse-payload :
      (l : Layout) (b : Bytes) (h : p.Header) (is : List p.Ie)
      → p.parse_header b ≡ ok h
      → p.payload_of h ≡ wires p laws is
      → All laws.IsWf is
      → l.least ≤ 2
      → parse p l b ≡ ok (record { header = h; fields = collect p l.parse_rules is (blank p) })
  unfolding parse collect
  parse-payload l b h is eh ep w least =
      rw (eh, ep, laws.elements_read is w)
        (elim (Bool-cases (ltb (length (wires p laws is)) l.least)) [
          | inr e ↦ rw e refl
          | inl e ↦ rw e (
              ap
                (λ (x : List p.Ie).
                  ok (record { header = h; fields = collect p l.parse_rules x (blank p) }))
                (sym (short is w (omega (arith, ltb→lt _ _ e)))))
        ])

  -- The header that a message has once it is made and marshalled.
  abbrev pub sent_header : Layout → p.Header → List p.Ie → p.Header
  sent_header l h is = filled_header p laws l (new p l h is)

  -- If MarshalTo writes the fields that MarshalLen counts: a message of well-formed elements is
  -- marshalled, and UnmarshalBinary goes through the elements of its fields in this order, with the
  -- header that MarshalTo left, if that header is read back.
  pub parse-marshal_elements :
      (l : Layout) (h : p.Header) (is : List p.Ie)
      → l.items ≡ map write l.counts
      → l.least ≤ 2
      → All laws.IsWf is
      → IsFresh p laws l (new p l h is)
      → laws.ReadsBack (sent_header l h is)
      → (marshal p l (new p l h is) >>= λ b. parse p l b)
        ≡ ok (record {
          header = sent_header l h is;
          fields = collect p l.parse_rules (flatten p l.counts (new p l h is).fields) (blank p);
        })
  unfolding new set_length
  parse-marshal_elements l h is order least w fresh back =
      let m = new p l h is in
      let s = collect p l.new_rules is (blank p) in
      let all : AllWf p laws s = collect-AllHeld p laws.IsWf l.new_rules is (blank p) w (λ f. tt) in
      let es = flatten p l.counts s in
      let carried : p.payload_of (sent_header l h is) ≡ wires p laws es =
        laws.payload_same _ ∙ laws.payload_back _ _ ∙ body-flatten l.counts s in
      rw (marshal-wire_message p laws l m order all fresh) (
        parse-payload l _ (sent_header l h is) es
          (ap (λ (q : Bytes). p.parse_header (laws.head (sent_header l h is) ++ q))
              (sym (laws.payload_same _ ∙ laws.payload_back _ _))
            ∙ laws.header_read (sent_header l h is) back)
          carried (flatten-All l.counts s all) least)

  -- The fields of a message of a consistent layout, filled again from their own elements.
  pub collect-new_fields :
      (l : Layout) (h : p.Header) (is : List p.Ie)
      → IsConsistent l
      → collect p l.parse_rules (flatten p l.counts (new p l h is).fields) (blank p)
        ≡ (new p l h is).fields
  unfolding new set_length
  collect-new_fields l h is c =
      let r = l.parse_rules in
      let s = collect p l.new_rules is (blank p) in
      let eq : s ≡ collect p r is (blank p) =
        ap (λ (x : Rules). collect p x is (blank p)) c.same_rules in
      ap (λ (x : Fields p). collect p r (flatten p l.counts x) (blank p)) eq
      ∙ collect-flatten p r (slices l.struct) l.counts is c.routed c.once
      ∙ sym eq

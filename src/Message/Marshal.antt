-- ===== src/Message/Marshal.antt =====
-- MarshalTo and Marshal of the messages of gtpv0/message, gtpv1/message and gtpv2/message.
use go_gtp.Common.{
  ℕ, ◌+◌, ◌-◌, Bool, true, false, ◌&&◌, List, [], ◌++◌, map, if◌then◌else◌, ◌≡◌, ◌⊎◌, inl, inr,
  refl, sym, ap, ◌∙◌, Bool-cases, length, length-replicate, ltb, le→ltb, arith,
}
use go_gtp.Common.Outcome.{Outcome, ok, ◌>>=◌}
use go_gtp.Common.Bytes.{Bytes, make}
use go_gtp.Message.{
  Item, write, Layout, Protocol, Message, fields_len, marshal_len, write_items, cleared, fill,
  marshal_to, marshal,
}
use go_gtp.Message.Write.{Laws, body, AllWf, length-body, write_items-fresh, marshal_len_lem}

-- A check that passes is the same as none.
unchecked {ℓ} :
    {A : Type ℓ} (checks short : Bool) (e x : A)
    → short ≡ false
    → (if checks && short then e else x) ≡ x
unchecked true short e x h = rw h refl
unchecked false short e x h = refl

module _ (p : Protocol) (laws : Laws p) where
  -- The header that MarshalTo leaves in the message, for a payload.
  abbrev pub filled_with : Bytes → p.Header → p.Header
  filled_with q h = p.header_set_length (p.with_payload q h)

  filled_with-len :
      (q : Bytes) (h : p.Header) → p.header_len (filled_with q h) ≡ length (laws.head h) + length q
  filled_with-len q h = omega (
    arith,
    laws.head_len (filled_with q h),
    laws.length_same (p.with_payload q h),
    laws.head_same h q,
    ap length (laws.payload_same (p.with_payload q h)),
    ap length (laws.payload_back h q),
  )

  abbrev pub filled_header : Layout → Message p → p.Header
  filled_header l m = filled_with (body p laws l.counts m.fields) m.header

  pub filled_len :
      (l : Layout) (m : Message p)
      → AllWf p laws m.fields
      → p.header_len (filled_header l m) ≡ marshal_len p l m
  filled_len l m w = omega (
    arith,
    filled_with-len (body p laws l.counts m.fields) m.header,
    length-body p laws l.counts m.fields w,
    marshal_len_lem p laws l m,
  )

  -- MarshalTo behind its check and its reset, where the fields give a payload of the length that
  -- MarshalLen counts.
  fill-payload :
      (l : Layout) (m : Message p) (n : ℕ) (q : Bytes)
      → write_items p l.items m.fields 0 (make (fields_len p l.counts m.fields)) ≡ ok q
      → length q ≡ fields_len p l.counts m.fields
      → p.payload_of m.header ≡ []
      → n ≡ marshal_len p l m
      → fill p l m (make n)
        ≡ ok (record m { header = filled_with q m.header }, laws.head (filled_with q m.header) ++ q)
  unfolding marshal_len
  fill-payload l m n q written lq none' e =
      let size = p.header_len m.header in
      let s : size ≡ length (laws.head m.header) =
        omega (arith, laws.head_len m.header, ap length none') in
      let total = marshal_len_lem p laws l m in
      let k : n ≡ p.header_len (filled_with q m.header) =
        omega (arith, filled_with-len q m.header) in
      let count : marshal_len p l m - size ≡ fields_len p l.counts m.fields = omega arith in
      let carried : p.payload_of (filled_with q m.header) ≡ q =
        laws.payload_same (p.with_payload q m.header) ∙ laws.payload_back m.header q in
      rw
        (
          le→ltb (marshal_len p l m) size (omega arith),
          count,
          written,
          k,
          laws.header_written (filled_with q m.header),
          carried,
        )
        refl

  cleared_len : (l : Layout) (m : Message p) → marshal_len p l (cleared p l m) ≡ marshal_len p l m
  unfolding marshal_len
  cleared_len l m = elim (Bool-cases l.resets) [
    | inl e ↦ rw e (
        omega (
          arith,
          marshal_len_lem p laws l (record m { header = p.with_payload [] m.header }),
          marshal_len_lem p laws l m,
          laws.head_same m.header [],
        ))
    | inr e ↦ rw e refl
  ]

  cleared_header :
      (l : Layout) (m : Message p) (q : Bytes)
      → filled_with q (cleared p l m).header ≡ filled_with q m.header
  cleared_header l m q = elim (Bool-cases l.resets) [
    | inl e ↦ rw e (ap p.header_set_length (laws.payload_twice m.header q []))
    | inr e ↦ rw e refl
  ]

  -- The message has no payload when MarshalTo comes to make one.
  abbrev pub IsFresh : Layout → Message p → Type 0
  IsFresh l m = (l.resets ≡ true) ⊎ (p.payload_of m.header ≡ [])

  fresh : (l : Layout) (m : Message p) → IsFresh l m → p.payload_of (cleared p l m).header ≡ []
  fresh l m (inl e) = rw e (laws.payload_back m.header [])
  fresh l m (inr e) = elim (Bool-cases l.resets) [
    | inl e' ↦ rw e' (laws.payload_back m.header [])
    | inr e' ↦ rw e' e
  ]

  cleared_fields : (l : Layout) (m : Message p) → (cleared p l m).fields ≡ m.fields
  cleared_fields l m = elim (Bool-cases l.resets) [ inl e ↦ rw e refl | inr e ↦ rw e refl ]

  -- Where the fields give a payload of the length that MarshalLen counts, Marshal of a fresh message
  -- succeeds and returns the header with this payload.
  pub marshal-payload :
      (l : Layout) (m : Message p) (q : Bytes)
      → write_items p l.items m.fields 0 (make (fields_len p l.counts m.fields)) ≡ ok q
      → length q ≡ fields_len p l.counts m.fields
      → IsFresh l m
      → marshal p l m ≡ ok (laws.head (filled_with q m.header) ++ q)
  unfolding marshal marshal_to
  marshal-payload l m q written lq f =
      let n = marshal_len p l m in
      let same = cleared_fields l m in
      let first =
        fill-payload l (cleared p l m) n q (rw same written) (lq ∙ rw same refl) (fresh l m f)
          (sym (cleared_len l m)) in
      ap (λ (o : Outcome (Message p × Bytes)). o >>= λ r. ok r.1)
        (unchecked l.checks (ltb (length (make n)) n) _ (fill p l (cleared p l m) (make n))
            (le→ltb _ n (omega (arith, length-replicate {A = ℕ} n 0)))
          ∙ first)
      ∙ rw (cleared_header l m q) refl

  abbrev pub wire_message : Layout → Message p → Bytes
  wire_message l m = laws.head (filled_header l m) ++ body p laws l.counts m.fields

  -- If MarshalTo writes the fields that MarshalLen counts, Marshal succeeds on a fresh message of
  -- well-formed elements, and returns the header and the elements of the fields in that order.
  pub marshal-wire_message :
      (l : Layout) (m : Message p)
      → l.items ≡ map write l.counts
      → AllWf p laws m.fields
      → IsFresh l m
      → marshal p l m ≡ ok (wire_message l m)
  marshal-wire_message l m plain w f =
      let n = fields_len p l.counts m.fields in
      marshal-payload l m (body p laws l.counts m.fields)
        (ap (λ (x : List Item). write_items p x m.fields 0 (make n)) plain
          ∙ write_items-fresh p laws l.counts m.fields n w refl)
        (length-body p laws l.counts m.fields w) f

-- ===== src/Tlv/Decode.antt =====
-- UnmarshalBinary of gtpv0/ie and gtpv1/ie on octets.
use go_gtp.Common.{
  ℕ, suc, ◌+◌, ◌*◌, ◌/◌, ◌%◌, ◌^◌, ◌<◌, ◌≤◌, ◌≡◌, ap, sym, ◌∙◌, refl, Bool, true, false, [], ◌∷◌,
  ◌++◌, Option, none, some, arith, length, length-append, All, if◌then◌else◌, Bool-cases,
  Option-cases, inl, inr, leb, ltb→le, le→leb, lt→leb, leb→le, leb→lt,
}
use go_gtp.Common.Outcome.{ok, err, Ensures, invalid_length}
use go_gtp.Common.Bytes.{Bytes, IsByte, slice_mid, index, split_at}
use go_gtp.Common.Endian.{be16, uint16_at}
use go_gtp.Tlv.{Ie, ie, is_tv, serial_len, marshal_len, parse, decode_tv, decode_tlv}
use go_gtp.Tlv.Encode.{IsTvTable}

-- What the decoder makes: a TV element has no length and the payload of the table, or none where
-- the table does not have its type; a TLV element counts its payload.
abbrev pub Form : Bool → Option ℕ → Ie → Type 0
Form true (some l) i = (length i.payload ≡ l) × (i.size ≡ 0)
Form true none i = (i.payload ≡ []) × (i.size ≡ 0)
Form false o i = (o ≡ none) × (i.size ≡ length i.payload) × (i.size < 2 ^ 16)

abbrev pub wire : Ie → Bytes
wire i = if is_tv i.kind then i.kind ∷ i.payload else (i.kind ∷ (be16 i.size ++ i.payload))

nil_of : (p : Bytes) → length p ≡ 0 → p ≡ []
nil_of [] e = refl
nil_of (x ∷ p) e = absurd (omega arith)

wire_tv : (t : ℕ) (p : Bytes) → is_tv t ≡ true → wire (ie t 0 p) ≡ t ∷ p
wire_tv t p tv = rw tv refl

wire_tlv : (t l : ℕ) (p : Bytes) → is_tv t ≡ false → wire (ie t l p) ≡ t ∷ (be16 l ++ p)
wire_tlv t l p tlv = rw tlv refl

-- `marshal_len`, from the two answers that it depends on.
length-Form :
    (v : Bool) (o : Option ℕ) (i : Ie)
    → Form v o i
    → is_tv i.kind ≡ v
    → length (wire i) ≡ serial_len o i.kind i.payload
length-Form true (some l) i (el, ez) tv = rw tv (omega (arith, el))
length-Form true none i (ep, ez) tv = rw tv (omega arith)
length-Form false (some l) i (eo, ez, lt) tlv = cc
length-Form false none i (eo, ez, lt) tlv = rw tlv (omega arith)

module _ (table : ℕ → Option ℕ) where
  abbrev pub IsWf : Ie → Type 0
  IsWf i = Form (is_tv i.kind) (table i.kind) i

  pub parse_tv :
      (t x l : ℕ) (r p rest : Bytes)
      → is_tv t ≡ true
      → serial_len (table t) t [] ≡ suc l
      → x ∷ r ≡ p ++ rest
      → length p ≡ l
      → parse table (t ∷ x ∷ r) ≡ ok (ie t 0 p)
  unfolding parse index decode_tv
  parse_tv t x l r p rest tv len e lp =
      let room : suc l ≤ suc (suc (length r)) = omega (arith, ap length e, length-append p rest) in
      rw
        (
          le→leb 2 (suc (suc (length r))) (omega arith),
          tv,
          le→leb 2 (suc (suc (length r))) (omega arith),
          len,
          le→leb (suc l) (suc (suc (length r))) room,
          e,
          slice_mid (t ∷ []) p rest 1 (suc l) refl (omega arith),
        )
        refl

  pub parse_tlv :
      (t hi lo : ℕ) (p rest : Bytes)
      → is_tv t ≡ false
      → length p ≡ hi * 256 + lo
      → parse table (t ∷ hi ∷ lo ∷ (p ++ rest)) ≡ ok (ie t (hi * 256 + lo) p)
  unfolding parse index uint16_at decode_tlv
  parse_tlv t hi lo p rest tlv lp =
      let n = length (p ++ rest) in
      rw
        (
          le→leb 2 (suc (suc (suc n))) (omega arith),
          tlv,
          le→leb 3 (suc (suc (suc n))) (omega arith),
          le→leb (hi * 256 + lo + 3) (suc (suc (suc n))) (omega (arith, length-append p rest)),
          slice_mid (t ∷ hi ∷ lo ∷ []) p rest 3 (3 + (hi * 256 + lo)) refl (omega arith),
        )
        refl

  parse_tv_cut :
      (t x : ℕ) (r : Bytes)
      → is_tv t ≡ true
      → suc (suc (length r)) < serial_len (table t) t []
      → parse table (t ∷ x ∷ r) ≡ err invalid_length
  unfolding parse index decode_tv
  parse_tv_cut t x r tv h =
      rw
        (
          le→leb 2 (suc (suc (length r))) (omega arith),
          tv,
          le→leb 2 (suc (suc (length r))) (omega arith),
          lt→leb (serial_len (table t) t []) (suc (suc (length r))) h,
        )
        refl

  parse_tlv_cut :
      (t hi lo : ℕ) (r : Bytes)
      → is_tv t ≡ false
      → length r < hi * 256 + lo
      → parse table (t ∷ hi ∷ lo ∷ r) ≡ err invalid_length
  unfolding parse index uint16_at decode_tlv
  parse_tlv_cut t hi lo r tlv h =
      rw
        (
          le→leb 2 (suc (suc (suc (length r)))) (omega arith),
          tlv,
          le→leb 3 (suc (suc (suc (length r)))) (omega arith),
          lt→leb (hi * 256 + lo + 3) (suc (suc (suc (length r)))) (omega arith),
        )
        refl

  -- The element is one that the decoder makes, and its octets are the front of the input.
  abbrev pub Reads : Bytes → Ie → Type 0
  Reads b i = IsWf i × ((rest : Bytes) × (b ≡ wire i ++ rest))

  -- A TV type, with what the table has for it.
  read_tv_len :
      (t x l : ℕ) (r : Bytes)
      → is_tv t ≡ true
      → serial_len (table t) t [] ≡ suc l
      → ((p : Bytes) → length p ≡ l → IsWf (ie t 0 p))
      → Ensures (Reads (t ∷ x ∷ r)) (parse table (t ∷ x ∷ r))
  read_tv_len t x l r tv len form = elim (Bool-cases (leb l (suc (length r)))) [
    | inl fits ↦
        let (p, rest, e, lp) = split_at (x ∷ r) l (leb→le _ _ fits) in
        rw (parse_tv t x l r p rest tv len e lp)
          (form p lp, (rest, ap (λ q. t ∷ q) e ∙ ap (λ q. q ++ rest) (sym (wire_tv t p tv))))
    | inr cut ↦ rw (parse_tv_cut t x r tv (omega (arith, leb→lt _ _ cut))) tt
  ]

  read_tv :
      (t x : ℕ) (r : Bytes) → is_tv t ≡ true → Ensures (Reads (t ∷ x ∷ r)) (parse table (t ∷ x ∷ r))
  read_tv t x r tv = elim (Option-cases (table t)) [
    | inl unknown ↦
        read_tv_len t x 0 r tv (rw (unknown, tv) refl) (λ p e. rw (tv, unknown) (nil_of p e, refl))
    | inr (l, known) ↦
        read_tv_len t x l r tv (rw known (omega arith)) (λ p e. rw (tv, known) (e, refl))
  ]

  pub tlv_unlisted : IsTvTable table → (t : ℕ) → is_tv t ≡ false → table t ≡ none
  tlv_unlisted tvs t tlv = elim (Option-cases (table t)) [
    | inl unknown ↦ unknown
    | inr (l, known) ↦ absurd (omega (arith, tvs t l known, ltb→le t 128 tlv))
  ]

  back_tlv :
      (t hi lo : ℕ) (p rest : Bytes)
      → is_tv t ≡ false
      → hi < 256
      → lo < 256
      → t ∷ hi ∷ lo ∷ (p ++ rest) ≡ wire (ie t (hi * 256 + lo) p) ++ rest
  back_tlv t hi lo p rest tlv h1 h2 =
      let e1 : (hi * 256 + lo) / 256 % 256 ≡ hi = omega arith in
      let e2 : (hi * 256 + lo) % 256 ≡ lo = omega arith in rw (tlv, e1, e2) refl

  form_tlv :
      IsTvTable table
      → (t l : ℕ) (p : Bytes) → is_tv t ≡ false
      → l ≡ length p
      → l < 2 ^ 16
      → IsWf (ie t l p)
  form_tlv tvs t l p tlv e h = rw tlv (tlv_unlisted tvs t tlv, e, h)

  read_tlv :
      IsTvTable table
      → (t hi lo : ℕ) (r : Bytes) → is_tv t ≡ false
      → hi < 256
      → lo < 256
      → Ensures (Reads (t ∷ hi ∷ lo ∷ r)) (parse table (t ∷ hi ∷ lo ∷ r))
  read_tlv tvs t hi lo r tlv h1 h2 = elim (Bool-cases (leb (hi * 256 + lo) (length r))) [
    | inl fits ↦
        let (p, rest, e, lp) = split_at r (hi * 256 + lo) (leb→le _ _ fits) in
        rw (e, parse_tlv t hi lo p rest tlv lp)
          (
            form_tlv tvs t (hi * 256 + lo) p tlv (sym lp) (omega arith),
            (rest, back_tlv t hi lo p rest tlv h1 h2),
          )
    | inr cut ↦ rw (parse_tlv_cut t hi lo r tlv (leb→lt _ _ cut)) tt
  ]

  read_long :
      IsTvTable table
      → (t x : ℕ) (r : Bytes) → is_tv t ≡ false
      → All IsByte (t ∷ x ∷ r)
      → Ensures (Reads (t ∷ x ∷ r)) (parse table (t ∷ x ∷ r))
  unfolding parse index decode_tlv
  read_long tvs t x [] tlv h = rw tlv tt
  read_long tvs t x (y ∷ r) tlv (ht, (hx, (hy, hr))) = read_tlv tvs t x y r tlv hx hy

  -- On any octets UnmarshalBinary returns: with an error, or with an element whose octets are the
  -- front of the input.
  pub parse_reads : IsTvTable table → (b : Bytes) → All IsByte b → Ensures (Reads b) (parse table b)
  unfolding parse
  parse_reads tvs [] hb = tt
  parse_reads tvs (t ∷ []) hb = tt
  parse_reads tvs (t ∷ x ∷ r) hb = elim (Bool-cases (is_tv t)) [
    | inl tv ↦ read_tv t x r tv
    | inr tlv ↦ read_long tvs t x r tlv hb
  ]

  -- A well-formed element is counted as long as its octets are.
  pub length-wire_form : (i : Ie) → IsWf i → length (wire i) ≡ marshal_len table i
  length-wire_form i w = length-Form (is_tv i.kind) (table i.kind) i w refl

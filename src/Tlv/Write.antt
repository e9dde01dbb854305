-- ===== src/Tlv/Write.antt =====
-- MarshalTo of gtpv0/ie and gtpv1/ie on a longer buffer, and the elements as the messages take them.
use go_gtp.Common.{
  Option, ℕ, suc, ◌≤◌, ◌≡◌, ap, sym, ◌∙◌, refl, true, false, List, [], ◌∷◌, ◌++◌, arith, length,
  drop, Bool-cases, inl, inr, le→ltb, All,
}
use go_gtp.Common.Outcome.{ok}
use go_gtp.Common.Bytes.{Bytes, copy_at_fit}
use go_gtp.Common.Endian.{be16}
use go_gtp.Tlv.{Ie, is_tv, marshal_len, marshal_to, parse_multi_ies}
use go_gtp.Tlv.Encode.{IsTvTable}
use go_gtp.Tlv.Decode.{IsWf, wire, length-wire_form}
use go_gtp.Tlv.RoundTrip.{wires, parse_multi_ies-wires_form}
use go_gtp.Message.Write.{octets}

module _ (table : ℕ → Option ℕ) where
  -- A well-formed element that is two octets long at least, as ParseMultiIEs asks for at the end.
  abbrev pub IsSent : Ie → Type 0
  IsSent i = IsWf table i × (2 ≤ length (wire i))

  write_tv :
      (i : Ie) (x : ℕ) (r : Bytes)
      → is_tv i.kind ≡ true
      → marshal_len table i ≡ suc (length i.payload)
      → length i.payload ≤ length r
      → marshal_to table i (x ∷ r) ≡ ok (i.kind ∷ (i.payload ++ drop (length i.payload) r))
  unfolding marshal_to
  write_tv i x r tv len h =
      rw (len, le→ltb (suc (length r)) (suc (length i.payload)) (omega arith), tv, len)
        (copy_at_fit (i.kind ∷ []) r i.payload 1 (suc (length i.payload)) refl (omega arith) h)

  write_tlv :
      (i : Ie) (x0 x1 x2 : ℕ) (r : Bytes)
      → is_tv i.kind ≡ false
      → marshal_len table i ≡ suc (suc (suc (length i.payload)))
      → length i.payload ≤ length r
      → marshal_to table i (x0 ∷ x1 ∷ x2 ∷ r)
        ≡ ok (i.kind ∷ (be16 i.size ++ (i.payload ++ drop (length i.payload) r)))
  unfolding marshal_to
  write_tlv i x0 x1 x2 r tlv len h =
      let n = length i.payload in
      rw (len, le→ltb (suc (suc (suc (length r)))) (suc (suc (suc n))) (omega arith), tlv, len)
        (copy_at_fit (i.kind ∷ be16 i.size) r i.payload 3 (suc (suc (suc n))) refl (omega arith) h)

  form_tv :
      (i : Ie) (b : Bytes)
      → is_tv i.kind ≡ true
      → marshal_len table i ≡ suc (length i.payload)
      → marshal_len table i ≤ length b
      → marshal_to table i b ≡ ok (wire i ++ drop (marshal_len table i) b)
  form_tv i [] tv len h = absurd (omega (arith, len))
  form_tv i (x ∷ r) tv len h = write_tv i x r tv len (omega (arith, len)) ∙ rw (tv, len) refl

  form_tlv :
      (i : Ie) (b : Bytes)
      → is_tv i.kind ≡ false
      → marshal_len table i ≡ suc (suc (suc (length i.payload)))
      → marshal_len table i ≤ length b
      → marshal_to table i b ≡ ok (wire i ++ drop (marshal_len table i) b)
  form_tlv i (x0 ∷ x1 ∷ x2 ∷ r) tlv len h =
      write_tlv i x0 x1 x2 r tlv len (omega (arith, len)) ∙ rw (tlv, len) refl
  form_tlv i b tlv len h = absurd (omega (arith, len))

  -- On a buffer that is long enough MarshalTo writes the octets of a well-formed element at its front
  -- and leaves what lies behind them.
  pub marshal_to-form :
      (i : Ie) (b : Bytes)
      → IsWf table i
      → marshal_len table i ≤ length b
      → marshal_to table i b ≡ ok (wire i ++ drop (marshal_len table i) b)
  marshal_to-form i b w h = elim (Bool-cases (is_tv i.kind)) [
    | inl tv ↦ form_tv i b tv (sym (length-wire_form table i w) ∙ rw tv refl) h
    | inr tlv ↦ form_tlv i b tlv (sym (length-wire_form table i w) ∙ rw tlv refl) h
  ]

octets-wires_form : (is : List Ie) → octets wire is ≡ wires is
octets-wires_form [] = refl
octets-wires_form (i ∷ is) = ap (λ (b : Bytes). wire i ++ b) (octets-wires_form is)

module _ (table : ℕ → Option ℕ) (tvs : IsTvTable table) where
  pub parse_multi_ies-octets :
      (is : List Ie) → All (IsSent table) is → parse_multi_ies table (octets wire is) ≡ ok is
  parse_multi_ies-octets is w =
      rw (octets-wires_form is) (parse_multi_ies-wires_form table tvs is w)

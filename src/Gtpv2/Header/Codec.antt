-- ===== src/Gtpv2/Header/Codec.antt =====
-- The octets of a GTPv2 header (gtpv2/message/header.go).
use go_gtp.Common.{
  suc, ◌+◌, ◌-◌, ◌/◌, ◌%◌, ◌≡◌, refl, true, false, [], ◌∷◌, ◌++◌, le→ltb, if◌then◌else◌, Bool-cases,
  inl, inr, length, arith,
}
use go_gtp.Common.Outcome.{ok}
use go_gtp.Common.Bytes.{Bytes, first_zeros, copy_zeros, overlay_zeros}
use go_gtp.Common.Endian.{be32}
use go_gtp.Utils.{uint32_to_24}
use go_gtp.Gtpv2.Header.{Header, has_teid, marshal_len, marshal, marshal_to}

-- The fixed part.
abbrev pub head : Header → Bytes
head h =
    h.flags
    ∷ h.kind
    ∷ h.size / 256 % 256
    ∷ h.size % 256
    ∷ (if has_teid h
        then be32 h.teid ++ (uint32_to_24 h.sequence_number ++ (h.spare ∷ []))
        else uint32_to_24 h.sequence_number ++ (h.spare ∷ []))

abbrev pub wire : Header → Bytes
wire h = head h ++ h.payload

marshal_teid : (h : Header) → has_teid h ≡ true → marshal h ≡ ok (wire h)
unfolding marshal marshal_to marshal_len uint32_to_24
marshal_teid h t =
    let all =
      suc (suc (suc (suc (suc (suc (suc (suc (suc (suc (suc (suc (length h.payload)))))))))))) in
    let e : 8 + length h.payload + 4 ≡ all = omega arith in
    let back : all - 12 ≡ length h.payload = omega arith in
    rw
      (
        t,
        e,
        le→ltb all 12 (omega arith),
        back,
        first_zeros (length h.payload),
        copy_zeros h.payload,
        overlay_zeros h.payload,
      )
      refl

marshal_no_teid : (h : Header) → has_teid h ≡ false → marshal h ≡ ok (wire h)
unfolding marshal marshal_to marshal_len uint32_to_24
marshal_no_teid h t =
    let all = suc (suc (suc (suc (suc (suc (suc (suc (length h.payload)))))))) in
    let e : 8 + length h.payload ≡ all = omega arith in
    let back : all - 8 ≡ length h.payload = omega arith in
    rw
      (
        t,
        e,
        le→ltb all 8 (omega arith),
        back,
        first_zeros (length h.payload),
        copy_zeros h.payload,
        overlay_zeros h.payload,
      )
      refl

-- Marshal never fails, and returns the fixed part with the payload behind it.
pub marshal-wire_header : (h : Header) → marshal h ≡ ok (wire h)
marshal-wire_header h = elim (Bool-cases (has_teid h)) [
  | inl t ↦ marshal_teid h t
  | inr t ↦ marshal_no_teid h t
]

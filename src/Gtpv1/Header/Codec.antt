-- ===== src/Gtpv1/Header/Codec.antt =====
-- The octets of a GTPv1 header (gtpv1/message/header.go).
use go_gtp.Common.{
  ℕ, suc, ◌+◌, ◌≡◌, refl, true, false, [], ◌∷◌, ◌++◌, le→ltb, if◌then◌else◌, Bool-cases, inl, inr,
  length, length-replicate, arith,
}
use go_gtp.Common.Outcome.{ok}
use go_gtp.Common.Bytes.{Bytes, copy_zeros, overlay_zeros}
use go_gtp.Common.Endian.{be16, be32}
use go_gtp.Gtpv1.Header.{Header, has_sequence, marshal_len, marshal, marshal_to}

-- The fixed part: the sequence number is followed by two octets of padding.
abbrev pub head : Header → Bytes
head h =
    h.flags
    ∷ h.kind
    ∷ (be16 h.size
        ++ (be32 h.teid ++ (if has_sequence h then be16 h.sequence_number ++ (0 ∷ 0 ∷ []) else [])))

abbrev pub wire : Header → Bytes
wire h = head h ++ h.payload

marshal_numbered : (h : Header) → has_sequence h ≡ true → marshal h ≡ ok (wire h)
unfolding marshal marshal_to marshal_len
marshal_numbered h t =
    let n = length h.payload in
    let all = suc (suc (suc (suc (suc (suc (suc (suc (suc (suc (suc (suc n))))))))))) in
    let e : n + 8 + 4 ≡ all = omega arith in
    rw
      (
        t,
        e,
        length-replicate {A = ℕ} n 0,
        le→ltb all all (omega arith),
        copy_zeros h.payload,
        overlay_zeros h.payload,
      )
      refl

marshal_plain : (h : Header) → has_sequence h ≡ false → marshal h ≡ ok (wire h)
unfolding marshal marshal_to marshal_len
marshal_plain h t =
    let n = length h.payload in
    let all = suc (suc (suc (suc (suc (suc (suc (suc n))))))) in
    let e : n + 8 ≡ all = omega arith in
    rw
      (
        t,
        e,
        length-replicate {A = ℕ} n 0,
        le→ltb all all (omega arith),
        copy_zeros h.payload,
        overlay_zeros h.payload,
      )
      refl

-- Marshal never fails, and returns the fixed part with the payload behind it.
pub marshal-wire_v1 : (h : Header) → marshal h ≡ ok (wire h)
marshal-wire_v1 h = elim (Bool-cases (has_sequence h)) [
  | inl t ↦ marshal_numbered h t
  | inr t ↦ marshal_plain h t
]

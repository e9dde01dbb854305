-- ===== src/Gtpv0/Header/Codec.antt =====
-- The octets of a GTPv0 header, and what reading them back gives.
use go_gtp.Common.{
  ℕ, suc, ◌+◌, ◌-◌, ◌*◌, ◌/◌, ◌%◌, ◌^◌, ◌≤◌, ◌<◌, ◌≡◌, refl, sym, ap, ◌∙◌, true, [], ◌∷◌, ◌++◌,
  append-nil, ◌==◌, le→ltb, length, ==_iff, length-append, length-replicate, arith,
}
use go_gtp.Common.Outcome.{Outcome, ok, panic, ◌>>=◌}
use go_gtp.Common.Bytes.{Bytes, slice, first_zeros, copy_zeros, overlay_zeros, slice_mid}
use go_gtp.Common.Endian.{be16, be32, be64, be16_value, be64_value}
use go_gtp.Gtpv0.Header.{Header, read, marshal_len, marshal, marshal_to, parse_header, payload_from}

abbrev pub head : Header → Bytes
head h =
    h.flags
    ∷ h.kind
    ∷ (be16 h.size
        ++ (be16 h.sequence_number
            ++ (be16 h.flow_label
                ++ (be32 ((h.sndcp_number * 2 ^ 24 + 0xffffff) % 2 ^ 32) ++ be64 h.tid))))

abbrev pub wire : Header → Bytes
wire h = head h ++ h.payload

-- Marshal never fails, and returns the twenty octets of the fixed part with the payload behind.
pub marshal-wire_v0 : (h : Header) → marshal h ≡ ok (wire h)
unfolding marshal marshal_to marshal_len
marshal-wire_v0 h =
    let n = length h.payload in
    let all = suc (
      suc (
        suc (
          suc (
            suc (
              suc (
                suc (
                  suc (
                    suc
                      (suc (suc (suc (suc (suc (suc (suc (suc (suc (suc (suc n))))))))))))))))))) in
    let e : 20 + n ≡ all = omega arith in
    let back : all - 20 ≡ n = omega arith in
    rw
      (
        e,
        length-replicate {A = ℕ} n 0,
        le→ltb all all (omega arith),
        le→ltb all 20 (omega arith),
        back,
        first_zeros n,
        copy_zeros h.payload,
        overlay_zeros h.payload,
      )
      refl

payload_whole :
    (pre p : Bytes) (size : ℕ)
    → length pre ≡ 20
    → size ≡ length p
    → size + 20 < 2 ^ 16
    → payload_from (pre ++ p) size ≡ ok p
unfolding payload_from
payload_whole pre p size l e h =
    let stop : (20 + size) % 2 ^ 16 ≡ 20 + length p = omega arith in
    let same : (size + 20 == length (pre ++ p)) ≡ true =
      (==_iff _ _).1 (omega (arith, length-append pre p)) in
    let cut : slice (pre ++ (p ++ [])) 20 (20 + length p) ≡ ok p =
      slice_mid pre p [] 20 (20 + length p) (sym l) refl in
    rw (same, stop) (rw append-nil at cut)

-- What UnmarshalBinary does on twenty octets and more.
parse_twenty :
    (f k z0 z1 s0 s1 l0 l1 x8 n x10 x11 t0 t1 t2 t3 t4 t5 t6 t7 : ℕ) (p : Bytes)
    → parse_header (
        f ∷ k ∷ z0 ∷ z1 ∷ s0 ∷ s1 ∷ l0 ∷ l1 ∷ x8 ∷ n ∷ x10 ∷ x11 ∷ t0 ∷ t1 ∷ t2 ∷ t3 ∷ t4 ∷ t5 ∷ t6
        ∷ t7 ∷ p)
      ≡ (payload_from
            (f ∷ k ∷ z0 ∷ z1 ∷ s0 ∷ s1 ∷ l0 ∷ l1 ∷ x8 ∷ n ∷ x10 ∷ x11 ∷ t0 ∷ t1 ∷ t2 ∷ t3 ∷ t4 ∷ t5
              ∷ t6 ∷ t7 ∷ p)
            (z0 * 256 + z1)
          >>= λ q. ok (
              read f k
                (z0 * 256 + z1)
                (s0 * 256 + s1)
                n
                (l0 * 256 + l1)
                ((t0 * 2 ^ 24 + t1 * 2 ^ 16 + t2 * 2 ^ 8 + t3) * 2 ^ 32
                  + (t4 * 2 ^ 24 + t5 * 2 ^ 16 + t6 * 2 ^ 8 + t7))
                q))
unfolding parse_header
parse_twenty f k z0 z1 s0 s1 l0 l1 x8 n x10 x11 t0 t1 t2 t3 t4 t5 t6 t7 p =
    let all = suc (
      suc (
        suc (
          suc (
            suc (
              suc (
                suc (
                  suc (
                    suc (
                      suc
                        (suc (length (x11 ∷ t0 ∷ t1 ∷ t2 ∷ t3 ∷ t4 ∷ t5 ∷ t6 ∷ t7 ∷ p)))))))))))) in
    rw (le→ltb all 11 (omega arith)) refl

-- What the decoder makes of the octets of a number.
abbrev back16 : ℕ → ℕ
back16 n = n / 256 % 256 * 256 + n % 256

abbrev back64 : ℕ → ℕ
back64 n =
    (n / 2 ^ 56 % 256 * 2 ^ 24
        + n / 2 ^ 48 % 256 * 2 ^ 16
        + n / 2 ^ 40 % 256 * 2 ^ 8
        + n / 2 ^ 32 % 256)
      * 2 ^ 32
    + (n / 2 ^ 24 % 256 * 2 ^ 24 + n / 2 ^ 16 % 256 * 2 ^ 16 + n / 2 ^ 8 % 256 * 2 ^ 8 + n % 256)

-- The fields fit their widths and the length field counts the payload.
pub record IsWf (h : Header) : Type 0 where
  pub size_counts : h.size ≡ length h.payload
  pub size_fits : h.size + 20 < 2 ^ 16
  pub seq_fits : h.sequence_number < 2 ^ 16
  pub label_fits : h.flow_label < 2 ^ 16
  pub sndcp_fits : h.sndcp_number < 256
  pub tid_fits : h.tid < 2 ^ 64

-- Reading back the octets of a well-formed header gives all its fields but the SNDCP number, which
-- is always 0xff.
pub parse_header-wire_v0 :
    (h : Header) → IsWf h → parse_header (wire h) ≡ ok (record h { sndcp_number = 0xff })
parse_header-wire_v0 h w =
    let stored = (h.sndcp_number * 2 ^ 24 + 0xffffff) % 2 ^ 32 in
    let lost : stored / 2 ^ 16 % 256 ≡ 0xff = omega (arith, w.sndcp_fits) in
    let size = be16_value h.size (omega (arith, w.size_fits)) in
    parse_twenty h.flags h.kind _ _ _ _ _ _ _ _ _ _ _ _ _ _ _ _ _ _ h.payload
    ∙ ap
        (λ (m : Outcome Bytes). m >>= λ q. ok (
          read h.flags h.kind (back16 h.size) (back16 h.sequence_number) (stored / 2 ^ 16 % 256)
            (back16 h.flow_label) (back64 h.tid) q))
        (ap (payload_from (wire h)) size
          ∙ payload_whole (head h) h.payload h.size refl w.size_counts w.size_fits)
    ∙ λ i. ok (
        read h.flags h.kind (size i) (be16_value h.sequence_number w.seq_fits i) (lost i)
          (be16_value h.flow_label w.label_fits i) (be64_value h.tid w.tid_fits i) h.payload)

-- Any packet of eleven to nineteen octets makes the parser slice past its end: it panics.
pub parse_header_panics_v0 : (b : Bytes) → 11 ≤ length b → length b < 20 → parse_header b ≡ panic
unfolding parse_header
parse_header_panics_v0
      (x0 ∷ x1 ∷ x2 ∷ x3 ∷ x4 ∷ x5 ∷ x6 ∷ x7 ∷ x8 ∷ x9 ∷ x10 ∷ x11 ∷ x12 ∷ x13 ∷ x14 ∷ x15 ∷ x16
        ∷ x17 ∷ x18 ∷ x19 ∷ r)
      lo hi =
    absurd (omega arith)
parse_header_panics_v0 b lo hi = ground arith

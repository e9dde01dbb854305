-- ===== src/Gtpv1/Header/RoundTrip.antt =====
-- UnmarshalBinary of a GTPv1 header that was encoded.
use go_gtp.Common.{
  ℕ, ◌+◌, ◌*◌, ◌/◌, ◌%◌, ◌^◌, ◌≤◌, ◌<◌, ◌≡◌, refl, sym, ap, ◌∙◌, true, false, [], ◌∷◌, ◌++◌, le→ltb,
  le→leb, if◌then◌else◌, Bool-cases, inl, inr, length, length-append, arith,
}
use go_gtp.Common.Outcome.{Outcome, ok, ◌>>=◌}
use go_gtp.Common.Bytes.{Bytes, slice_mid}
use go_gtp.Common.Endian.{be16, be32, be16_value, be32_value}
use go_gtp.Gtpv1.Header.Parse.{parse_plain, parse_numbered, has_sequence-flags}
use go_gtp.Gtpv1.Header.Codec.{wire}
use go_gtp.Gtpv1.Header.{Header, read, has_sequence, parse_header, payload_from}

abbrev pub counted : Header → ℕ
counted h = if has_sequence h then 4 + length h.payload else length h.payload

-- The fields fit their widths, the length field counts what follows it, and what is not encoded is
-- zero.
pub record IsWf (h : Header) : Type 0 where
  pub size_counts : h.size ≡ counted h
  pub size_fits : h.size + 8 < 2 ^ 16
  pub teid_fits : h.teid < 2 ^ 32
  pub seq_fits : h.sequence_number < 2 ^ 16
  pub no_seq : has_sequence h ≡ false → h.sequence_number ≡ 0
  pub reserved_zero : h.reserved ≡ 0

payload_exact :
    (pre p rest : Bytes) (offset size : ℕ)
    → offset ≡ length pre
    → 8 + size ≡ offset + length p
    → size + 8 < 2 ^ 16
    → payload_from (pre ++ (p ++ rest)) offset size ≡ ok p
unfolding payload_from
payload_exact pre p rest offset size es e h =
    let stop : (8 + size) % 2 ^ 16 ≡ offset + length p = omega arith in
    rw
      (
        le→ltb (length (pre ++ (p ++ rest))) (size + 8)
            (omega (arith, length-append pre (p ++ rest), length-append p rest)),
        stop,
        le→leb offset (offset + length p) (omega arith),
      )
      (slice_mid pre p rest offset (offset + length p) es refl)

abbrev teid_back : ℕ → ℕ
teid_back d =
    d / 2 ^ 24 % 256 * 2 ^ 24 + d / 2 ^ 16 % 256 * 2 ^ 16 + d / 2 ^ 8 % 256 * 2 ^ 8 + d % 256

flags_only :
    (h : Header) (teid : ℕ)
    → has_sequence (read h.flags h.kind h.size teid h.sequence_number h.payload) ≡ has_sequence h
unfolding has_sequence
flags_only h teid = refl

-- The encoding as a concatenation, with and without a sequence number.
wire_numbered :
    (h : Header) (x : Bytes)
    → has_sequence h ≡ true
    → wire h ++ x
      ≡ h.flags
        ∷ h.kind
        ∷ (be16 h.size ++ (be32 h.teid ++ (be16 h.sequence_number ++ (0 ∷ 0 ∷ (h.payload ++ x)))))
wire_numbered h x t = rw t refl

wire_plain :
    (h : Header) (x : Bytes)
    → has_sequence h ≡ false
    → wire h ++ x ≡ h.flags ∷ h.kind ∷ (be16 h.size ++ (be32 h.teid ++ (h.payload ++ x)))
wire_plain h x t = rw t refl

read_back_numbered :
    (h : Header) (rest : Bytes)
    → IsWf h
    → has_sequence h ≡ true
    → parse_header (wire h ++ rest) ≡ ok h
read_back_numbered h rest w t =
    let size : h.size ≡ 4 + length h.payload = w.size_counts ∙ rw t refl in
    let d = h.teid in
    let n = h.sequence_number in
    let pre : Bytes = h.flags ∷ h.kind ∷ (be16 h.size ++ (be32 d ++ (be16 n ++ (0 ∷ 0 ∷ [])))) in
    ap parse_header (wire_numbered h rest t)
    ∙ parse_numbered h.flags h.kind _ _ _ _ _ _ _ _ 0 (0 ∷ (h.payload ++ rest)) h.size
        (be16_value h.size (omega (arith, w.size_fits)))
        (sym (has_sequence-flags h.flags h.kind h.size (teid_back d) n h.payload)
          ∙ flags_only h (teid_back d)
          ∙ t)
        (omega arith)
    ∙ ap
        (λ (m : Outcome Bytes). m >>= λ p.
          ok (read h.flags h.kind h.size (teid_back d) (n / 256 % 256 * 256 + n % 256) p))
        (payload_exact pre h.payload rest 12 h.size refl (omega arith) w.size_fits)
    ∙ λ i. ok (record h {
      teid = be32_value d w.teid_fits i;
      sequence_number = be16_value n w.seq_fits i;
      reserved = sym w.reserved_zero i;
    })

read_back_plain :
    (h : Header) (rest : Bytes)
    → IsWf h
    → has_sequence h ≡ false
    → 3 ≤ length (h.payload ++ rest)
    → parse_header (wire h ++ rest) ≡ ok h
read_back_plain h rest w t long =
    let size : h.size ≡ length h.payload = w.size_counts ∙ rw t refl in
    let d = h.teid in
    let pre : Bytes = h.flags ∷ h.kind ∷ (be16 h.size ++ be32 d) in
    ap parse_header (wire_plain h rest t)
    ∙ parse_plain h.flags h.kind _ _ _ _ _ _ (h.payload ++ rest) h.size long
        (be16_value h.size (omega (arith, w.size_fits)))
        (sym (has_sequence-flags h.flags h.kind h.size (teid_back d) h.sequence_number h.payload)
          ∙ flags_only h (teid_back d)
          ∙ t)
    ∙ ap (λ (m : Outcome Bytes). m >>= λ p. ok (read h.flags h.kind h.size (teid_back d) 0 p))
        (payload_exact pre h.payload rest 8 h.size refl (omega arith) w.size_fits)
    ∙ λ i. ok (record h {
      teid = be32_value d w.teid_fits i;
      sequence_number = sym (w.no_seq t) i;
      reserved = sym w.reserved_zero i;
    })

length-wire_plain :
    (h : Header) (x : Bytes)
    → has_sequence h ≡ false
    → length (wire h ++ x) ≡ 8 + length (h.payload ++ x)
length-wire_plain h x t = ap length (wire_plain h x t) ∙ omega arith

-- ParseHeader reads back a well-formed header whatever follows it, if at least eleven octets are
-- there.
pub parse_header-wire_v1 :
    (h : Header) (rest : Bytes)
    → IsWf h
    → 11 ≤ length (wire h ++ rest)
    → parse_header (wire h ++ rest) ≡ ok h
parse_header-wire_v1 h rest w long = elim (Bool-cases (has_sequence h)) [
  | inl t ↦ read_back_numbered h rest w t
  | inr t ↦ read_back_plain h rest w t (omega (arith, length-wire_plain h rest t))
]

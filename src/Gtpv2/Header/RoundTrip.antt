-- ===== src/Gtpv2/Header/RoundTrip.antt =====
-- Reading back a GTPv2 header that was encoded.
use go_gtp.Common.{
  ℕ, ◌+◌, ◌*◌, ◌/◌, ◌%◌, ◌^◌, ◌≤◌, ◌<◌, ◌≡◌, refl, sym, ap, ◌∙◌, true, false, [], ◌∷◌, ◌++◌, le→ltb,
  le→leb, if◌then◌else◌, Bool-cases, inl, inr, length, length-append, arith,
}
use go_gtp.Common.Outcome.{Outcome, ok, err, ◌>>=◌, too_short_to_parse}
use go_gtp.Common.Bytes.{Bytes, slice_mid}
use go_gtp.Common.Endian.{be16_value, be32_value}
use go_gtp.Utils.{uint32_to_24}
use go_gtp.Gtpv2.Header.{Header, has_teid, marshal, parse_header, payload_from}
use go_gtp.Gtpv2.Header.Codec.{wire, marshal-wire_header}
use go_gtp.Gtpv2.Header.Parse.{read_teid, parse_teid, parse_no_teid, parse_short}
use go_gtp.Gtpv2.Header.Sound.{head_teid, head_no_teid, has_teid-flags}

-- What the length field counts, after the first four octets: the fixed part behind them and the
-- payload.
abbrev pub counted : Header → ℕ
counted h = if has_teid h then 8 + length h.payload else 4 + length h.payload

-- The fields fit their widths, the length field counts what follows it, and the TEID is zero where
-- the flag says that there is none.
pub record IsWf (h : Header) : Type 0 where
  pub flags_fit : h.flags < 256
  pub kind_fits : h.kind < 256
  pub size_counts : h.size ≡ counted h
  pub size_fits : h.size + 4 < 2 ^ 16
  pub teid_fits : h.teid < 2 ^ 32
  pub no_teid : has_teid h ≡ false → h.teid ≡ 0
  pub seq_fits : h.sequence_number < 2 ^ 24
  pub spare_fits : h.spare < 256

payload_exact :
    (pre p rest : Bytes) (start size : ℕ)
    → start ≡ length pre
    → 4 + size ≡ start + length p
    → size + 4 < 2 ^ 16
    → payload_from (pre ++ (p ++ rest)) start size ≡ ok p
unfolding payload_from
payload_exact pre p rest start size es e h =
    let stop : (4 + size) % 2 ^ 16 ≡ start + length p = omega arith in
    rw
      (
        le→ltb (length (pre ++ (p ++ rest))) (size + 4)
            (omega (arith, length-append pre (p ++ rest), length-append p rest)),
        stop,
        le→leb start (start + length p) (omega arith),
      )
      (slice_mid pre p rest start (start + length p) es refl)

-- The numbers that are read from the octets of a sequence number and of a TEID.
abbrev seq_back : ℕ → ℕ
seq_back n = n / 2 ^ 16 % 256 * 2 ^ 16 + n / 2 ^ 8 % 256 * 2 ^ 8 + n % 256

abbrev teid_back : ℕ → ℕ
teid_back d =
    d / 2 ^ 24 % 256 * 2 ^ 24 + d / 2 ^ 16 % 256 * 2 ^ 16 + d / 2 ^ 8 % 256 * 2 ^ 8 + d % 256

four_octets :
    (b : Bytes) → 4 ≤ length b → (x0 x1 x2 x3 : ℕ) × (r : Bytes) × (b ≡ x0 ∷ x1 ∷ x2 ∷ x3 ∷ r)
four_octets (x0 ∷ x1 ∷ x2 ∷ x3 ∷ r) h = (x0, x1, x2, x3, r, refl)
four_octets b h = absurd (omega arith)

seq_value : (n : ℕ) → n < 2 ^ 24 → seq_back n ≡ n
seq_value n h = omega arith

read_back_teid :
    (h : Header) (rest : Bytes) → IsWf h → has_teid h ≡ true → parse_header (wire h ++ rest) ≡ ok h
unfolding uint32_to_24
read_back_teid h rest w t =
    let size : h.size ≡ 8 + length h.payload = w.size_counts ∙ rw t refl in
    let n = h.sequence_number in
    let d = h.teid in
    let pre : Bytes =
      h.flags
      ∷ h.kind
      ∷ h.size / 256 % 256
      ∷ h.size % 256
      ∷ d / 2 ^ 24 % 256
      ∷ d / 2 ^ 16 % 256
      ∷ d / 2 ^ 8 % 256
      ∷ d % 256
      ∷ n / 2 ^ 16 % 256
      ∷ n / 2 ^ 8 % 256
      ∷ n % 256
      ∷ h.spare
      ∷ [] in
    ap parse_header (head_teid h rest t)
    ∙ parse_teid h.flags h.kind _ _ _ _ _ h.spare _ _ _ _ h.size (h.payload ++ rest)
        (be16_value h.size (omega (arith, w.size_fits))) (sym (has_teid-flags h h.kind h.size) ∙ t)
        (omega arith)
    ∙ ap
        (λ (m : Outcome Bytes).
          m >>= λ p. ok (read_teid h.flags h.kind h.size (teid_back d) (seq_back n) h.spare p))
        (payload_exact pre h.payload rest 12 h.size refl (omega arith) w.size_fits)
    ∙ λ i. ok (
        read_teid h.flags h.kind h.size (be32_value d w.teid_fits i) (seq_value n w.seq_fits i)
          h.spare h.payload)

read_back_no_teid :
    (h : Header) (rest : Bytes)
    → IsWf h
    → has_teid h ≡ false
    → 4 ≤ length (h.payload ++ rest)
    → parse_header (wire h ++ rest) ≡ ok h
unfolding uint32_to_24
read_back_no_teid h rest w t long =
    let (x0, x1, x2, x3, r, e) = four_octets (h.payload ++ rest) long in
    let size : h.size ≡ 4 + length h.payload = w.size_counts ∙ rw t refl in
    let n = h.sequence_number in
    let pre : Bytes =
      h.flags
      ∷ h.kind
      ∷ h.size / 256 % 256
      ∷ h.size % 256
      ∷ n / 2 ^ 16 % 256
      ∷ n / 2 ^ 8 % 256
      ∷ n % 256
      ∷ h.spare
      ∷ [] in
    ap parse_header (head_no_teid h rest t ∙ ap (λ (y : Bytes). pre ++ y) e)
    ∙ parse_no_teid h.flags h.kind _ _ _ _ _ h.spare x0 x1 x2 x3 h.size r
        (be16_value h.size (omega (arith, w.size_fits))) (sym (has_teid-flags h h.kind h.size) ∙ t)
        (omega arith)
    ∙ ap
        (λ (y : Bytes). payload_from (pre ++ y) 8 h.size >>= λ p.
          ok (read_teid h.flags h.kind h.size 0 (seq_back n) h.spare p))
        (sym e)
    ∙ ap
        (λ (m : Outcome Bytes).
          m >>= λ p. ok (read_teid h.flags h.kind h.size 0 (seq_back n) h.spare p))
        (payload_exact pre h.payload rest 8 h.size refl (omega arith) w.size_fits)
    ∙ λ i. ok (
        read_teid h.flags h.kind h.size (sym (w.no_teid t) i) (seq_value n w.seq_fits i) h.spare
          h.payload)

length-no_teid :
    (h : Header) (x : Bytes)
    → has_teid h ≡ false
    → length (wire h ++ x) ≡ 8 + length (h.payload ++ x)
unfolding uint32_to_24
length-no_teid h x t = ap length (head_no_teid h x t) ∙ omega arith

length-wire_no_teid : (h : Header) → has_teid h ≡ false → length (wire h) ≡ 8 + length h.payload
length-wire_no_teid h t =
    omega (arith, length-no_teid h [] t, length-append (wire h) [], length-append h.payload [])

-- ParseHeader reads back a well-formed header whatever follows it, if at least twelve octets are
-- there.
pub parse_header-wire :
    (h : Header) (rest : Bytes)
    → IsWf h
    → 12 ≤ length (wire h ++ rest)
    → parse_header (wire h ++ rest) ≡ ok h
parse_header-wire h rest w long = elim (Bool-cases (has_teid h)) [
  | inl t ↦ read_back_teid h rest w t
  | inr t ↦ read_back_no_teid h rest w t (omega (arith, long, length-no_teid h rest t))
]

-- A well-formed header with no TEID and fewer than four octets of payload is encoded, and its
-- encoding is refused as too short.
pub parse_header-marshal_short :
    (h : Header)
    → IsWf h
    → has_teid h ≡ false
    → length h.payload < 4
    → (marshal h >>= λ b. parse_header b) ≡ err too_short_to_parse
parse_header-marshal_short h w t short =
    rw (marshal-wire_header h) (parse_short (wire h) (omega (arith, length-wire_no_teid h t)))

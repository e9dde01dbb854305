-- ===== src/Gtpv2/Header/Parse.antt =====
-- What ParseHeader does once the fixed part is at hand.
use go_gtp.Common.{
  ℕ, suc, ◌+◌, ◌*◌, ◌^◌, ◌≤◌, ◌<◌, ◌≡◌, refl, true, false, ◌∷◌, le→ltb, lt→ltb, le→leb, lt→leb,
  length, arith,
}
use go_gtp.Common.Outcome.{ok, err, ◌>>=◌, too_short_to_parse}
use go_gtp.Common.Bytes.{Bytes, slice, from, first}
use go_gtp.Utils.{uint24_to_32}
use go_gtp.Gtpv2.Header.{Header, blank, has_teid, parse_header, payload_from}

-- The header that is read from the octets of the fixed part, with a payload.
abbrev pub read_teid : ℕ → ℕ → ℕ → ℕ → ℕ → ℕ → Bytes → Header
read_teid f k size teid seq sp p = record {
  flags = f;
  kind = k;
  size = size;
  teid = teid;
  sequence_number = seq;
  spare = sp;
  payload = p;
}

module _ (f k hi lo : ℕ) where
  abbrev pub four : Bytes → Bytes
  four r = f ∷ k ∷ hi ∷ lo ∷ r

  -- A length field too small for the fixed part is refused.
  pub parse_tiny :
      (y0 y1 y2 y3 y4 y5 y6 y7 size : ℕ) (r : Bytes)
      → hi * 256 + lo ≡ size
      → size < 4
      → parse_header (four (y0 ∷ y1 ∷ y2 ∷ y3 ∷ y4 ∷ y5 ∷ y6 ∷ y7 ∷ r)) ≡ err too_short_to_parse
  unfolding parse_header
  parse_tiny y0 y1 y2 y3 y4 y5 y6 y7 size r e small =
      let all = suc (suc (suc (suc (suc (suc (suc (suc (suc (suc (suc (suc (length r)))))))))))) in
      rw (le→ltb all 12 (omega arith), e, lt→leb 4 size small) refl

  pub parse_small :
      (y0 y1 y2 y3 y4 y5 y6 y7 size : ℕ) (r : Bytes)
      → hi * 256 + lo ≡ size
      → has_teid (blank f k size) ≡ true
      → 4 ≤ size
      → size < 8
      → parse_header (four (y0 ∷ y1 ∷ y2 ∷ y3 ∷ y4 ∷ y5 ∷ y6 ∷ y7 ∷ r)) ≡ err too_short_to_parse
  unfolding parse_header
  parse_small y0 y1 y2 y3 y4 y5 y6 y7 size r e t big small =
      let all = suc (suc (suc (suc (suc (suc (suc (suc (suc (suc (suc (suc (length r)))))))))))) in
      rw (le→ltb all 12 (omega arith), e, le→leb 4 size big, t, lt→leb 8 size small) refl

  module _ (s0 s1 s2 sp : ℕ) where
    abbrev pub seq_of : ℕ
    seq_of = s0 * 2 ^ 16 + s1 * 2 ^ 8 + s2

    pub parse_teid :
        (t0 t1 t2 t3 size : ℕ) (r : Bytes)
        → hi * 256 + lo ≡ size
        → has_teid (blank f k size) ≡ true
        → 8 ≤ size
        → parse_header (four (t0 ∷ t1 ∷ t2 ∷ t3 ∷ s0 ∷ s1 ∷ s2 ∷ sp ∷ r)) ≡ (
            payload_from (four (t0 ∷ t1 ∷ t2 ∷ t3 ∷ s0 ∷ s1 ∷ s2 ∷ sp ∷ r)) 12 size >>= λ p.
            ok (read_teid f k size (t0 * 2 ^ 24 + t1 * 2 ^ 16 + t2 * 2 ^ 8 + t3) seq_of sp p))
    unfolding parse_header slice from first uint24_to_32
    parse_teid t0 t1 t2 t3 size r e t big =
        let all =
          suc (suc (suc (suc (suc (suc (suc (suc (suc (suc (suc (suc (length r)))))))))))) in
        rw (le→ltb all 12 (omega arith), e, le→leb 4 size (omega arith), t, le→leb 8 size big) refl

    pub parse_no_teid :
        (x0 x1 x2 x3 size : ℕ) (r : Bytes)
        → hi * 256 + lo ≡ size
        → has_teid (blank f k size) ≡ false
        → 4 ≤ size
        → parse_header (four (s0 ∷ s1 ∷ s2 ∷ sp ∷ x0 ∷ x1 ∷ x2 ∷ x3 ∷ r)) ≡ (
            payload_from (four (s0 ∷ s1 ∷ s2 ∷ sp ∷ x0 ∷ x1 ∷ x2 ∷ x3 ∷ r)) 8 size >>= λ p.
            ok (read_teid f k size 0 seq_of sp p))
    unfolding parse_header slice from first uint24_to_32
    parse_no_teid x0 x1 x2 x3 size r e t big =
        let all =
          suc (suc (suc (suc (suc (suc (suc (suc (suc (suc (suc (suc (length r)))))))))))) in
        rw (le→ltb all 12 (omega arith), e, le→leb 4 size big, t) refl

pub parse_short : (b : Bytes) → length b < 12 → parse_header b ≡ err too_short_to_parse
unfolding parse_header
parse_short b h = rw (lt→ltb (length b) 12 h) refl

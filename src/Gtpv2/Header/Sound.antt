-- ===== src/Gtpv2/Header/Sound.antt =====
-- ParseHeader on any octets.
use go_gtp.Common.{
  ℕ, ◌+◌, ◌-◌, ◌*◌, ◌%◌, ◌^◌, ◌≤◌, ◌<◌, ◌≡◌, refl, sym, ◌∙◌, true, false, [], ◌∷◌, ◌++◌, append-nil,
  ltb, leb, ltb→le, leb→le, leb→lt, Bool-cases, inl, inr, length, length-append, All, arith,
}
use go_gtp.Common.Outcome.{Outcome, ok, err, panic, stuck, ◌>>=◌, Ensures}
use go_gtp.Common.Bytes.{Bytes, IsByte, from-append, slice_mid, split_at}
use go_gtp.Common.Endian.{be16, be32}
use go_gtp.Utils.{uint32_to_24}
use go_gtp.Gtpv2.Header.Parse.{
  read_teid, parse_teid, parse_no_teid, parse_tiny, parse_small, parse_short,
}
use go_gtp.Gtpv2.Header.Codec.{wire}
use go_gtp.Gtpv2.Header.{Header, blank, has_teid, parse_header, payload_from}

-- The payload is the front of what lies behind the fixed part, whatever the length field says.
pub payload_from_front :
    (pre r : Bytes) (start size : ℕ)
    → start ≡ length pre
    → Ensures (λ p. (rest : Bytes) × (r ≡ p ++ rest)) (payload_from (pre ++ r) start size)
unfolding payload_from
payload_from_front pre r start size e = elim (Bool-cases (ltb (length (pre ++ r)) (size + 4))) [
  | inl long ↦ rw (long, e, from-append pre r) ([], sym (append-nil r))
  | inr fits ↦ elim (Bool-cases (leb start ((4 + size) % 2 ^ 16))) [
    | inl room ↦
        let stop = (4 + size) % 2 ^ 16 in
        let below : stop - start ≤ length r = omega (arith, ltb→le _ _ fits, length-append pre r) in
        let (p, rest, er, len) = split_at r (stop - start) below in
        rw (fits, room, er, slice_mid pre p rest start stop e (omega (arith, leb→le _ _ room)))
          (rest, refl)
    | inr none' ↦ rw (fits, none') tt
  ]
]

-- The input begins with the octets of the header.
abbrev pub Reads : Bytes → Header → Type 0
Reads b h = (rest : Bytes) × (b ≡ wire h ++ rest)

with_payload :
    (b r : Bytes) (h : Bytes → Header) (m : Outcome Bytes)
    → ((p rest : Bytes) → r ≡ p ++ rest → b ≡ wire (h p) ++ rest)
    → Ensures (λ p. (rest : Bytes) × (r ≡ p ++ rest)) m
    → Ensures (Reads b) (m >>= λ p. ok (h p))
with_payload b r h (ok p) k (rest, e) = (rest, k p rest e)
with_payload b r h (err x) k e = tt
with_payload b r h panic k e = e
with_payload b r h stuck k e = e

-- The flag is read from the first octet alone.
pub has_teid-flags : (h : Header) (k size : ℕ) → has_teid h ≡ has_teid (blank h.flags k size)
unfolding has_teid
has_teid-flags h k size = refl

octets_16 : (hi lo : ℕ) → hi < 256 → lo < 256 → be16 (hi * 256 + lo) ≡ hi ∷ lo ∷ []
octets_16 hi lo h1 h2 = ground arith

octets_24 :
    (a b c : ℕ)
    → a < 256
    → b < 256
    → c < 256
    → uint32_to_24 (a * 2 ^ 16 + b * 2 ^ 8 + c) ≡ a ∷ b ∷ c ∷ []
unfolding uint32_to_24
octets_24 a b c h1 h2 h3 = ground arith

octets_32 :
    (a b c d : ℕ)
    → a < 256
    → b < 256
    → c < 256
    → d < 256
    → be32 (a * 2 ^ 24 + b * 2 ^ 16 + c * 2 ^ 8 + d) ≡ a ∷ b ∷ c ∷ d ∷ []
octets_32 a b c d h1 h2 h3 h4 = ground arith

-- The fixed part as a concatenation, with and without TEID.
pub head_teid :
    (h : Header) (x : Bytes)
    → has_teid h ≡ true
    → wire h ++ x
      ≡ h.flags
        ∷ h.kind
        ∷ (be16 h.size
            ++ (be32 h.teid ++ (uint32_to_24 h.sequence_number ++ (h.spare ∷ (h.payload ++ x)))))
unfolding uint32_to_24
head_teid h x t = rw t refl

pub head_no_teid :
    (h : Header) (x : Bytes)
    → has_teid h ≡ false
    → wire h ++ x
      ≡ h.flags
        ∷ h.kind
        ∷ (be16 h.size ++ (uint32_to_24 h.sequence_number ++ (h.spare ∷ (h.payload ++ x))))
unfolding uint32_to_24
head_no_teid h x t = rw t refl

sound_teid :
    (f k hi lo t0 t1 t2 t3 s0 s1 s2 sp : ℕ) (r : Bytes)
    → All IsByte (f ∷ k ∷ hi ∷ lo ∷ t0 ∷ t1 ∷ t2 ∷ t3 ∷ s0 ∷ s1 ∷ s2 ∷ sp ∷ r)
    → has_teid (blank f k (hi * 256 + lo)) ≡ true
    → 8 ≤ hi * 256 + lo
    → Ensures
        (Reads (f ∷ k ∷ hi ∷ lo ∷ t0 ∷ t1 ∷ t2 ∷ t3 ∷ s0 ∷ s1 ∷ s2 ∷ sp ∷ r))
        (parse_header (f ∷ k ∷ hi ∷ lo ∷ t0 ∷ t1 ∷ t2 ∷ t3 ∷ s0 ∷ s1 ∷ s2 ∷ sp ∷ r))
sound_teid f k hi lo t0 t1 t2 t3 s0 s1 s2 sp r
      (_, (_, (bh, (bl, (b0, (b1, (b2, (b3, (c0, (c1, (c2, _))))))))))) t big =
    let pre : Bytes = f ∷ k ∷ hi ∷ lo ∷ t0 ∷ t1 ∷ t2 ∷ t3 ∷ s0 ∷ s1 ∷ s2 ∷ sp ∷ [] in
    rw (parse_teid f k hi lo s0 s1 s2 sp t0 t1 t2 t3 (hi * 256 + lo) r refl t big) (
      with_payload (pre ++ r) r _ _
        (λ p rest e.
          let h =
            read_teid f k (hi * 256 + lo) (t0 * 2 ^ 24 + t1 * 2 ^ 16 + t2 * 2 ^ 8 + t3)
              (s0 * 2 ^ 16 + s1 * 2 ^ 8 + s2) sp p in
          sym (
            head_teid h rest (has_teid-flags h k (hi * 256 + lo) ∙ t) ∙ λ i.
            f
            ∷ k
            ∷ (octets_16 hi lo bh bl i
                ++ (octets_32 t0 t1 t2 t3 b0 b1 b2 b3 i
                    ++ (octets_24 s0 s1 s2 c0 c1 c2 i ++ (sp ∷ sym e i))))))
        (payload_from_front pre r 12 (hi * 256 + lo) refl))

sound_no_teid :
    (f k hi lo s0 s1 s2 sp x0 x1 x2 x3 : ℕ) (r : Bytes)
    → All IsByte (f ∷ k ∷ hi ∷ lo ∷ s0 ∷ s1 ∷ s2 ∷ sp ∷ x0 ∷ x1 ∷ x2 ∷ x3 ∷ r)
    → has_teid (blank f k (hi * 256 + lo)) ≡ false
    → 4 ≤ hi * 256 + lo
    → Ensures
        (Reads (f ∷ k ∷ hi ∷ lo ∷ s0 ∷ s1 ∷ s2 ∷ sp ∷ x0 ∷ x1 ∷ x2 ∷ x3 ∷ r))
        (parse_header (f ∷ k ∷ hi ∷ lo ∷ s0 ∷ s1 ∷ s2 ∷ sp ∷ x0 ∷ x1 ∷ x2 ∷ x3 ∷ r))
sound_no_teid f k hi lo s0 s1 s2 sp x0 x1 x2 x3 r (_, (_, (bh, (bl, (c0, (c1, (c2, _))))))) t big =
    let pre : Bytes = f ∷ k ∷ hi ∷ lo ∷ s0 ∷ s1 ∷ s2 ∷ sp ∷ [] in
    let r' : Bytes = x0 ∷ x1 ∷ x2 ∷ x3 ∷ r in
    rw (parse_no_teid f k hi lo s0 s1 s2 sp x0 x1 x2 x3 (hi * 256 + lo) r refl t big) (
      with_payload (pre ++ r') r' _ _
        (λ p rest e.
          let h = read_teid f k (hi * 256 + lo) 0 (s0 * 2 ^ 16 + s1 * 2 ^ 8 + s2) sp p in
          sym (
            head_no_teid h rest (has_teid-flags h k (hi * 256 + lo) ∙ t) ∙ λ i.
            f ∷ k ∷ (octets_16 hi lo bh bl i ++ (octets_24 s0 s1 s2 c0 c1 c2 i ++ (sp ∷ sym e i)))))
        (payload_from_front pre r' 8 (hi * 256 + lo) refl))

sound_long :
    (f k hi lo y0 y1 y2 y3 y4 y5 y6 y7 : ℕ) (r : Bytes)
    → All IsByte (f ∷ k ∷ hi ∷ lo ∷ y0 ∷ y1 ∷ y2 ∷ y3 ∷ y4 ∷ y5 ∷ y6 ∷ y7 ∷ r)
    → Ensures
        (Reads (f ∷ k ∷ hi ∷ lo ∷ y0 ∷ y1 ∷ y2 ∷ y3 ∷ y4 ∷ y5 ∷ y6 ∷ y7 ∷ r))
        (parse_header (f ∷ k ∷ hi ∷ lo ∷ y0 ∷ y1 ∷ y2 ∷ y3 ∷ y4 ∷ y5 ∷ y6 ∷ y7 ∷ r))
sound_long f k hi lo y0 y1 y2 y3 y4 y5 y6 y7 r hb = elim (Bool-cases (leb 4 (hi * 256 + lo))) [
  | inr tiny ↦ rw (parse_tiny f k hi lo y0 y1 y2 y3 y4 y5 y6 y7 _ r refl (leb→lt _ _ tiny)) tt
  | inl big ↦ elim (Bool-cases (has_teid (blank f k (hi * 256 + lo)))) [
    | inr t ↦ sound_no_teid f k hi lo y0 y1 y2 y3 y4 y5 y6 y7 r hb t (leb→le _ _ big)
    | inl t ↦ elim (Bool-cases (leb 8 (hi * 256 + lo))) [
      | inl more ↦ sound_teid f k hi lo y0 y1 y2 y3 y4 y5 y6 y7 r hb t (leb→le _ _ more)
      | inr less ↦
          rw
            (parse_small f k hi lo y0 y1 y2 y3 y4 y5 y6 y7 _ r refl t (leb→le _ _ big)
              (leb→lt _ _ less))
            tt
    ]
  ]
]

-- On any octets ParseHeader returns: with an error, or with a header whose encoding is the front of
-- the input.
pub parse_header_sound : (b : Bytes) → All IsByte b → Ensures (Reads b) (parse_header b)
parse_header_sound (f ∷ k ∷ hi ∷ lo ∷ y0 ∷ y1 ∷ y2 ∷ y3 ∷ y4 ∷ y5 ∷ y6 ∷ y7 ∷ r) hb =
    sound_long f k hi lo y0 y1 y2 y3 y4 y5 y6 y7 r hb
parse_header_sound b hb = rw (parse_short b (omega arith)) tt

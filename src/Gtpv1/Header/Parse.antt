-- ===== src/Gtpv1/Header/Parse.antt =====
-- UnmarshalBinary of a GTPv1 header on any octets.
use go_gtp.Common.{
  ℕ, suc, ◌+◌, ◌-◌, ◌*◌, ◌%◌, ◌^◌, ◌≤◌, ◌<◌, ◌≡◌, ◌≢◌, refl, sym, ap, ◌∙◌, true, false, [], ◌∷◌,
  ◌++◌, append-nil, ltb, leb, le→ltb, lt→ltb, le→leb, lt→leb, ltb→le, leb→le, leb→lt, if◌then◌else◌,
  Bool-cases, inl, inr, length, length-append, arith,
}
use go_gtp.Common.Outcome.{Outcome, ok, err, panic, stuck, ◌>>=◌, too_short_to_parse, Ensures}
use go_gtp.Common.Bytes.{Bytes, from, from-append, slice_mid, split_at}
use go_gtp.Gtpv1.Header.{Header, read, has_sequence, parse_header, payload_from}

-- The payload is the front of what lies behind the fixed part, whatever the length field says.
payload_from_front :
    (pre r : Bytes) (start size : ℕ)
    → start ≡ length pre
    → Ensures (λ p. (rest : Bytes) × (r ≡ p ++ rest)) (payload_from (pre ++ r) start size)
unfolding payload_from
payload_from_front pre r start size e = elim (Bool-cases (ltb (length (pre ++ r)) (size + 8))) [
  | inl long ↦ rw (long, e, from-append pre r) ([], sym (append-nil r))
  | inr fits ↦ elim (Bool-cases (leb start ((8 + size) % 2 ^ 16))) [
    | inl room ↦
        let stop = (8 + size) % 2 ^ 16 in
        let below : stop - start ≤ length r = omega (arith, ltb→le _ _ fits, length-append pre r) in
        let (p, rest, er, len) = split_at r (stop - start) below in
        rw (fits, room, er, slice_mid pre p rest start stop e (omega (arith, leb→le _ _ room)))
          (rest, refl)
    | inr none' ↦ rw (fits, none') tt
  ]
]

-- What UnmarshalBinary does once the first eight octets and three more are there.
module _ (f k hi lo t0 t1 t2 t3 : ℕ) where
  abbrev pub eight : Bytes → Bytes
  eight r = f ∷ k ∷ hi ∷ lo ∷ t0 ∷ t1 ∷ t2 ∷ t3 ∷ r

  abbrev pub teid_of : ℕ
  teid_of = t0 * 2 ^ 24 + t1 * 2 ^ 16 + t2 * 2 ^ 8 + t3

  pub parse_plain :
      (r : Bytes) (size : ℕ)
      → 3 ≤ length r
      → hi * 256 + lo ≡ size
      → has_sequence (read f k size teid_of 0 []) ≡ false
      → parse_header (eight r)
        ≡ (payload_from (eight r) 8 size >>= λ p. ok (read f k size teid_of 0 p))
  unfolding parse_header
  parse_plain r size h e t =
      let all = suc (suc (suc (suc (suc (suc (suc (suc (length r)))))))) in
      rw (le→ltb all 11 (omega arith), e, t) refl

  pub parse_numbered :
      (s0 s1 z : ℕ) (r : Bytes) (size : ℕ)
      → hi * 256 + lo ≡ size
      → has_sequence (read f k size teid_of 0 []) ≡ true
      → 4 ≤ size
      → parse_header (eight (s0 ∷ s1 ∷ z ∷ r)) ≡ (
          payload_from (eight (s0 ∷ s1 ∷ z ∷ r)) 12 size >>= λ p.
          ok (read f k size teid_of (s0 * 256 + s1) p))
  unfolding parse_header
  parse_numbered s0 s1 z r size e t big =
      let all = suc (suc (suc (suc (suc (suc (suc (suc (suc (suc (suc (length r))))))))))) in
      rw (le→ltb all 11 (omega arith), e, t, le→leb 4 size big) refl

payload_past_end :
    (b : Bytes) (size : ℕ)
    → length b ≡ 11
    → from b 12 ≡ panic
    → 4 ≤ size
    → payload_from b 12 size ≡ panic
unfolding payload_from
payload_past_end b size e cut big = rw (lt→ltb (length b) (size + 8) (omega arith)) cut

-- A packet of eleven octets with the sequence flag and a length field of at least four makes the
-- parser slice past the end of the packet: it panics.
pub parse_header_panics_v1 :
    (f k hi lo t0 t1 t2 t3 x y z : ℕ)
    → has_sequence (read f k (hi * 256 + lo) (teid_of f k hi lo t0 t1 t2 t3) 0 []) ≡ true
    → 4 ≤ hi * 256 + lo
    → parse_header (f ∷ k ∷ hi ∷ lo ∷ t0 ∷ t1 ∷ t2 ∷ t3 ∷ x ∷ y ∷ z ∷ []) ≡ panic
unfolding from
parse_header_panics_v1 f k hi lo t0 t1 t2 t3 x y z t big =
    parse_numbered f k hi lo t0 t1 t2 t3 x y z [] (hi * 256 + lo) refl t big
    ∙ rw
        (payload_past_end (f ∷ k ∷ hi ∷ lo ∷ t0 ∷ t1 ∷ t2 ∷ t3 ∷ x ∷ y ∷ z ∷ []) (hi * 256 + lo)
          refl refl big)
        refl

-- The payload is a part of the packet, behind the eight octets of the fixed part, or twelve with a
-- sequence number.
abbrev pub Cuts : Bytes → Header → Type 0
Cuts b h =
    (pre : Bytes) × (rest : Bytes) × (b ≡ pre ++ (h.payload ++ rest))
    × (length pre ≡ (if has_sequence h then 12 else 8))

with_payload :
    (pre r : Bytes) (h : Bytes → Header) (m : Outcome Bytes)
    → ((p : Bytes) → length pre ≡ (if has_sequence (h p) then 12 else 8))
    → ((p : Bytes) → (h p).payload ≡ p)
    → Ensures (λ p. (rest : Bytes) × (r ≡ p ++ rest)) m
    → Ensures (Cuts (pre ++ r)) (m >>= λ p. ok (h p))
with_payload pre r h (ok p) l q (rest, e) = (
  pre,
  rest,
  ap (λ (y : Bytes). pre ++ y) e ∙ ap (λ (y : Bytes). pre ++ (y ++ rest)) (sym (q p)),
  l p,
)
with_payload pre r h (err x) l q e = tt
with_payload pre r h panic l q e = e
with_payload pre r h stuck l q e = e

-- The flag is read from the first octet alone.
pub has_sequence-flags :
    (f k size teid seq : ℕ) (p : Bytes)
    → has_sequence (read f k size teid seq p) ≡ has_sequence (read f k size teid 0 [])
unfolding has_sequence
has_sequence-flags f k size teid seq p = refl

parse_small :
    (f k hi lo t0 t1 t2 t3 x y z : ℕ) (r : Bytes)
    → has_sequence (read f k (hi * 256 + lo) (teid_of f k hi lo t0 t1 t2 t3) 0 []) ≡ true
    → hi * 256 + lo < 4
    → parse_header (f ∷ k ∷ hi ∷ lo ∷ t0 ∷ t1 ∷ t2 ∷ t3 ∷ x ∷ y ∷ z ∷ r) ≡ err too_short_to_parse
unfolding parse_header
parse_small f k hi lo t0 t1 t2 t3 x y z r t small =
    let all = suc (suc (suc (suc (suc (suc (suc (suc (suc (suc (suc (length r))))))))))) in
    rw (le→ltb all 11 (omega arith), t, lt→leb 4 (hi * 256 + lo) small) refl

sound_long :
    (f k hi lo t0 t1 t2 t3 x y z w : ℕ) (r : Bytes)
    → Ensures
        (Cuts (f ∷ k ∷ hi ∷ lo ∷ t0 ∷ t1 ∷ t2 ∷ t3 ∷ x ∷ y ∷ z ∷ w ∷ r))
        (parse_header (f ∷ k ∷ hi ∷ lo ∷ t0 ∷ t1 ∷ t2 ∷ t3 ∷ x ∷ y ∷ z ∷ w ∷ r))
sound_long f k hi lo t0 t1 t2 t3 x y z w r =
    let size = hi * 256 + lo in
    let teid = teid_of f k hi lo t0 t1 t2 t3 in
    let pre : Bytes = f ∷ k ∷ hi ∷ lo ∷ t0 ∷ t1 ∷ t2 ∷ t3 ∷ [] in
    elim (Bool-cases (has_sequence (read f k size teid 0 []))) [
      | inr t ↦
          rw (parse_plain f k hi lo t0 t1 t2 t3 (x ∷ y ∷ z ∷ w ∷ r) size (omega arith) refl t) (
            with_payload pre (x ∷ y ∷ z ∷ w ∷ r) (read f k size teid 0) _
              (λ p. rw (has_sequence-flags f k size teid 0 p, t) refl) (λ p. refl)
              (payload_from_front pre (x ∷ y ∷ z ∷ w ∷ r) 8 size refl))
      | inl t ↦ elim (Bool-cases (leb 4 size)) [
        | inr small ↦ rw (parse_small f k hi lo t0 t1 t2 t3 x y z (w ∷ r) t (leb→lt _ _ small)) tt
        | inl big ↦
            rw (parse_numbered f k hi lo t0 t1 t2 t3 x y z (w ∷ r) size refl t (leb→le _ _ big)) (
              with_payload (pre ++ (x ∷ y ∷ z ∷ w ∷ [])) r (read f k size teid (x * 256 + y)) _
                (λ p. rw (has_sequence-flags f k size teid (x * 256 + y) p, t) refl) (λ p. refl)
                (payload_from_front (pre ++ (x ∷ y ∷ z ∷ w ∷ [])) r 12 size refl))
      ]
    ]

parse_short : (b : Bytes) → length b < 11 → parse_header b ≡ err too_short_to_parse
unfolding parse_header
parse_short b h = rw (lt→ltb (length b) 11 h) refl

-- On a packet of any length but eleven octets ParseHeader returns: with an error, or with a header
-- whose payload is a part of the packet.
pub parse_header_sound_v1 : (b : Bytes) → length b ≢ 11 → Ensures (Cuts b) (parse_header b)
parse_header_sound_v1 (f ∷ k ∷ hi ∷ lo ∷ t0 ∷ t1 ∷ t2 ∷ t3 ∷ x ∷ y ∷ z ∷ w ∷ r) h =
    sound_long f k hi lo t0 t1 t2 t3 x y z w r
parse_header_sound_v1 (f ∷ k ∷ hi ∷ lo ∷ t0 ∷ t1 ∷ t2 ∷ t3 ∷ x ∷ y ∷ z ∷ []) h = absurd (h refl)
parse_header_sound_v1 b h = rw (parse_short b (omega arith)) tt

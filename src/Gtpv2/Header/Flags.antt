-- ===== src/Gtpv2/Header/Flags.antt =====
-- The flag octet of a GTPv2 header: what the constructor and the setters do to each bit.
use go_gtp.Common.{
  ℕ, ◌+◌, ◌*◌, ◌/◌, ◌%◌, ◌^◌, ◌<◌, ◌≡◌, refl, Bool, true, false, ◌&&◌, ◌==◌, ==_iff, arith, bit_and,
  bit_or, length,
}
use go_gtp.Common.Bytes.{Bytes}
use go_gtp.Common.Bits.{table, table-row}
use go_gtp.Gtpv2.Header.{
  Header, has_teid, is_piggybacking, has_message_priority, new_header_flags, new_header, set_teid,
  teid_of, set_piggybacking,
}
use go_gtp.Gtpv2.Header.RoundTrip.{IsWf}

one_bit_table : table 64 (λ x. bit_and x 0x01 == x % 2) ≡ true
unfolding table
one_bit_table = refl

one_bit : (x : ℕ) → x < 64 → bit_and x 0x01 ≡ x % 2
one_bit x h = (==_iff _ _).0 (table-row _ 64 x h one_bit_table)

flags_table :
    table 8 (λ v. table 2 (λ p. table 2 (λ t. new_header_flags v p t == v * 32 + p * 16 + t * 8)))
    ≡ true
unfolding table new_header_flags
flags_table = refl

-- NewHeaderFlags puts the version into the upper three bits and the two flags below it.
pub new_header_flags_lem :
    (v p t : ℕ) → v < 8 → p < 2 → t < 2 → new_header_flags v p t ≡ v * 32 + p * 16 + t * 8
new_header_flags_lem v p t hv hp ht =
    (==_iff _ _).0 (table-row _ 2 t ht (table-row _ 2 p hp (table-row _ 8 v hv flags_table)))

-- A header made with NewHeaderFlags has a TEID, and is piggybacking, exactly as the arguments say,
-- and has no message priority.
pub new_header-flags :
    (v p t mtype teid seqnum : ℕ) (b : Bytes)
    → v < 8
    → p < 2
    → t < 2
    → let h = new_header (new_header_flags v p t) mtype teid seqnum b in
      (has_teid h ≡ (t == 1)) × (is_piggybacking h ≡ (p == 1)) × (has_message_priority h ≡ false)
unfolding has_teid is_piggybacking has_message_priority new_header
new_header-flags v p t mtype teid seqnum b hv hp ht =
    let f = new_header_flags v p t in
    let e = new_header_flags_lem v p t hv hp ht in
    let e3 : bit_and (f / 2 ^ 3) 1 ≡ t = omega (arith, e, one_bit (f / 2 ^ 3) (omega (arith, e))) in
    let e4 : bit_and (f / 2 ^ 4) 1 ≡ p = omega (arith, e, one_bit (f / 2 ^ 4) (omega (arith, e))) in
    let e2 : bit_and (f / 2 ^ 2) 1 ≡ 0 = omega (arith, e, one_bit (f / 2 ^ 2) (omega (arith, e))) in
    (rw e3 refl, rw e4 refl, rw e2 refl)

-- NewHeader of fields in range is well formed, if the flags ask for a TEID or it is zero.
pub new_header-IsWf :
    (flags mtype teid seqnum : ℕ) (b : Bytes)
    → flags < 256
    → mtype < 256
    → teid < 2 ^ 32
    → seqnum < 2 ^ 24
    → length b + 12 < 2 ^ 16
    → (has_teid (new_header flags mtype teid seqnum b) ≡ false → teid ≡ 0)
    → IsWf (new_header flags mtype teid seqnum b)
unfolding new_header has_teid
new_header-IsWf flags mtype teid seqnum b hf hm ht hs hb h0 = record {
  flags_fit = hf;
  kind_fits = hm;
  size_counts = ground arith;
  size_fits = ground arith;
  teid_fits = ht;
  no_teid = h0;
  seq_fits = hs;
  spare_fits = omega arith;
}

-- A bit of the flag octet, as the predicates read it.
abbrev flag : ℕ → ℕ → ℕ
flag k f = bit_and (f / 2 ^ k) 0x01

abbrev both : Bool → Bool → Bool
both a b = a && b

both_split : (a b : Bool) → both a b ≡ true → (a ≡ true) × (b ≡ true)
both_split true b e = (refl, e)
both_split false b e = cc

teid_table :
    table 256 (λ f.
      flag 3 (bit_or f (2 ^ 3)) == 1
      && (flag 4 (bit_or f (2 ^ 3)) == flag 4 f && flag 2 (bit_or f (2 ^ 3)) == flag 2 f))
    ≡ true
unfolding table
teid_table = refl

piggybacking_table :
    table 2 (λ v. table 256 (λ f.
      let g = bit_or (bit_and f 0xef) (bit_and v 0x01 * 2 ^ 4 % 256) in
      flag 4 g == v && (flag 3 g == flag 3 f && flag 2 g == flag 2 f)))
    ≡ true
unfolding table
piggybacking_table = refl

-- Three equations out of a table's row.
row : (a b c d e f : ℕ) → (a == b && (c == d && e == f)) ≡ true → (a ≡ b) × (c ≡ d) × (e ≡ f)
row a b c d e f h =
    let (h1, h') = both_split (a == b) (c == d && e == f) h in
    let (h2, h3) = both_split (c == d) (e == f) h' in
    ((==_iff _ _).0 h1, (==_iff _ _).0 h2, (==_iff _ _).0 h3)

-- On a header whose flags are an octet, SetTEID makes the header carry the given TEID and leaves
-- the other two flags, the sequence number and the payload as they were.
pub set_teid_lem :
    (teid : ℕ) (h : Header)
    → h.flags < 256
    → (has_teid (set_teid teid h) ≡ true)
      × (teid_of (set_teid teid h) ≡ teid)
      × (is_piggybacking (set_teid teid h) ≡ is_piggybacking h)
      × (has_message_priority (set_teid teid h) ≡ has_message_priority h)
      × ((set_teid teid h).sequence_number ≡ h.sequence_number)
      × ((set_teid teid h).payload ≡ h.payload)
unfolding has_teid teid_of is_piggybacking has_message_priority set_teid
set_teid_lem teid h hf =
    let f = h.flags in
    let g = bit_or f (2 ^ 3) in
    let (e3, e4, e2) =
      row (flag 3 g) 1 (flag 4 g) (flag 4 f) (flag 2 g) (flag 2 f)
        (table-row _ 256 f hf teid_table) in
    (rw e3 refl, rw e3 refl, rw e4 refl, rw e2 refl, refl, refl)

-- SetPiggybacking of 0 or 1 sets that flag alone.
pub set_piggybacking_lem :
    (val : ℕ) (h : Header)
    → val < 2
    → h.flags < 256
    → (is_piggybacking (set_piggybacking val h) ≡ (val == 1))
      × (has_teid (set_piggybacking val h) ≡ has_teid h)
      × (has_message_priority (set_piggybacking val h) ≡ has_message_priority h)
unfolding has_teid is_piggybacking has_message_priority set_piggybacking
set_piggybacking_lem val h hv hf =
    let f = h.flags in
    let g = bit_or (bit_and f 0xef) (bit_and val 0x01 * 2 ^ 4 % 256) in
    let (e4, e3, e2) =
      row (flag 4 g) val (flag 3 g) (flag 3 f) (flag 2 g) (flag 2 f)
        (table-row _ 256 f hf (table-row _ 2 val hv piggybacking_table)) in
    (rw e4 refl, rw e3 refl, rw e2 refl)

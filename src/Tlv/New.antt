-- ===== src/Tlv/New.antt =====
-- What becomes of the payload given to New, once it is encoded and decoded (gtpv0/ie, gtpv1/ie).
use go_gtp.Common.{
  ℕ, suc, ◌<◌, ◌≤◌, ◌≡◌, ◌/◌, ◌%◌, ◌^◌, ap, sym, ◌∙◌, refl, true, false, [], ◌∷◌, Option, none,
  some, arith, length, length-append, append-nil, lt→ltb, le→ltb, length-replicate,
}
use go_gtp.Common.Outcome.{ok, ◌>>=◌}
use go_gtp.Common.Bytes.{Bytes, copy, make}
use go_gtp.Common.Endian.{be16_value}
use go_gtp.Tlv.{ie, is_tv, new, marshal, parse}
use go_gtp.Tlv.Encode.{IsTvTable, marshal-octets, length-copy}
use go_gtp.Tlv.Decode.{parse_tv, parse_tlv, tlv_unlisted}
use go_gtp.Tlv.RoundTrip.{parse-listed}

module _ (table : ℕ → Option ℕ) (tvs : IsTvTable table) where
  -- A payload given for a TV type whose length in the table is not 0 comes back cut or padded with
  -- zeros to that length.
  pub parse-marshal-new_listed :
      (t l : ℕ) (p : Bytes)
      → table t ≡ some (suc l)
      → (marshal table (new table t p) >>= λ b. parse table b) ≡ ok (ie t 0 (copy (make (suc l)) p))
  unfolding new
  parse-marshal-new_listed t l p known =
      let tv : is_tv t ≡ true = lt→ltb _ _ (tvs t (suc l) known) in
      let c = copy (make (suc l)) p in
      let lc : length c ≡ suc l =
        length-copy (make (suc l)) p ∙ length-replicate {A = ℕ} (suc l) 0 in
      rw (marshal-octets table tvs (new table t p), known, tv)
        (rw append-nil at (
          parse-listed table tvs t (suc l) c [] tv (rw known (omega arith)) lc
            (omega (arith, length-append c []))))

  -- A payload given for a TV type outside of the table is written but not read back: the element
  -- comes back without it.
  pub parse-marshal-new_unlisted :
      (t x : ℕ) (p : Bytes)
      → t < 128
      → table t ≡ none
      → (marshal table (new table t (x ∷ p)) >>= λ b. parse table b) ≡ ok (ie t 0 [])
  unfolding new
  parse-marshal-new_unlisted t x p lt unknown =
      let tv : is_tv t ≡ true = lt→ltb _ _ lt in
      rw (marshal-octets table tvs (new table t (x ∷ p)), unknown, tv)
        (parse_tv table t x 0 p [] (x ∷ p) tv (rw (unknown, tv) refl) refl refl)

  -- A payload given for a TLV type comes back whole if it is shorter than 2 ^ 16 octets.
  pub parse-marshal-new_tlv :
      (t : ℕ) (p : Bytes)
      → 128 ≤ t
      → length p < 2 ^ 16
      → (marshal table (new table t p) >>= λ b. parse table b) ≡ ok (ie t (length p) p)
  unfolding new
  parse-marshal-new_tlv t p le h =
      let tlv : is_tv t ≡ false = le→ltb _ _ le in
      let n : length p % 2 ^ 16 ≡ length p = omega arith in
      let unknown = tlv_unlisted table tvs t tlv in
      let v = be16_value (length p) h in
      rw (marshal-octets table tvs (new table t p), unknown, tlv, n)
        (rw append-nil at (
          parse_tlv table t (length p / 256 % 256) (length p % 256) p [] tlv (sym v)
          ∙ ap (λ (k : ℕ). ok (ie t k p)) v))

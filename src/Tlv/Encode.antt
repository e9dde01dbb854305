-- ===== src/Tlv/Encode.antt =====
-- What MarshalTo of gtpv0/ie and gtpv1/ie writes.
use go_gtp.Common.{
  ℕ, suc, ◌+◌, ◌<◌, ◌≡◌, ap, ◌∙◌, refl, true, false, [], ◌∷◌, ◌++◌, Option, none, some, arith,
  length, drop_exact, append-nil, if◌then◌else◌, Bool-cases, Option-cases, inl, inr, le→ltb, lt→ltb,
  length-replicate,
}
use go_gtp.Common.Outcome.{ok}
use go_gtp.Common.Bytes.{Bytes, slice, slice_mid, put-append, copy, copy_at, make, copy_zeros}
use go_gtp.Common.Endian.{be16}
use go_gtp.Tlv.{Ie, is_tv, marshal_len, marshal}

-- The payload as it is stored: cut or padded with zeros to the table's length, whole without one.
abbrev pub stored : Option ℕ → Bytes → Bytes
stored (some l) p = copy (make l) p
stored none p = p

-- The octets of an element whose type has the given entry in the table.
abbrev pub octets : Option ℕ → Ie → Bytes
octets o i =
    if is_tv i.kind
    then i.kind ∷ stored o i.payload
    else (i.kind ∷ (be16 i.size ++ stored o i.payload))

pub length-copy : (b src : Bytes) → length (copy b src) ≡ length b
unfolding copy
length-copy b [] = refl
length-copy [] (s ∷ ss) = refl
length-copy (x ∷ b) (s ∷ ss) = ap suc (length-copy b ss)

-- Filling a whole window of a fresh buffer.
window :
    (pre src : Bytes) (l lo hi : ℕ)
    → lo ≡ length pre
    → hi ≡ lo + l
    → copy_at (pre ++ make l) lo hi src ≡ ok (pre ++ copy (make l) src)
unfolding copy_at
window pre src l lo hi elo ehi =
    let len : length (make l) ≡ l = length-replicate {A = ℕ} l 0 in
    let cut : slice (pre ++ make l) lo hi ≡ ok (make l) =
      rw append-nil at (slice_mid pre (make l) [] lo hi elo (omega arith)) in
    let c = copy (make l) src in
    let lc : length c ≡ l = length-copy (make l) src ∙ len in
    rw
      (
        cut,
        elo,
        put-append pre (make l) c (omega arith),
        drop_exact (make l) (length c) (omega arith),
        append-nil c,
      )
      refl

module _ (table : ℕ → Option ℕ) where
  marshal_tv :
      (i : Ie) (l : ℕ)
      → is_tv i.kind ≡ true
      → marshal_len table i ≡ suc l
      → marshal table i ≡ ok (i.kind ∷ copy (make l) i.payload)
  unfolding marshal
  marshal_tv i l tv len =
      rw
        (
          len,
          le→ltb (suc (length (make l))) (suc l) (omega (arith, length-replicate {A = ℕ} l 0)),
          tv,
          len,
        )
        (window (i.kind ∷ []) i.payload l 1 (suc l) refl (omega arith))

  marshal_tlv :
      (i : Ie) (l : ℕ)
      → is_tv i.kind ≡ false
      → marshal_len table i ≡ suc (suc (suc l))
      → marshal table i ≡ ok (i.kind ∷ (be16 i.size ++ copy (make l) i.payload))
  unfolding marshal
  marshal_tlv i l tv len =
      rw
        (
          len,
          le→ltb (suc (suc (suc (length (make l))))) (suc (suc (suc l)))
              (omega (arith, length-replicate {A = ℕ} l 0)),
          tv,
          len,
        )
        (window (i.kind ∷ be16 i.size) i.payload l 3 (suc (suc (suc l))) refl (omega arith))

  -- The table has entries for TV types only.
  abbrev pub IsTvTable : Type 0
  IsTvTable = (t l : ℕ) → table t ≡ some l → t < 128

  -- Marshal never fails: it returns the octets of the element, with the payload cut or padded
  -- with zeros to the length in the table where the type has one.
  pub marshal-octets : IsTvTable → (i : Ie) → marshal table i ≡ ok (octets (table i.kind) i)
  marshal-octets tvs i = elim (Option-cases (table i.kind)) [
    | inl unknown ↦ elim (Bool-cases (is_tv i.kind)) [
      | inl tv ↦
          marshal_tv i (length i.payload) tv (rw (unknown, tv) (omega arith))
          ∙ rw (unknown, tv, copy_zeros i.payload) refl
      | inr tlv ↦
          marshal_tlv i (length i.payload) tlv (rw (unknown, tlv) (omega arith))
          ∙ rw (unknown, tlv, copy_zeros i.payload) refl
    ]
    | inr (l, known) ↦
        let tv : is_tv i.kind ≡ true = lt→ltb _ _ (tvs i.kind l known) in
        marshal_tv i l tv (rw known (omega arith)) ∙ rw (known, tv) refl
  ]

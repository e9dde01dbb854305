-- ===== src/Tlv/RoundTrip.antt =====
-- Decoding what was encoded, and the loop of ParseMultiIEs, in gtpv0/ie and gtpv1/ie.
use go_gtp.Common.{
  ℕ, zero, suc, ◌+◌, ◌/◌, ◌%◌, ◌<◌, ◌≤◌, ◌≡◌, ap, sym, subst, ◌∙◌, refl, Bool, true, false, List,
  [], ◌∷◌, ◌++◌, Option, none, some, arith, length, length-append, All, All-right, length-replicate,
}
use go_gtp.Common.Outcome.{Outcome, ok, err, panic, stuck, Ensures, ◌>>=◌}
use go_gtp.Common.Bytes.{Bytes, IsByte, from, from-append, copy_all, make}
use go_gtp.Common.Endian.{be16_value}
use go_gtp.Tlv.{
  Ie, ie, is_tv, serial_len, marshal_len, marshal, parse, parse_multi, parse_multi_ies,
}
use go_gtp.Tlv.Encode.{octets, IsTvTable, marshal-octets}
use go_gtp.Tlv.Decode.{Form, IsWf, wire, parse_tv, parse_tlv, Reads, parse_reads, length-wire_form}

-- The octets of a sequence of elements.
abbrev pub wires : List Ie → Bytes
wires [] = []
wires (i ∷ is) = wire i ++ wires is

octets-Form :
    (v : Bool) (o : Option ℕ) (i : Ie) → Form v o i → is_tv i.kind ≡ v → octets o i ≡ wire i
octets-Form true (some l) i (el, ez) tv =
    rw (tv, copy_all (make l) i.payload (el ∙ sym (length-replicate {A = ℕ} l 0))) refl
octets-Form true none i (ep, ez) tv = rw tv refl
octets-Form false (some l) i (eo, ez, lt) tlv = cc
octets-Form false none i (eo, ez, lt) tlv = rw tlv refl

module _ (table : ℕ → Option ℕ) (tvs : IsTvTable table) where
  -- Marshal writes a well-formed element as its octets.
  pub marshal-form : (i : Ie) → IsWf table i → marshal table i ≡ ok (wire i)
  marshal-form i w =
      marshal-octets table tvs i
      ∙ ap (λ b. ok b) (octets-Form (is_tv i.kind) (table i.kind) i w refl)

  -- A TV element whose octets are `t ∷ p`.
  pub parse-listed :
      (t l : ℕ) (p rest : Bytes)
      → is_tv t ≡ true
      → serial_len (table t) t [] ≡ suc l
      → length p ≡ l
      → 2 ≤ length (t ∷ (p ++ rest))
      → parse table (t ∷ (p ++ rest)) ≡ ok (ie t 0 p)
  parse-listed t l [] [] tv len lp h = absurd (omega arith)
  parse-listed t l [] (x ∷ r) tv len lp h = parse_tv table t x l r [] (x ∷ r) tv len refl lp
  parse-listed t l (x ∷ p) rest tv len lp h =
      parse_tv table t x l (p ++ rest) (x ∷ p) rest tv len refl lp

  parse-Form :
      (v : Bool) (o : Option ℕ) (t l : ℕ) (p rest : Bytes)
      → Form v o (ie t l p)
      → is_tv t ≡ v
      → table t ≡ o
      → 2 ≤ length (wire (ie t l p) ++ rest)
      → parse table (wire (ie t l p) ++ rest) ≡ ok (ie t l p)
  parse-Form true (some n) t l p rest (el, ez) tv known h =
      rw (tv, ez) (parse-listed t n p rest tv (rw known (omega arith)) el (rw tv at h))
  parse-Form true none t l p rest (ep, ez) tv unknown h =
      rw (tv, ez) (parse-listed t 0 p rest tv (rw (unknown, tv) refl) (ap length ep) (rw tv at h))
  parse-Form false o t l p rest (eo, ez, lt) tlv eo' h =
      let v = be16_value l lt in
      rw tlv (
        parse_tlv table t (l / 256 % 256) (l % 256) p rest tlv (sym ez ∙ sym v)
        ∙ ap (λ (k : ℕ). ok (ie t k p)) v)

  -- Parse reads back a well-formed element, whatever follows it. Two octets have to be there.
  pub parse-wire_form :
      (i : Ie) (rest : Bytes)
      → IsWf table i
      → 2 ≤ length (wire i ++ rest)
      → parse table (wire i ++ rest) ≡ ok i
  parse-wire_form i rest w h =
      parse-Form (is_tv i.kind) (table i.kind) i.kind i.size i.payload rest w refl refl h

  -- Every element has two octets at least, so that Parse takes it at the end of a packet, too.
  abbrev pub AllWf : List Ie → Type 0
  AllWf = All (λ i. IsWf table i × (2 ≤ length (wire i)))

  parse_multi-cons :
      (f : ℕ) (b : Bytes) (i : Ie) (rest : Bytes)
      → b ≡ wire i ++ rest
      → IsWf table i
      → 0 < length b
      → parse table b ≡ ok i
      → parse_multi table (suc f) b ≡ (parse_multi table f rest >>= λ is. ok (i ∷ is))
  unfolding parse_multi
  parse_multi-cons f [] i rest e w pos u = absurd (omega arith)
  parse_multi-cons f (x ∷ b) i rest e w pos u =
      let cut : from (x ∷ b) (marshal_len table i) ≡ ok rest =
        rw (e, ← length-wire_form table i w) (from-append (wire i) rest) in
      rw (u, cut) refl

  parse_multi-wires :
      (is : List Ie) (f : ℕ)
      → AllWf is
      → length (wires is) < f
      → parse_multi table f (wires is) ≡ ok is
  unfolding parse_multi
  parse_multi-wires is zero w h = absurd (omega arith)
  parse_multi-wires [] (suc f) w h = refl
  parse_multi-wires (i ∷ is) (suc f) ((w, two), ws) h =
      let l = length-append (wire i) (wires is) in
      parse_multi-cons f (wire i ++ wires is) i (wires is) refl w (omega arith)
        (parse-wire_form i (wires is) w (omega arith))
      ∙ ap (λ (m : Outcome (List Ie)). m >>= λ is. ok (i ∷ is))
          (parse_multi-wires is f ws (omega arith))

  -- ParseMultiIEs reads back a sequence of elements, in their order.
  pub parse_multi_ies-wires_form :
      (is : List Ie) → AllWf is → parse_multi_ies table (wires is) ≡ ok is
  unfolding parse_multi_ies
  parse_multi_ies-wires_form is w = parse_multi-wires is (length (wires is) + 1) w (omega arith)

  -- The elements are well formed and their octets are the input.
  abbrev pub ReadsAll : Bytes → List Ie → Type 0
  ReadsAll b is = All (IsWf table) is × (b ≡ wires is)

  join :
      (b : Bytes) (i : Ie) (rest : Bytes) (m : Outcome (List Ie))
      → IsWf table i
      → b ≡ wire i ++ rest
      → Ensures (ReadsAll rest) m
      → Ensures (ReadsAll b) (m >>= λ is. ok (i ∷ is))
  join b i rest (ok is) w e (ws, es) = ((w, ws), e ∙ ap (λ r. wire i ++ r) es)
  join b i rest (err x) w e h = tt
  join b i rest panic w e h = h
  join b i rest stuck w e h = h

  step :
      (f : ℕ) (b : Bytes) (m : Outcome Ie)
      → ((i : Ie) (rest : Bytes)
          → b ≡ wire i ++ rest
          → Ensures (ReadsAll rest) (parse_multi table f rest))
      → Ensures (Reads table b) m
      → Ensures (ReadsAll b) (
          m >>= λ i.
          from b (marshal_len table i) >>= λ rest. parse_multi table f rest >>= λ is. ok (i ∷ is))
  step f b (ok i) k (w, (rest, e)) =
      let cut : from b (marshal_len table i) ≡ ok rest =
        rw (e, ← length-wire_form table i w) (from-append (wire i) rest) in
      rw cut (join b i rest (parse_multi table f rest) w e (k i rest e))
  step f b (err x) k h = tt
  step f b panic k h = h
  step f b stuck k h = h

  wire_pos : (i : Ie) → 1 ≤ length (wire i)
  wire_pos i = ground arith

  read_wires :
      (f : ℕ) (b : Bytes)
      → All IsByte b
      → length b < f
      → Ensures (ReadsAll b) (parse_multi table f b)
  unfolding parse_multi
  read_wires zero b hb h = absurd (omega arith)
  read_wires (suc f) [] hb h = (tt, refl)
  read_wires (suc f) (x ∷ b) hb h =
      step f (x ∷ b) (parse table (x ∷ b))
        (λ i rest e.
          read_wires f rest (All-right IsByte (wire i) rest (subst (All IsByte) e hb))
            (omega (arith, ap length e, length-append (wire i) rest, wire_pos i)))
        (parse_reads table tvs (x ∷ b) hb)

  -- On any octets ParseMultiIEs ends: with an error, or with elements whose octets are the input.
  pub parse_multi_ies_reads :
      (b : Bytes) → All IsByte b → Ensures (ReadsAll b) (parse_multi_ies table b)
  unfolding parse_multi_ies
  parse_multi_ies_reads b hb = read_wires (length b + 1) b hb (omega arith)

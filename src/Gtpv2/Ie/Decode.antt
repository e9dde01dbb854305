-- ===== src/Gtpv2/Ie/Decode.antt =====
-- UnmarshalBinary and ParseMultiIEs of gtpv2/ie/ie.go on any octets.
use go_gtp.Common.{
  ℕ, zero, suc, ◌+◌, ◌-◌, ◌*◌, ◌/◌, ◌%◌, ◌<◌, ◌≤◌, ◌≡◌, ap, subst, sym, ◌∙◌, refl, true, false, [],
  ◌∷◌, ◌++◌, arith, length, length-append, All, Bool-cases, inl, inr, le→ltb, leb, le→leb, lt→leb,
  leb→lt, leb→le, All-left, All-right,
}
use go_gtp.Common.Outcome.{ok, err, panic, stuck, ◌>>=◌, Ensures, Outcome, invalid_length}
use go_gtp.Common.Bytes.{Bytes, IsByte, from, from-append, split_at, slice_mid, index}
use go_gtp.Common.Endian.{uint16_at}
use go_gtp.Gtpv2.Ie.{
  Ie, ie, Ies, nil, cons, is_grouped, marshal_len, unmarshal, parse_multi, parse, parse_multi_ies,
}
use go_gtp.Gtpv2.Ie.Encode.{four_le-marshal_len}
use go_gtp.Gtpv2.Ie.Wire.{wire, wires, length-wire, IsWf, AllWf}

-- The element is well formed, and its octets are the front of the input.
abbrev pub Reads : Bytes → Ie → Type 0
Reads b i = IsWf i × ((rest : Bytes) × (b ≡ wire i ++ rest))

abbrev pub ReadsAll : Bytes → Ies → Type 0
ReadsAll b is = AllWf is × (b ≡ wires is)

-- The step behind the head, which looks at the children of a grouped element.
abbrev pub finish : ℕ → ℕ → ℕ → ℕ → Bytes → Outcome Ie
finish f t l n p = elim (is_grouped t) [
  | true ↦ do cs ← parse_multi f p; ok (ie t l n p cs)
  | false ↦ ok (ie t l n p nil)
]

-- The decoder on a complete element, whatever follows it.
pub unmarshal-head :
    (f t hi lo n l : ℕ) (p rest : Bytes)
    → hi * 256 + lo ≡ l
    → length p ≡ l
    → unmarshal (suc f) (t ∷ hi ∷ lo ∷ n ∷ (p ++ rest)) ≡ finish f t l n p
unfolding unmarshal index uint16_at
unmarshal-head f t hi lo n l p rest el ep =
    let len = length (p ++ rest) in
    rw
      (
        le→ltb (suc (suc (suc (suc len)))) 4 (omega arith),
        el,
        le→leb l (suc (suc (suc (suc len))) - 4) (omega (arith, length-append p rest)),
        slice_mid (t ∷ hi ∷ lo ∷ n ∷ []) p rest 4 (4 + l) refl (omega arith),
      )
      (ap (λ (k : ℕ). finish f t k n p) el)

unmarshal_cut :
    (f t hi lo n : ℕ) (r : Bytes)
    → length r < hi * 256 + lo
    → unmarshal (suc f) (t ∷ hi ∷ lo ∷ n ∷ r) ≡ err invalid_length
unfolding unmarshal index uint16_at
unmarshal_cut f t hi lo n r h =
    rw
      (
        le→ltb (suc (suc (suc (suc (length r))))) 4 (omega arith),
        lt→leb (hi * 256 + lo) (suc (suc (suc (suc (length r)))) - 4) (omega arith),
      )
      refl

collect :
    (t l n : ℕ) (p : Bytes) (b : Bytes) (m : Outcome Ies)
    → ((cs : Ies) → ReadsAll p cs → Reads b (ie t l n p cs))
    → Ensures (ReadsAll p) m
    → Ensures (Reads b) (m >>= λ cs. ok (ie t l n p cs))
collect t l n p b (ok cs) k h = k cs h
collect t l n p b (err e) k h = tt
collect t l n p b panic k h = h
collect t l n p b stuck k h = h

-- The loop's tail, with the first element at hand.
join :
    (b : Bytes) (i : Ie) (rest : Bytes) (m : Outcome Ies)
    → IsWf i
    → b ≡ wire i ++ rest
    → Ensures (ReadsAll rest) m
    → Ensures (ReadsAll b) (m >>= λ is. ok (cons i is))
unfolding wire
join b i rest (ok is) w e (ws, es) = ((w, ws), e ∙ ap (λ r. wire i ++ r) es)
join b i rest (err x) w e h = tt
join b i rest panic w e h = h
join b i rest stuck w e h = h

-- The rest that the loop goes on with is what lies behind the element.
step :
    (f : ℕ) (b : Bytes) (m : Outcome Ie)
    → ((i : Ie) (rest : Bytes)
        → IsWf i
        → b ≡ wire i ++ rest
        → Ensures (ReadsAll rest) (parse_multi f rest))
    → Ensures (Reads b) m
    → Ensures
        (ReadsAll b)
        (m >>= λ i. from b (marshal_len i) >>= λ rest. parse_multi f rest >>= λ is. ok (cons i is))
step f b (ok i) k (w, (rest, e)) =
    let cut : from b (marshal_len i) ≡ ok rest =
      rw (e, ← length-wire i) (from-append (wire i) rest) in
    rw cut (join b i rest (parse_multi f rest) w e (k i rest w e))
step f b (err x) k h = tt
step f b panic k h = h
step f b stuck k h = h

head_back :
    (t hi lo n : ℕ) (r : Bytes)
    → hi < 256
    → lo < 256
    → t ∷ hi ∷ lo ∷ n ∷ r ≡ t ∷ (hi * 256 + lo) / 256 % 256 ∷ (hi * 256 + lo) % 256 ∷ n ∷ r
head_back t hi lo n r h1 h2 =
    let e1 : (hi * 256 + lo) / 256 % 256 ≡ hi = omega arith in
    let e2 : (hi * 256 + lo) % 256 ≡ lo = omega arith in rw (e1, e2) refl

module _ (f t hi lo n : ℕ) (p rest : Bytes) (ht : t < 256) (hhi : hi < 256) (hlo : lo < 256)
    (hn : n < 256) (hp : All IsByte p) (len : length p ≡ hi * 256 + lo) where
  read_flat :
      is_grouped t ≡ false → Reads (t ∷ hi ∷ lo ∷ n ∷ (p ++ rest)) (ie t (hi * 256 + lo) n p nil)
  unfolding wire
  read_flat g =
      rw g
        ((ht, sym len, omega arith, hn, hp, refl), (rest, head_back t hi lo n (p ++ rest) hhi hlo))

  read_grouped :
      is_grouped t ≡ true
      → (cs : Ies) → ReadsAll p cs
      → Reads (t ∷ hi ∷ lo ∷ n ∷ (p ++ rest)) (ie t (hi * 256 + lo) n p cs)
  unfolding wire
  read_grouped g cs (w, e) = rw g (
    (ht, sym len, omega arith, hn, hp, (e, w)),
    (rest, rw (← e) (head_back t hi lo n (p ++ rest) hhi hlo)),
  )

  read_finish :
      Ensures (ReadsAll p) (parse_multi f p)
      → Ensures (Reads (t ∷ hi ∷ lo ∷ n ∷ (p ++ rest))) (finish f t (hi * 256 + lo) n p)
  read_finish h = elim (Bool-cases (is_grouped t)) [
    | inl g ↦ rw (g, Ensures) (collect t _ n p _ (parse_multi f p) (read_grouped g) h)
    | inr g ↦ rw (g, Ensures) (read_flat g)
  ]

mutual
  unfolding unmarshal wire

  read_wire :
      (f : ℕ) (b : Bytes) → All IsByte b → length b ≤ f → 0 < f → Ensures (Reads b) (unmarshal f b)
  read_wire zero b hb h pos = absurd (omega arith)
  read_wire (suc f) [] hb h pos = tt
  read_wire (suc f) (x0 ∷ []) hb h pos = tt
  read_wire (suc f) (x0 ∷ x1 ∷ []) hb h pos = tt
  read_wire (suc f) (x0 ∷ x1 ∷ x2 ∷ []) hb h pos = tt
  read_wire (suc f) (t ∷ hi ∷ lo ∷ n ∷ r) hb h pos =
      elim (Bool-cases (leb (hi * 256 + lo) (length r))) [
        | inl fits ↦
            let (p, rest, e, len) = split_at r (hi * 256 + lo) (leb→le _ _ fits) in
            let (ht, (hhi, (hlo, (hn, hr)))) = hb in
            let hp : All IsByte p = All-left IsByte p rest (subst (All IsByte) e hr) in
            rw (e, unmarshal-head f t hi lo n (hi * 256 + lo) p rest refl len)
              (read_finish f t hi lo n p rest ht hhi hlo hn hp len
                (read_wires f p hp (omega (arith, ap length e, length-append p rest))))
        | inr cut ↦ rw (unmarshal_cut f t hi lo n r (leb→lt _ _ cut)) tt
      ]

  read_wires :
      (f : ℕ) (b : Bytes) → All IsByte b → length b < f → Ensures (ReadsAll b) (parse_multi f b)
  read_wires zero b hb h = absurd (omega arith)
  read_wires (suc f) [] hb h = (tt, refl)
  read_wires (suc f) (x ∷ b) hb h =
      step f (x ∷ b) (unmarshal f (x ∷ b))
        (λ i rest w e.
          read_wires f rest (All-right IsByte (wire i) rest (subst (All IsByte) e hb)) (
            omega (
              arith,
              ap length e,
              length-append (wire i) rest,
              length-wire i,
              four_le-marshal_len i,
            )))
        (read_wire f (x ∷ b) hb (omega arith) (omega arith))

-- On any octets the decoder returns: with an error, or with a well-formed element whose encoding is
-- the front of the input.
pub parse_sound : (b : Bytes) → All IsByte b → Ensures (Reads b) (parse b)
unfolding parse
parse_sound b hb = read_wire (length b + 1) b hb (omega arith) (omega arith)

-- On any octets ParseMultiIEs ends: with an error, or with well-formed elements whose octets are the
-- whole input.
pub parse_multi_ies_sound : (b : Bytes) → All IsByte b → Ensures (ReadsAll b) (parse_multi_ies b)
unfolding parse_multi_ies
parse_multi_ies_sound b hb = read_wires (length b + 1) b hb (omega arith)

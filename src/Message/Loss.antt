-- ===== src/Message/Loss.antt =====
-- How the messages of gtpv1/message and gtpv2/message can lose elements: a field that no case fills,
-- and a field that MarshalTo does not move its offset behind.
use text.Mathlib.Text.{◌==◌ as text_eq}
use text.Mathlib.TextEquality.{eq_iff}
use Prim.Native.String.{String}
use go_gtp.Common.{
  ℕ, zero, suc, ◌+◌, Bool, true, false, not, ◌&&◌, List, [], ◌∷◌, ◌++◌, append_assoc, map,
  if◌then◌else◌, ◌≡◌, inl, inr, refl, sym, ap, ◌∙◌, Bool-cases, ltb, length, length-append,
  length-replicate, drop, length-drop, arith,
}
use go_gtp.Common.Outcome.{Outcome, ok, err, panic, stuck, ◌>>=◌, ok-injective}
use go_gtp.Common.Bytes.{Bytes, make}
use go_gtp.Message.{
  Action, set, append, if_nil, Rules, Layout, Message, blank, parse, write, write_in_place,
  Protocol, Fields, is_nil, assign, run, collect, elements_len, fields_len, write_items,
}
use go_gtp.Message.Sound.{rest_of}
use go_gtp.Message.Collect.{cases_pass, choose-passes}
use go_gtp.Message.Write.{
  Laws, wires, body, AllWf, length-wires, length-body, write_elements-wires, write_items-fields,
}

-- The action leaves a nil field nil.
abbrev pub spares : String → Action → Bool
spares f (set g) = not (text_eq g f)
spares f (append g) = not (text_eq g f)
spares f Action.drop = true
spares f (if_nil g a b) = if text_eq g f then spares f a else spares f a && spares f b

both_true : (a b : Bool) → (a && b) ≡ true → (a ≡ true) × (b ≡ true)
both_true true b e = (refl, e)
both_true false b e = cc

module _ (p : Protocol) (f : String) where
  assign-other :
      (g : String) (xs : List p.Ie) (s : Fields p)
      → not (text_eq g f) ≡ true
      → s f ≡ []
      → assign p g xs s f ≡ []
  assign-other g xs s other e = elim (Bool-cases (text_eq g f)) [
    | inl same ↦ absurd (ground arith)
    | inr other' ↦ rw other' e
  ]

  run-spares :
      (a : Action) (i : p.Ie) (s : Fields p) → spares f a ≡ true → s f ≡ [] → run p a i s f ≡ []
  run-spares (set g) i s h e = assign-other g (i ∷ []) s h e
  run-spares (append g) i s h e = assign-other g (s g ++ (i ∷ [])) s h e
  run-spares Action.drop i s h e = e
  run-spares (if_nil g a b) i s h e = elim (Bool-cases (text_eq g f)) [
    | inl same ↦
        let nil' : is_nil p (s g) ≡ true =
          ap (λ (x : String). is_nil p (s x)) ((eq_iff g f).0 same) ∙ ap (is_nil p) e in
        rw nil' (run-spares a i s (rw same at h) e)
    | inr other ↦
        let (ha, hb) = both_true (spares f a) (spares f b) (rw other at h) in
        elim (Bool-cases (is_nil p (s g))) [
          | inl e' ↦ rw e' (run-spares a i s ha e)
          | inr e' ↦ rw e' (run-spares b i s hb e)
        ]
  ]

  -- A field that every case leaves nil is nil behind the loop.
  pub collect-spares :
      (r : Rules) (is : List p.Ie) (s : Fields p)
      → cases_pass (spares f) r.cases r.otherwise ≡ true
      → s f ≡ []
      → collect p r is s f ≡ []
  unfolding collect
  collect-spares r [] s h e = e
  collect-spares r (i ∷ is) s h e =
      collect-spares r is _ h
        (run-spares _ i s (choose-passes (spares f) r (p.type_of i) (p.instance_of i) h) e)

drop-make : (m n : ℕ) → drop m (make (m + n)) ≡ make n
drop-make zero n = let e : 0 + n ≡ n = omega arith in rw e
drop-make (suc m) n = let e : suc m + n ≡ suc (m + n) = omega arith in rw e (drop-make m n)

pub fields_len-append :
    (p : Protocol) (fs gs : List String) (s : Fields p)
    → fields_len p (fs ++ gs) s ≡ fields_len p fs s + fields_len p gs s
fields_len-append p [] gs s = omega arith
fields_len-append p (f ∷ fs) gs s = omega (arith, fields_len-append p fs gs s)

module _ (p : Protocol) (laws : Laws p) (fs : List String) (f g : String) (s : Fields p) where
  -- The octets of the fields before, then those of the last field over those of the one before it.
  abbrev pub overwritten : Bytes
  overwritten =
      (body p laws fs s ++ wires p laws (s g))
      ++ drop (elements_len p (s g)) (wires p laws (s f) ++ make (elements_len p (s g)))

  -- What MarshalTo writes if its offset stays behind the field before the last.
  pub write_items-overwritten :
      (n : ℕ)
      → AllWf p laws s
      → n ≡ fields_len p fs s + (elements_len p (s f) + elements_len p (s g))
      → write_items p (map write fs ++ (write_in_place f ∷ write g ∷ [])) s 0 (make n)
        ≡ ok overwritten
  unfolding write_items
  write_items-overwritten n w e =
      let k = fields_len p fs s in
      let a = elements_len p (s f) in
      let b = elements_len p (s g) in
      let pre = body p laws fs s in
      let zeros : drop k (make n) ≡ make (a + b) =
        ap (λ (x : ℕ). drop k (make x)) e ∙ drop-make k (a + b) in
      let la : length (make (a + b)) ≡ a + b = length-replicate (a + b) 0 in
      let x = wires p laws (s f) in
      let lx : length x ≡ a = length-wires p laws (s f) (w f) in
      let lb : length (make b) ≡ b = length-replicate b 0 in
      write_items-fields p laws fs (write_in_place f ∷ write g ∷ []) s [] (make n) w
        (omega (arith, length-replicate {A = ℕ} n 0))
      ∙ rw
          (
            zeros,
            write_elements-wires p laws (s f) pre (make (a + b)) (w f) (omega arith),
            drop-make a b,
            append_assoc pre x (make b),
            write_elements-wires p laws (s g) pre (x ++ make b) (w g)
                (omega (arith, length-append x (make b))),
          )
          refl

  pub length-overwritten :
      AllWf p laws s
      → length overwritten ≡ fields_len p fs s + (elements_len p (s f) + elements_len p (s g))
  length-overwritten w =
      let a = wires p laws (s f) in
      let b = wires p laws (s g) in
      let n = elements_len p (s g) in
      let l : length (make n) ≡ n = length-replicate n 0 in
      omega (
        arith,
        length-append (body p laws fs s ++ b) (drop n (a ++ make n)),
        length-append (body p laws fs s) b,
        length-drop n (a ++ make n),
        length-append a (make n),
        length-wires p laws (s f) (w f),
        length-wires p laws (s g) (w g),
        length-body p laws fs s w,
      )

parse-fields_header :
    (p : Protocol) (l : Layout) (h : p.Header) (o : Outcome (List p.Ie)) (m : Message p)
    → (o >>= λ is. ok (record { header = h; fields = collect p l.parse_rules is (blank p) })) ≡ ok m
    → (is : List p.Ie) × (m.fields ≡ collect p l.parse_rules is (blank p))
parse-fields_header p l h (ok is) m e =
    (is, sym (ap (λ (x : Message p). x.fields) (ok-injective e)))
parse-fields_header p l h (err x) m e = cc
parse-fields_header p l h panic m e = cc
parse-fields_header p l h stuck m e = cc

parse-fields_split :
    (p : Protocol) (l : Layout) (o : Outcome p.Header) (m : Message p)
    → (o >>= rest_of p l) ≡ ok m
    → (is : List p.Ie) × (m.fields ≡ collect p l.parse_rules is (blank p))
unfolding collect
parse-fields_split p l (ok h) m e = elim (Bool-cases (ltb (length (p.payload_of h)) l.least)) [
  | inl short ↦
      ([], sym (ap (λ (x : Message p). x.fields) (ok-injective (rw (short, rest_of) at e))))
  | inr long ↦
      parse-fields_header p l h (p.parse_elements (p.payload_of h)) m (rw (long, rest_of) at e)
]
parse-fields_split p l (err x) m e = cc
parse-fields_split p l panic m e = cc
parse-fields_split p l stuck m e = cc

-- The fields of a message that UnmarshalBinary returns are those that the loop fills.
pub parse-fields :
    (p : Protocol) (l : Layout) (b : Bytes) (m : Message p)
    → parse p l b ≡ ok m
    → (is : List p.Ie) × (m.fields ≡ collect p l.parse_rules is (blank p))
unfolding parse
parse-fields p l b m e = parse-fields_split p l (p.parse_header b) m e

-- ===== src/Message/Stable.antt =====
-- The loop over the elements of a message, run again on the elements of the fields in the order in
-- which MarshalTo writes them.
use text.Mathlib.Text.{◌==◌ as text_eq}
use text.Mathlib.TextEquality.{eq_iff}
use Prim.Native.String.{String}
use mathlib.Core.Path.{fun_ext}
use go_gtp.Common.{
  Bool, true, false, not, ◌&&◌, List, [], ◌∷◌, ◌++◌, append_assoc, append-nil, if◌then◌else◌, ◌≡◌,
  inl, inr, refl, sym, subst, ap, ◌∙◌, Bool-cases, All,
}
use go_gtp.Message.{Rules, Protocol, Fields, blank, assign, collect}
use go_gtp.Message.Collect.{
  has, distinct, cases_fit, Held, Routed, collect-HasShape, blank-HasShape,
}

split : (a b : Bool) → (not a && b) ≡ true → (a ≡ false) × (b ≡ true)
split false b e = (refl, e)
split true b e = cc

module _ (p : Protocol) where
  -- The elements of the fields, in an order of the fields.
  abbrev pub flatten : List String → Fields p → List p.Ie
  flatten [] s = []
  flatten (f ∷ fs) s = s f ++ flatten fs s

module _ (p : Protocol) (r : Rules) (slices order : List String) where
  collect-append :
      (xs ys : List p.Ie) (s : Fields p)
      → collect p r (xs ++ ys) s ≡ collect p r ys (collect p r xs s)
  unfolding collect
  collect-append [] ys s = refl
  collect-append (x ∷ xs) ys s = collect-append xs ys _

  assign_twice :
      (f : String) (xs ys : List p.Ie) (s : Fields p)
      → assign p f ys (assign p f xs s) ≡ assign p f ys s
  assign_twice f xs ys s =
      fun_ext λ g. elim (Bool-cases (text_eq f g)) [ inl e ↦ rw e refl | inr e ↦ rw e refl ]

  text_self : (f : String) → text_eq f f ≡ true
  text_self f = (eq_iff f f).1 refl

  assign_self : (f : String) (s : Fields p) → assign p f (s f) s ≡ s
  assign_self f s = fun_ext λ g. elim (Bool-cases (text_eq f g)) [
    | inl e ↦ rw e (ap s ((eq_iff f g).0 e))
    | inr e ↦ rw e refl
  ]

  -- Elements of a slice are all appended.
  collect-Routed :
      (f : String) (xs : List p.Ie) (s : Fields p)
      → All (Routed slices order p r f) xs
      → collect p r xs s ≡ assign p f (s f ++ xs) s
  unfolding collect
  collect-Routed f [] s h = rw (append-nil (s f)) (sym (assign_self f s))
  collect-Routed f (x ∷ xs) s (e, es) = rw e (
      collect-Routed f xs (assign p f (s f ++ (x ∷ [])) s) es
      ∙ rw (text_self f, append_assoc (s f) (x ∷ []) xs)
          (assign_twice f (s f ++ (x ∷ [])) (s f ++ (x ∷ xs)) s))

  -- The elements of one field reach it again.
  collect-Held :
      (f : String) (xs : List p.Ie) (s : Fields p)
      → Held slices order p r f xs
      → s f ≡ []
      → collect p r xs s ≡ assign p f xs s
  unfolding collect
  collect-Held f xs s (inl (_, all)) e =
      collect-Routed f xs s all ∙ ap (λ (y : List p.Ie). assign p f (y ++ xs) s) e
  collect-Held f xs s (inr (_, inl none')) e =
      rw none' (sym (ap (λ (y : List p.Ie). assign p f y s) (sym e) ∙ assign_self f s))
  collect-Held f xs s (inr (_, inr (i, one, e'))) e = rw one (rw e' refl)

  -- The elements of the fields, in order, fill these fields and no others.
  replay :
      (fs : List String) (s acc : Fields p) (g : String)
      → ((f : String) → Held slices order p r f (s f))
      → distinct fs ≡ true
      → ((f : String) → has fs f ≡ true → acc f ≡ [])
      → collect p r (flatten p fs s) acc g ≡ (if has fs g then s g else acc g)
  unfolding collect
  replay [] s acc g held d h = refl
  replay (f ∷ fs) s acc g held d h =
      let now : acc f ≡ [] = h f (rw (text_self f) refl) in
      let (absent, later) = split (has fs f) (distinct fs) d in
      ap (λ (k : Fields p). k g)
        (collect-append (s f) (flatten p fs s) acc
          ∙ ap (collect p r (flatten p fs s)) (collect-Held f (s f) acc (held f) now))
      ∙ replay fs s (assign p f (s f) acc) g held later (λ k there.
        elim (Bool-cases (text_eq f k)) [
          | inl e ↦
              let gone : has fs k ≡ false =
                subst (λ x. has fs x ≡ false) ((eq_iff f k).0 e) absent in
              cc
          | inr e ↦ rw e (h k (rw e there))
        ])
      ∙ elim (Bool-cases (text_eq f g)) [
        | inl e ↦
            let eq : f ≡ g = (eq_iff f g).0 e in
            let gone : has fs g ≡ false = subst (λ x. has fs x ≡ false) eq absent in
            rw (e, gone) (ap s eq)
        | inr e ↦ rw e refl
      ]

  -- If the cases pass the check against fields that are distinct, the fields that the loop fills from
  -- any elements are filled alike from their own elements.
  pub collect-flatten :
      (is : List p.Ie)
      → cases_fit slices order r.cases r.otherwise ≡ true
      → distinct order ≡ true
      → let s = collect p r is (blank p) in collect p r (flatten p order s) (blank p) ≡ s
  collect-flatten is fits d = fun_ext λ g.
      let s = collect p r is (blank p) in
      let shape =
        collect-HasShape slices order p r is (blank p) fits (blank-HasShape slices order p r) in
      replay order s (blank p) g (λ f. (shape f).0) d (λ f _. refl)
      ∙ elim (Bool-cases (has order g)) [ inl e ↦ rw e refl | inr e ↦ rw e (sym ((shape g).1 e)) ]

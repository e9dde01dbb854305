-- ===== src/Message/Collect.antt =====
-- The loop over the elements in the constructors and in UnmarshalBinary of gtpv0/message,
-- gtpv1/message and gtpv2/message: which field an element reaches.
use text.Mathlib.Text.{◌==◌ as text_eq}
use text.Mathlib.TextEquality.{eq_iff}
use Prim.Native.String.{String}
use go_gtp.Common.{
  ℕ, Bool, true, false, not, ◌&&◌, List, [], ◌∷◌, ◌++◌, if◌then◌else◌, ◌≡◌, ◌⊎◌, inl, inr, refl,
  subst, ◌==◌, All, All-append, Bool-cases, arith,
}
use go_gtp.Message.{
  Action, set, append, drop, if_nil, Choice, always, by_instance, Rules, Protocol, Fields, blank,
  assign, is_nil, run, collect, choose, choose_case, choose_instance, decide_choice,
}

abbrev pub has : List String → String → Bool
has [] f = false
has (g ∷ gs) f = if text_eq g f then true else has gs f

abbrev pub distinct : List String → Bool
distinct [] = true
distinct (f ∷ fs) = not (has fs f) && distinct fs

both_true : (a b : Bool) → (a && b) ≡ true → (a ≡ true) × (b ≡ true)
both_true true b e = (refl, e)
both_true false b e = cc

-- A check of the actions of all cases.
module _ (passes : Action → Bool) where
  abbrev pub instances_pass : List (ℕ × Action) → Action → Bool
  instances_pass [] d = passes d
  instances_pass ((n, a) ∷ cs) d = passes a && instances_pass cs d

  abbrev pub choice_passes : Choice → Bool
  choice_passes (always a) = passes a
  choice_passes (by_instance cs d) = instances_pass cs d

  abbrev pub cases_pass : List (ℕ × Choice) → Action → Bool
  cases_pass [] d = passes d
  cases_pass ((t, c) ∷ cs) d = choice_passes c && cases_pass cs d

  choose_instance-passes :
      (cs : List (ℕ × Action)) (d : Action) (n : ℕ)
      → instances_pass cs d ≡ true
      → passes (choose_instance cs d n) ≡ true
  choose_instance-passes [] d n h = h
  choose_instance-passes ((k, a) ∷ cs) d n h =
      let (now, later) = both_true (passes a) (instances_pass cs d) h in
      elim (Bool-cases (k == n)) [
        | inl e ↦ rw e now
        | inr e ↦ rw e (choose_instance-passes cs d n later)
      ]

  decide_choice-passes :
      (c : Choice) (n : ℕ) → choice_passes c ≡ true → passes (decide_choice c n) ≡ true
  decide_choice-passes (always a) n h = h
  decide_choice-passes (by_instance cs d) n h = choose_instance-passes cs d n h

  choose_case-passes :
      (cs : List (ℕ × Choice)) (d : Action) (t n : ℕ)
      → cases_pass cs d ≡ true
      → passes (choose_case cs d t n) ≡ true
  choose_case-passes [] d t n h = h
  choose_case-passes ((k, c) ∷ cs) d t n h =
      let (now, later) = both_true (choice_passes c) (cases_pass cs d) h in
      elim (Bool-cases (k == t)) [
        | inl e ↦ rw e (decide_choice-passes c n now)
        | inr e ↦ rw e (choose_case-passes cs d t n later)
      ]

  -- The action on an element, by its type and instance, is a checked one.
  pub choose-passes :
      (r : Rules) (t n : ℕ) → cases_pass r.cases r.otherwise ≡ true → passes (choose r t n) ≡ true
  choose-passes r t n h = choose_case-passes r.cases r.otherwise t n h

-- The check against the slices of a message and the fields that it writes: a pointer is set, a slice
-- is appended to, and no case looks at a field.
module _ (slices order : List String) where
  abbrev pub action_fits : Action → Bool
  action_fits (set f) = not (has slices f) && has order f
  action_fits (append f) = has slices f && has order f
  action_fits drop = true
  action_fits (if_nil f a b) = false

  abbrev pub cases_fit : List (ℕ × Choice) → Action → Bool
  cases_fit cs d = cases_pass action_fits cs d

  module _ (p : Protocol) (r : Rules) where
    -- The elements are those that a field can hold: any number that are appended to it if it is a
    -- slice, at most one that is set if it is a pointer, and none if the message lacks it.
    abbrev pub Routed : String → p.Ie → Type 0
    Routed f i = choose r (p.type_of i) (p.instance_of i) ≡ append f

    abbrev pub Pointed : String → List p.Ie → Type 0
    Pointed f xs =
        (xs ≡ [])
        ⊎ ((i : p.Ie) × (xs ≡ i ∷ []) × (choose r (p.type_of i) (p.instance_of i) ≡ set f))

    abbrev pub Held : String → List p.Ie → Type 0
    Held f xs =
        ((has slices f ≡ true) × All (Routed f) xs) ⊎ ((has slices f ≡ false) × Pointed f xs)

    abbrev pub Shape : String → List p.Ie → Type 0
    Shape f xs = Held f xs × (has order f ≡ false → xs ≡ [])

    abbrev pub HasShape : Fields p → Type 0
    HasShape s = (f : String) → Shape f (s f)

    pub blank-HasShape : HasShape (blank p)
    blank-HasShape f = elim (Bool-cases (has slices f)) [
      | inl e ↦ (inl (e, tt), λ _. refl)
      | inr e ↦ (inr (e, inl refl), λ _. refl)
    ]

    set-HasShape :
        (g : String) (i : p.Ie) (s : Fields p)
        → choose r (p.type_of i) (p.instance_of i) ≡ set g
        → action_fits (set g) ≡ true
        → HasShape s
        → HasShape (assign p g (i ∷ []) s)
    set-HasShape g i s e fits shape f =
        let (single, known) = both_true (not (has slices g)) (has order g) fits in
        elim (Bool-cases (text_eq g f)) [
          | inr other ↦ rw other (shape f)
          | inl same ↦
              let eq : g ≡ f = (eq_iff g f).0 same in
              let single' : has slices g ≡ false = ground arith in
              rw same (
                inr (
                  subst (λ x. has slices x ≡ false) eq single',
                  inr (i, refl, subst (λ x. choose r (p.type_of i) (p.instance_of i) ≡ set x) eq e),
                ),
                λ none'. let k = subst (λ x. has order x ≡ true) eq known in cc,
              )
        ]

    append-HasShape :
        (g : String) (i : p.Ie) (s : Fields p)
        → choose r (p.type_of i) (p.instance_of i) ≡ append g
        → action_fits (append g) ≡ true
        → HasShape s
        → HasShape (assign p g (s g ++ (i ∷ [])) s)
    append-HasShape g i s e fits shape f =
        let (many, known) = both_true (has slices g) (has order g) fits in
        elim (Bool-cases (text_eq g f)) [
          | inr other ↦ rw other (shape f)
          | inl same ↦
              let eq : g ≡ f = (eq_iff g f).0 same in
              rw same (
                subst (λ x. Shape x (s g ++ (i ∷ []))) eq
                  (elim ((shape g).0) [
                    | inl (_, all) ↦ (
                      inl (many, All-append (Routed g) (s g) (i ∷ []) (all, (e, tt))),
                      λ none'. cc,
                    )
                    | inr (no', _) ↦ absurd (cc)
                  ]))
        ]

    -- One round of the loop.
    run-HasShape :
        (a : Action) (i : p.Ie) (s : Fields p)
        → choose r (p.type_of i) (p.instance_of i) ≡ a
        → action_fits a ≡ true
        → HasShape s
        → HasShape (run p a i s)
    run-HasShape (set g) i s e fits shape = set-HasShape g i s e fits shape
    run-HasShape (append g) i s e fits shape = append-HasShape g i s e fits shape
    run-HasShape drop i s e fits shape = shape
    run-HasShape (if_nil g a b) i s e fits shape = cc

    -- Where the cases pass the check, the loop keeps the shape of the fields, whatever the elements.
    pub collect-HasShape :
        (is : List p.Ie) (s : Fields p)
        → cases_fit r.cases r.otherwise ≡ true
        → HasShape s
        → HasShape (collect p r is s)
    unfolding collect
    collect-HasShape [] s fits shape = shape
    collect-HasShape (i ∷ is) s fits shape = collect-HasShape is _ fits (
        run-HasShape _ i s refl (choose-passes action_fits r (p.type_of i) (p.instance_of i) fits)
          shape)

-- What holds of the elements holds of those that the fields hold.
module _ (p : Protocol) (P : p.Ie → Type 0) where
  pub assign-AllHeld :
      (g : String) (xs : List p.Ie) (s : Fields p)
      → All P xs
      → ((f : String) → All P (s f))
      → (f : String) → All P (assign p g xs s f)
  assign-AllHeld g xs s now held f = elim (Bool-cases (text_eq g f)) [
    | inl e ↦ rw e now
    | inr e ↦ rw e (held f)
  ]

  run-AllHeld :
      (a : Action) (i : p.Ie) (s : Fields p)
      → P i
      → ((f : String) → All P (s f))
      → (f : String) → All P (run p a i s f)
  run-AllHeld (set g) i s now held f = assign-AllHeld g (i ∷ []) s (now, tt) held f
  run-AllHeld (append g) i s now held f =
      assign-AllHeld g (s g ++ (i ∷ [])) s (All-append P (s g) (i ∷ []) (held g, (now, tt))) held f
  run-AllHeld drop i s now held f = held f
  run-AllHeld (if_nil g a b) i s now held f = elim (Bool-cases (is_nil p (s g))) [
    | inl e ↦ rw e (run-AllHeld a i s now held f)
    | inr e ↦ rw e (run-AllHeld b i s now held f)
  ]

  pub collect-AllHeld :
      (r : Rules) (is : List p.Ie) (s : Fields p)
      → All P is
      → ((f : String) → All P (s f))
      → (f : String) → All P (collect p r is s f)
  unfolding collect
  collect-AllHeld r [] s all held f = held f
  collect-AllHeld r (i ∷ is) s (now, later) held f =
      collect-AllHeld r is _ later (run-AllHeld _ i s now held) f

-- ===== src/Message/Room.antt =====
-- The loop over the elements where a case looks at a field, as in the PDP context messages of
-- gtpv0/message and gtpv1/message: `if m.F == nil`.
use Prim.Native.String.{String}
use text.Mathlib.Text.{◌==◌ as text_eq}
use text.Mathlib.TextEquality.{eq_iff}
use go_gtp.Common.{
  ◌≤◌, Bool, true, false, ◌&&◌, List, [], ◌∷◌, ◌≡◌, refl, subst, inl, inr, Bool-cases, length,
  arith,
}
use go_gtp.Message.{
  Action, set, append, drop, if_nil, Rules, Protocol, Fields, assign, is_nil, run, collect,
}
use go_gtp.Message.Collect.{has, cases_pass, choose-passes}

both_true : (a b : Bool) → (a && b) ≡ true → (a ≡ true) × (b ≡ true)
both_true true b e = (refl, e)
both_true false b e = cc

module _ (slices order : List String) where
  -- A pointer is set and a slice is appended to, by either branch of a test.
  abbrev pub action_fills : Action → Bool
  action_fills (set f) = has order f
  action_fills (append f) = has slices f && has order f
  action_fills drop = true
  action_fills (if_nil f a b) = action_fills a && action_fills b

  module _ (p : Protocol) where
    -- A pointer holds at most one element, and only fields of the message hold any.
    abbrev pub Room : String → List p.Ie → Type 0
    Room f xs = (has slices f ≡ false → length xs ≤ 1) × (has order f ≡ false → xs ≡ [])

    abbrev pub HasRoom : Fields p → Type 0
    HasRoom s = (f : String) → Room f (s f)

    assign-HasRoom :
        (g : String) (xs : List p.Ie) (s : Fields p)
        → Room g xs
        → HasRoom s
        → HasRoom (assign p g xs s)
    assign-HasRoom g xs s r h f = elim (Bool-cases (text_eq g f)) [
      | inl same ↦ rw same (subst (λ x. Room x xs) ((eq_iff g f).0 same) r)
      | inr other ↦ rw other (h f)
    ]

    run-HasRoom :
        (a : Action) (i : p.Ie) (s : Fields p)
        → action_fills a ≡ true
        → HasRoom s
        → HasRoom (run p a i s)
    run-HasRoom (set g) i s e h = assign-HasRoom g (i ∷ []) s (λ _. omega arith, λ none'. cc) h
    run-HasRoom (append g) i s e h =
        let (many, known) = both_true (has slices g) (has order g) e in
        assign-HasRoom g _ s (λ one'. absurd (cc), λ none'. cc) h
    run-HasRoom drop i s e h = h
    run-HasRoom (if_nil g a b) i s e h =
        let (first', second') = both_true (action_fills a) (action_fills b) e in
        let yes' = run-HasRoom a i s first' h in
        let no' = run-HasRoom b i s second' h in
        elim (Bool-cases (is_nil p (s g))) [ inl empty ↦ rw empty yes' | inr full ↦ rw full no' ]

    -- If the cases pass the check, the loop fills the fields within their room.
    pub collect-HasRoom :
        (r : Rules) (is : List p.Ie) (s : Fields p)
        → cases_pass action_fills r.cases r.otherwise ≡ true
        → HasRoom s
        → HasRoom (collect p r is s)
    unfolding collect
    collect-HasRoom r [] s e h = h
    collect-HasRoom r (i ∷ is) s e h =
        collect-HasRoom r is _ e
          (run-HasRoom _ i s (choose-passes action_fills r (p.type_of i) (p.instance_of i) e) h)

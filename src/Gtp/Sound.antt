-- ===== src/Gtp/Sound.antt =====
-- Parse of gtp.go on any octets.
use go_gtp.Common.{
  zero, suc, ℕ, ◌/◌, ◌≤◌, ◌==◌, ==_iff, ==_ne, ◌≡◌, ◌≢◌, refl, [], ◌∷◌, inl, inr, Bool-cases, All,
  length, ltb, ltb→le, arith,
}
use go_gtp.Common.Outcome.{Outcome, ok, err, panic, stuck, ◌>>=◌, Ensures}
use go_gtp.Common.Bytes.{Bytes, IsByte, index}
use go_gtp.Gtpv1.Message.Dispatch as V1
use go_gtp.Gtpv2.Message.Dispatch as V2
use go_gtp.Gtpv1.Message.Sound as S1
use go_gtp.Gtpv2.Message.Sound as S2
use go_gtp.Gtp.{Message, version_0, version_1, version_2, by_version, parse}

-- The octet at a position, or 0 behind the end.
abbrev pub octet : Bytes → ℕ → ℕ
octet [] n = 0
octet (x ∷ b) zero = x
octet (x ∷ b) (suc n) = octet b n

-- A message of the version that its first octet says, whose elements are well formed and lie in
-- fields with room for them.
abbrev pub IsTyped : ℕ → Message → Type 0
IsTyped v (version_0 m) = ⊥
IsTyped v (version_1 m) = (v ≡ 1) × S1.IsTyped m
IsTyped v (version_2 m) = (v ≡ 2) × S2.IsTyped m

first_version :
    (v : ℕ) (o : Outcome V1.Parsed)
    → v ≡ 1
    → Ensures S1.IsTyped o
    → Ensures (IsTyped v) (o >>= λ m. ok (version_1 m))
first_version v (ok m) e h = (e, h)
first_version v (err x) e h = tt
first_version v panic e h = h
first_version v stuck e h = h

second_version :
    (v : ℕ) (o : Outcome V2.Parsed)
    → v ≡ 2
    → Ensures S2.IsTyped o
    → Ensures (IsTyped v) (o >>= λ m. ok (version_2 m))
second_version v (ok m) e h = (e, h)
second_version v (err x) e h = tt
second_version v panic e h = h
second_version v stuck e h = h

by_version-IsTyped :
    (v x code : ℕ) (b : Bytes)
    → All IsByte (x ∷ code ∷ b)
    → v ≢ 0
    → length (x ∷ code ∷ b) ≢ 11
    → code ≢ 131
    → Ensures (IsTyped v) (by_version v (x ∷ code ∷ b))
unfolding index
by_version-IsTyped v x code b w some_version long typed =
    let all = x ∷ code ∷ b in
    let old = ==_ne v 0 some_version in
    elim (Bool-cases (v == 1)) [
      | inl e ↦
          rw (old, e)
            (first_version v (V1.parse all) ((==_iff v 1).0 e)
              (S1.parse-IsTyped_v1 all w (omega arith) long))
      | inr e ↦ elim (Bool-cases (v == 2)) [
        | inl e' ↦
            rw (old, e, e')
              (second_version v (V2.parse all) ((==_iff v 2).0 e')
                (S2.parse-IsTyped all code w refl (==_ne code 131 typed)))
        | inr e' ↦ rw (old, e, e') tt
      ]
    ]

-- On any octets Parse returns: with an error, or with a message of version 1 or 2, the one that the
-- three highest bits of the first octet give, whose elements are well formed and lie in fields that
-- have room for them. Of eight octets or more it is asked that they are not eleven, that the first
-- does not give the version 0, and that the second is not 131, the code of ContextResponse of
-- version 2.
pub parse-IsTyped_gtp :
    (b : Bytes)
    → All IsByte b
    → (8 ≤ length b → (length b ≢ 11) × (octet b 0 / 32 ≢ 0) × (octet b 1 ≢ 131))
    → Ensures (IsTyped (octet b 0 / 32)) (parse b)
unfolding parse index
parse-IsTyped_gtp [] w h = tt
parse-IsTyped_gtp (x ∷ []) w h = tt
parse-IsTyped_gtp (x ∷ code ∷ b) w h = elim (Bool-cases (ltb (length (x ∷ code ∷ b)) 8)) [
  | inl e ↦ rw e tt
  | inr e ↦
      let (long, some_version, typed) = h (ltb→le (length (x ∷ code ∷ b)) 8 e) in
      rw e (by_version-IsTyped (x / 32) x code b w some_version long typed)
]

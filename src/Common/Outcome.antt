-- ===== src/Common/Outcome.antt =====
-- What a Go call ends with: a value, a returned error, or a run-time panic. `stuck` is no Go value:
-- a recursion of the model ran out of fuel.
use mathlib.Core.Path.{◌≡◌, refl}
use mathlib.Core.Bool.{Bool, true, false}

-- The error values of the packages that are modelled (errors.go of gtpv0/ie, gtpv1/ie, gtpv2/ie,
-- the message packages and gtpv2, io.ErrUnexpectedEOF, and the errors of encoding/hex and the socket).
pub data Error : Type 0 where
  unexpected_eof : Error
  too_short_to_marshal : Error
  too_short_to_parse : Error
  invalid_length : Error
  invalid_type : Error
  ie_not_found : Error
  bad_hex : Error
  required_parameter_missing : Error
  teid_not_found : Error
  bearer_not_found : Error
  timeout : Error
  invalid_sequence : Error
  invalid_teid : Error
  unknown_imsi : Error
  handler_not_found : Error
  invalid_version : Error
  unexpected_type : Error
  write_failed : Error

pub data Outcome {ℓ} (A : Type ℓ) : Type ℓ where
  ok : A → Outcome A
  err : Error → Outcome A
  panic : Outcome A
  stuck : Outcome A

infixl 5 ◌>>=◌
abbrev pub ◌>>=◌ {ℓ κ} : {A : Type ℓ} {B : Type κ} → Outcome A → (A → Outcome B) → Outcome B
ok a >>= f = f a
err e >>= f = err e
panic >>= f = panic
stuck >>= f = stuck

abbrev pub fmap {ℓ κ} : {A : Type ℓ} {B : Type κ} → (A → B) → Outcome A → Outcome B
fmap f (ok a) = ok (f a)
fmap f (err e) = err e
fmap f panic = panic
fmap f stuck = stuck

-- An early return of an error unless the test passes.
abbrev pub guard {ℓ} : {A : Type ℓ} → Bool → Error → Outcome A → Outcome A
guard true e m = m
guard false e m = err e

-- The call returns, with a value or with an error.
abbrev pub Returns {ℓ} : {A : Type ℓ} → Outcome A → Type 0
Returns (ok a) = Unit {0}
Returns (err e) = Unit {0}
Returns panic = ⊥
Returns stuck = ⊥

-- The call returns, and a value that it returns satisfies `P`.
abbrev pub Ensures {ℓ} : {A : Type ℓ} → (A → Type 0) → Outcome A → Type 0
Ensures P (ok a) = P a
Ensures P (err e) = Unit {0}
Ensures P panic = ⊥
Ensures P stuck = ⊥

pub ok-injective {ℓ} : {A : Type ℓ} {a b : A} → ok a ≡ ok b → a ≡ b
ok-injective e = cc

pub bind_assoc {ℓ κ μ} :
    {A : Type ℓ} {B : Type κ} {C : Type μ} (m : Outcome A) (f : A → Outcome B) (g : B → Outcome C)
    → ((m >>= f) >>= g) ≡ (m >>= λ a. f a >>= g)
bind_assoc (ok a) f g = refl
bind_assoc (err e) f g = refl
bind_assoc panic f g = refl
bind_assoc stuck f g = refl

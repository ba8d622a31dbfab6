-- ===== src/Lcmgen/Result.antt =====
-- What the parser of lcmgen does: it goes on, or it reports an error and exits.
use conftron.Base.{Bool, true, false}

-- `aborted` is a failed assertion, `undefined` the overflow of an int32_t.
pub data Result {ℓ} (A : Type ℓ) : Type ℓ where
  ok : A → Result A
  parse_error semantic_error aborted undefined out_of_fuel : Result A

infixl 5 ◌>>=◌ ◌>>◌
abbrev pub ◌>>=◌ {ℓ κ} : {A : Type ℓ} {B : Type κ} → Result A → (A → Result B) → Result B
ok a >>= f = f a
parse_error >>= f = parse_error
semantic_error >>= f = semantic_error
aborted >>= f = aborted
undefined >>= f = undefined
out_of_fuel >>= f = out_of_fuel

abbrev pub ◌>>◌ {ℓ} : {B : Type ℓ} → Result (Unit {0}) → Result B → Result B
m >> k = m >>= λ _. k

-- An error unless a test holds.
abbrev pub require : Bool → Result (Unit {0}) → Result (Unit {0})
require true error = ok tt
require false error = error

-- There is fuel enough, no assertion fails, and a result has the property.
abbrev pub Sat {ℓ} : {A : Type ℓ} → (A → Type 0) → Result A → Type 0
Sat P (ok a) = P a
Sat P parse_error = Unit
Sat P semantic_error = Unit
Sat P aborted = ⊥
Sat P undefined = Unit
Sat P out_of_fuel = ⊥

pub Sat-bind {ℓ κ} :
    {A : Type ℓ} {B : Type κ} (P : A → Type 0) (Q : B → Type 0) (m : Result A) (f : A → Result B)
    → Sat P m
    → ((a : A) → P a → Sat Q (f a))
    → Sat Q (m >>= f)
Sat-bind P Q (ok a) f h k = k a h
Sat-bind P Q parse_error f h k = tt
Sat-bind P Q semantic_error f h k = tt
Sat-bind P Q aborted f h k = absurd h
Sat-bind P Q undefined f h k = tt
Sat-bind P Q out_of_fuel f h k = absurd h

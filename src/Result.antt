-- ===== src/Result.antt =====
-- A Go call that returns a value and an error, of which one is meant.
use zk_wsp.Prelude.{Bool, true, false, Option, none, some}

pub data Result {ℓ} (E : Type 0) (A : Type ℓ) : Type ℓ where
  value : A → Result E A
  error : E → Result E A

infixl 5 ◌>>=◌ ◌>>◌
abbrev pub ◌>>=◌ {ℓ κ} :
    {E : Type 0} {A : Type ℓ} {B : Type κ} → Result E A → (A → Result E B) → Result E B
value a >>= f = f a
error e >>= f = error e

abbrev pub ◌>>◌ {ℓ} : {E : Type 0} {B : Type ℓ} → Result E (Unit {0}) → Result E B → Result E B
m >> k = m >>= λ _. k

-- `if err != nil { return err }` behind a call that answers `none` on an error.
abbrev pub or_error {ℓ} : {E : Type 0} {A : Type ℓ} → Option A → E → Result E A
or_error none e = error e
or_error (some a) e = value a

-- `if !test { return err }`
abbrev pub require : {E : Type 0} → Bool → E → Result E (Unit {0})
require true e = value tt
require false e = error e

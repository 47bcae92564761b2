-- ===== src/Server/Checked.antt =====
-- What a function of packages/web-sdk-server/src returns or throws, with the errors that it throws:
-- `BeamTokenError`, `BrokerError`, and any other.
use beam_sdk_public.Common.{ℕ, ◌≡◌, Bool, true, false, Text}

pub data ServerError : Type 0 where
  -- `BeamTokenError`: message and code.
  token_error : Text → Text → ServerError
  -- `BrokerError`: message, status and code.
  broker_error : Text → ℕ → Text → ServerError
  other_error : Text → ServerError

pub data Checked {ℓ} (A : Type ℓ) : Type ℓ where
  ok : A → Checked A
  fail : ServerError → Checked A

infixl 5 ◌>>=◌ ◌>>◌
abbrev pub ◌>>=◌ {ℓ κ} : {A : Type ℓ} {B : Type κ} → Checked A → (A → Checked B) → Checked B
ok a >>= f = f a
fail e >>= f = fail e

abbrev pub ◌>>◌ {ℓ} : {B : Type ℓ} → Checked (Unit {0}) → Checked B → Checked B
m >> k = m >>= λ u. k

-- `if (!b) throw e`.
abbrev pub ensure : Bool → ServerError → Checked (Unit {0})
ensure true e = ok tt
ensure false e = fail e

-- What passes a check passed its test, and what follows it.
pub ensure-ok {ℓ} :
    {B : Type ℓ} (b : Bool) (e : ServerError) (k : Checked B) {x : B}
    → (ensure b e >> k) ≡ ok x
    → (b ≡ true) × (k ≡ ok x)
ensure-ok true e k h = (λ i. true, h)
ensure-ok false e k h = cc

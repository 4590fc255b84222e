-- ===== src/Envelope/Calls.antt =====
-- How a call of openssl/envelope_encryption.cpp ends: it returns, throws, or the process ends.
use pollbook_server.Prelude.{Bool, true, false, Option, none, some}

-- `openssl_error` is the exception, `aborted` a failed assertion. `overrun` is a write past the end
-- of a buffer, on which C++ promises nothing.
pub data Outcome {ℓ} (A : Type ℓ) : Type ℓ where
  returned : A → Outcome A
  openssl_error aborted overrun : Outcome A

infixl 5 ◌>>=◌
abbrev pub ◌>>=◌ {ℓ κ} : {A : Type ℓ} {B : Type κ} → Outcome A → (A → Outcome B) → Outcome B
returned a >>= f = f a
openssl_error >>= f = openssl_error
aborted >>= f = aborted
overrun >>= f = overrun

-- if(… != 1) throw openssl_error(…)
abbrev pub or_openssl_error {ℓ} : {A : Type ℓ} → Option A → Outcome A
or_openssl_error none = openssl_error
or_openssl_error (some a) = returned a

-- assert(b)
abbrev pub assert_then {ℓ} : {A : Type ℓ} → Bool → A → Outcome A
assert_then true a = returned a
assert_then false a = aborted

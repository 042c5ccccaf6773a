-- ===== src/Bundler/Verdict.antt =====
-- What a check of infra/bundler/src/admission.mjs comes to: it passes, it throws an AdmissionError with
-- its message and code, it throws a SyntaxError, or it throws another error.
use cardano_on_evm.Prelude.{◌≡◌, refl, Bool, true, false, Option, none, some, Result, ok, err, Str}
use cardano_on_evm.Prelude.Int.{ℤ, negsuc}

pub record Refusal : Type 0 where
  pub message : Str
  pub code : ℤ

pub data Fault : Type 0 where
  refused : Refusal → Fault
  syntax broken : Fault

pub data Verdict {ℓ} (A : Type ℓ) : Type ℓ where
  passed : A → Verdict A
  thrown : Fault → Verdict A

infixl 5 ◌>>=◌ ◌>>◌
abbrev pub ◌>>=◌ {ℓ κ} : {A : Type ℓ} {B : Type κ} → Verdict A → (A → Verdict B) → Verdict B
thrown fault >>= k = thrown fault
passed value >>= k = k value

abbrev pub ◌>>◌ {ℓ} : {B : Type ℓ} → Verdict (Unit {0}) → Verdict B → Verdict B
first >> second = first >>= λ u. second

-- `new AdmissionError(message)`: the code is -32500 by default.
abbrev pub default_code : ℤ
default_code = negsuc 32499

abbrev pub reject {ℓ} : {A : Type ℓ} → Str → Verdict A
reject message = thrown (refused (record { message = message; code = default_code }))

abbrev pub reject_if : Bool → Str → Verdict (Unit {0})
reject_if true message = reject message
reject_if false message = passed tt

abbrev pub or_reject {ℓ} : {A : Type ℓ} → Option A → Str → Verdict A
or_reject none message = reject message
or_reject (some a) message = passed a

-- A function that throws an error which is no AdmissionError.
abbrev pub attempt {ℓ} : {A : Type ℓ} → Result A → Verdict A
attempt (ok a) = passed a
attempt (err e) = thrown broken

module _ {ℓ κ} {A : Type ℓ} {B : Type κ} where
  -- Inversion of a chain of checks that passed.
  pub bind-eq-passed :
      (v : Verdict A) (k : A → Verdict B) {b : B}
      → (v >>= k) ≡ passed b
      → (a : A) × (v ≡ passed a) × (k a ≡ passed b)
  bind-eq-passed (thrown f) k h = cc
  bind-eq-passed (passed a) k h = (a, refl, h)

pub reject_if-eq-passed {ℓ} :
    {B : Type ℓ} (b : Bool) (m : Str) (rest : Verdict B) {r : B}
    → (reject_if b m >> rest) ≡ passed r
    → (b ≡ false) × (rest ≡ passed r)
reject_if-eq-passed false m rest h = (refl, h)
reject_if-eq-passed true m rest h = cc

pub passed-injective {ℓ} : {A : Type ℓ} {a b : A} → passed a ≡ passed b → a ≡ b
passed-injective h = cc

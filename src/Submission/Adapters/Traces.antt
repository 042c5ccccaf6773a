-- ===== src/Submission/Adapters/Traces.antt =====
-- What a chain of calls makes of the state in which it begins, with a rule for each kind of call: the
-- calls follow each other, each in the state that the one before it left.
use mathlib.Core.Path.{subst}
use cardano_on_evm.Prelude.{◌≡◌, ap, Result, ok}
use cardano_on_evm.Submission.Adapters.{Call, chain_call, pure_call}
use cardano_on_evm.Submission.Adapters.Submit.{chain_call-eq-ok, pure_call-eq-ok}

-- Every value and every state in which the call returns from the state `n` satisfy `P`.
unfoldable pub Ends : {N A : Type 0} → Call N A → N → (A → N → Type 0) → Type 0
Ends {N} {A} m n P = (a : A) (n' : N) → m n ≡ (ok a, n') → P a n'

module _ {N : Type 0} where
  pub ends_call :
      {A B : Type 0} (m : Call N A) (next : A → Call N B) (n : N) (P : B → N → Type 0)
      → ((a : A) (n₁ : N) → m n ≡ (ok a, n₁) → Ends (next a) n₁ P)
      → Ends (chain_call m next) n P
  unfolding Ends
  ends_call m next n P rest b n' h =
      let (a, n₁, e, h₁) = chain_call-eq-ok m next n b n' h in rest a n₁ e b n' h₁

  pub ends_pure :
      {A B : Type 0} (r : Result A) (next : A → Call N B) (n : N) (P : B → N → Type 0)
      → ((a : A) → r ≡ ok a → Ends (next a) n P)
      → Ends (chain_call (pure_call r) next) n P
  unfolding Ends
  ends_pure r next n P rest b n' h =
      let (a, e, h₁) = pure_call-eq-ok r next n b n' h in rest a e b n' h₁

  pub ends_last :
      {A : Type 0} (r : Result A) (n : N) (P : A → N → Type 0)
      → ((a : A) → r ≡ ok a → P a n)
      → Ends (pure_call r) n P
  unfolding Ends
  ends_last {A} r n P last a n' h =
      subst (P a) (ap (λ (x : Result A × N). x.1) h) (last a (ap (λ (x : Result A × N). x.0) h))

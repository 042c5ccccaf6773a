-- ===== src/Submission/Adapters/Ensures.antt =====
-- What a chain of calls ensures of the value that it returns, with a rule for each kind of call.
use cardano_on_evm.Prelude.{◌≡◌, ap, Result, ok}
use cardano_on_evm.Submission.Adapters.{Call, chain_call, pure_call}
use cardano_on_evm.Submission.Adapters.Submit.{chain_call-eq-ok, pure_call-eq-ok}

-- Every value that the call returns, from any state, satisfies `P`.
unfoldable pub Ensures : {N A : Type 0} → Call N A → (A → Type 0) → Type 0
Ensures {N} {A} m P = (n n' : N) (a : A) → m n ≡ (ok a, n') → P a

module _ {N : Type 0} where
  pub ensures_call :
      {A B : Type 0} (m : Call N A) (next : A → Call N B) (P : B → Type 0)
      → ((a : A) (n n' : N) → m n ≡ (ok a, n') → Ensures (next a) P)
      → Ensures (chain_call m next) P
  unfolding Ensures
  ensures_call m next P rest n n' b h =
      let (a, n₁, e, h₁) = chain_call-eq-ok m next n b n' h in rest a n n₁ e n₁ n' b h₁

  pub ensures_pure :
      {A B : Type 0} (r : Result A) (next : A → Call N B) (P : B → Type 0)
      → ((a : A) → r ≡ ok a → Ensures (next a) P)
      → Ensures (chain_call (pure_call r) next) P
  unfolding Ensures
  ensures_pure r next P rest n n' b h =
      let (a, e, h₁) = pure_call-eq-ok r next n b n' h in rest a e n n' b h₁

pub ensures_last :
    (N : Type 0) {A : Type 0} (r : Result A) (P : A → Type 0)
    → ((a : A) → r ≡ ok a → P a)
    → Ensures {N = N} (pure_call r) P
unfolding Ensures
ensures_last N {A} r P last n n' a h = last a (ap (λ (x : Result A × N). x.0) h)

-- ===== src/Wallet/Connector/Signing.antt =====
-- What `signData` of packages/wallet/src/connector.ts returns.
use cardano_on_evm.Prelude.{includes}
use cardano_on_evm.Prelude.{
  ℕ, ◌≡◌, refl, sym, ap, ◌∙◌, Bool, true, false, not, List, some, Result, ok, ok-injective, err,
  String, Str, Bytes, arith, if◌then◌else◌,
}
use cardano_on_evm.Wallet.Bytes.{to_hex}
use cardano_on_evm.Wallet.Address.{CardanoAddress, Bech32, parse_cardano_address}
use cardano_on_evm.Wallet.Address.Parse.{parse_cardano_address-hex}
use cardano_on_evm.Wallet.Cip8.{
  DataSignature, VerifiedCip8, Expected, Crypto, verify_cip8_signature,
}
use cardano_on_evm.Wallet.Cip8.Sound.{Authorizes, verify_cip8_signature-Authorizes}
use cardano_on_evm.Wallet.Connector.Session.{
  CardanoWalletId, Cip30, Reply, resolved, rejected, Outcome, done, failed, Session, Step, bind,
  continue_with, give, lift, reconnect, settle, call,
}
use cardano_on_evm.Wallet.Connector.{reconnect_if, addresses, sign_data}

module _ {W : Type 0} where
  continue_with-eq-done :
      {A B : Type 0} (r : Outcome A × Session W) (next : A → Step W B) (b : B) (s' : Session W)
      → continue_with r next ≡ (done b, s')
      → (a : A) × (s₁ : Session W) × (r ≡ (done a, s₁)) × (next a s₁ ≡ (done b, s'))
  continue_with-eq-done (done a, s₁) next b s' h = (a, s₁, refl, h)
  continue_with-eq-done (failed e, s₁) next b s' h = cc

  -- A chain of steps that is done: what its first step gave, and what the rest made of it.
  pub bind-eq-done :
      {A B : Type 0} (step : Step W A) (next : A → Step W B) (s : Session W) (b : B)
      (s' : Session W)
      → bind step next s ≡ (done b, s')
      → (a : A) × (s₁ : Session W) × (step s ≡ (done a, s₁)) × (next a s₁ ≡ (done b, s'))
  unfolding bind
  bind-eq-done step next s b s' h = continue_with-eq-done (step s) next b s' h

  lift-eq-done :
      {A : Type 0} (r : Result A) (s : Session W) (a : A) (s' : Session W)
      → lift r s ≡ (done a, s')
      → (r ≡ ok a) × (s ≡ s')
  unfolding lift
  lift-eq-done (ok x) s a s' h = (cc, cc)
  lift-eq-done (err e) s a s' h = cc

  give-eq-done :
      {A : Type 0} (a b : A) (s s' : Session W) → give a s ≡ (done b, s') → (a ≡ b) × (s ≡ s')
  give-eq-done a b s s' h = (cc, cc)

  reconnect_if-eq-done :
      (id : CardanoWalletId) (b : Bool) (m : String) (s : Session W) (s' : Session W)
      → reconnect_if id b m s ≡ (done tt, s')
      → (b ≡ false) × (s ≡ s')
  unfolding reconnect_if reconnect
  reconnect_if-eq-done id true m s s' h = cc
  reconnect_if-eq-done id false m s s' h = (cc, cc)

  settle-eq-done :
      {A : Type 0} (id : CardanoWalletId) (m : String) (s : Session W) (r : Reply A × W) (a : A)
      (s' : Session W)
      → settle id m s r ≡ (done a, s')
      → r.0 ≡ resolved a
  unfolding settle
  settle-eq-done id m s (resolved x, w) a s' h = cc
  settle-eq-done id m s (rejected c, w) a s' h = cc

  call-eq-done :
      {A : Type 0} (id : CardanoWalletId) (m : String) (fn : W → Reply A × W) (s : Session W)
      (a : A) (s' : Session W)
      → call id m fn s ≡ (done a, s')
      → (fn s.wallet).0 ≡ resolved a
  unfolding call reconnect
  call-eq-done id m fn s a s' h = either s.invalid h
    where
      either :
          (b : Bool)
          → (if b
              then reconnect id "Connection is no longer valid" s
              else settle id m s (fn s.wallet))
            ≡ (done a, s')
          → (fn s.wallet).0 ≡ resolved a
      either true h = cc
      either false h = settle-eq-done id m s (fn s.wallet) a s' h

-- What `sign_data` has found out about the message it returns.
pub record Signed {W : Type 0} (crypto : Crypto) (bech32 : Bech32) (id : CardanoWalletId)
    (expected_network : ℕ) (provider : Cip30 W) (address : Str) (payload : Bytes) (s s' : Session W)
    (signed : DataSignature) : Type 0 where
  pub parsed : CardanoAddress
  pub parses : parse_cardano_address bech32 address (some expected_network) ≡ ok parsed
  pub signature : VerifiedCip8
  pub authorized :
      Authorizes crypto bech32
        (record { address = parsed.hex; network = expected_network; payload = payload })
        signature
  pub same_address : signature.address ≡ parsed
  pub before : List Str
  pub asked : Session W
  pub listed_before :
      addresses crypto bech32 id expected_network provider parsed.credential s
      ≡ (done before, asked)
  pub was_listed : includes parsed.hex before ≡ true
  pub answer : (provider.sign_data parsed.hex (to_hex payload) asked.wallet).0 ≡ resolved signed
  pub after : List Str
  pub answered : Session W
  pub listed_after :
      addresses crypto bech32 id expected_network provider parsed.credential answered
      ≡ (done after, s')
  pub still_listed : includes parsed.hex after ≡ true

negated_false : (b : Bool) → not b ≡ false → b ≡ true
negated_false b h = ground arith

-- What `sign_data` returns is what the wallet answered when asked to sign these bytes with the parsed
-- address; it authorizes the payload for that address; and the wallet listed the address, under the
-- credential it has, right before it was asked and after it had answered.
pub sign_data-Signed :
    {W : Type 0} (crypto : Crypto) (bech32 : Bech32) (id : CardanoWalletId) (expected_network : ℕ)
    (provider : Cip30 W) (address : Str) (payload : Bytes) (s s' : Session W)
    (signed : DataSignature)
    → sign_data crypto bech32 id expected_network provider address payload s ≡ (done signed, s')
    → Signed crypto bech32 id expected_network provider address payload s s' signed
unfolding sign_data
sign_data-Signed {W = W} crypto bech32 id n provider address payload s s' signed h =
    let (a, s₁, e₁, h₁) =
      bind-eq-done (lift (parse_cardano_address bech32 address (some n))) _ s signed s' h in
    let (parses, p₁) = lift-eq-done (parse_cardano_address bech32 address (some n)) s a s₁ e₁ in
    let (before, s₂, e₂, h₂) =
      bind-eq-done (addresses crypto bech32 id n provider a.credential) _ s₁ signed s' h₁ in
    let (u, s₃, e₃, h₃) =
      bind-eq-done (reconnect_if id (not (includes a.hex before)) _) _ s₂ signed s' h₂ in
    let (listed, p₃) = reconnect_if-eq-done id _ _ s₂ s₃ e₃ in
    let (answer, s₄, e₄, h₄) =
      bind-eq-done (call id "signing" (provider.sign_data a.hex (to_hex payload))) _ s₃ signed s'
        h₃ in
    let (after, s₅, e₅, h₅) =
      bind-eq-done (addresses crypto bech32 id n provider a.credential) _ s₄ signed s' h₄ in
    let (u', s₆, e₆, h₆) =
      bind-eq-done (reconnect_if id (not (includes a.hex after)) _) _ s₅ signed s' h₅ in
    let (relisted, p₆) = reconnect_if-eq-done id _ _ s₅ s₆ e₆ in
    let expected : Expected = record { address = a.hex; network = n; payload = payload } in
    let (v, s₇, e₇, h₇) =
      bind-eq-done (lift (verify_cip8_signature crypto bech32 answer expected)) _ s₆ signed s' h₆ in
    let (verified, p₇) =
      lift-eq-done (verify_cip8_signature crypto bech32 answer expected) s₆ v s₇ e₇ in
    let (same, p₈) = give-eq-done answer signed s₇ s' h₇ in
    let last : s₅ ≡ s' = p₆ ∙ (p₇ ∙ p₈) in
    let authorized = verify_cip8_signature-Authorizes crypto bech32 answer expected v verified in
    record {
      parsed = a;
      parses = parses;
      signature = v;
      authorized = authorized;
      same_address =
          ok-injective
            (sym authorized.address ∙ parse_cardano_address-hex bech32 address (some n) a parses);
      before = before;
      asked = s₃;
      listed_before =
          ap (addresses crypto bech32 id n provider a.credential) p₁
          ∙ (e₂ ∙ ap (λ (x : Session W). (done before, x)) p₃);
      was_listed = negated_false _ listed;
      answer = call-eq-done id "signing" _ s₃ answer s₄ e₄ ∙ ap resolved same;
      after = after;
      answered = s₄;
      listed_after = e₅ ∙ ap (λ (x : Session W). (done after, x)) last;
      still_listed = negated_false _ relisted;
    }

-- ===== src/Wallet/Connector/Validity.antt =====
-- When a connection of packages/wallet/src/connector.ts is invalid, and what that means.
use cardano_on_evm.Prelude.{
  ℕ, ◌≡◌, refl, ap, ◌∙◌, Bool, true, false, ◌||◌, List, [], ◌∷◌, Result, ok, err, String, Str,
  Bytes, if◌then◌else◌,
}
use cardano_on_evm.Wallet.Address.{CardanoCredential, payment, stake, Bech32}
use cardano_on_evm.Wallet.Cip8.{Crypto}
use cardano_on_evm.Wallet.Connector.Session.{
  CardanoWalletId, Cip30, Reply, resolved, rejected, plain, wallet_error, Outcome, done, failed,
  Session, Step, bind, continue_with, give, lift, reconnect, settle, refusal, call,
}
use cardano_on_evm.Wallet.Connector.{
  reconnect_if, check_network, candidates, parse_all, addresses, sign_data, open_session,
}

-- Whether an outcome is an error that asks for a new connection.
unfoldable pub asks_reconnect : {T : Type 0} → Outcome T → Bool
asks_reconnect (done a) = false
asks_reconnect (failed (plain e)) = false
asks_reconnect (failed (wallet_error e)) = e.reconnect_required

unfoldable pub is_done : {T : Type 0} → Outcome T → Bool
is_done (done a) = true
is_done (failed e) = false

module _ {W : Type 0} where
  -- The step makes the connection invalid exactly when its error asks for a new one.
  abbrev pub Tracks : {A : Type 0} → Step W A → Type 0
  Tracks step = (s : Session W) → (step s).1.invalid ≡ (asks_reconnect (step s).0 || s.invalid)

  abbrev pub shut : W → Session W
  shut w = record { invalid = true; wallet = w }

  -- On an invalid connection the step fails and touches nothing, the wallet included.
  abbrev pub Refuses : {A : Type 0} → Step W A → Type 0
  Refuses step = (w : W) → (is_done (step (shut w)).0 ≡ false) × ((step (shut w)).1 ≡ shut w)

  continue_with-Tracks :
      {A B : Type 0} (b : Bool) (r : Outcome A × Session W) (next : A → Step W B)
      → ((a : A) → Tracks (next a))
      → r.1.invalid ≡ (asks_reconnect r.0 || b)
      → (continue_with r next).1.invalid ≡ (asks_reconnect (continue_with r next).0 || b)
  unfolding asks_reconnect
  continue_with-Tracks b (done a, s) next t e =
      t a s ∙ ap (λ (i : Bool). asks_reconnect (next a s).0 || i) e
  continue_with-Tracks b (failed f, s) next t e = e

  bind-Tracks :
      {A B : Type 0} (step : Step W A) (next : A → Step W B)
      → Tracks step
      → ((a : A) → Tracks (next a))
      → Tracks (bind step next)
  unfolding bind
  bind-Tracks step next t u s = continue_with-Tracks s.invalid (step s) next u (t s)

  give-Tracks : {A : Type 0} (a : A) → Tracks (give a)
  unfolding asks_reconnect
  give-Tracks a s = refl

  lift-Tracks : {A : Type 0} (r : Result A) → Tracks (lift r)
  unfolding lift asks_reconnect
  lift-Tracks (ok a) s = refl
  lift-Tracks (err e) s = refl

  reconnect-Tracks :
      (A : Type 0) (id : CardanoWalletId) (m : String) → Tracks (reconnect id {A = A} m)
  unfolding reconnect asks_reconnect
  reconnect-Tracks A id m s = refl

  settle-Tracks :
      {A : Type 0} (id : CardanoWalletId) (m : String) (s : Session W) (r : Reply A × W)
      → (settle id m s r).1.invalid ≡ (asks_reconnect (settle id m s r).0 || s.invalid)
  unfolding settle refusal asks_reconnect
  settle-Tracks id m s (resolved a, w) = refl
  settle-Tracks id m s (rejected c, w) = refl

  call-Tracks :
      {A : Type 0} (id : CardanoWalletId) (m : String) (fn : W → Reply A × W)
      → Tracks (call id m fn)
  unfolding call
  call-Tracks id m fn s = either s.invalid
    where
      either :
          (b : Bool)
          → let r =
              if b
              then reconnect id "Connection is no longer valid" s
              else settle id m s (fn s.wallet) in
            r.1.invalid ≡ (asks_reconnect r.0 || s.invalid)
      either true = reconnect-Tracks _ id "Connection is no longer valid" s
      either false = settle-Tracks id m s (fn s.wallet)

  reconnect_if-Tracks :
      (id : CardanoWalletId) (b : Bool) (m : String) → Tracks (reconnect_if id b m)
  unfolding reconnect_if
  reconnect_if-Tracks id true m = reconnect-Tracks _ id m
  reconnect_if-Tracks id false m = give-Tracks tt

  bind-Refuses :
      {A B : Type 0} (step : Step W A) (next : A → Step W B)
      → Refuses step
      → Refuses (bind step next)
  unfolding bind is_done
  bind-Refuses {A = A} step next t w = stopped (step (shut w)) (t w)
    where
      stopped :
          (r : Outcome A × Session W)
          → (is_done r.0 ≡ false) × (r.1 ≡ shut w)
          → (is_done (continue_with r next).0 ≡ false) × ((continue_with r next).1 ≡ shut w)
      stopped (done a, s') e = absurd (cc e.0)
      stopped (failed f, s') e = e

  call-Refuses :
      {A : Type 0} (id : CardanoWalletId) (m : String) (fn : W → Reply A × W)
      → Refuses (call id m fn)
  unfolding call reconnect is_done
  call-Refuses id m fn w = (refl, refl)

  lift-Refuses :
      {A B : Type 0} (r : Result A) (next : A → Step W B)
      → ((a : A) → Refuses (next a))
      → Refuses (bind (lift r) next)
  unfolding bind lift is_done
  lift-Refuses (ok a) next t w = t a w
  lift-Refuses (err e) next t w = (refl, refl)

module _ {W : Type 0} (id : CardanoWalletId) (expected_network : ℕ) (provider : Cip30 W) where
  check_network-Tracks : Tracks (check_network id expected_network provider)
  unfolding check_network
  check_network-Tracks =
      bind-Tracks _ _ (call-Tracks id _ _)
        λ n. bind-Tracks _ _ (reconnect_if-Tracks id _ _) λ u. give-Tracks n

  check_network-Refuses : Refuses (check_network id expected_network provider)
  unfolding check_network
  check_network-Refuses = bind-Refuses _ _ (call-Refuses id _ _)

  candidates-Tracks : (c : CardanoCredential) → Tracks (candidates id expected_network provider c)
  unfolding candidates
  candidates-Tracks stake = call-Tracks id _ _
  candidates-Tracks payment =
      bind-Tracks _ _ (call-Tracks id _ _)
        λ change. bind-Tracks _ _ (call-Tracks id _ _) λ used. give-Tracks (change ∷ used)

  open_session-Tracks : Tracks (open_session id expected_network provider)
  unfolding open_session
  open_session-Tracks =
      bind-Tracks _ _ (call-Tracks id _ _)
        λ u. bind-Tracks _ _ check_network-Tracks λ n. give-Tracks tt

module _ (crypto : Crypto) (bech32 : Bech32) {W : Type 0} (id : CardanoWalletId)
    (expected_network : ℕ) (provider : Cip30 W) where
  parse_all-Tracks :
      (c : CardanoCredential) (values : List Str)
      → Tracks (parse_all crypto bech32 id expected_network provider c values)
  unfolding parse_all
  parse_all-Tracks c [] = give-Tracks []
  parse_all-Tracks c (v ∷ vs) = bind-Tracks _ _ (lift-Tracks _) λ parsed.
      bind-Tracks _ _ (reconnect_if-Tracks id _ _)
        λ u. bind-Tracks _ _ (parse_all-Tracks c vs) λ rest. give-Tracks _

  addresses-Tracks :
      (c : CardanoCredential) → Tracks (addresses crypto bech32 id expected_network provider c)
  unfolding addresses
  addresses-Tracks c = bind-Tracks _ _ (check_network-Tracks id expected_network provider) λ n.
      bind-Tracks _ _ (candidates-Tracks id expected_network provider c) λ found.
        bind-Tracks _ _ (check_network-Tracks id expected_network provider)
          λ n'. bind-Tracks _ _ (parse_all-Tracks c found) λ parsed. give-Tracks _

  sign_data-Tracks :
      (a : Str) (payload : Bytes)
      → Tracks (sign_data crypto bech32 id expected_network provider a payload)
  unfolding sign_data
  sign_data-Tracks a payload = bind-Tracks _ _ (lift-Tracks _) λ parsed.
      bind-Tracks _ _ (addresses-Tracks parsed.credential) λ before.
        bind-Tracks _ _ (reconnect_if-Tracks id _ _) λ u.
          bind-Tracks _ _ (call-Tracks id _ _) λ signed.
            bind-Tracks _ _ (addresses-Tracks parsed.credential) λ after.
              bind-Tracks _ _ (reconnect_if-Tracks id _ _)
                λ u'. bind-Tracks _ _ (lift-Tracks _) λ v. give-Tracks signed

  -- Opening a session, reading the network, listing addresses and signing each leave the connection
  -- invalid exactly if it was before or if they fail with an error that asks to reconnect, whatever
  -- the wallet does.
  pub operations-Tracks :
      Tracks (open_session id expected_network provider)
      × Tracks (check_network id expected_network provider)
      × ((c : CardanoCredential) → Tracks (addresses crypto bech32 id expected_network provider c))
      × ((a : Str) (payload : Bytes)
          → Tracks (sign_data crypto bech32 id expected_network provider a payload))
  operations-Tracks = (
    open_session-Tracks id expected_network provider,
    check_network-Tracks id expected_network provider,
    addresses-Tracks,
    sign_data-Tracks,
  )

  addresses-Refuses :
      (c : CardanoCredential) → Refuses (addresses crypto bech32 id expected_network provider c)
  unfolding addresses
  addresses-Refuses c = bind-Refuses _ _ (check_network-Refuses id expected_network provider)

  -- On an invalid connection, reading the network, listing addresses and signing fail, leave the
  -- connection as it is, and do not reach the wallet.
  pub operations-Refuses :
      Refuses (check_network id expected_network provider)
      × ((c : CardanoCredential) → Refuses (addresses crypto bech32 id expected_network provider c))
      × ((a : Str) (payload : Bytes)
          → Refuses (sign_data crypto bech32 id expected_network provider a payload))
  unfolding sign_data
  operations-Refuses = (
    check_network-Refuses id expected_network provider,
    addresses-Refuses,
    λ a payload.
        lift-Refuses _ _ (λ parsed. bind-Refuses _ _ (addresses-Refuses parsed.credential)),
  )

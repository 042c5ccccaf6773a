-- ===== src/Wallet/Connector.antt =====
-- packages/wallet/src/connector.ts and lace.ts: `connectWallet`, the CIP-30 connection to a wallet.
pub mod Session
pub mod Validity
pub mod Signing
use cardano_on_evm.Prelude.{includes}
use cardano_on_evm.Prelude.{
  ℕ, ◌≡◌, Bool, true, false, not, ◌&&◌, ◌||◌, List, [], ◌∷◌, ◌++◌, Option, none, some, Result, ok,
  err, String, Str, Bytes, codes, str_eq, ◌==◌, if◌then◌else◌,
}
use cardano_on_evm.Wallet.Bytes.{to_hex}
use cardano_on_evm.Wallet.Address.{
  CardanoAddress, CardanoCredential, is_stake, Bech32, parse_cardano_address,
}
use cardano_on_evm.Wallet.Cip8.{
  DataSignature, VerifiedCip8, Expected, Crypto, verify_cip8_signature,
}
use Session.{
  CardanoWalletId, lace, eternl, label_of, Cip30, CardanoWalletError, Outcome, failed, plain,
  wallet_error, Step, bind, give, lift, reconnect, call,
}

-- `[...new Set(values)]`, after the values in `seen`.
unfoldable pub unique : List Str → List Str → List Str
unique seen [] = []
unique seen (s ∷ ss) =
    let fresh = unique (s ∷ seen) ss in
    let old = unique seen ss in if includes s seen then old else s ∷ fresh

abbrev pub same_credential : CardanoCredential → CardanoCredential → Bool
same_credential a b = if is_stake a then is_stake b else not (is_stake b)

infixl 5 ◌>>=◌ ◌>>◌
abbrev ◌>>=◌ : {W A B : Type 0} → Step W A → (A → Step W B) → Step W B
m >>= f = bind m f

abbrev ◌>>◌ : {W A B : Type 0} → Step W A → Step W B → Step W B
m >> k = bind m (λ a. k)

-- `if (b) reconnect(message)`
unfoldable pub reconnect_if : {W : Type 0} → CardanoWalletId → Bool → String → Step W (Unit {0})
reconnect_if id true message = reconnect id message
reconnect_if id false message = give tt

module _ {W : Type 0} (id : CardanoWalletId) (expected_network : ℕ) (provider : Cip30 W) where
  unfoldable pub check_network : Step W ℕ
  check_network = do
    network ← call id "network" provider.get_network_id
    reconnect_if id (not (network == expected_network))
        "Wallet network changed or does not match enrollment"
    give network

  unfoldable pub candidates : CardanoCredential → Step W (List Str)
  candidates credential =
      if is_stake credential then call id "reward addresses" provider.get_reward_addresses else (do
        change ← call id "change address" provider.get_change_address
        used ← call id "used addresses" provider.get_used_addresses
        give (change ∷ used))

  -- `enable` and the first look at the network.
  unfoldable pub open_session : Step W (Unit {0})
  open_session = do call id "connection" provider.enable; check_network; give tt

module _ (crypto : Crypto) (bech32 : Bech32) {W : Type 0} (id : CardanoWalletId)
    (expected_network : ℕ) (provider : Cip30 W) where
  -- `candidates.map`: each candidate is parsed, and has the credential that was asked for.
  unfoldable pub parse_all : CardanoCredential → List Str → Step W (List Str)
  parse_all credential [] = give []
  parse_all credential (value ∷ values) = do
    parsed ← lift (parse_cardano_address bech32 value (some expected_network))
    reconnect_if id (not (same_credential parsed.credential credential))
        "Wallet returned an address for a different credential"
    rest ← parse_all credential values
    give (parsed.hex ∷ rest)

  unfoldable pub addresses : CardanoCredential → Step W (List Str)
  addresses credential = do
    check_network id expected_network provider
    found ← candidates id expected_network provider credential
    check_network id expected_network provider
    parsed ← parse_all credential found
    give (unique [] parsed)

  unfoldable pub sign_data : Str → Bytes → Step W DataSignature
  sign_data address payload = do
    parsed ← lift (parse_cardano_address bech32 address (some expected_network))
    before ← addresses parsed.credential
    reconnect_if id (not (includes parsed.hex before))
        "Selected Cardano address is unavailable; wallet account changed"
    signed ← call id "signing" (provider.sign_data parsed.hex (to_hex payload))
    after ← addresses parsed.credential
    reconnect_if id (not (includes parsed.hex after)) "Wallet account changed while signing"
    lift (
        verify_cip8_signature crypto bech32 signed
          (record { address = parsed.hex; network = expected_network; payload = payload }))
    give signed

pub record ConnectedCardanoWallet : Type 0 where
  pub name : Str
  pub wallet_id : CardanoWalletId
  pub api_version : Str

-- `connectWallet`: the session starts valid, and is returned with the connection. `connectLace` and
-- `connectEternl` give the identifier.
unfoldable pub connect_wallet :
    {W : Type 0} → Option (Cip30 W) → CardanoWalletId → ℕ → Step W ConnectedCardanoWallet
unfolding open_session
connect_wallet none id expected_network s =
    if not (expected_network == 0) && not (expected_network == 1)
    then (failed (plain "Unsupported Cardano network"), s)
    else (
      failed (
          wallet_error (record {
            text = label_of id ++ codes " is not installed or available to this page";
            wallet_id = id;
            reconnect_required = true;
            code = none;
          })),
      s,
    )
connect_wallet (some provider) id expected_network s =
    let opened =
      bind (open_session id expected_network provider)
        (λ u.
          give
            (record { name = provider.name; wallet_id = id; api_version = provider.api_version }))
        s in
    if not (expected_network == 0) && not (expected_network == 1)
    then (failed (plain "Unsupported Cardano network"), s)
    else opened

-- ===== src/Sdk/Enrollment.antt =====
-- `enrollCardanoAccount` of packages/sdk/src/index.ts. The wallet and the backend's transport are
-- machines on one state; the clock is an argument.
pub mod Sound
use cardano_on_evm.Prelude.{
  ℕ, ◌+◌, ◌-◌, ◌^◌, Bool, true, false, not, ◌&&◌, ◌||◌, List, [], ◌∷◌, ◌++◌, map, Option, none,
  some, Result, ok, err, ◌>>=◌, ◌>>◌, throw_if, Str, codes, str_eq, to_lower, ltb, leb, ◌==◌,
  if◌then◌else◌,
}
use cardano_on_evm.Prelude.Json.{Json, text, member_at, as_text}
use cardano_on_evm.Wallet.Bytes.{from_hex, to_hex}
use cardano_on_evm.Wallet.Address.{CardanoAddress, CardanoCredential, Bech32, parse_cardano_address}
use cardano_on_evm.Wallet.Connector.{same_credential}
use cardano_on_evm.Wallet.Cip8.{DataSignature, VerifiedCip8, verify_cip8_signature}
use cardano_on_evm.Enrollment.Store.{ChallengeRecord}
use cardano_on_evm.Enrollment.Payload.{payload}
use cardano_on_evm.Enrollment.Service.{Url, is_challenge_id}
use cardano_on_evm.Enrollment.Identity.{TableIdentity}
use cardano_on_evm.Submission.Adapters.{Call, chain_call, pure_call, ◌>>>=◌}
use cardano_on_evm.Sdk.Account.{
  Sdk, CardanoAccount, AccountConfig, AccountIdentity, table_identity, profile_identity, base_of,
  chain_of, config_hash_of, resolve_account_config, account_from_verified_key,
}
use cardano_on_evm.Sdk.Signing.{CardanoWalletAdapter, has_address}

-- What the backend answers to an enrollment.
pub record EnrollReply : Type 0 where
  pub identity : Json
  pub public_key : Str
  pub address : Str
  pub credential : CardanoCredential

pub record EnrollmentTransport (N : Type 0) : Type 0 where
  pub challenge : Str → Call N ChallengeRecord
  pub enroll : Str → DataSignature → Call N EnrollReply

pub record EnrollOptions : Type 0 where
  pub application : Str
  pub cardano_address : Str
  pub cardano_network : ℕ
  pub credential : CardanoCredential
  pub config : AccountConfig

abbrev pub table_fields : TableIdentity → List (Str × Str)
table_fields i =
    (codes "publicKey", i.public_key)
    ∷ (codes "protectedHeaders", i.protected_headers)
    ∷ (codes "validator", i.validator)
    ∷ (codes "validatorSalt", i.validator_salt)
    ∷ (codes "validatorInitCodeHash", i.validator_init_code_hash)
    ∷ (codes "account", i.account)
    ∷ (codes "accountSalt", i.account_salt)
    ∷ (codes "actualAccountSalt", i.actual_account_salt)
    ∷ (codes "initializeData", i.initialize_data)
    ∷ (codes "factoryData", i.factory_data)
    ∷ (codes "proxyInitCodeHash", i.proxy_init_code_hash)
    ∷ (codes "configHash", i.config_hash)
    ∷ []

-- `Object.entries(identity)`
unfoldable pub identity_fields : AccountIdentity → List (Str × Str)
identity_fields (table_identity i) = table_fields i
identity_fields (profile_identity i) =
    table_fields i.base
    ++ (codes "profileFactory", i.profile_factory)
      ∷ (codes "profileFactoryInitCodeHash", i.profile_factory_init_code_hash)
      ∷ (codes "hook", i.hook)
      ∷ (codes "profileHash", i.profile_hash)
      ∷ (codes "preparationData", i.preparation_data)
      ∷ []

abbrev pub same_lower : Option Str → Str → Bool
same_lower none wanted = false
same_lower (some actual) wanted = str_eq (map to_lower actual) (map to_lower wanted)

-- Whether the backend names the same value, but for the case of letters, for every field.
unfoldable pub agrees_on : Json → List (Str × Str) → Bool
agrees_on identity [] = true
agrees_on identity ((name, wanted) ∷ fields) =
    same_lower (as_text (member_at identity name)) wanted && agrees_on identity fields

-- `Number.isSafeInteger`
abbrev pub is_safe : ℕ → Bool
is_safe n = ltb n (2 ^ 53)

unfoldable pub check_application : (Str → Result Url) → Str → Result (Unit {0})
check_application parse_url application = do
  url ← parse_url application
  throw_if
      (not (str_eq url.protocol (codes "http:") || str_eq url.protocol (codes "https:"))
        || not (str_eq url.origin application))
      "Application must be an exact HTTP(S) origin"

unfoldable pub scope_is : EnrollOptions → Str → Str → ChallengeRecord → Bool
scope_is options hex wanted challenge =
    is_challenge_id challenge.id
    && str_eq challenge.application options.application
    && str_eq challenge.cardano_address hex
    && challenge.cardano_network == options.cardano_network
    && challenge.base_chain_id == chain_of options.config
    && str_eq challenge.config_hash wanted

unfoldable pub is_current : ℕ → ChallengeRecord → Bool
is_current now challenge =
    is_safe challenge.issued_at
    && is_safe challenge.expires_at
    && leb challenge.issued_at now
    && ltb now challenge.expires_at
    && leb (challenge.expires_at - challenge.issued_at) 900000

-- The checks of the challenge against the request.
unfoldable pub check_offer : EnrollOptions → Str → Str → ℕ → ChallengeRecord → Result (Unit {0})
check_offer options hex wanted now challenge = do
  throw_if (not (scope_is options hex wanted challenge))
      "Enrollment challenge scope differs from requested account"
  throw_if (not (is_current now challenge)) "Enrollment challenge has expired or invalid times"
  throw_if (not (str_eq challenge.payload_hex (to_hex (payload challenge))))
      "Enrollment payload differs from its declared scope"

module _ (sdk : Sdk) (bech32 : Bech32) where
  unfoldable pub check_claim : EnrollOptions → Result CardanoAddress
  check_claim options = do
    claimed ← parse_cardano_address bech32 options.cardano_address (some options.cardano_network)
    throw_if (not (same_credential claimed.credential options.credential))
        "Selected credential differs from claimed address"
    ok claimed

  unfoldable pub need_selected : ℕ → Str → List Str → Result (Unit {0})
  need_selected network hex given = do
    found ← has_address sdk bech32 network hex given
    throw_if (not found) "Selected Cardano address is unavailable"

  unfoldable pub verify_enrollment :
      EnrollOptions → Str → ChallengeRecord → DataSignature → Result VerifiedCip8
  verify_enrollment options hex challenge signed = do
    bytes ← from_hex (to_hex (payload challenge))
    verify_cip8_signature sdk.crypto bech32 signed
        (record { address = hex; network = options.cardano_network; payload = bytes })

  -- The checks of the backend's answer.
  unfoldable pub check_reply :
      CardanoAddress → VerifiedCip8 → CardanoAccount → EnrollReply → Result CardanoAccount
  check_reply claimed verified account reply = do
    throw_if
        (not (str_eq reply.public_key (to_hex verified.public_key))
          || not (str_eq reply.address claimed.hex)
          || not (same_credential reply.credential claimed.credential))
        "Backend enrollment identity mismatch"
    throw_if (not (agrees_on reply.identity (identity_fields account.identity)))
        "SDK and backend account derivation disagree"
    ok account

  unfoldable pub enroll_cardano_account :
      {N : Type 0}
      → (Str → Result Url)
      → CardanoWalletAdapter N
      → EnrollmentTransport N
      → ℕ
      → EnrollOptions
      → Call N CardanoAccount
  enroll_cardano_account parse_url wallet transport now options =
      pure_call (check_application parse_url options.application) >>>= λ exact.
      pure_call (resolve_account_config sdk options.config) >>>= λ config.
      pure_call (check_claim options) >>>= λ claimed.
      pure_call (config_hash_of sdk config) >>>= λ wanted.
      transport.challenge claimed.hex >>>= λ challenge.
      pure_call (check_offer options claimed.hex wanted now challenge) >>>= λ offered.
      wallet.network >>>= λ before.
      pure_call (
        throw_if (not (before == options.cardano_network)) "Wallet network differs from enrollment")
      >>>= λ same. wallet.addresses options.credential >>>= λ addresses.
          pure_call (need_selected options.cardano_network claimed.hex addresses) >>>= λ available.
          pure_call (from_hex (to_hex (payload challenge))) >>>= λ bytes.
          wallet.sign_data claimed.hex bytes >>>= λ signed. wallet.network >>>= λ after.
          pure_call (
            throw_if (not (after == options.cardano_network))
              "Wallet network changed during enrollment")
          >>>= λ still.
              pure_call (verify_enrollment options claimed.hex challenge signed) >>>= λ verified.
              pure_call (account_from_verified_key sdk verified config) >>>= λ account.
              transport.enroll challenge.id signed >>>= λ reply.
              pure_call (check_reply claimed verified account reply)

-- ===== src/Sdk/Signing.antt =====
-- `signOperation` of packages/sdk/src/index.ts. The wallet is a machine with a state, which every call
-- may change.
pub mod Sound
use cardano_on_evm.Prelude.{
  ℕ, Bool, true, false, not, ◌&&◌, ◌||◌, List, [], ◌∷◌, map, Option, none, some, Result, ok, err,
  ◌>>=◌, ◌>>◌, throw_if, Str, Bytes, codes, str_eq, to_lower, length, ◌==◌, if◌then◌else◌,
}
use cardano_on_evm.Prelude.Json.{lookup}
use cardano_on_evm.Wallet.Bytes.{from_hex}
use cardano_on_evm.Wallet.Address.{CardanoCredential, Bech32, parse_cardano_address}
use cardano_on_evm.Wallet.Cip8.{DataSignature, VerifiedCip8, verify_cip8_signature}
use cardano_on_evm.Protocol.Operation.{Operation, string, is_set}
use cardano_on_evm.Protocol.Calls.{Call, decode_restricted_calls}
use cardano_on_evm.Protocol.Payload.{operation_payload, validator_signature}
use cardano_on_evm.Submission.Inclusion.{text_of, sender_of}
use cardano_on_evm.Submission.Adapters.{chain_call, pure_call, ◌>>>=◌}
use cardano_on_evm.Submission.Adapters
use cardano_on_evm.Sdk.Account.{
  Sdk, CardanoAccount, AccountConfig, chain_of, entry_point_of, base_of, is_restricted,
  account_factory, resolve_account_config, copied,
}

pub record CardanoWalletAdapter (N : Type 0) : Type 0 where
  pub network : Adapters.Call N ℕ
  pub addresses : CardanoCredential → Adapters.Call N (List Str)
  pub sign_data : Str → Bytes → Adapters.Call N DataSignature

pub record SignedOperation : Type 0 where
  pub operation : Operation
  pub authorization : DataSignature
  pub payload : Str

-- `{ ...unsigned, signature }`: a key that is present keeps its place.
unfoldable pub set_field : Operation → Str → Str → Operation
set_field [] name value = (name, string value) ∷ []
set_field ((n, f) ∷ op) name value =
    let behind = set_field op name value in
    if str_eq n name then (n, string value) ∷ op else (n, f) ∷ behind

module _ (sdk : Sdk) (bech32 : Bech32) where
  -- `getAddress(a) !== getAddress(b)`
  unfoldable pub addresses_differ : Str → Str → Result Bool
  addresses_differ a b = do
    x ← sdk.viem.get_address a
    y ← sdk.viem.get_address b
    ok (not (str_eq x y))

  unfoldable pub check_sender : CardanoAccount → Operation → Result (Unit {0})
  check_sender account unsigned = do
    other ← addresses_differ (sender_of unsigned) (base_of account.identity).account
    throw_if other "Operation belongs to a different Cardano account"

  unfoldable pub check_factory : CardanoAccount → Operation → Result (Unit {0})
  check_factory account unsigned =
      if not (is_set (lookup (codes "factory") unsigned)) then ok tt else do
        other ←
            addresses_differ (text_of (lookup (codes "factory") unsigned)) (account_factory account)
        throw_if
            (other
              || not (
                  str_eq (map to_lower (text_of (lookup (codes "factoryData") unsigned)))
                    (map to_lower (base_of account.identity).factory_data)))
            "Operation uses a different deployment configuration"

  unfoldable pub calls_self : Str → List Call → Result Bool
  calls_self account [] = ok false
  calls_self account (c ∷ cs) = do
    other ← addresses_differ c.target account
    if other then calls_self account cs else ok true

  unfoldable pub check_calls : CardanoAccount → Operation → Result (Unit {0})
  check_calls account unsigned = if not (is_restricted account.profile) then ok tt else do
    calls ←
        decode_restricted_calls sdk.codec sdk.execute_selector
          (text_of (lookup (codes "callData") unsigned))
    self ← calls_self (base_of account.identity).account calls
    throw_if self "Restricted accounts cannot call themselves"

  -- The checks before the wallet is asked.
  unfoldable pub check_operation_of : CardanoAccount → Operation → Result (Unit {0})
  check_operation_of account unsigned = do
    check_sender account unsigned
    check_factory account unsigned
    check_calls account unsigned

  -- `addresses.some((address) => parseCardanoAddress(address, network).hex === hex)`
  unfoldable pub has_address : ℕ → Str → List Str → Result Bool
  has_address network hex [] = ok false
  has_address network hex (a ∷ rest) = do
    parsed ← parse_cardano_address bech32 a (some network)
    if str_eq parsed.hex hex then ok true else has_address network hex rest

  unfoldable pub need_address : ℕ → Str → List Str → Result (Unit {0})
  need_address network hex given = do
    found ← has_address network hex given
    throw_if (not found) "Enrolled Cardano address is unavailable"

  unfoldable pub check_authorization : CardanoAccount → Str → DataSignature → Result VerifiedCip8
  check_authorization account payload authorization = do
    bytes ← from_hex payload
    verified ← verify_cip8_signature sdk.crypto bech32 authorization (record {
      address = account.cardano_address;
      network = account.cardano_network;
      payload = bytes;
    })
    throw_if
        (not (str_eq (sdk.viem.bytes_to_hex verified.public_key) account.public_key)
          || not (
              str_eq (sdk.viem.keccak256 (sdk.viem.bytes_to_hex verified.protected_headers))
                account.protected_header_hash))
        "Wallet key or signature header profile changed"
    ok verified

  unfoldable pub signed_operation : Operation → Str → DataSignature → VerifiedCip8 → SignedOperation
  signed_operation unsigned payload authorization verified = record {
    operation = set_field unsigned (codes "signature") (validator_signature sdk.viem verified);
    authorization = authorization;
    payload = payload;
  }

  unfoldable pub sign_operation :
      {N : Type 0}
      → CardanoWalletAdapter N
      → CardanoAccount
      → Operation
      → Adapters.Call N SignedOperation
  sign_operation wallet account operation =
      pure_call (resolve_account_config sdk account.config) >>>= λ config.
      pure_call (copied sdk operation) >>>= λ unsigned.
      pure_call (check_operation_of account unsigned) >>>= λ checked. wallet.network >>>= λ before.
      pure_call (
        throw_if (not (before == account.cardano_network)) "Wallet network differs from enrollment")
      >>>= λ same. wallet.addresses account.credential >>>= λ addresses.
          pure_call (need_address account.cardano_network account.cardano_address addresses)
          >>>= λ available.
              pure_call (
                operation_payload sdk.viem sdk.user_operation_hash unsigned (chain_of config)
                  (entry_point_of config))
              >>>= λ payload. pure_call (from_hex payload) >>>= λ bytes.
                  wallet.sign_data account.cardano_address bytes >>>= λ authorization.
                  wallet.network >>>= λ after.
                  pure_call (
                    throw_if (not (after == account.cardano_network))
                      "Wallet network changed while signing")
                  >>>= λ still.
                      pure_call (check_authorization account payload authorization) >>>= λ verified.
                      pure_call (ok (signed_operation unsigned payload authorization verified))

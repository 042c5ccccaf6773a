-- ===== src/Sdk/Signing/Sound.antt =====
-- What a signed operation proves.
use cardano_on_evm.Prelude.{◌≡◌, ok, >>=-eq-ok, ok-injective, Str, Bytes, codes}
use cardano_on_evm.Wallet.Bytes.{from_hex}
use cardano_on_evm.Wallet.Address.{Bech32}
use cardano_on_evm.Wallet.Cip8.{DataSignature, VerifiedCip8, verify_cip8_signature}
use cardano_on_evm.Protocol.Operation.{Operation}
use cardano_on_evm.Submission.Adapters.Ensures.{Ensures}
use cardano_on_evm.Protocol.Payload.{operation_payload, validator_signature}
use cardano_on_evm.Sdk.Account.{
  Sdk, CardanoAccount, AccountConfig, chain_of, entry_point_of, resolve_account_config,
  config_hash_of, copied,
}
use cardano_on_evm.Sdk.Signing.{SignedOperation, check_operation_of, set_field}

module _ (sdk : Sdk) (bech32 : Bech32) where
  pub resolve_account_config-same :
      (c r : AccountConfig) → resolve_account_config sdk c ≡ ok r → c ≡ r
  unfolding resolve_account_config
  resolve_account_config-same c r h =
      let (_, _, h₁) = >>=-eq-ok (config_hash_of sdk c) _ h in ok-injective h₁

  -- The key and the headers of the account stand behind the signature of the payload.
  pub record Authorized (account : CardanoAccount) (payload : Str) (authorization : DataSignature)
      (verified : VerifiedCip8) : Type 0 where
    pub bytes : Bytes
    pub are_bytes : from_hex payload ≡ ok bytes
    pub signature :
        verify_cip8_signature sdk.crypto bech32 authorization (record {
          address = account.cardano_address;
          network = account.cardano_network;
          payload = bytes;
        })
        ≡ ok verified
    pub same_key : sdk.viem.bytes_to_hex verified.public_key ≡ account.public_key
    pub same_headers :
        sdk.viem.keccak256 (sdk.viem.bytes_to_hex verified.protected_headers)
        ≡ account.protected_header_hash

  -- What stands behind a signed operation.
  abbrev pub Signed : CardanoAccount → Operation → SignedOperation → Type 0
  Signed account operation s =
      (unsigned : Operation) × (verified : VerifiedCip8) × (copied sdk operation ≡ ok unsigned)
      × (check_operation_of sdk bech32 account unsigned ≡ ok tt)
      × (operation_payload sdk.viem sdk.user_operation_hash unsigned (chain_of account.config)
            (entry_point_of account.config)
          ≡ ok s.payload)
      × Authorized account s.payload s.authorization verified
      × (s.operation
          ≡ set_field unsigned (codes "signature") (validator_signature sdk.viem verified))

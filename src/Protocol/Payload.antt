-- ===== src/Protocol/Payload.antt =====
-- packages/protocol/src/index.ts: the payload that a wallet signs for an operation, and the signature
-- that the validator reads.
use cardano_on_evm.Prelude.{ℕ, ◌∷◌, [], Result, ok, ◌>>=◌, Str, codes, take, drop}
use cardano_on_evm.Wallet.Cip8.{VerifiedCip8}
use cardano_on_evm.Protocol.Operation.{Operation, operation_hash}
use cardano_on_evm.Protocol.Identity.{Viem, hash_value, bytes_value}

module _ (viem : Viem) where
  unfoldable pub operation_domain : Str
  operation_domain = viem.keccak256 (viem.string_to_hex (codes "cardano-kernel:operation:v1"))

  unfoldable pub operation_payload : (Operation → ℕ → Str → Str) → Operation → ℕ → Str → Result Str
  operation_payload user_operation_hash operation chain_id entry_point = do
    hash ← operation_hash user_operation_hash operation chain_id entry_point
    ok (
        viem.keccak256
          (viem.encode_parameters (hash_value operation_domain ∷ hash_value hash ∷ [])))

  unfoldable pub validator_signature : VerifiedCip8 → Str
  validator_signature verified = viem.encode_parameters (
      bytes_value (viem.bytes_to_hex verified.protected_headers)
      ∷ hash_value (viem.bytes_to_hex (take 32 verified.signature))
      ∷ hash_value (viem.bytes_to_hex (drop 32 verified.signature))
      ∷ [])

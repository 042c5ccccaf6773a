-- ===== src/Live/Request.antt =====
-- scripts/lib/live-request.ts: the checks of a request for a signature on the test network.
use cardano_on_evm.Prelude.{
  ℕ, Bool, true, false, not, ◌&&◌, ◌||◌, [], ◌∷◌, Option, none, some, Result, ok, err, ◌>>=◌, ◌>>◌,
  throw_if, Str, codes, str_eq, includes, ltb, ◌==◌, if◌then◌else◌,
}
use cardano_on_evm.Prelude.Json.{Json, lookup}
use cardano_on_evm.Wallet.Address.{CardanoCredential, payment, stake, Bech32, parse_cardano_address}
use cardano_on_evm.Enrollment.Service.{is_challenge_id}
use cardano_on_evm.Protocol.Operation.{
  Operation, is_set, number_of, operation_from_json, operation_hash,
}
use cardano_on_evm.Protocol.Calls.{decode_calls, decode_restricted_calls}
use cardano_on_evm.Protocol.Payload.{operation_payload}
use cardano_on_evm.Submission.Inclusion.{text_of, is_hash32}
use cardano_on_evm.Sdk.Account.{Sdk}
use cardano_on_evm.Sdk.Signing.{addresses_differ}
use cardano_on_evm.Live.Metadata.{is_known_wallet}

pub record ProfileDetails : Type 0 where
  pub name : Str
  pub factory : Str
  pub hook : Str
  pub policy : Str
  pub policy_config : Str
  pub policy_code_hash : Str
  pub profile_hash : Str

pub record LiveRequest : Type 0 where
  pub version : ℕ
  pub id : Str
  pub created_at : Str
  pub title : Str
  pub mode : Str
  pub chain_id : ℕ
  pub entry_point : Str
  pub cardano_address : Str
  pub cardano_network : ℕ
  pub credential : CardanoCredential
  pub public_key : Str
  pub protected_header_hash : Str
  pub user_operation_hash : Str
  pub payload_hex : Str
  pub operation : Json
  pub profile : Str
  pub profile_details : Option ProfileDetails
  pub validator : Str
  pub source_capture : Str
  pub wallet_id : Option Str
  pub purpose : Option Str

abbrev pub live_entry_point : Str
live_entry_point = codes "0x0000000071727De22E5E9d8BAf0edAc6f37da032"

abbrev pub holds : Option Str → (Str → Bool) → Bool
holds none test = true
holds (some s) test = test s

abbrev pub is_live_profile : Str → Bool
is_live_profile profile =
    includes profile (codes "experimental-general" ∷ codes "general" ∷ codes "restricted" ∷ [])

abbrev pub is_live_mode : Str → Bool
is_live_mode mode = includes mode (codes "public" ∷ codes "direct" ∷ codes "private" ∷ [])

unfoldable pub same_kind : CardanoCredential → CardanoCredential → Bool
same_kind payment payment = true
same_kind stake stake = true
same_kind _ _ = false

abbrev pub bool_eq : Bool → Bool → Bool
bool_eq true b = b
bool_eq false b = not b

unfoldable pub check_supported : LiveRequest → Result (Unit {0})
check_supported request = do
  throw_if (not (holds request.wallet_id is_known_wallet)) "Unsupported wallet ID"
  throw_if
      (not (request.version == 1)
        || not (request.chain_id == 84532)
        || not (is_challenge_id request.id)
        || not (is_live_profile request.profile)
        || not (is_live_mode request.mode))
      "Unsupported live request"

unfoldable pub check_purpose : LiveRequest → Result (Unit {0})
check_purpose request =
    throw_if
      (not (
        holds request.purpose (λ purpose.
          str_eq purpose (codes "expected-policy-rejection")
          && str_eq request.profile (codes "restricted"))))
      "Unsupported acceptance purpose"

-- An unsigned operation without a paymaster, within the limits of gas and of its price.
unfoldable pub check_experiment : Operation → Result (Unit {0})
check_experiment operation =
    throw_if
      (not (str_eq (text_of (lookup (codes "signature") operation)) (codes "0x"))
        || is_set (lookup (codes "paymaster") operation)
        || ltb 500000 (number_of (lookup (codes "verificationGasLimit") operation))
        || ltb 100000000 (number_of (lookup (codes "maxFeePerGas") operation)))
      "Unsupported live experiment operation"

abbrev pub need_details : LiveRequest → Option ProfileDetails → Result ProfileDetails
need_details request none = err "Profile review details required"
need_details request (some details) =
    if not (includes details.name (codes "general" ∷ codes "targets" ∷ codes "selectors" ∷ []))
      || not (
          bool_eq (str_eq request.profile (codes "general"))
            (str_eq details.name (codes "general")))
    then err "Profile review details required"
    else ok details

module _ (sdk : Sdk) (bech32 : Bech32) where
  unfoldable pub check_identity : LiveRequest → Result (Unit {0})
  check_identity request = do
    other ← addresses_differ sdk bech32 request.entry_point live_entry_point
    throw_if
        (other
          || not (is_hash32 request.public_key)
          || not (is_hash32 request.protected_header_hash))
        "Invalid operation identity"
    validator ← sdk.viem.get_address request.validator
    parsed ← parse_cardano_address bech32 request.cardano_address (some request.cardano_network)
    throw_if (not (same_kind parsed.credential request.credential)) "Operation credential mismatch"

  unfoldable pub check_factory_of : ProfileDetails → Operation → Result (Unit {0})
  check_factory_of details operation =
      if not (is_set (lookup (codes "factory") operation)) then ok tt else do
        other ←
            addresses_differ sdk bech32 (text_of (lookup (codes "factory") operation))
              details.factory
        throw_if other "Profile factory differs from operation"

  unfoldable pub check_profile : LiveRequest → Operation → Result (Unit {0})
  check_profile request operation =
      if str_eq request.profile (codes "experimental-general") then ok tt else do
        details ← need_details request request.profile_details
        factory ← sdk.viem.get_address details.factory
        hook ← sdk.viem.get_address details.hook
        policy ← sdk.viem.get_address details.policy
        throw_if (not (is_hash32 details.policy_code_hash) || not (is_hash32 details.profile_hash))
            "Invalid profile commitment"
        check_factory_of details operation

  unfoldable pub check_call_data : LiveRequest → Operation → Result (Unit {0})
  check_call_data request operation = do
    let call_data = text_of (lookup (codes "callData") operation)
    calls ←
        (if str_eq request.profile (codes "restricted")
          then decode_restricted_calls sdk.codec sdk.execute_selector call_data
          else decode_calls sdk.codec call_data)
    ok tt

  unfoldable pub check_commitment : LiveRequest → Operation → Result (Unit {0})
  check_commitment request operation = do
    hash ← operation_hash sdk.user_operation_hash operation request.chain_id request.entry_point
    payload ←
        operation_payload sdk.viem sdk.user_operation_hash operation request.chain_id
          request.entry_point
    throw_if
        (not (str_eq hash request.user_operation_hash) || not (str_eq payload request.payload_hex))
        "Operation does not match its authorization payload"

  unfoldable pub check_live_request : LiveRequest → Result Operation
  check_live_request request = do
    check_supported request
    check_identity request
    operation ← operation_from_json sdk.viem.get_address request.operation
    check_purpose request
    check_experiment operation
    check_profile request operation
    check_call_data request operation
    check_commitment request operation
    ok operation

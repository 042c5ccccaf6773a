-- ===== src/Tests/Evidence.antt =====
-- scripts/lib/live-evidence.ts on a request for the sample operation.
use cardano_on_evm.Prelude.{
  ◌≡◌, refl, [], ◌∷◌, ◌++◌, none, some, ok, Str, codes, replicate, length, ltb, str_eq,
  if◌then◌else◌, false, has_prefix, includes, to_lower, is_space,
}
use cardano_on_evm.Prelude.Json.{lookup, text, object}
use cardano_on_evm.Wallet.Bytes.{
  to_hex, from_hex, hex_char, all_hex, is_hex_digit, hex_value, parse_pairs, strip_0x,
}
use cardano_on_evm.Wallet.Address.{
  payment, parse_cardano_address, check_address, credential_of, address_length, is_supported_kind,
  expected_prefix, is_bech32_address,
}
use cardano_on_evm.Enrollment.Service.{is_challenge_id, all_lower_hex}
use cardano_on_evm.Submission.Inclusion.{is_hash32}
use cardano_on_evm.Sdk.Signing.{addresses_differ, set_field}
use cardano_on_evm.Protocol.Calls.{decode_calls, decode_mode, decode_many, address_calls}
use cardano_on_evm.Protocol.Payload.{operation_payload, operation_domain, validator_signature}
use cardano_on_evm.Enrollment.Identity.{prefixed_hex}
use cardano_on_evm.Protocol.Operation.{operation_to_json, has_member, operation_hash}
use cardano_on_evm.Sdk.Account.{Sdk}
use cardano_on_evm.Live.Metadata
use cardano_on_evm.Live.Request
use cardano_on_evm.Live.Request.{LiveRequest, check_live_request, live_entry_point}
use cardano_on_evm.Live.Evidence
use cardano_on_evm.Live.Evidence.{
  Authorization, CaptureBody, Captured, authorize, capture, read_live_request, verify_capture,
}
use cardano_on_evm.Live.Evidence.Saved.{Authorized, capture-Authorized}
use cardano_on_evm.Tests.Samples.{
  no_bech32, sample_key, sample_address, sample_message, sample_verified, verified_sample,
  sample_headers,
}
use cardano_on_evm.Tests.Operation.{sample_operation, sample_again}
use cardano_on_evm.Tests.Calls.{toy_codec}
use cardano_on_evm.Tests.Sdk.{toy_viem, toy_sdk, payload_bytes}

-- A short text has a short hash.
abbrev live_sdk : Sdk
live_sdk = record toy_sdk {
  viem = record toy_viem {
    keccak256 = λ s. if ltb (length s) 3 then codes "0x0102" else codes "0x" ++ replicate 64 b'2';
  };
  codec = record toy_codec { encode_array = λ calls. ok (codes "0x") };
}

abbrev sample_id : Str
sample_id = replicate 64 b'a'

abbrev sample_request : LiveRequest
sample_request = record {
  version = 1;
  id = sample_id;
  created_at = codes "2026-01-01T00:00:00.000Z";
  title = codes "t";
  mode = codes "public";
  chain_id = 84532;
  entry_point = live_entry_point;
  cardano_address = to_hex sample_address;
  cardano_network = 0;
  credential = payment;
  public_key = prefixed_hex sample_key;
  protected_header_hash = codes "0x" ++ replicate 64 b'2';
  user_operation_hash = codes "0x03";
  payload_hex = codes "0x0102";
  operation = object (operation_to_json sample_operation);
  profile = codes "experimental-general";
  profile_details = none;
  validator = codes "0xa";
  source_capture = [];
  wallet_id = none;
  purpose = none;
}

abbrev sample_body : CaptureBody
sample_body = record {
  id = sample_id;
  wallet = record { wallet_id = none; wallet_name = none; wallet_api_version = none };
  wallet_version = some (text (codes "1.0"));
  user_agent = some (text (codes "b"));
  signed = sample_message (1 ∷ 2 ∷ []);
}

abbrev waiting : Evidence.Evidence
waiting = record { requests = (sample_id, sample_request) ∷ []; signatures = []; results = [] }

supported_request : Request.check_supported sample_request ≡ ok tt
unfolding Request.check_supported is_challenge_id all_lower_hex includes str_eq
supported_request = refl

identified_request : Request.check_identity live_sdk no_bech32 sample_request ≡ ok tt
unfolding Request.check_identity addresses_differ is_hash32 has_prefix prefixed_hex to_hex hex_char
    all_hex is_hex_digit parse_cardano_address check_address credential_of address_length
    is_supported_kind expected_prefix is_bech32_address from_hex strip_0x hex_value parse_pairs
    str_eq Request.same_kind
identified_request = refl

called_request : Request.check_call_data live_sdk no_bech32 sample_request sample_operation ≡ ok tt
unfolding Request.check_call_data lookup str_eq decode_calls decode_mode decode_many address_calls
    to_lower
called_request = refl

committed_request :
    Request.check_commitment live_sdk no_bech32 sample_request sample_operation ≡ ok tt
unfolding Request.check_commitment operation_hash operation_payload operation_domain str_eq
committed_request = refl

checked_request : check_live_request live_sdk no_bech32 sample_request ≡ ok sample_operation
unfolding check_live_request Request.check_purpose Request.check_experiment Request.check_profile
    lookup str_eq
checked_request =
    rw (supported_request, identified_request, sample_again, called_request, committed_request) refl

read_sample : read_live_request live_sdk no_bech32 waiting sample_id ≡ ok sample_request
unfolding read_live_request is_challenge_id all_lower_hex lookup str_eq
read_sample = rw (checked_request) refl

verified_request :
    verify_capture live_sdk no_bech32 sample_request (sample_message (1 ∷ 2 ∷ []))
    ≡ ok (sample_verified (1 ∷ 2 ∷ []))
unfolding verify_capture sample_verified sample_headers prefixed_hex to_hex hex_char str_eq to_lower
verified_request = rw (payload_bytes, verified_sample) refl

labelled :
    Metadata.wallet_metadata sample_body.wallet
    ≡ ok (record { id = none; name = none; api_version = none })
unfolding Metadata.wallet_metadata Metadata.read_wallet_id Metadata.read_label
labelled = refl

abbrev saved_authorization : Authorization
saved_authorization = record {
  captured_at = codes "now";
  request = sample_request;
  wallet = record { id = none; name = none; api_version = none };
  release = some (codes "1.0");
  user_agent = some (text (codes "b"));
  signed = sample_message (1 ∷ 2 ∷ []);
  operation = operation_to_json (
      set_field sample_operation (codes "signature")
        (validator_signature live_sdk.viem (sample_verified (1 ∷ 2 ∷ []))));
}

authorized_sample :
    authorize live_sdk no_bech32 (codes "now") sample_body waiting ≡ ok saved_authorization
unfolding authorize Evidence.other_wallet Evidence.is_release Evidence.is_user_agent Metadata.trim
    Metadata.trim_start Metadata.trim_end is_space
authorized_sample = rw (labelled, read_sample, checked_request, verified_request) refl

abbrev sample_captured : Captured
sample_captured = record { id = sample_id; user_operation_hash = codes "0x03" }

captured_sample :
    capture live_sdk no_bech32 (codes "now") sample_body waiting
    ≡ (ok sample_captured, record waiting { signatures = (sample_id, saved_authorization) ∷ [] })
unfolding capture Evidence.save_when Evidence.save_signature lookup
captured_sample = rw (authorized_sample) refl

capture-Authorized_example :
    (a : Authorization) × Authorized live_sdk no_bech32 sample_body waiting a.request
    × (a.signed ≡ sample_body.signed)
    × (has_member waiting.signatures a.request.id ≡ false)
    × (sample_id ≡ a.request.id)
    × (record waiting { signatures = (sample_id, saved_authorization) ∷ [] }
        ≡ record waiting { signatures = (a.request.id, a) ∷ waiting.signatures })
capture-Authorized_example =
    capture-Authorized live_sdk no_bech32 (codes "now") sample_body waiting
      (record waiting { signatures = (sample_id, saved_authorization) ∷ [] }) sample_captured
      captured_sample

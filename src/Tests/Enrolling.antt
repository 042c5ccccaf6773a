-- ===== src/Tests/Enrolling.antt =====
-- `enrollCardanoAccount` of packages/sdk/src/index.ts on the sample key.
use cardano_on_evm.Prelude.{
  ℕ, suc, ◌≡◌, refl, List, [], ◌∷◌, Result, ok, Str, codes, replicate, str_eq, to_lower, includes,
}
use cardano_on_evm.Prelude.Json.{Members, object, text, member_at, as_text, lookup}
use cardano_on_evm.Prelude.Decimal.{decimal, decimal_loop}
use cardano_on_evm.Wallet.Bytes.{to_hex, from_hex, is_hex_digit, hex_value}
use cardano_on_evm.Wallet.Address.{CardanoAddress, payment, address_of}
use cardano_on_evm.Enrollment.Store.{ChallengeRecord}
use cardano_on_evm.Enrollment.Payload.{
  payload, payload_text, json_string, json_chars, json_char, json_members,
}
use cardano_on_evm.Enrollment.Service.{Url, with_payload, is_challenge_id, all_lower_hex}
use cardano_on_evm.Enrollment.Identity.{prefixed_hex}
use cardano_on_evm.Protocol.Operation.{is_hex_bytes}
use cardano_on_evm.Protocol.Identity.{
  table_config_hash, is_some_hex, bytes32, get_addresses, kernel_proxy_init_code, initialize_data,
  account_salt, table_domain, key_x, validator_constructor, derive_table_identity,
}
use cardano_on_evm.Submission.Adapters.{chain_call}
use cardano_on_evm.Sdk.Account.{
  CardanoAccount, table_identity, table_account, experimental_general, config_hash_of,
  resolve_account_config, derive_identity, account_from_verified_key,
}
use cardano_on_evm.Sdk.Enrollment.{
  EnrollReply, EnrollmentTransport, EnrollOptions, identity_fields, agrees_on, check_application,
  scope_is, is_current, check_offer, check_claim, need_selected, verify_enrollment, check_reply,
  enroll_cardano_account,
}
use cardano_on_evm.Sdk.Signing.{has_address}
use cardano_on_evm.Sdk.Enrollment.Sound.{Enrolled, enroll_cardano_account-Enrolled}
use cardano_on_evm.Tests.Samples.{
  no_bech32, sample_key, sample_address, sample_message, sample_verified, run_verify,
  sample_headers,
}
use cardano_on_evm.Tests.Operation.{sample_sender}
use cardano_on_evm.Tests.Sdk.{
  toy_sdk, small_config, small_config_hash, small_config_resolved, toy_wallet,
}

abbrev application : Str
application = codes "https://a.b"

unfoldable offered : ChallengeRecord
unfolding payload payload_text decimal decimal_loop json_string json_chars json_char json_members
    run_verify
offered = with_payload (record {
  id = replicate 64 b'0';
  application = application;
  cardano_address = to_hex sample_address;
  cardano_network = 0;
  base_chain_id = 1;
  config_hash = codes "0x0102";
  issued_at = 50;
  expires_at = 60;
  payload_hex = [];
})

abbrev options : EnrollOptions
options = record {
  application = application;
  cardano_address = to_hex sample_address;
  cardano_network = 0;
  credential = payment;
  config = table_account small_config;
}

-- A `new URL` that knows the application.
abbrev parse_application : Str → Result Url
parse_application s = ok (record { protocol = codes "https:"; origin = application })

abbrev json_of : List (Str × Str) → Members
json_of [] = Members.end
json_of ((name, value) ∷ fields) = Members.member name (text value) (json_of fields)

abbrev enrolled : CardanoAccount
enrolled = record {
  profile = experimental_general;
  cardano_address = to_hex sample_address;
  cardano_network = 0;
  credential = payment;
  public_key = prefixed_hex sample_key;
  protected_header_hash = codes "0x0102";
  identity = table_identity (record {
    public_key = prefixed_hex sample_key;
    protected_headers = prefixed_hex sample_headers;
    validator = sample_sender;
    validator_salt = codes "0x0102";
    validator_init_code_hash = codes "0x0102";
    account = sample_sender;
    account_salt = codes "0x0102";
    actual_account_salt = codes "0x0102";
    initialize_data = codes "0x";
    factory_data = codes "0x";
    proxy_init_code_hash = codes "0x0102";
    config_hash = codes "0x0102";
  });
  config = table_account small_config;
}

derived :
    account_from_verified_key toy_sdk
      (sample_verified (payload offered))
      (table_account small_config)
    ≡ ok enrolled
unfolding account_from_verified_key resolve_account_config config_hash_of derive_identity
    derive_table_identity table_config_hash is_some_hex bytes32 get_addresses kernel_proxy_init_code
    initialize_data account_salt table_domain key_x validator_constructor is_hex_bytes prefixed_hex
    sample_verified run_verify offered sample_headers is_hex_digit hex_value includes to_lower
derived = refl

abbrev reply : EnrollReply
reply = record {
  identity = object (json_of (identity_fields enrolled.identity));
  public_key = to_hex sample_key;
  address = to_hex sample_address;
  credential = payment;
}

abbrev transport : EnrollmentTransport ℕ
transport = record {
  challenge = λ address n. (ok offered, suc n);
  enroll = λ id signed n. (ok reply, suc n);
}

verified_offer :
    verify_enrollment toy_sdk no_bech32 options
      (to_hex sample_address)
      offered
      (sample_message (payload offered))
    ≡ ok (sample_verified (payload offered))
unfolding verify_enrollment run_verify sample_message sample_verified offered
verified_offer = refl

abbrev sample_claimed : CardanoAddress
sample_claimed = address_of sample_address

claims : check_claim toy_sdk no_bech32 options ≡ ok sample_claimed
unfolding check_claim run_verify
claims = refl

available :
    need_selected toy_sdk no_bech32 0 (to_hex sample_address) (to_hex sample_address ∷ []) ≡ ok tt
unfolding need_selected has_address run_verify
available = refl

offer_checked : check_offer options (to_hex sample_address) (codes "0x0102") 55 offered ≡ ok tt
unfolding check_offer scope_is is_current is_challenge_id all_lower_hex offered run_verify
offer_checked = refl

payload_read : from_hex (to_hex (payload offered)) ≡ ok (payload offered)
unfolding offered run_verify
payload_read = refl

confirmed :
    check_reply toy_sdk no_bech32 sample_claimed (sample_verified (payload offered)) enrolled reply
    ≡ ok enrolled
unfolding check_reply agrees_on identity_fields member_at lookup as_text run_verify sample_verified
    offered sample_headers prefixed_hex to_lower
confirmed = refl

application_checked : check_application parse_application application ≡ ok tt
unfolding check_application str_eq
application_checked = refl

enrolled_run :
    enroll_cardano_account toy_sdk no_bech32 parse_application
      (toy_wallet (payload offered))
      transport
      55
      options
      0
    ≡ (ok enrolled, 6)
unfolding enroll_cardano_account chain_call
enrolled_run = rw (
  application_checked, small_config_resolved, claims, small_config_hash, offer_checked, available,
  payload_read, verified_offer, derived, confirmed,
)

enroll_cardano_account-Enrolled_example :
    Enrolled toy_sdk no_bech32 (toy_wallet (payload offered)) transport 55 options 0 enrolled 6
enroll_cardano_account-Enrolled_example =
    enroll_cardano_account-Enrolled toy_sdk no_bech32 parse_application
      (toy_wallet (payload offered)) transport 55 options 0 6 enrolled enrolled_run

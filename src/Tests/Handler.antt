-- ===== src/Tests/Handler.antt =====
-- `createEnrollmentHandler` of packages/enrollment/src/service.ts on concrete requests.
use cardano_on_evm.Prelude.{
  ◌≡◌, refl, List, [], ◌∷◌, some, Option, Result, ok, err, Bytes, codes, replicate, ltb,
  if◌then◌else◌,
}
use cardano_on_evm.Wallet.Bytes.{total_length}
use cardano_on_evm.Wallet.Cip8.{VerifiedCip8}
use cardano_on_evm.Enrollment.Store.Memory
use cardano_on_evm.Enrollment.Store.Memory.{Records, memory_store}
use cardano_on_evm.Enrollment.Service.{
  EnrollmentScope, all_lower_hex, is_challenge_id, enroll, begin_enroll, check_challenge,
}
use cardano_on_evm.Enrollment.Handler.{
  Property, Request, error_status, read_body, string_at, enroll_action, issue_action, has_size,
  route_action, read_action, perform, handle_post, handle_request, read_body-total,
}
use cardano_on_evm.Enrollment.Handler.Errors.{handle_request-error}
use cardano_on_evm.Tests.Samples.{toy_crypto, no_bech32, run_verify}

read_body-total_example : read_body 0 ((1 ∷ 2 ∷ []) ∷ (3 ∷ []) ∷ []) ≡ (
    if ltb 40000 (total_length ((1 ∷ 2 ∷ []) ∷ (3 ∷ []) ∷ []))
    then err "Request too large"
    else ok ((1 ∷ 2 ∷ []) ∷ (3 ∷ []) ∷ []))
read_body-total_example = read_body-total ((1 ∷ 2 ∷ []) ∷ (3 ∷ []) ∷ [])

abbrev derive : VerifiedCip8 → Result Bytes
derive v = ok v.public_key

abbrev test_scope : EnrollmentScope
test_scope = record {
  application = codes "https://a.b";
  base_chain_id = 8453;
  cardano_network = 0;
  config_hash = codes "0x00";
}

abbrev enroll_request : Request
enroll_request = record {
  pathname = ok (codes "/enroll");
  method = codes "POST";
  content_type = some (codes "application/json");
  body = some ((1 ∷ 2 ∷ []) ∷ []);
}

-- A well-formed request for a challenge that was never issued.
abbrev parse_unknown : Bytes → Result (Option (List Property))
parse_unknown b = ok (
    some (
      record { name = codes "id"; string = some (replicate 64 48) }
      ∷ record { name = codes "signature"; string = some (codes "00") }
      ∷ record { name = codes "key"; string = some (codes "00") }
      ∷ []))

unknown_sample :
    handle_request toy_crypto no_bech32 derive test_scope memory_store parse_unknown 1000 [] 60 60
      60 enroll_request []
    ≡ (error_status 400 "Challenge expired or unavailable", [])
unfolding handle_request handle_post perform read_action route_action has_size enroll_action
    issue_action string_at read_body enroll begin_enroll check_challenge is_challenge_id
    all_lower_hex Memory.get run_verify
unknown_sample = refl

handle_request-error_example : ◌≡◌ {A = Records} [] []
handle_request-error_example =
    handle_request-error toy_crypto no_bech32 derive test_scope memory_store parse_unknown 1000 []
      60 60 60 enroll_request [] [] 400 "Challenge expired or unavailable" tt unknown_sample

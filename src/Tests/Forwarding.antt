-- ===== src/Tests/Forwarding.antt =====
-- A request to infra/bundler/src/gateway.mjs that is forwarded.
use cardano_on_evm.Prelude.{◌≡◌, refl, true, [], ◌∷◌, Result, ok, Bytes, codes, str_eq, includes}
use cardano_on_evm.Prelude.Int.{pos}
use cardano_on_evm.Prelude.Json.{
  Json, Elements, Members, text, number, array, object, member_at, as_text, lookup,
}
use cardano_on_evm.Submission.Inclusion.{is_text}
use cardano_on_evm.Bundler.Verdict.{passed}
use cardano_on_evm.Bundler.Gateway.{
  RpcRequest, read_chunks, read_request, make_request, known_method, params_of, is_request_id,
  check_params, check_operation_params, check_body,
}
use cardano_on_evm.Bundler.Gateway.Forwarding.{Admitted, check_body-Admitted}
use cardano_on_evm.Tests.Bundler.{
  toy_abi, callee, gateway_config, user_operation, user_operation_passes,
}

abbrev estimate_json : Json
estimate_json = object (
    Members.member (codes "jsonrpc") (text (codes "2.0")) (
      Members.member (codes "id") (number (pos 1)) (
        Members.member (codes "method") (text (codes "eth_estimateUserOperationGas")) (
          Members.member (codes "params")
            (array (Elements.cons user_operation (Elements.cons (text callee) Elements.nil)))
            Members.end))))

abbrev estimate_request : RpcRequest
estimate_request = record {
  id = number (pos 1);
  method = codes "eth_estimateUserOperationGas";
  params = user_operation ∷ text callee ∷ [];
}

-- A body that parses to the request, whatever its bytes.
abbrev parse_estimate : Bytes → Result Json
parse_estimate b = ok estimate_json

estimate_read : read_request estimate_json ≡ passed estimate_request
unfolding read_request make_request known_method params_of is_request_id is_text str_eq includes
    member_at lookup as_text
estimate_read = refl

estimate_checked : check_params toy_abi gateway_config.admission estimate_request ≡ passed tt
unfolding check_params check_operation_params includes str_eq
estimate_checked = rw user_operation_passes

estimate_passes :
    check_body toy_abi parse_estimate gateway_config ((1 ∷ 2 ∷ []) ∷ []) ≡ passed estimate_request
unfolding check_body read_chunks
estimate_passes = rw (estimate_read, estimate_checked)

estimates :
    includes
      (codes "eth_estimateUserOperationGas")
      (codes "eth_sendUserOperation" ∷ codes "eth_estimateUserOperationGas" ∷ [])
    ≡ true
unfolding includes str_eq
estimates = refl

check_body-Admitted_example : Admitted toy_abi gateway_config.admission estimate_request
check_body-Admitted_example =
    check_body-Admitted toy_abi parse_estimate gateway_config ((1 ∷ 2 ∷ []) ∷ []) estimate_request
      estimate_passes estimates

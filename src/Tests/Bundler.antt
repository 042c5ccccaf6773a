-- ===== src/Tests/Bundler.antt =====
-- infra/bundler/src on a concrete policy and operation.
use cardano_on_evm.Prelude.Json.{lookup}
use cardano_on_evm.Prelude.{str_eq, has_prefix, includes, to_lower}
use cardano_on_evm.Enrollment.Service.{all_lower_hex}
use cardano_on_evm.Protocol.Operation.{hex_number, is_hex_bytes}
use cardano_on_evm.Wallet.Bytes.{hex_value, is_hex_digit, all_hex}
use cardano_on_evm.Bundler.Admission.{
  decode_execution, canonical_calls, execution_calls, single_call, target_calls, admit_calls,
  admit_call, find_rule, admit_data, check_entry_point, address, is_object, quantity, text_quantity,
  is_quantity, admit_member, admit_fees, exceeds_gas, exceeds_fee, admit_rules,
}
use cardano_on_evm.Prelude.{
  ◌≡◌, refl, true, [], ◌∷◌, ◌++◌, none, some, arith, ok, Str, codes, replicate,
}
use cardano_on_evm.Prelude.Json.{Json, Members, text, object, member_at}
use cardano_on_evm.Bundler.Verdict.{passed}
use cardano_on_evm.Bundler.Admission.{
  Abi, Rule, Config, single_mode, json_address, admit_sender, admit_operation,
}
use cardano_on_evm.Bundler.Admission.Sound.{
  Capped, RulesKept, SenderNamed, MemberNamed, admit_operation-eq-passed,
}
use cardano_on_evm.Bundler.Gateway.{
  GatewayConfig, Gateway, Head, start_gateway, answer_head, is_json_type, refill, admit_request,
  begin_request, end_request, forwarded,
}
use cardano_on_evm.Bundler.Gateway.Bounds.{Reaches, started, begun, ended, Inv, Reaches-Inv}

-- Stand-ins for viem: every text is an address, and the data of `execute` is the single call that it
-- carries.
abbrev pub toy_abi : Abi
toy_abi = record {
  get_address = λ s. ok s;
  decode_execute = λ s. some (single_mode, s);
  encode_execute = λ mode s. s;
  decode_batch = λ s. none;
  encode_batch = λ calls. [];
  hook_prefix = codes "0x8dd7712f";
}

abbrev pub account : Str
account = codes "0x" ++ replicate 40 b'1'

abbrev pub callee : Str
callee = codes "0x" ++ replicate 40 b'2'

-- A call of `callee` with the value 5 and no data.
abbrev sample_call : Str
sample_call = callee ++ replicate 63 b'0' ++ codes "5"

abbrev sample_rule : Rule
sample_rule = record { target = callee; selectors = []; allow_empty = true; max_value = 5 }

abbrev pub sample_config : Config
sample_config = record {
  entry_point = callee;
  policy = record {
    revision = codes "one";
    senders = some (account ∷ []);
    factories = none;
    paymasters = none;
    rules = some (sample_rule ∷ []);
  };
  limits = record {
    verification_gas = 1;
    call_gas = 1;
    total_gas = 2;
    max_fee_per_gas = 3;
    max_operation_cost = 6;
  };
}

abbrev pub user_operation : Json
user_operation = object (
    Members.member (codes "sender") (text account) (
      Members.member (codes "nonce") (text (codes "0x0")) (
        Members.member (codes "callGasLimit") (text (codes "0x1")) (
          Members.member (codes "verificationGasLimit") (text (codes "0x1")) (
            Members.member (codes "maxFeePerGas") (text (codes "0x3"))
              (Members.member (codes "callData") (text sample_call) Members.end))))))

pub user_operation_passes :
    admit_operation toy_abi user_operation (text callee) sample_config true ≡ passed (codes "one")
unfolding admit_operation check_entry_point address is_object json_address quantity text_quantity
    is_quantity admit_sender admit_member admit_fees exceeds_gas exceeds_fee admit_rules member_at
    lookup str_eq has_prefix all_lower_hex hex_number hex_value includes to_lower decode_execution
    is_hex_bytes all_hex is_hex_digit canonical_calls execution_calls single_call target_calls
    admit_calls admit_call find_rule admit_data
user_operation_passes = refl

admit_operation-eq-passed_example :
    (sender : Str) × (json_address toy_abi (member_at user_operation (codes "sender"))
      ≡ passed sender)
    × SenderNamed toy_abi sample_config.policy.senders sender
    × MemberNamed toy_abi
        (member_at user_operation (codes "factory"))
        sample_config.policy.factories
    × MemberNamed toy_abi
        (member_at user_operation (codes "paymaster"))
        sample_config.policy.paymasters
    × Capped user_operation sample_config.limits true
    × RulesKept toy_abi
        (some (sample_rule ∷ []))
        sender
        (member_at user_operation (codes "callData"))
    × (codes "one" ≡ codes "one")
admit_operation-eq-passed_example =
    admit_operation-eq-passed toy_abi user_operation (text callee) sample_config true (codes "one")
      user_operation_passes

abbrev pub gateway_config : GatewayConfig
gateway_config = record {
  admission = sample_config;
  requests_per_minute = 2;
  max_concurrent = 1;
  max_body_bytes = 100;
  upstream_timeout = 10;
  rest = [];
}

abbrev rpc_head : Head
rpc_head = record {
  url = codes "/rpc";
  method = codes "POST";
  authorized = true;
  content_type = codes "application/json";
}

-- The state after one request that began at 1000 ms.
abbrev busy : Gateway
busy = (begin_request rpc_head 1000 (start_gateway gateway_config 0)).1

busy-reached : Reaches gateway_config 0 busy
unfolding start_gateway
busy-reached = begun (start_gateway gateway_config 0) rpc_head 1000 (omega arith) started

one_active : busy.active ≡ 1
unfolding start_gateway begin_request answer_head str_eq is_json_type has_prefix to_lower
    admit_request refill
one_active = refl

-- The same request, answered.
Reaches-Inv_example : Inv gateway_config 0 (end_request forwarded busy)
Reaches-Inv_example =
    Reaches-Inv gateway_config 0 (end_request forwarded busy)
      (ended busy forwarded (omega (arith, one_active)) busy-reached)

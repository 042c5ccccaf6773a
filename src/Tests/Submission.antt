-- ===== src/Tests/Submission.antt =====
-- packages/submission/src/index.ts on a concrete operation and network.
use cardano_on_evm.Submission.Inclusion.{
  read_receipt, is_hash32, by_status, is_text, read_logs, has_null, matching_events, log_events,
  check_event,
}
use cardano_on_evm.Prelude.Json.{as_text, member_at}
use cardano_on_evm.Prelude.{has_prefix, to_lower}
use cardano_on_evm.Wallet.Bytes.{all_hex}
use cardano_on_evm.Prelude.{
  suc, ℕ, ◌≡◌, refl, true, [], ◌∷◌, ◌++◌, some, none, ok, Str, codes, replicate, str_eq,
  if◌then◌else◌,
}
use cardano_on_evm.Prelude.Json.{Json, Elements, Members, text, array, object}
use cardano_on_evm.Protocol.Operation.{Operation, operation_hash}
use cardano_on_evm.Wallet.Bytes.{is_hex_digit}
use cardano_on_evm.Submission.Inclusion.{
  OperationContext, OperationEvent, Inclusion, Chain, copy_operation, expected, snapshot_context,
  included, inclusion_from_receipt, hash32, same_text,
}
use cardano_on_evm.Submission.Inclusion.Sound.{
  is_executed, Observed, inclusion_from_receipt-Observed,
}
use cardano_on_evm.Submission.Adapters.{
  chain_call, rpc_operation, check_entry_points, advertises, check_same, check_chain, Mode,
  Submission, Rpc, Call, Transaction, transaction_json, call_json, text_json, bundler_submit,
  direct_submit, check_submission,
}
use cardano_on_evm.Submission.Adapters.Submit.{Sends, bundler_submit-eq-ok, direct_submit-eq-ok}
use cardano_on_evm.Tests.Operation.{any_address, sample_sender, sample_operation, sample_again}

abbrev sample_hash : Str
sample_hash = codes "0x" ++ replicate 64 b'a'

abbrev entry : Str
entry = codes "0xe"

abbrev sample_event : OperationEvent
sample_event = record {
  user_op_hash = sample_hash;
  sender = sample_sender;
  nonce = 1;
  success = true;
  actual_gas_used = 1;
  actual_gas_cost = 1;
}

-- A chain on which every operation has the same hash and every log tells of it.
abbrev toy_chain : Chain
toy_chain = record {
  user_operation_hash = λ op id e. sample_hash;
  get_address = any_address;
  to_quantity = λ n. codes "0x0";
  decode_event = λ log. some sample_event;
  hash_call = λ op. codes "0x01";
  handle_call = λ op who. codes "0x02";
  big_int = λ s. ok 1;
}

abbrev context : OperationContext
context = record { chain_id = 1; entry_point = entry; operation = sample_operation }

copies : copy_operation toy_chain sample_operation ≡ ok sample_operation
unfolding copy_operation
copies = sample_again

expected_hash : expected toy_chain context ≡ ok sample_hash
unfolding expected operation_hash
expected_hash = rw copies

context_copied : snapshot_context toy_chain context ≡ ok context
unfolding snapshot_context
context_copied = rw copies

abbrev sample_receipt : Json
sample_receipt = object (
    Members.member (codes "transactionHash") (text sample_hash) (
      Members.member (codes "status") (text (codes "0x1")) (
        Members.member (codes "logs")
          (array (
            Elements.cons (object (Members.member (codes "address") (text entry) Members.end))
              Elements.nil))
          Members.end)))

abbrev sample_inclusion : Inclusion
sample_inclusion = record {
  status = included;
  user_operation_hash = sample_hash;
  transaction_hash = some sample_hash;
  event = some sample_event;
  receipt = some sample_receipt;
}

included_sample : inclusion_from_receipt toy_chain context sample_receipt ≡ ok sample_inclusion
unfolding inclusion_from_receipt read_receipt hash32 as_text member_at str_eq is_hash32 has_prefix
    all_hex by_status is_text read_logs has_null matching_events log_events to_lower check_event
included_sample = rw expected_hash

inclusion_from_receipt-Observed_example :
    (e : OperationEvent) × Observed toy_chain context sample_receipt sample_inclusion e
unfolding is_executed
inclusion_from_receipt-Observed_example =
    inclusion_from_receipt-Observed toy_chain context sample_receipt sample_inclusion
      included_sample refl

-- A network that counts its requests, names the entry point where it is asked for, and answers with
-- the hash otherwise.
abbrev toy_rpc : Rpc ℕ
toy_rpc method params n = (
  ok (
      if str_eq method (codes "eth_supportedEntryPoints")
      then array (Elements.cons (text entry) Elements.nil)
      else text sample_hash),
  suc n,
)

abbrev toy_sender : Transaction → Call ℕ Str
toy_sender t n = (ok sample_hash, suc n)

abbrev public_submission : Submission
public_submission = record {
  mode = Mode.public;
  user_operation_hash = sample_hash;
  transaction_hash = none;
}

abbrev direct_submission : Submission
direct_submission = record {
  mode = Mode.direct;
  user_operation_hash = sample_hash;
  transaction_hash = some sample_hash;
}

submitted_sample :
    bundler_submit toy_chain toy_rpc Mode.public context 0 ≡ (ok public_submission, 2)
unfolding bundler_submit chain_call rpc_operation check_entry_points advertises str_eq to_lower
    hash32 is_hash32 has_prefix all_hex is_hex_digit check_same
submitted_sample = rw (context_copied, expected_hash, copies)

sent_sample : direct_submit toy_chain toy_rpc entry toy_sender context 0 ≡ (ok direct_submission, 4)
unfolding direct_submit chain_call check_chain is_text str_eq hash32 is_hash32 has_prefix all_hex
    is_hex_digit
sent_sample = rw (context_copied, expected_hash)

bundler_submit-eq-ok_example :
    (copied : OperationContext) × (copy : Operation) × (entry_points op sent : Json) × (n₁ : ℕ)
    × (hash : Str) × (snapshot_context toy_chain context ≡ ok copied)
    × (expected toy_chain copied ≡ ok sample_hash)
    × (copy_operation toy_chain copied.operation ≡ ok copy)
    × Sends toy_chain toy_rpc copy op
    × (toy_rpc (codes "eth_supportedEntryPoints") [] 0 ≡ (ok entry_points, n₁))
    × (toy_rpc (codes "eth_sendUserOperation") (op ∷ text copied.entry_point ∷ []) n₁
        ≡ (ok sent, 2))
    × (hash32 (text_json sent) ≡ ok hash)
    × (same_text hash sample_hash ≡ true)
    × (check_submission toy_chain toy_rpc Mode.public copied public_submission ≡ ok tt)
bundler_submit-eq-ok_example =
    bundler_submit-eq-ok toy_chain toy_rpc Mode.public context 0 2 public_submission
      submitted_sample

direct_submit-eq-ok_example :
    (copied : OperationContext) × (named tried : Json) × (sent hash : Str) × (n₁ n₂ n₃ : ℕ)
    × (snapshot_context toy_chain context ≡ ok copied)
    × (expected toy_chain copied ≡ ok sample_hash)
    × (toy_rpc
          (codes "eth_call")
          (transaction_json (record { to = copied.entry_point; call = codes "0x01" })
            ∷ text (codes "latest")
            ∷ [])
          n₁
        ≡ (ok named, n₂))
    × (text_json named ≡ some sample_hash)
    × (toy_rpc
          (codes "eth_call")
          (call_json entry (record { to = copied.entry_point; call = codes "0x02" })
            ∷ text (codes "latest")
            ∷ [])
          n₂
        ≡ (ok tried, n₃))
    × (toy_sender (record { to = copied.entry_point; call = codes "0x02" }) n₃ ≡ (ok sent, 4))
    × (hash32 (some sent) ≡ ok hash)
    × (some sample_hash ≡ some hash)
direct_submit-eq-ok_example =
    direct_submit-eq-ok toy_chain toy_rpc entry toy_sender context 0 4 direct_submission sent_sample

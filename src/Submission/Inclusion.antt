-- ===== src/Submission/Inclusion.antt =====
-- `inclusionFromReceipt` of packages/submission/src/index.ts. The logs of a receipt are objects.
pub mod Sound
use cardano_on_evm.Prelude.{
  ℕ, zero, suc, ◌+◌, Bool, true, false, not, ◌&&◌, ◌||◌, List, [], ◌∷◌, ◌++◌, map, Option, none,
  some, Result, ok, err, ◌>>=◌, ◌>>◌, throw_if, or_throw, Str, codes, has_prefix, str_eq, to_lower,
  ◌==◌, if◌then◌else◌, length, drop,
}
use cardano_on_evm.Prelude.Json.{
  Json, null, boolean, number, text, array, object, Elements, elements, member_at, as_text, lookup,
}
use cardano_on_evm.Prelude.Int.{pos}
use cardano_on_evm.Wallet.Bytes.{all_hex}
use cardano_on_evm.Protocol.Operation.{
  Operation, Field, integer, string, number_of, operation_to_json, operation_from_json,
  operation_hash,
}

pub record OperationContext : Type 0 where
  pub chain_id : ℕ
  pub entry_point : Str
  pub operation : Operation

pub data InclusionStatus : Type 0 where
  pending included execution_reverted transaction_reverted : InclusionStatus

-- The arguments of a UserOperationEvent.
pub record OperationEvent : Type 0 where
  pub user_op_hash : Str
  pub sender : Str
  pub nonce : ℕ
  pub success : Bool
  pub actual_gas_used : ℕ
  pub actual_gas_cost : ℕ

pub record Inclusion : Type 0 where
  pub status : InclusionStatus
  pub user_operation_hash : Str
  pub transaction_hash : Option Str
  pub event : Option OperationEvent
  pub receipt : Option Json

-- What the module uses of viem: `getUserOperationHash`, `getAddress`, the hexadecimal `toHex` of an
-- integer, `decodeEventLog` with the EntryPoint's ABI (none where that throws or finds another event),
-- the calls `getUserOpHash` and `handleOps` with a packed operation; and JavaScript's `BigInt`.
pub record Chain : Type 0 where
  pub user_operation_hash : Operation → ℕ → Str → Str
  pub get_address : Str → Result Str
  pub to_quantity : ℕ → Str
  pub decode_event : Json → Option OperationEvent
  pub hash_call : Operation → Str
  pub handle_call : Operation → Str → Str
  pub big_int : Str → Result ℕ

-- `operationFromJson(operationToJson(operation))`
unfoldable pub copy_operation : Chain → Operation → Result Operation
copy_operation chain operation =
    operation_from_json chain.get_address (object (operation_to_json operation))

unfoldable pub snapshot_context : Chain → OperationContext → Result OperationContext
snapshot_context chain context = do
  operation ← copy_operation chain context.operation
  ok (record {
    chain_id = context.chain_id;
    entry_point = context.entry_point;
    operation = operation;
  })

unfoldable pub expected : Chain → OperationContext → Result Str
expected chain context = do
  operation ← copy_operation chain context.operation
  operation_hash chain.user_operation_hash operation context.chain_id context.entry_point

-- `/^0x[0-9a-fA-F]{64}$/`
unfoldable pub is_hash32 : Str → Bool
is_hash32 s = has_prefix (codes "0x") s && length s == 66 && all_hex (drop 2 s)

unfoldable pub hash32 : Option Str → Result Str
hash32 none = err "Expected transaction or operation hash"
hash32 (some s) = throw_if (not (is_hash32 s)) "Expected transaction or operation hash" >> ok s

-- `a.toLowerCase() === b.toLowerCase()`
abbrev pub same_text : Str → Str → Bool
same_text a b = str_eq (map to_lower a) (map to_lower b)

unfoldable pub is_text : Option Str → Str → Bool
is_text none s = false
is_text (some t) s = str_eq t s

abbrev pub from_address : Option Str → Str → Bool
from_address none a = false
from_address (some b) a = same_text b a

-- `if (!receipt)`, for values that JSON.parse returns.
abbrev pub is_falsy : Json → Bool
is_falsy null = true
is_falsy (boolean b) = not b
is_falsy (number (pos n)) = n == 0
is_falsy (text s) = length s == 0
is_falsy _ = false

abbrev pub as_elements : Option Json → Option (List Json)
as_elements (some (array vs)) = some (elements vs)
as_elements _ = none

-- `operation.nonce`
abbrev pub nonce_of : Operation → ℕ
nonce_of op = number_of (lookup (codes "nonce") op)

abbrev pub text_of : Option Field → Str
text_of (some (string s)) = s
text_of _ = []

abbrev pub sender_of : Operation → Str
sender_of op = text_of (lookup (codes "sender") op)

abbrev pub event_status : Bool → InclusionStatus
event_status true = included
event_status false = execution_reverted

abbrev pub one_event : List OperationEvent → Option OperationEvent
one_event (e ∷ []) = some e
one_event _ = none

-- A log that is null, which has no member `address` to read.
unfoldable pub has_null : List Json → Bool
has_null [] = false
has_null (null ∷ logs) = true
has_null (boolean b ∷ logs) = has_null logs
has_null (number n ∷ logs) = has_null logs
has_null (text s ∷ logs) = has_null logs
has_null (array vs ∷ logs) = has_null logs
has_null (object ms ∷ logs) = has_null logs

module _ (chain : Chain) where
  abbrev pub keep_event : Str → Option OperationEvent → List OperationEvent
  keep_event hash none = []
  keep_event hash (some e) = if same_text e.user_op_hash hash then e ∷ [] else []

  -- The events of one log, none or one: it must come from the EntryPoint.
  unfoldable pub log_events : OperationContext → Str → Json → List OperationEvent
  log_events context hash log =
      if from_address (as_text (member_at log (codes "address"))) context.entry_point
      then keep_event hash (chain.decode_event log)
      else []

  unfoldable pub matching_events : OperationContext → Str → List Json → List OperationEvent
  matching_events context hash [] = []
  matching_events context hash (log ∷ logs) =
      log_events context hash log ++ matching_events context hash logs

  unfoldable pub check_event :
      OperationContext → Str → Str → Json → OperationEvent → Result Inclusion
  check_event context hash transaction receipt e = do
    actual ← chain.get_address e.sender
    wanted ← chain.get_address (sender_of context.operation)
    throw_if (not (str_eq actual wanted) || not (e.nonce == nonce_of context.operation))
        "Receipt operation identity mismatch"
    ok (record {
      status = event_status e.success;
      user_operation_hash = hash;
      transaction_hash = some transaction;
      event = some e;
      receipt = some receipt;
    })

  -- The logs of a transaction that succeeded.
  unfoldable pub read_logs : OperationContext → Str → Str → Json → Result Inclusion
  read_logs context hash transaction receipt = do
    logs ← or_throw (as_elements (member_at receipt (codes "logs"))) "Missing transaction logs"
    throw_if (has_null logs) "Cannot read properties of null"
    e ←
        or_throw (one_event (matching_events context hash logs))
          "Receipt lacks exactly one matching EntryPoint UserOperationEvent"
    check_event context hash transaction receipt e

  abbrev pub reverted : Str → Str → Json → Inclusion
  reverted hash transaction receipt = record {
    status = transaction_reverted;
    user_operation_hash = hash;
    transaction_hash = some transaction;
    event = none;
    receipt = some receipt;
  }

  abbrev pub still_pending : Str → Inclusion
  still_pending hash = record {
    status = pending;
    user_operation_hash = hash;
    transaction_hash = none;
    event = none;
    receipt = none;
  }

  unfoldable pub by_status : OperationContext → Str → Str → Json → Option Str → Result Inclusion
  by_status context hash transaction receipt status =
      if is_text status (codes "0x0") || is_text status (codes "reverted")
      then ok (reverted hash transaction receipt)
      else if is_text status (codes "0x1") || is_text status (codes "success")
      then read_logs context hash transaction receipt
      else err "Invalid transaction receipt status"

  unfoldable pub read_receipt : OperationContext → Str → Json → Result Inclusion
  read_receipt context hash receipt = do
    transaction ← hash32 (as_text (member_at receipt (codes "transactionHash")))
    by_status context hash transaction receipt (as_text (member_at receipt (codes "status")))

  unfoldable pub inclusion_from_receipt : OperationContext → Json → Result Inclusion
  inclusion_from_receipt context receipt = do
    hash ← expected chain context
    if is_falsy receipt then ok (still_pending hash) else read_receipt context hash receipt

-- ===== src/Submission/Adapters.antt =====
-- The adapters of packages/submission/src/index.ts: the public and the private bundler, and the direct
-- one. The RPC and the sender of transactions are machines with a state, which each request may
-- change; a request that fails is an error.
pub mod Submit
pub mod Ensures
pub mod Traces
use cardano_on_evm.Prelude.{
  ℕ, Bool, true, false, not, ◌&&◌, ◌||◌, List, [], ◌∷◌, Option, none, some, Result, ok, err, ◌>>=◌,
  ◌>>◌, throw_if, or_throw, Str, codes, str_eq, length, ◌==◌, if◌then◌else◌,
}
use cardano_on_evm.Prelude.Json.{
  Json, null, boolean, text, array, object, Elements, Members, elements, member_at, as_text,
}
use cardano_on_evm.Protocol.Operation.{Operation, integer, string}
use cardano_on_evm.Submission.Inclusion.{
  OperationContext, Inclusion, InclusionStatus, Chain, snapshot_context, copy_operation, expected,
  pending, included, execution_reverted, transaction_reverted, hash32, same_text, is_text, is_falsy,
  inclusion_from_receipt, still_pending,
}

pub data Mode : Type 0 where
  public private direct : Mode

unfoldable pub mode_eq : Mode → Mode → Bool
mode_eq public public = true
mode_eq private private = true
mode_eq direct direct = true
mode_eq _ _ = false

pub record Submission : Type 0 where
  pub mode : Mode
  pub user_operation_hash : Str
  pub transaction_hash : Option Str

-- `Rpc`, on a network of some state.
abbrev pub Rpc : Type 0 → Type 0
Rpc N = Str → List Json → N → Result Json × N

-- A computation on the network.
abbrev pub Call : Type 0 → Type 0 → Type 0
Call N A = N → Result A × N

abbrev pub then_call : {N A B : Type 0} → Result A × N → (A → Call N B) → Result B × N
then_call (ok a, n) next = next a n
then_call (err e, n) next = (err e, n)

unfoldable pub chain_call : {N A B : Type 0} → Call N A → (A → Call N B) → Call N B
chain_call m next n = then_call (m n) next

abbrev pub pure_call : {N A : Type 0} → Result A → Call N A
pure_call r n = (r, n)

infixl 5 ◌>>>=◌
abbrev pub ◌>>>=◌ : {N A B : Type 0} → Call N A → (A → Call N B) → Call N B
m >>>= next = chain_call m next

-- `entries.some((ep) => typeof ep === 'string' && …)`
unfoldable pub advertises : Str → List Json → Bool
advertises entry_point [] = false
advertises entry_point (text ep ∷ eps) = same_text ep entry_point || advertises entry_point eps
advertises entry_point (_ ∷ eps) = advertises entry_point eps

unfoldable pub check_entry_points : Str → Json → Result (Unit {0})
check_entry_points entry_point (array vs) =
    throw_if (not (advertises entry_point (elements vs)))
      "Bundler does not advertise this EntryPoint"
check_entry_points entry_point _ = err "Bundler does not advertise this EntryPoint"

abbrev pub text_json : Json → Option Str
text_json (text s) = some s
text_json _ = none

unfoldable pub check_same : Str → Str → Result (Unit {0})
check_same hash wanted =
    throw_if (not (same_text hash wanted)) "Bundler returned an unexpected operation hash"

unfoldable pub is_executed_status : InclusionStatus → Option Bool
is_executed_status included = some true
is_executed_status execution_reverted = some false
is_executed_status _ = none

-- `result.success` agrees with the status that the event gives.
unfoldable pub agrees : Option Json → Option Bool → Bool
agrees (some (boolean b)) (some c) = if b then c else not c
agrees _ _ = false

-- `rpcOperation`: the copied operation with its integers in hexadecimal.
unfoldable pub rpc_members : Chain → Operation → Members
rpc_members chain [] = Members.end
rpc_members chain ((name, integer n) ∷ op) =
    Members.member name (text (chain.to_quantity n)) (rpc_members chain op)
rpc_members chain ((name, string s) ∷ op) = Members.member name (text s) (rpc_members chain op)

unfoldable pub rpc_operation : Chain → Operation → Result Json
unfolding rpc_members
rpc_operation chain operation = do
  checked ← copy_operation chain operation
  ok (object (rpc_members chain checked))

module _ {N : Type 0} (chain : Chain) (rpc : Rpc N) where
  -- `submit` of a bundler.
  unfoldable pub bundler_submit : Mode → OperationContext → Call N Submission
  bundler_submit mode input = pure_call (snapshot_context chain input) >>>= λ context.
      rpc (codes "eth_supportedEntryPoints") [] >>>= λ entries.
      pure_call (check_entry_points context.entry_point entries) >>>= λ checked.
      pure_call (expected chain context) >>>= λ wanted.
      pure_call (rpc_operation chain context.operation) >>>= λ op.
      rpc (codes "eth_sendUserOperation") (op ∷ text context.entry_point ∷ []) >>>= λ sent.
      pure_call (hash32 (text_json sent)) >>>= λ hash.
      pure_call (check_same hash wanted) >>>= λ same.
      pure_call (ok (record { mode = mode; user_operation_hash = wanted; transaction_hash = none }))

  unfoldable pub read_bundler_receipt : OperationContext → Submission → Json → Result Inclusion
  read_bundler_receipt context submitted null =
      ok (still_pending chain submitted.user_operation_hash)
  read_bundler_receipt context submitted result = do
    hash ← hash_of (as_text (member_at result (codes "userOpHash")))
    throw_if (not (same_text hash submitted.user_operation_hash)) "Bundler receipt hash mismatch"
    inclusion ← inclusion_from_receipt chain context (or_null (member_at result (codes "receipt")))
    throw_if
        (not (agrees (member_at result (codes "success")) (is_executed_status inclusion.status)))
        "Bundler receipt/event status mismatch"
    ok inclusion
    where
      hash_of : Option Str → Result Str
      hash_of none = err "Bundler receipt hash mismatch"
      hash_of (some h) = ok h

      or_null : Option Json → Json
      or_null none = null
      or_null (some v) = v

  unfoldable pub check_submission : Mode → OperationContext → Submission → Result (Unit {0})
  check_submission mode context submitted = do
    throw_if (not (mode_eq submitted.mode mode)) "Submission context changed"
    wanted ← expected chain context
    throw_if (not (str_eq submitted.user_operation_hash wanted)) "Submission context changed"

  -- `status` of a bundler.
  unfoldable pub bundler_status : Mode → OperationContext → Submission → Call N Inclusion
  bundler_status mode input submitted = pure_call (snapshot_context chain input) >>>= λ context.
      pure_call (check_submission mode context submitted) >>>= λ checked.
      rpc (codes "eth_getUserOperationReceipt") (text submitted.user_operation_hash ∷ [])
      >>>= λ result. pure_call (read_bundler_receipt context submitted result)

-- A transaction for the EntryPoint.
pub record Transaction : Type 0 where
  pub to : Str
  pub call : Str

abbrev pub transaction_json : Transaction → Json
transaction_json t = object (
    Members.member (codes "to") (text t.to)
      (Members.member (codes "data") (text t.call) Members.end))

abbrev pub call_json : Str → Transaction → Json
call_json from t = object (
    Members.member (codes "from") (text from) (
      Members.member (codes "to") (text t.to)
        (Members.member (codes "data") (text t.call) Members.end)))

module _ {N : Type 0} (chain : Chain) (rpc : Rpc N) (submitter : Str)
    (send_transaction : Transaction → Call N Str) where
  unfoldable pub check_chain : OperationContext → Option Str → Result (Unit {0})
  check_chain context none = err "Direct RPC chain mismatch"
  check_chain context (some s) = do
    n ← chain.big_int s
    throw_if (not (n == context.chain_id)) "Direct RPC chain mismatch"

  -- `submit` of the direct adapter: the EntryPoint itself must name the same hash, and the call is
  -- tried before it is sent.
  unfoldable pub direct_submit : OperationContext → Call N Submission
  direct_submit input = pure_call (snapshot_context chain input) >>>= λ context.
      rpc (codes "eth_chainId") [] >>>= λ id.
      pure_call (check_chain context (text_json id)) >>>= λ same_chain.
      pure_call (expected chain context) >>>= λ wanted.
      rpc (codes "eth_call") (
        transaction_json
          (record { to = context.entry_point; call = chain.hash_call context.operation })
        ∷ text (codes "latest")
        ∷ [])
      >>>= λ named.
          pure_call
            (throw_if (not (is_text (text_json named) wanted)) "EntryPoint operation hash mismatch")
          >>>= λ same_hash.
              rpc (codes "eth_call") (
                call_json submitter (record {
                  to = context.entry_point;
                  call = chain.handle_call context.operation submitter;
                })
                ∷ text (codes "latest")
                ∷ [])
              >>>= λ tried.
                  send_transaction (record {
                    to = context.entry_point;
                    call = chain.handle_call context.operation submitter;
                  })
                  >>>= λ sent. pure_call (hash32 (some sent)) >>>= λ hash. pure_call (
                      ok (record {
                        mode = direct;
                        user_operation_hash = wanted;
                        transaction_hash = some hash;
                      }))

  unfoldable pub direct_transaction : OperationContext → Submission → Result Str
  direct_transaction context submitted = do
    throw_if (not (mode_eq submitted.mode direct)) "Submission context changed"
    hash ← or_throw submitted.transaction_hash "Submission context changed"
    wanted ← expected chain context
    throw_if (length hash == 0 || not (str_eq submitted.user_operation_hash wanted))
        "Submission context changed"
    ok hash

  -- `receipt && receipt.transactionHash?.toLowerCase() !== …`
  abbrev pub other_transaction : Json → Str → Bool
  other_transaction receipt hash =
      not (is_falsy receipt) && elim (as_text (member_at receipt (codes "transactionHash"))) [
        | none ↦ true
        | some h ↦ not (same_text h hash)
      ]

  unfoldable pub read_direct_receipt : OperationContext → Str → Json → Result Inclusion
  read_direct_receipt context hash receipt = do
    throw_if (other_transaction receipt hash) "Direct receipt hash mismatch"
    inclusion_from_receipt chain context receipt

  unfoldable pub direct_status : OperationContext → Submission → Call N Inclusion
  direct_status input submitted = pure_call (snapshot_context chain input) >>>= λ context.
      pure_call (direct_transaction context submitted) >>>= λ hash.
      rpc (codes "eth_getTransactionReceipt") (text hash ∷ []) >>>= λ receipt.
      pure_call (read_direct_receipt context hash receipt)

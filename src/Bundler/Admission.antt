-- ===== src/Bundler/Admission.antt =====
-- infra/bundler/src/admission.mjs: whether an operation is let through to the bundler. `getAddress` and
-- the ABI of `execute` are viem's.
pub mod Sound
use cardano_on_evm.Prelude.{
  ℕ, zero, suc, ◌+◌, ◌*◌, ◌^◌, Bool, true, false, not, ◌&&◌, ◌||◌, List, [], ◌∷◌, ◌++◌, map, Option,
  none, some, Result, ok, err, Str, codes, has_prefix, includes, str_eq, to_lower, leb, ltb, ◌==◌,
  if◌then◌else◌, length, take, drop,
}
use cardano_on_evm.Prelude.Json.{Json, null, text, object, member_at}
use cardano_on_evm.Enrollment.Service.{all_lower_hex}
use cardano_on_evm.Protocol.Operation.{hex_number, is_hex_bytes}
use cardano_on_evm.Submission.Inclusion.{is_falsy}
use cardano_on_evm.Bundler.Verdict.{
  Verdict, passed, thrown, broken, refused, Refusal, Fault, default_code, reject, reject_if,
  or_reject, attempt, ◌>>=◌, ◌>>◌,
}

pub record Call : Type 0 where
  pub target : Str
  pub value : ℕ
  pub call : Str

-- What viem does: `getAddress`; the arguments of `execute`, mode and execution, from its data and
-- back; the calls of a batch from an execution and back; the prefix of `executeUserOp`.
pub record Abi : Type 0 where
  pub get_address : Str → Result Str
  pub decode_execute : Str → Option (Str × Str)
  pub encode_execute : Str → Str → Str
  pub decode_batch : Str → Option (List Call)
  pub encode_batch : List Call → Str
  pub hook_prefix : Str

pub record Rule : Type 0 where
  pub target : Str
  pub selectors : List Str
  pub allow_empty : Bool
  pub max_value : ℕ

-- A policy after `validatePolicy`; only an allowlist has rules.
pub record Policy : Type 0 where
  pub revision : Str
  pub senders : Option (List Str)
  pub factories : Option (List Str)
  pub paymasters : Option (List Str)
  pub rules : Option (List Rule)

pub record Limits : Type 0 where
  pub verification_gas : ℕ
  pub call_gas : ℕ
  pub total_gas : ℕ
  pub max_fee_per_gas : ℕ
  pub max_operation_cost : ℕ

pub record Config : Type 0 where
  pub entry_point : Str
  pub policy : Policy
  pub limits : Limits

-- `/^0x(?:0|[1-9a-f][0-9a-f]*)$/`, at most 66 characters long.
unfoldable pub is_quantity : Str → Bool
is_quantity s =
    has_prefix (codes "0x") s
    && not (length s == 2)
    && all_lower_hex (drop 2 s)
    && (length s == 3 || not (has_prefix (codes "0x0") s))
    && leb (length s) 66

unfoldable pub text_quantity : Str → Str → Verdict ℕ
text_quantity s field =
    if is_quantity s then passed (hex_number 0 (drop 2 s)) else reject (codes "Invalid " ++ field)

unfoldable pub quantity : Option Json → Str → Bool → Verdict ℕ
quantity none field optional = if optional then passed 0 else reject (codes "Invalid " ++ field)
quantity (some (text s)) field optional = text_quantity s field
quantity (some _) field optional = reject (codes "Invalid " ++ field)

abbrev pub zeros : ℕ → Str
zeros zero = []
zeros (suc n) = b'0' ∷ zeros n

abbrev pub single_mode : Str
single_mode = codes "0x" ++ zeros 64

abbrev pub batch_mode : Str
batch_mode = codes "0x01" ++ zeros 62

module _ (abi : Abi) where
  -- `address`
  unfoldable pub address : Str → Verdict Str
  address s = attempt (abi.get_address s) >>= λ a. passed (map to_lower a)

  -- An argument that must be a string, or viem throws.
  unfoldable pub json_address : Option Json → Verdict Str
  json_address (some (text s)) = address s
  json_address _ = thrown broken

  unfoldable pub target_calls : List Call → Verdict (List Call)
  target_calls [] = passed []
  target_calls (c ∷ cs) = do
    target ← address c.target
    rest ← target_calls cs
    passed (record c { target = target } ∷ rest)

  unfoldable pub single_call : Str → Verdict (List Call)
  single_call encoded = do
    reject_if (ltb (length encoded) 106) (codes "Truncated CALL")
    target ← address (take 42 encoded)
    passed (
        record {
          target = target;
          value = hex_number 0 (take 64 (drop 42 encoded));
          call = codes "0x" ++ drop 106 encoded;
        }
        ∷ [])

  unfoldable pub batch_calls : Str → Verdict (List Call)
  batch_calls encoded = elim (abi.decode_batch encoded) [
    | none ↦ thrown broken
    | some calls ↦ do
      reject_if
          (length calls == 0
            || ltb 64 (length calls)
            || not (str_eq (abi.encode_batch calls) encoded))
          (codes "Invalid canonical batch")
      target_calls calls
  ]

  unfoldable pub execution_calls : Str → Str → Verdict (List Call)
  execution_calls mode encoded =
      if str_eq mode single_mode
      then single_call encoded
      else if str_eq mode batch_mode
      then batch_calls encoded
      else reject (codes "Unsupported execution mode")

  -- The body of `try`.
  unfoldable pub canonical_calls : Str → Verdict (List Call)
  canonical_calls input = elim (abi.decode_execute input) [
    | none ↦ thrown broken
    | some (mode, encoded) ↦ do
      reject_if (not (str_eq (abi.encode_execute mode encoded) input))
          (codes "Noncanonical CALL encoding")
      execution_calls mode encoded
  ]

  -- The `catch`: any other error is an AdmissionError too.
  abbrev pub or_canonical : Verdict (List Call) → Verdict (List Call)
  or_canonical (passed cs) = passed cs
  or_canonical (thrown (refused r)) = thrown (refused r)
  or_canonical (thrown _) = reject (codes "Admission requires canonical Kernel CALL or batch")

  abbrev pub strip_hook : Str → Str
  strip_hook s = if has_prefix abi.hook_prefix s then codes "0x" ++ drop 10 s else s

  unfoldable pub decode_execution : Option Json → Verdict (List Call)
  decode_execution (some (text s)) = do
    reject_if (not (is_hex_bytes s) || ltb 32770 (length s)) (codes "Invalid callData")
    or_canonical (canonical_calls (strip_hook (map to_lower s)))
  decode_execution _ = reject (codes "Invalid callData")

  unfoldable pub find_rule : Str → List Rule → Option Rule
  find_rule target [] = none
  find_rule target (r ∷ rs) = if str_eq r.target target then some r else find_rule target rs

  unfoldable pub admit_data : Rule → Str → Verdict (Unit {0})
  admit_data rule call =
      if str_eq call (codes "0x")
      then reject_if (not rule.allow_empty) (codes "Empty call denied by admission")
      else reject_if (ltb (length call) 10 || not (includes (take 10 call) rule.selectors))
          (codes "Selector denied by admission")

  unfoldable pub admit_call : Str → List Rule → Call → Verdict (Unit {0})
  admit_call sender rules c = do
    reject_if (str_eq c.target sender) (codes "Self-call denied by admission")
    rule ← or_reject (find_rule c.target rules) (codes "Target or value denied by admission")
    reject_if (ltb rule.max_value c.value) (codes "Target or value denied by admission")
    admit_data rule c.call

  unfoldable pub admit_calls : Str → List Rule → List Call → Verdict (Unit {0})
  admit_calls sender rules [] = passed tt
  admit_calls sender rules (c ∷ cs) = admit_call sender rules c >> admit_calls sender rules cs

  -- `if (op[field] && list && !list.includes(address(op[field])))`
  unfoldable pub admit_member : Option Json → Option (List Str) → Str → Verdict (Unit {0})
  admit_member none list field = passed tt
  admit_member (some value) none field = passed tt
  admit_member (some value) (some list) field = if is_falsy value then passed tt else do
    a ← json_address (some value)
    reject_if (not (includes a list)) (field ++ codes " denied by admission")

  unfoldable pub admit_sender : Option (List Str) → Str → Verdict (Unit {0})
  admit_sender none sender = passed tt
  admit_sender (some list) sender =
      reject_if (not (includes sender list)) (codes "Sender denied by admission")

  unfoldable pub exceeds_gas : Limits → ℕ → ℕ → ℕ → Bool
  exceeds_gas limits verification call total =
      ltb limits.verification_gas verification
      || ltb limits.call_gas call
      || ltb limits.total_gas total

  unfoldable pub exceeds_fee : Limits → ℕ → ℕ → ℕ → Bool
  exceeds_fee limits total fee priority =
      ltb limits.max_fee_per_gas fee
      || ltb fee priority
      || ltb limits.max_operation_cost (total * fee)

  -- The gas and fee caps.
  unfoldable pub admit_fees : Json → Limits → Bool → Verdict (Unit {0})
  admit_fees op limits estimate = do
    verification ←
        quantity (member_at op (codes "verificationGasLimit")) (codes "verificationGasLimit")
          estimate
    call ← quantity (member_at op (codes "callGasLimit")) (codes "callGasLimit") estimate
    pre ← quantity (member_at op (codes "preVerificationGas")) (codes "preVerificationGas") estimate
    paymaster ←
        quantity (member_at op (codes "paymasterVerificationGasLimit"))
          (codes "paymasterVerificationGasLimit") true
    post ←
        quantity (member_at op (codes "paymasterPostOpGasLimit")) (codes "paymasterPostOpGasLimit")
          true
    fee ← quantity (member_at op (codes "maxFeePerGas")) (codes "maxFeePerGas") estimate
    priority ←
        quantity (member_at op (codes "maxPriorityFeePerGas")) (codes "maxPriorityFeePerGas")
          estimate
    let total = verification + call + pre + paymaster + post
    reject_if (exceeds_gas limits verification call total) (codes "Operation gas cap exceeded")
    reject_if (exceeds_fee limits total fee priority) (codes "Operation fee cap exceeded")

  unfoldable pub admit_rules : Option (List Rule) → Str → Option Json → Verdict (Unit {0})
  admit_rules none sender input = passed tt
  admit_rules (some rules) sender input = do
    calls ← decode_execution input
    admit_calls sender rules calls

  unfoldable pub check_entry_point : Json → Config → Verdict (Unit {0})
  check_entry_point (text s) config = do
    given ← address s
    wanted ← address config.entry_point
    reject_if (not (str_eq given wanted)) (codes "Unsupported EntryPoint")
  check_entry_point _ config = reject (codes "Unsupported EntryPoint")

  unfoldable pub is_object : Json → Bool
  is_object (object ms) = true
  is_object _ = false

  unfoldable pub admit_operation : Json → Json → Config → Bool → Verdict Str
  admit_operation op entry_point config estimate = do
    check_entry_point entry_point config
    reject_if (not (is_object op)) (codes "Invalid UserOperation")
    sender ← json_address (member_at op (codes "sender"))
    nonce ← quantity (member_at op (codes "nonce")) (codes "nonce") false
    admit_sender config.policy.senders sender
    admit_member (member_at op (codes "factory")) config.policy.factories (codes "factory")
    admit_member (member_at op (codes "paymaster")) config.policy.paymasters (codes "paymaster")
    admit_fees op config.limits estimate
    admit_rules config.policy.rules sender (member_at op (codes "callData"))
    passed config.policy.revision

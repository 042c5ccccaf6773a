-- ===== src/Protocol/Operation.antt =====
-- packages/protocol/src/index.ts: a user operation, its JSON, and the checks on what is read back. An
-- operation is a JavaScript object: its entries in order, integers and strings. `getAddress` of viem is
-- a parameter.
pub mod RoundTrip
use cardano_on_evm.Prelude.{
  ℕ, ◌+◌, ◌*◌, ◌-◌, ◌%◌, ◌^◌, Bool, true, false, not, ◌&&◌, ◌||◌, List, [], ◌∷◌, ◌++◌, map, Option,
  none, some, Result, ok, err, ◌>>=◌, ◌>>◌, throw_if, or_throw, Str, codes, has_prefix, includes,
  to_lower, leb, ltb, ◌==◌, if◌then◌else◌, length, drop,
}
use cardano_on_evm.Prelude.Decimal.{decimal}
use cardano_on_evm.Prelude.Decimal.Digits.{is_numeral, digits_value}
use cardano_on_evm.Prelude.Json.{Json, Members, text, object, entries, lookup}
use cardano_on_evm.Wallet.Bytes.{all_hex, hex_value}
use cardano_on_evm.Enrollment.Service.{all_lower_hex, is_positive_safe}

pub data Field : Type 0 where
  integer : ℕ → Field
  string : Str → Field

abbrev pub Operation : Type 0
Operation = List (Str × Field)

abbrev pub numeric : List Str
numeric =
    codes "nonce"
    ∷ codes "callGasLimit"
    ∷ codes "verificationGasLimit"
    ∷ codes "preVerificationGas"
    ∷ codes "maxFeePerGas"
    ∷ codes "maxPriorityFeePerGas"
    ∷ codes "paymasterVerificationGasLimit"
    ∷ codes "paymasterPostOpGasLimit"
    ∷ []

abbrev pub required : List Str
required =
    codes "sender"
    ∷ codes "nonce"
    ∷ codes "callData"
    ∷ codes "signature"
    ∷ codes "callGasLimit"
    ∷ codes "verificationGasLimit"
    ∷ codes "preVerificationGas"
    ∷ codes "maxFeePerGas"
    ∷ codes "maxPriorityFeePerGas"
    ∷ []

abbrev pub allowed : List Str
allowed =
    required
    ++ numeric
    ++ codes "factory" ∷ codes "factoryData" ∷ codes "paymaster" ∷ codes "paymasterData" ∷ []

-- `typeof value === 'bigint' ? value.toString() : String(value)`
abbrev pub field_text : Field → Str
field_text (integer n) = decimal n
field_text (string s) = s

unfoldable pub operation_to_json : Operation → Members
operation_to_json [] = Members.end
operation_to_json ((name, f) ∷ op) =
    Members.member name (text (field_text f)) (operation_to_json op)

-- The digits after `0x`, of which there is one at least.
unfoldable pub is_hex_numeral : Str → Bool
is_hex_numeral s = has_prefix (codes "0x") s && not (length s == 2) && all_lower_hex (drop 2 s)

unfoldable pub hex_number : ℕ → Str → ℕ
hex_number v [] = v
hex_number v (c ∷ s) = hex_number (v * 16 + hex_value c) s

-- `BigInt(item)`, on what the pattern lets through.
unfoldable pub parse_integer : Str → Option ℕ
parse_integer item =
    if is_numeral item
    then some (digits_value 0 item)
    else if is_hex_numeral item
    then some (hex_number 0 (drop 2 item))
    else none

-- `/^0x(?:[0-9a-fA-F]{2})*$/`
unfoldable pub is_hex_bytes : Str → Bool
is_hex_bytes s = has_prefix (codes "0x") s && length s % 2 == 0 && all_hex (drop 2 s)

abbrev pub bits_of : Str → ℕ
bits_of name = if includes name (codes "nonce" ∷ codes "preVerificationGas" ∷ []) then 256 else 128

abbrev pub has_member : {A : Type 0} → List (Str × A) → Str → Bool
has_member es name = elim (lookup name es) [ none ↦ false | some v ↦ true ]

unfoldable pub has_all : {A : Type 0} → List Str → List (Str × A) → Bool
has_all [] es = true
has_all (name ∷ names) es = has_member es name && has_all names es

unfoldable pub only_allowed : {A : Type 0} → List (Str × A) → Bool
only_allowed [] = true
only_allowed ((name, v) ∷ es) = includes name allowed && only_allowed es

-- `Boolean(parsed[name])` of a property that holds a string, or nothing.
abbrev pub is_set : Option Field → Bool
is_set none = false
is_set (some (integer n)) = not (n == 0)
is_set (some (string s)) = not (length s == 0)

abbrev pub number_of : Option Field → ℕ
number_of (some (integer n)) = n
number_of _ = 0

-- `Boolean(parsed.factory) !== (parsed.factoryData !== undefined)`
unfoldable pub is_unpaired : Operation → Bool
is_unpaired op =
    let given = has_member op (codes "factoryData") in
    if is_set (lookup (codes "factory") op) then not given else given

unfoldable pub is_incomplete : Operation → Bool
is_incomplete op =
    is_set (lookup (codes "paymaster") op)
    && not (
        has_member op (codes "paymasterVerificationGasLimit")
        && has_member op (codes "paymasterPostOpGasLimit")
        && has_member op (codes "paymasterData"))

unfoldable pub is_unexpected : Operation → Bool
is_unexpected op =
    not (is_set (lookup (codes "paymaster") op))
    && (has_member op (codes "paymasterData")
        || has_member op (codes "paymasterVerificationGasLimit")
        || has_member op (codes "paymasterPostOpGasLimit"))

unfoldable pub is_overpaid : Operation → Bool
is_overpaid op =
    ltb (number_of (lookup (codes "maxFeePerGas") op))
      (number_of (lookup (codes "maxPriorityFeePerGas") op))

-- The checks that involve several fields.
unfoldable pub check_operation : Operation → Result Operation
check_operation op = do
  throw_if (is_unpaired op) "Factory and data must be supplied together"
  throw_if (is_incomplete op) "Incomplete paymaster fields"
  throw_if (is_unexpected op) "Unexpected paymaster fields"
  throw_if (is_overpaid op) "Priority fee exceeds maximum fee"
  ok op

unfoldable pub parse_number : Str → Str → Result Field
parse_number name item = do
  n ← or_throw (parse_integer item) "Invalid operation integer"
  throw_if (not (ltb n (2 ^ bits_of name))) "Operation integer out of range"
  ok (integer n)

unfoldable pub parse_bytes : Str → Result Field
parse_bytes item = do
  throw_if (not (is_hex_bytes item) || ltb 32770 (length item)) "Invalid operation bytes"
  ok (string (map to_lower item))

abbrev pub address_fields : List Str
address_fields = codes "sender" ∷ codes "factory" ∷ codes "paymaster" ∷ []

module _ (get_address : Str → Result Str) where
  unfoldable pub parse_address : Str → Result Field
  parse_address item = do a ← get_address item; ok (string a)

  unfoldable pub parse_string : Str → Str → Result Field
  parse_string name item =
      if includes name numeric
      then parse_number name item
      else if includes name address_fields
      then parse_address item
      else parse_bytes item

  unfoldable pub parse_field : Str → Json → Result Field
  parse_field name (text item) = parse_string name item
  parse_field name _ = err "Operation JSON fields must be strings"

  unfoldable pub parse_fields : List (Str × Json) → Result Operation
  parse_fields [] = ok []
  parse_fields ((name, item) ∷ es) = do
    f ← parse_field name item
    op ← parse_fields es
    ok ((name, f) ∷ op)

  unfoldable pub parse_entries : List (Str × Json) → Result Operation
  parse_entries es = do
    throw_if (not (only_allowed es && has_all required es))
        "Unsupported or missing operation fields"
    op ← parse_fields es
    check_operation op

  unfoldable pub operation_from_json : Json → Result Operation
  operation_from_json (object ms) = parse_entries (entries ms)
  operation_from_json _ = err "Expected an operation object"

-- `operationHash`, over `getUserOperationHash` of viem.
unfoldable pub operation_hash : (Operation → ℕ → Str → Str) → Operation → ℕ → Str → Result Str
operation_hash user_operation_hash operation chain_id entry_point = do
  throw_if (not (is_positive_safe chain_id)) "Invalid chain ID"
  ok (user_operation_hash operation chain_id entry_point)

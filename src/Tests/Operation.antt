-- ===== src/Tests/Operation.antt =====
-- packages/protocol/src/index.ts on a concrete operation.
use cardano_on_evm.Protocol.Operation.{
  parse_entries, only_allowed, has_all, parse_fields, parse_field, parse_string, parse_address,
  parse_number, parse_integer, is_hex_numeral, hex_number, check_operation, is_hex_bytes,
  is_incomplete, is_overpaid, is_unexpected, is_unpaired, parse_bytes,
}
use cardano_on_evm.Prelude.{includes, str_eq, has_prefix, to_lower}
use cardano_on_evm.Prelude.Json.{lookup}
use cardano_on_evm.Prelude.Decimal.Digits.{is_numeral, all_digits, digits_value}
use cardano_on_evm.Enrollment.Service.{all_lower_hex}
use cardano_on_evm.Wallet.Bytes.{all_hex, hex_value, is_hex_digit}
use cardano_on_evm.Prelude.{◌≡◌, refl, [], ◌∷◌, ◌++◌, Result, ok, Str, codes, replicate}
use cardano_on_evm.Prelude.Json.{Json, Members, text, object}
use cardano_on_evm.Protocol.Operation.{
  Operation, integer, string, operation_to_json, operation_from_json,
}
use cardano_on_evm.Protocol.Operation.RoundTrip.{operation_from_json-to_json}

-- A getAddress that takes every text for an address.
abbrev pub any_address : Str → Result Str
any_address s = ok s

abbrev pub sample_sender : Str
sample_sender = codes "0x" ++ replicate 40 b'1'

abbrev pub sample_operation : Operation
sample_operation =
    (codes "sender", string sample_sender)
    ∷ (codes "nonce", integer 1)
    ∷ (codes "callData", string (codes "0x"))
    ∷ (codes "signature", string (codes "0x"))
    ∷ (codes "callGasLimit", integer 2)
    ∷ (codes "verificationGasLimit", integer 3)
    ∷ (codes "preVerificationGas", integer 4)
    ∷ (codes "maxFeePerGas", integer 6)
    ∷ (codes "maxPriorityFeePerGas", integer 5)
    ∷ []

-- The same, with a nonce in hexadecimal and upper case where it makes no difference.
abbrev sample_json : Json
sample_json = object (
    Members.member (codes "sender") (text sample_sender) (
      Members.member (codes "nonce") (text (codes "0x1")) (
        Members.member (codes "callData") (text (codes "0x")) (
          Members.member (codes "signature") (text (codes "0x")) (
            Members.member (codes "callGasLimit") (text (codes "2")) (
              Members.member (codes "verificationGasLimit") (text (codes "3")) (
                Members.member (codes "preVerificationGas") (text (codes "4")) (
                  Members.member (codes "maxFeePerGas") (text (codes "6")) (
                    Members.member (codes "maxPriorityFeePerGas") (text (codes "5"))
                      Members.end)))))))))

pub sample_read : operation_from_json any_address sample_json ≡ ok sample_operation
unfolding operation_from_json parse_entries only_allowed includes str_eq has_all lookup parse_fields
    parse_field parse_string parse_address parse_number parse_integer is_numeral is_hex_numeral
    has_prefix all_lower_hex hex_number all_digits digits_value to_lower check_operation
    is_hex_bytes is_incomplete is_overpaid is_unexpected is_unpaired parse_bytes all_hex hex_value
    is_hex_digit
sample_read = refl

pub sample_again :
    operation_from_json any_address (object (operation_to_json sample_operation))
    ≡ ok sample_operation
sample_again =
    operation_from_json-to_json any_address (λ a b h. refl) sample_json sample_operation sample_read

operation_from_json-to_json_example :
    operation_from_json any_address (object (operation_to_json sample_operation))
    ≡ ok sample_operation
operation_from_json-to_json_example =
    operation_from_json-to_json any_address (λ a b h. refl) sample_json sample_operation sample_read

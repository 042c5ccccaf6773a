-- ===== src/Protocol/Calls.antt =====
-- packages/protocol/src/index.ts: a list of calls as the data of one `execute`, and back. The ABI
-- encodings and `getAddress` are viem's.
pub mod RoundTrip
use cardano_on_evm.Prelude.{
  ℕ, Bool, not, ◌||◌, List, [], ◌∷◌, ◌++◌, map, Option, some, none, Result, ok, err, ◌>>=◌, ◌>>◌,
  throw_if, or_throw, Str, codes, str_eq, to_lower, replicate, ltb, ◌==◌, if◌then◌else◌, length,
  take, drop,
}
use cardano_on_evm.Protocol.Operation.{hex_number}

pub record Call : Type 0 where
  pub target : Str
  pub value : ℕ
  pub input : Str

-- What the module uses of viem: `getAddress`; `encodeFunctionData` and `decodeFunctionData` on
-- `execute`, mode and execution; the encoding of the array of calls and back; `toHex` of a number in
-- 32 bytes, without its prefix. Each fails on what it does not encode or decode.
pub record Codec : Type 0 where
  pub get_address : Str → Result Str
  pub encode_execute : Str → Str → Result Str
  pub decode_execute : Str → Option (Str × Str)
  pub encode_array : List Call → Result Str
  pub decode_array : Str → Option (List Call)
  pub to_word : ℕ → Result Str

abbrev pub one_mode : Str
one_mode = codes "0x" ++ replicate 64 b'0'

abbrev pub many_mode : Str
many_mode = codes "0x01" ++ replicate 62 b'0'

module _ (codec : Codec) where
  -- `calls.map`, with the address of every target.
  unfoldable pub address_calls : List Call → Result (List Call)
  address_calls [] = ok []
  address_calls (c ∷ cs) = do
    target ← codec.get_address c.target
    rest ← address_calls cs
    ok (record c { target = target } ∷ rest)

  unfoldable pub encode_one : Call → Result Str
  encode_one c = do
    target ← codec.get_address c.target
    value ← codec.to_word c.value
    codec.encode_execute one_mode (target ++ value ++ drop 2 c.input)

  unfoldable pub encode_many : List Call → Result Str
  encode_many calls = do
    targets ← address_calls calls
    execution ← codec.encode_array targets
    codec.encode_execute many_mode execution

  unfoldable pub encode_calls : List Call → Result Str
  encode_calls [] = err "Supply 1..64 calls"
  encode_calls (c ∷ []) = encode_one c
  encode_calls (c ∷ d ∷ cs) = do
    throw_if (ltb 64 (length (c ∷ d ∷ cs))) "Supply 1..64 calls"
    encode_many (c ∷ d ∷ cs)

  unfoldable pub decode_one : Str → Result (List Call)
  decode_one execution = do
    throw_if (ltb (length execution) 106) "Truncated single-call encoding"
    target ← codec.get_address (take 42 execution)
    ok (
        record {
          target = target;
          value = hex_number 0 (take 64 (drop 42 execution));
          input = codes "0x" ++ drop 106 execution;
        }
        ∷ [])

  unfoldable pub decode_many : Str → Result (List Call)
  decode_many execution = do
    calls ← or_throw (codec.decode_array execution) "Invalid array encoding"
    throw_if (length calls == 0 || ltb 64 (length calls)) "Invalid batch length"
    encoded ← codec.encode_array calls
    throw_if (not (str_eq encoded execution)) "Noncanonical batch encoding"
    address_calls calls

  unfoldable pub decode_mode : Str → Str → Result (List Call)
  decode_mode mode execution =
      if str_eq mode one_mode
      then decode_one execution
      else if str_eq mode many_mode
      then decode_many execution
      else err "Unsupported execution mode"

  unfoldable pub decode_calls : Str → Result (List Call)
  decode_calls call_data = do
    args ← or_throw (codec.decode_execute call_data) "Invalid execute encoding"
    encoded ← codec.encode_execute args.0 args.1
    throw_if (not (str_eq encoded (map to_lower call_data))) "Noncanonical execute encoding"
    decode_mode args.0 args.1

-- `wrapRestrictedExecution` and `decodeRestrictedCalls`, with the selector of `executeUserOp`.
module _ (codec : Codec) (selector : Str) where
  unfoldable pub wrap_restricted_execution : Str → Str
  wrap_restricted_execution execution = selector ++ drop 2 execution

  unfoldable pub decode_restricted_calls : Str → Result (List Call)
  decode_restricted_calls call_data = do
    throw_if (not (str_eq (map to_lower (take 10 call_data)) selector))
        "Restricted execution hook prefix required"
    decode_calls codec (codes "0x" ++ drop 10 call_data)

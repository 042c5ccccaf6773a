-- ===== src/Protocol/Calls/RoundTrip.antt =====
-- A batch of calls comes back from its encoding.
use cardano_on_evm.Prelude.{
  ℕ, ◌/◌, ◌%◌, ◌∙◌, ◌≤◌, ◌<◌, ◌≡◌, refl, ap, false, List, [], ◌∷◌, ◌++◌, map, All, some, ok, arith,
  Str, Bytes, IsBytes, codes, str_eq, str_eq_refl, to_lower, ltb, ◌==◌, length,
}
use cardano_on_evm.Wallet.Bytes.{hex_char, to_hex}
use cardano_on_evm.Protocol.Calls.{
  Call, Codec, many_mode, address_calls, encode_many, encode_calls, decode_many, decode_mode,
  decode_calls,
}

-- The text of bytes, as viem writes it.
abbrev pub hex : Bytes → Str
hex b = codes "0x" ++ to_hex b

digit-to_lower : (d : ℕ) → d < 16 → to_lower (hex_char d) ≡ hex_char d
unfolding to_lower hex_char
digit-to_lower d small = ground arith

to_hex-to_lower : (b : Bytes) → IsBytes b → map to_lower (to_hex b) ≡ to_hex b
unfolding to_hex
to_hex-to_lower [] h = refl
to_hex-to_lower (x ∷ b) (small, h) = cc (
  digit-to_lower (x / 16) (omega (arith, small)),
  digit-to_lower (x % 16) (omega (arith, small)),
  to_hex-to_lower b h,
)

hex-to_lower : (b : Bytes) → IsBytes b → map to_lower (hex b) ≡ hex b
unfolding to_lower
hex-to_lower b h = ap (λ (s : Str). codes "0x" ++ s) (to_hex-to_lower b h)

-- The data of `execute` for many calls with these bytes, from which the bytes are read again.
abbrev pub Executes : Codec → Bytes → Type 0
Executes codec b =
    (data' : Bytes) × IsBytes data'
    × (codec.encode_execute many_mode (hex b) ≡ ok (hex data'))
    × (codec.decode_execute (hex data') ≡ some (many_mode, hex b))

module _ (codec : Codec) where
  address_calls-same :
      (cs : List Call)
      → All (λ (c : Call). codec.get_address c.target ≡ ok c.target) cs
      → address_calls codec cs ≡ ok cs
  unfolding address_calls
  address_calls-same [] h = refl
  address_calls-same (c ∷ cs) (h, hs) = rw (h, address_calls-same cs hs)

  decode_many-array :
      (c d : Call) (cs : List Call) (execution : Str)
      → length (c ∷ d ∷ cs) ≤ 64
      → All (λ (x : Call). codec.get_address x.target ≡ ok x.target) (c ∷ d ∷ cs)
      → codec.encode_array (c ∷ d ∷ cs) ≡ ok execution
      → codec.decode_array execution ≡ some (c ∷ d ∷ cs)
      → decode_many codec execution ≡ ok (c ∷ d ∷ cs)
  unfolding decode_many
  decode_many-array c d cs execution small h there back =
      let few : ltb 64 (length (c ∷ d ∷ cs)) ≡ false = ground arith in
      let any : (length (c ∷ d ∷ cs) == 0) ≡ false = ground arith in
      rw (back, few, any, there, str_eq_refl execution, address_calls-same (c ∷ d ∷ cs) h)

  decode_calls-many :
      (call_data execution : Str)
      → codec.decode_execute call_data ≡ some (many_mode, execution)
      → codec.encode_execute many_mode execution ≡ ok call_data
      → map to_lower call_data ≡ call_data
      → decode_calls codec call_data ≡ decode_many codec execution
  unfolding decode_calls decode_mode str_eq
  decode_calls-many call_data execution read made low =
      rw (read, made, low, str_eq_refl call_data) refl

  -- Two to 64 calls, whose targets getAddress returns unchanged, are encoded, and decoding the data
  -- gives the same calls: if the array of these calls is encoded as the text of some bytes and decoded
  -- from it, and if any bytes are encoded as the execution of many calls in the text of some bytes and
  -- decoded from it.
  pub decode_calls-encode_calls :
      (c d : Call) (cs : List Call) (execution : Bytes)
      → length (c ∷ d ∷ cs) ≤ 64
      → All (λ (x : Call). codec.get_address x.target ≡ ok x.target) (c ∷ d ∷ cs)
      → IsBytes execution
      → codec.encode_array (c ∷ d ∷ cs) ≡ ok (hex execution)
      → codec.decode_array (hex execution) ≡ some (c ∷ d ∷ cs)
      → ((b : Bytes) → IsBytes b → Executes codec b)
      → (call_data : Str) × (encode_calls codec (c ∷ d ∷ cs) ≡ ok call_data)
        × (decode_calls codec call_data ≡ ok (c ∷ d ∷ cs))
  unfolding encode_calls encode_many
  decode_calls-encode_calls c d cs execution small h are_bytes there back executes =
      let few : ltb 64 (length (c ∷ d ∷ cs)) ≡ false = ground arith in
      let (call_data, are_data, made, read) = executes execution are_bytes in
      (
        hex call_data,
        rw (few, address_calls-same (c ∷ d ∷ cs) h, there) made,
        decode_calls-many (hex call_data) (hex execution) read made
              (hex-to_lower call_data are_data)
            ∙ decode_many-array c d cs (hex execution) small h there back,
      )

-- ===== src/Tests/Calls.antt =====
-- The calls of packages/protocol/src/index.ts on a concrete batch.
use cardano_on_evm.Prelude.{
  ℕ, suc, zero, ◌+◌, ◌≡◌, ap, ◌<◌, refl, true, Bool, ◌&&◌, arith, List, [], ◌∷◌, ◌++◌, map, some,
  ok, Str, Bytes, IsBytes, codes, replicate, to_lower, length, take, drop, ltb, All-append,
}
use cardano_on_evm.Wallet.Bytes.{to_hex, hex_char, hex_value}
use cardano_on_evm.Protocol.Operation.{hex_number}
use cardano_on_evm.Protocol.Calls.{Call, Codec, many_mode, encode_calls, decode_calls}
use cardano_on_evm.Protocol.Calls.RoundTrip.{hex, Executes, decode_calls-encode_calls}
use cardano_on_evm.Enrollment.Identity.{number_bytes}

abbrev pub first_call : Call
first_call = record { target = codes "0xA1"; value = 1; input = codes "0x" }

abbrev pub second_call : Call
second_call = record { target = codes "0xB2"; value = 0; input = codes "0xabcd" }

-- Stand-ins for viem that know one array.
abbrev pub toy_codec : Codec
toy_codec = record {
  get_address = λ s. ok s;
  encode_execute = λ mode s. ok s;
  decode_execute = λ s. some (many_mode, map to_lower s);
  encode_array = λ calls. ok (codes "0x20");
  decode_array = λ s. some (first_call ∷ second_call ∷ []);
  to_word = λ n. ok (replicate 64 b'0');
}

-- A number in 32 bytes.
unfoldable word_text : ℕ → Str
word_text n = to_hex (number_bytes 32 n)

-- The calls one behind the other: target, value, length of the input, input.
unfoldable pack : List Call → Str
pack [] = []
pack (c ∷ cs) =
    drop 2 c.target
    ++ word_text c.value
    ++ word_text (length (drop 2 c.input))
    ++ drop 2 c.input
    ++ pack cs

-- The calls of a packed text; the fuel is its length.
unfoldable unpack : ℕ → Str → List Call
unpack zero s = []
unpack (suc fuel) [] = []
unpack (suc fuel) (c ∷ s) =
    let size = hex_number 0 (take 64 (drop 104 (c ∷ s))) in
    let calls = unpack fuel (drop (168 + size) (c ∷ s)) in
    record {
      target = codes "0x" ++ take 40 (c ∷ s);
      value = hex_number 0 (take 64 (drop 40 (c ∷ s)));
      input = codes "0x" ++ take size (drop 168 (c ∷ s));
    }
    ∷ calls

-- A stand-in for viem that encodes every call: the selector of `execute`, the mode and the packed calls.
abbrev packed_codec : Codec
packed_codec = record {
  get_address = λ s. ok s;
  encode_execute = λ mode s. ok (codes "0xe9ae5c53" ++ drop 2 mode ++ drop 2 s);
  decode_execute = λ s. some (codes "0x" ++ take 64 (drop 10 s), codes "0x" ++ drop 74 s);
  encode_array = λ calls. ok (codes "0x" ++ pack calls);
  decode_array = λ s. some (unpack (length s) (drop 2 s));
  to_word = λ n. ok (word_text n);
}

abbrev pay : Call
pay = record { target = codes "0x" ++ replicate 40 b'1'; value = 258; input = codes "0x" }

abbrev ask : Call
ask = record { target = codes "0x" ++ replicate 40 b'2'; value = 0; input = codes "0xabcd" }

-- The bytes of the packed calls.
abbrev packed : Bytes
packed =
    replicate 20 17
    ++ replicate 30 0
    ++ 1 ∷ 2 ∷ []
    ++ replicate 32 0
    ++ replicate 20 34
    ++ replicate 63 0
    ++ 4 ∷ 171 ∷ 205 ∷ []

are_bytes : Bytes → Bool
are_bytes [] = true
are_bytes (b ∷ bs) = ltb b 256 && are_bytes bs

are_bytes-IsBytes : (b : Bytes) → are_bytes b ≡ true → IsBytes b
unfolding are_bytes
are_bytes-IsBytes [] h = tt
are_bytes-IsBytes (b ∷ bs) h = (ground (arith, h), are_bytes-IsBytes bs (ground (arith, h)))

packed-IsBytes : IsBytes packed
unfolding are_bytes
packed-IsBytes = are_bytes-IsBytes packed refl

-- The bytes of the selector and the mode.
abbrev leading : Bytes
leading = 233 ∷ 174 ∷ 92 ∷ 83 ∷ 1 ∷ replicate 31 0

leading-IsBytes : IsBytes leading
unfolding are_bytes
leading-IsBytes = are_bytes-IsBytes leading refl

packed_codec-Executes : (b : Bytes) → IsBytes b → Executes packed_codec b
unfolding to_hex hex_char
packed_codec-Executes b h =
    (leading ++ b, All-append (λ (x : ℕ). x < 256) leading b leading-IsBytes h, refl, refl)

packed_is_text : codes "0x" ++ pack (pay ∷ ask ∷ []) ≡ hex packed
unfolding pack word_text number_bytes to_hex hex_char
packed_is_text = refl

unpacked : unpack (length (hex packed)) (drop 2 (hex packed)) ≡ pay ∷ ask ∷ []
unfolding unpack to_hex hex_char hex_number hex_value
unpacked = refl

decode_calls-encode_calls_example :
    (call_data : Str) × (encode_calls packed_codec (pay ∷ ask ∷ []) ≡ ok call_data)
    × (decode_calls packed_codec call_data ≡ ok (pay ∷ ask ∷ []))
decode_calls-encode_calls_example =
    decode_calls-encode_calls packed_codec pay ask [] packed (omega arith) (refl, (refl, tt))
      packed-IsBytes (ap ok packed_is_text) (ap some unpacked) packed_codec-Executes

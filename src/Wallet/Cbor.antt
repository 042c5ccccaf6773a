-- ===== src/Wallet/Cbor.antt =====
-- packages/wallet/src/cbor.ts: the bounded CBOR subset that CIP-30 data signatures need.
pub mod Heads
pub mod Limits
pub mod Atoms
pub mod RoundTrip
use cardano_on_evm.Prelude.{
  ℕ, zero, suc, ◌+◌, ◌-◌, ◌*◌, ◌/◌, ◌%◌, ◌^◌, Bool, true, false, ◌&&◌, ◌||◌, List, [], ◌∷◌, Option,
  none, some, Result, ok, err, ◌>>=◌, ◌>>◌, throw_if, or_throw, Str, Bytes, str_eq, ltb, leb, ◌==◌,
  if◌then◌else◌, length, take, drop, first_byte,
}
use cardano_on_evm.Prelude.Int.{ℤ, pos, negsuc, int_eq}
use cardano_on_evm.Wallet.Bytes.{concat_bytes}
use cardano_on_evm.Wallet.Utf8.{utf8_encode, utf8_decode}

-- A map key is a number or a string.
pub data Key : Type 0 where
  num_key : ℤ → Key
  text_key : Str → Key

-- The union type `Cbor`. A JavaScript number is an integer here; a Map keeps its order of insertion.
mutual
  pub data Cbor : Type 0 where
    num : ℤ → Cbor
    bool : Bool → Cbor
    null : Cbor
    text : Str → Cbor
    bytes : Bytes → Cbor
    array : Items → Cbor
    object : Entries → Cbor

  pub data Items : Type 0 where
    nil : Items
    cons : Cbor → Items → Items

  pub data Entries : Type 0 where
    end : Entries
    entry : Key → Cbor → Entries → Entries

unfoldable pub key_eq : Key → Key → Bool
key_eq (num_key a) (num_key b) = int_eq a b
key_eq (num_key a) (text_key t) = false
key_eq (text_key s) (num_key b) = false
key_eq (text_key s) (text_key t) = str_eq s t

-- `map.has(key)`, over the keys set so far.
unfoldable pub key_mem : Key → List Key → Bool
unfolding key_eq
key_mem k [] = false
key_mem k (j ∷ seen) = key_eq k j || key_mem k seen

-- A reader gets the bytes behind the cursor, and returns what is left of them.
abbrev pub Reader {ℓ} : Type ℓ → Type ℓ
Reader A = Bytes → Result (A × Bytes)

unfoldable pub take_bytes : ℕ → Reader Bytes
take_bytes n rest = throw_if (ltb (length rest) n) "Truncated CBOR" >> ok (take n rest, drop n rest)

-- `reduce((v, b) => v * 256 + b, 0)`
unfoldable pub big_endian : ℕ → Bytes → ℕ
big_endian v [] = v
big_endian v (b ∷ bs) = big_endian (v * 256 + b) bs

unfoldable pub check_minimal : ℕ → ℕ → Result (Unit {0})
check_minimal width n =
    throw_if (ltb n (if width == 1 then 24 else 2 ^ (8 * (width / 2)))) "Non-minimal CBOR"

-- The length or value that the additional information `ai` announces.
unfoldable pub read_length : ℕ → Reader ℕ
read_length ai rest = if ltb ai 24 then ok (ai, rest) else do
  throw_if (ltb 26 ai) "Unsupported CBOR length"
  let width = 2 ^ (ai - 24)
  (digits, left) ← take_bytes width rest
  let n = big_endian 0 digits
  check_minimal width n
  ok (n, left)

unfoldable pub read_simple : ℕ → Reader Cbor
read_simple ai rest =
    if ai == 20
    then ok (bool false, rest)
    else if ai == 21
    then ok (bool true, rest)
    else if ai == 22
    then ok (null, rest)
    else err "Unsupported CBOR simple value"

-- `Array.from({ length }, () => read(depth + 1))`, for the reader of the next depth.
unfoldable pub read_items : Reader Cbor → ℕ → Reader Items
read_items reader zero rest = ok (nil, rest)
read_items reader (suc n) rest = do
  (v, left) ← reader rest
  (vs, left') ← read_items reader n left
  ok (cons v vs, left')

unfoldable pub as_key : Cbor → Option Key
as_key (num n) = some (num_key n)
as_key (text s) = some (text_key s)
as_key _ = none

unfoldable pub read_entries : Reader Cbor → ℕ → List Key → Reader Entries
read_entries reader zero seen rest = ok (end, rest)
read_entries reader (suc n) seen rest = do
  (c, left) ← reader rest
  key ← or_throw (as_key c) "Unsupported CBOR map key"
  throw_if (key_mem key seen) "Duplicate CBOR key"
  (v, left') ← reader left
  (more, left'') ← read_entries reader n (key ∷ seen) left'
  ok (entry key v more, left'')

-- What stands behind a head of major type `major`, other than 7, and length `n`. `tag` says that the
-- tag of a COSE_Sign1 is allowed here: `allowSign1Tag && depth === 0`.
unfoldable pub read_payload : Reader Cbor → Bool → ℕ → ℕ → Reader Cbor
read_payload reader tag major n rest =
    if major == 0
    then ok (num (pos n), rest)
    else if major == 1
    then ok (num (negsuc n), rest)
    else if major == 2
    then (do (b, left) ← take_bytes n rest; ok (bytes b, left))
    else if major == 3
    then (do
      (b, left) ← take_bytes n rest
      s ← or_throw (utf8_decode b) "The encoded data was not valid for encoding utf-8"
      ok (text s, left))
    else if major == 4
    then (do
      throw_if (ltb 64 n) "CBOR array limit"
      (vs, left) ← read_items reader n rest
      ok (array vs, left))
    else if major == 5
    then (do
      throw_if (ltb 16 n) "CBOR map limit"
      (es, left) ← read_entries reader n [] rest
      ok (object es, left))
    else if major == 6 && tag && n == 18
    then reader rest
    else err "Unsupported CBOR encoding"

-- What follows the first byte.
unfoldable pub read_behind : Reader Cbor → Bool → ℕ → ℕ → Reader Cbor
read_behind reader tag major ai left =
    if major == 7
    then read_simple ai left
    else do (n, left') ← read_length ai left; read_payload reader tag major n left'

-- One data item, for the reader of the items inside it.
unfoldable pub read_item : Reader Cbor → Bool → Reader Cbor
read_item reader tag rest = do
  (one, left) ← take_bytes 1 rest
  let major = first_byte one / 32
  let ai = first_byte one % 32
  read_behind reader tag major ai left

-- `read(depth)` where `levels` is 9 - depth: no level is left at depth 9.
unfoldable pub read : ℕ → Bool → Reader Cbor
read zero tag rest = err "CBOR depth limit"
read (suc levels) tag rest = read_item (read levels false) tag rest

unfoldable pub finish : Cbor → Bytes → Result Cbor
finish v [] = ok v
finish v (b ∷ bs) = err "Trailing CBOR bytes"

unfoldable pub decode_cbor : Bytes → Bool → Result Cbor
unfolding finish
decode_cbor bs allow_sign1_tag = do
  throw_if (ltb 16384 (length bs)) "CBOR size limit"
  (v, rest) ← read 9 allow_sign1_tag bs
  finish v rest

-- `(major << 5) | n` and the bytes of n, big endian.
unfoldable pub head : ℕ → ℕ → Result Bytes
head major n =
    if ltb 0xffffffff n
    then err "CBOR integer range"
    else if ltb n 24
    then ok ((major * 32 + n) ∷ [])
    else if ltb n 256
    then ok ((major * 32 + 24) ∷ n ∷ [])
    else if ltb n 65536
    then ok ((major * 32 + 25) ∷ (n / 256) ∷ (n % 256) ∷ [])
    else ok
        ((major * 32 + 26) ∷ (n / 16777216) ∷ (n / 65536 % 256) ∷ (n / 256 % 256) ∷ (n % 256) ∷ [])

unfoldable pub encode_num : ℤ → Result Bytes
encode_num (pos n) = head 0 n
encode_num (negsuc n) = head 1 n

unfoldable pub encode_string : ℕ → Bytes → Result Bytes
encode_string major body = do h ← head major (length body); ok (concat_bytes (h ∷ body ∷ []))

unfoldable pub encode_key : Key → Result Bytes
unfolding encode_num encode_string
encode_key (num_key n) = encode_num n
encode_key (text_key s) = encode_string 3 (utf8_encode s)

abbrev pub count : Items → ℕ
count nil = 0
count (cons v vs) = suc (count vs)

abbrev pub map_size : Entries → ℕ
map_size end = 0
map_size (entry k v es) = suc (map_size es)

unfoldable mutual
  pub encode_cbor : Cbor → Result Bytes
  encode_cbor null = ok (0xf6 ∷ [])
  encode_cbor (bool b) = ok ((if b then 0xf5 else 0xf4) ∷ [])
  encode_cbor (num n) = encode_num n
  encode_cbor (text s) = encode_string 3 (utf8_encode s)
  encode_cbor (bytes b) = encode_string 2 b
  encode_cbor (array vs) = do
    h ← head 4 (count vs)
    parts ← encode_items vs
    ok (concat_bytes (h ∷ parts))
  encode_cbor (object es) = do
    h ← head 5 (map_size es)
    parts ← encode_entries es
    ok (concat_bytes (h ∷ parts))

  pub encode_items : Items → Result (List Bytes)
  encode_items nil = ok []
  encode_items (cons v vs) = do p ← encode_cbor v; parts ← encode_items vs; ok (p ∷ parts)

  pub encode_entries : Entries → Result (List Bytes)
  encode_entries end = ok []
  encode_entries (entry k v es) = do
    kp ← encode_key k
    p ← encode_cbor v
    parts ← encode_entries es
    ok (concat_bytes (kp ∷ p ∷ []) ∷ parts)

-- ===== src/Wallet/Cip8.antt =====
-- packages/wallet/src/cip8.ts: verification of a CIP-8 message signature (COSE_Sign1).
pub mod Sound
use cardano_on_evm.Prelude.{
  ℕ, zero, suc, Bool, true, false, not, ◌&&◌, ◌||◌, List, [], ◌∷◌, Option, none, some, Result, ok,
  err, ◌>>=◌, ◌>>◌, throw_if, or_throw, is_ok, Str, Bytes, String, codes, ltb, ◌==◌, if◌then◌else◌,
  length,
}
use cardano_on_evm.Prelude.Int.{ℤ, pos, negsuc, int_eq}
use cardano_on_evm.Wallet.Bytes.{from_hex, equal_bytes}
use cardano_on_evm.Wallet.Cbor.{
  Key, Cbor, Items, Entries, num_key, text_key, num, bool, null, text, bytes, array, object, nil,
  cons, end, entry, key_eq, key_mem, decode_cbor, encode_cbor,
}
use cardano_on_evm.Wallet.Address.{
  CardanoAddress, Bech32, parse_cardano_address, assert_address_key,
}

-- `signature` and `key`: hexadecimal text from the wallet.
pub record DataSignature : Type 0 where
  pub signature : Str
  pub key : Str

pub record VerifiedCip8 : Type 0 where
  pub public_key : Bytes
  pub protected_headers : Bytes
  pub signature : Bytes
  pub sign_structure : Bytes
  pub address : CardanoAddress

-- `{ address, network, payload }`: what the caller expects to have been signed.
pub record Expected : Type 0 where
  pub address : Str
  pub network : ℕ
  pub payload : Bytes

-- `@noble/curves` and `@noble/hashes`: BLAKE2b-224; `Point.fromBytes(key, false)` as a test, which
-- throws on false; the subgroup tests; and `verify(signature, message, key, { zip215: false })`.
pub record Crypto : Type 0 where
  pub blake2b_224 : Bytes → Bytes
  pub is_point : Bytes → Bool
  pub is_small_order : Bytes → Bool
  pub is_torsion_free : Bytes → Bool
  pub verify : Bytes → Bytes → Bytes → Bool

-- `value.get(key)` on a decoded map, `undefined` if it is absent.
unfoldable pub get : Entries → Key → Option Cbor
get end k = none
get (entry j v es) k = if key_eq k j then some v else get es k

-- `value.has(key)`
abbrev pub has : Entries → Key → Bool
has es k = elim (get es k) [ none ↦ false | some v ↦ true ]

-- The helper `map`.
unfoldable pub as_map : Option Cbor → Result Entries
as_map (some (object es)) = ok es
as_map _ = err "Expected COSE map"

-- The helper `bytes`; its label goes into the message only.
unfoldable pub as_bytes : Option Cbor → Result Bytes
as_bytes (some (bytes b)) = ok b
as_bytes _ = err "Expected bytes"

unfoldable pub only_keys : Entries → List Key → Result (Unit {0})
only_keys end allowed = ok tt
only_keys (entry k v es) allowed = do
  throw_if (not (key_mem k allowed)) "Unsupported COSE header"
  only_keys es allowed

-- `value === n` for a number.
unfoldable pub is_num : Option Cbor → ℤ → Bool
is_num (some (num m)) n = int_eq m n
is_num _ n = false

unfoldable pub is_false : Option Cbor → Bool
is_false (some (bool false)) = true
is_false _ = false

-- `Array.isArray(sign1) && sign1.length === 4`
unfoldable pub four_items : Cbor → Result (Cbor × Cbor × Cbor × Cbor)
four_items (array (cons a (cons b (cons c (cons d nil))))) = ok (a, b, c, d)
four_items _ = err "Expected COSE_Sign1"

unfoldable pub cip8_sign_structure : Bytes → Bytes → Result Bytes
cip8_sign_structure protected_headers payload = encode_cbor (
    array (
      cons (text (codes "Signature1"))
        (cons (bytes protected_headers) (cons (bytes []) (cons (bytes payload) nil)))))

-- `headers.has(4) !== key.has(2) || headers.has(4) && !equalBytes(…)`, as the check that throws.
unfoldable pub check_key_id : Entries → Entries → Result (Unit {0})
check_key_id headers key =
    if has headers (num_key (pos 4))
    then (do
      throw_if (not (has key (num_key (pos 2)))) "COSE key identifier mismatch"
      a ← as_bytes (get headers (num_key (pos 4)))
      b ← as_bytes (get key (num_key (pos 2)))
      throw_if (not (equal_bytes a b)) "COSE key identifier mismatch")
    else throw_if (has key (num_key (pos 2))) "COSE key identifier mismatch"

abbrev pub header_keys : List Key
header_keys = num_key (pos 1) ∷ num_key (pos 4) ∷ text_key (codes "address") ∷ []

abbrev pub cose_keys : List Key
cose_keys =
    num_key (pos 1)
    ∷ num_key (pos 2)
    ∷ num_key (pos 3)
    ∷ num_key (negsuc 0)
    ∷ num_key (negsuc 1)
    ∷ []

-- The COSE_Sign1 message: its protected header bytes, their map, the unprotected map, the payload
-- and the signature item. Algorithm -8 is EdDSA.
pub record Message : Type 0 where
  pub protected_headers : Bytes
  pub headers : Entries
  pub unprotected : Entries
  pub payload : Cbor
  pub signature : Cbor

unfoldable pub read_message : Str → Result Message
read_message signature = do
  raw ← from_hex signature
  sign1 ← decode_cbor raw true
  (first, second, third, fourth) ← four_items sign1
  protected_headers ← as_bytes (some first)
  throw_if (ltb 256 (length protected_headers)) "Protected header size limit"
  headers_value ← decode_cbor protected_headers false
  headers ← as_map (some headers_value)
  only_keys headers header_keys
  unprotected ← as_map (some second)
  only_keys unprotected (text_key (codes "hashed") ∷ [])
  throw_if
      (not (is_num (get headers (num_key (pos 1))) (negsuc 7))
        || has unprotected (text_key (codes "hashed"))
          && not (is_false (get unprotected (text_key (codes "hashed")))))
      "Unsupported COSE algorithm or hashed payload"
  ok (record {
    protected_headers = protected_headers;
    headers = headers;
    unprotected = unprotected;
    payload = third;
    signature = fourth;
  })

-- The signed address and payload are the expected ones.
unfoldable pub check_content : Message → CardanoAddress → Bytes → Result Bytes
check_content message address payload = do
  signed_address ← as_bytes (get message.headers (text_key (codes "address")))
  throw_if (not (equal_bytes signed_address address.bytes)) "Signed address mismatch"
  signed_payload ← as_bytes (some message.payload)
  throw_if (not (equal_bytes signed_payload payload)) "Signed payload mismatch"
  signature ← as_bytes (some message.signature)
  throw_if (not (length signature == 64)) "Invalid Ed25519 signature length"
  ok signature

-- The COSE_Key: OKP (1), EdDSA (-8), Ed25519 (6), and the identifier of the message's header.
unfoldable pub read_key : Str → Entries → Result Bytes
read_key key_text headers = do
  raw ← from_hex key_text
  value ← decode_cbor raw false
  key ← as_map (some value)
  only_keys key cose_keys
  throw_if
      (not (is_num (get key (num_key (pos 1))) (pos 1))
        || not (is_num (get key (num_key (pos 3))) (negsuc 7))
        || not (is_num (get key (num_key (negsuc 0))) (pos 6)))
      "Unsupported COSE key"
  check_key_id headers key
  as_bytes (get key (num_key (negsuc 1)))

module _ (crypto : Crypto) where
  -- The curve's checks on the key, and the signature over the structure of CIP-8.
  unfoldable pub check_signature : Bytes → Bytes → Bytes → Bytes → Result Bytes
  check_signature public_key protected_headers payload signature = do
    throw_if (not (crypto.is_point public_key)) "bad point"
    throw_if (crypto.is_small_order public_key || not (crypto.is_torsion_free public_key))
        "Unsupported Ed25519 key subgroup"
    sign_structure ← cip8_sign_structure protected_headers payload
    throw_if (not (crypto.verify signature sign_structure public_key)) "Invalid Cardano signature"
    ok sign_structure

module _ (crypto : Crypto) (bech32 : Bech32) where
  unfoldable pub verify_cip8_signature : DataSignature → Expected → Result VerifiedCip8
  verify_cip8_signature signed expected = do
    throw_if (ltb 32768 (length signed.signature) || ltb 2048 (length signed.key)) "COSE size limit"
    message ← read_message signed.signature
    address ← parse_cardano_address bech32 expected.address (some expected.network)
    signature ← check_content message address expected.payload
    public_key ← read_key signed.key message.headers
    assert_address_key crypto.blake2b_224 address public_key
    sign_structure ←
        check_signature crypto public_key message.protected_headers expected.payload signature
    ok (record {
      public_key = public_key;
      protected_headers = message.protected_headers;
      signature = signature;
      sign_structure = sign_structure;
      address = address;
    })

-- ===== src/Wallet/Cip8/Sound.antt =====
-- What an accepted CIP-8 signature proves.
use mathlib.Core.Path.{subst}
use cardano_on_evm.Prelude.{
  ◌≤◌, ◌≡◌, sym, ap, ◌∙◌, true, false, not, ◌||◌, Option, some, arith, ok, ok-injective, >>=-eq-ok,
  >>-eq-ok, Str, Bytes, codes, ltb, ◌==◌, length,
}
use cardano_on_evm.Prelude.Int.{pos, negsuc}
use cardano_on_evm.Wallet.Bytes.{from_hex, equal_bytes}
use cardano_on_evm.Wallet.Bytes.Compare.{equal_bytes_iff}
use cardano_on_evm.Wallet.Cbor.{Cbor, Entries, num_key, text_key, bytes, object, decode_cbor}
use cardano_on_evm.Wallet.Address.{
  CardanoAddress, Bech32, parse_cardano_address, assert_address_key,
}
use cardano_on_evm.Wallet.Cip8.{
  DataSignature, VerifiedCip8, Expected, Crypto, Message, get, as_map, as_bytes, is_num,
  cip8_sign_structure, header_keys, only_keys, four_items, read_message, check_content, read_key,
  check_signature, verify_cip8_signature,
}

as_bytes-eq-ok : (o : Option Cbor) (b : Bytes) → as_bytes o ≡ ok b → o ≡ some (bytes b)
unfolding as_bytes
as_bytes-eq-ok o b h = ground arith

as_map-eq-ok : (c : Cbor) (es : Entries) → as_map (some c) ≡ ok es → c ≡ object es
unfolding as_map
as_map-eq-ok c es h = ground arith

-- The address, the payload and the signature item of an accepted message.
check_content-eq-ok :
    (m : Message) (address : CardanoAddress) (payload : Bytes) (signature : Bytes)
    → check_content m address payload ≡ ok signature
    → (get m.headers (text_key (codes "address")) ≡ some (bytes address.bytes))
      × (m.payload ≡ bytes payload)
      × (m.signature ≡ bytes signature)
      × (length signature ≡ 64)
unfolding check_content
check_content-eq-ok m address payload signature h =
    let (a, ea, h₁) = >>=-eq-ok (as_bytes (get m.headers (text_key (codes "address")))) _ h in
    let (same, h₂) = >>-eq-ok (not (equal_bytes a address.bytes)) _ _ h₁ in
    let (b, eb, h₃) = >>=-eq-ok (as_bytes (some m.payload)) _ h₂ in
    let (equal, h₄) = >>-eq-ok (not (equal_bytes b payload)) _ _ h₃ in
    let (c, ec, h₅) = >>=-eq-ok (as_bytes (some m.signature)) _ h₄ in
    let (len, h₆) = >>-eq-ok (not (length c == 64)) _ _ h₅ in
    let a_is : a ≡ address.bytes = (equal_bytes_iff a address.bytes).0 (ground arith) in
    let b_is : b ≡ payload = (equal_bytes_iff b payload).0 (ground arith) in
    let c_is : c ≡ signature = cc in
    let c_len : length c ≡ 64 = ground arith in
    (
      as_bytes-eq-ok _ a ea ∙ ap (λ (x : Bytes). some (bytes x)) a_is,
      cc (as_bytes-eq-ok _ b eb, b_is),
      cc (as_bytes-eq-ok _ c ec, c_is),
      sym (ap length c_is) ∙ c_len,
    )

read_message-eq-ok :
    (signature : Str) (m : Message)
    → read_message signature ≡ ok m
    → (decode_cbor m.protected_headers false ≡ ok (object m.headers))
      × (is_num (get m.headers (num_key (pos 1))) (negsuc 7) ≡ true)
      × (length m.protected_headers ≤ 256)
unfolding read_message
read_message-eq-ok signature m h =
    let (raw, _, h₁) = >>=-eq-ok (from_hex signature) _ h in
    let (sign1, _, h₂) = >>=-eq-ok (decode_cbor raw true) _ h₁ in
    let (parts, _, h₃) = >>=-eq-ok (four_items sign1) _ h₂ in
    let (p, _, h₄) = >>=-eq-ok (as_bytes (some parts.0)) _ h₃ in
    let (short, h₅) = >>-eq-ok (ltb 256 (length p)) _ _ h₄ in
    let (value, decoded, h₆) = >>=-eq-ok (decode_cbor p false) _ h₅ in
    let (headers, is_map, h₇) = >>=-eq-ok (as_map (some value)) _ h₆ in
    let (_, _, h₈) = >>=-eq-ok (only_keys headers header_keys) _ h₇ in
    let (unprotected, _, h₉) = >>=-eq-ok (as_map (some parts.1)) _ h₈ in
    let (_, _, h₁₀) = >>=-eq-ok (only_keys unprotected _) _ h₉ in
    let (eddsa, h₁₁) =
      >>-eq-ok (not (is_num (get headers (num_key (pos 1))) (negsuc 7)) || _) _ _ h₁₀ in
    let same_headers : headers ≡ m.headers = ground arith in
    let same_bytes : p ≡ m.protected_headers = ground arith in
    let algorithm : is_num (get headers (num_key (pos 1))) (negsuc 7) ≡ true = ground arith in
    let small : length p ≤ 256 = ground arith in
    (
      ap (λ (x : Bytes). decode_cbor x false) (sym same_bytes)
          ∙ (decoded
              ∙ (ap ok (as_map-eq-ok value headers is_map)
                  ∙ ap (λ (x : Entries). ok (object x)) same_headers)),
      subst (λ x. is_num (get x (num_key (pos 1))) (negsuc 7) ≡ true) same_headers algorithm,
      subst (λ x. length x ≤ 256) same_bytes small,
    )

-- The checks of the curve.
check_signature-eq-ok :
    (crypto : Crypto) (public_key protected_headers payload signature structure : Bytes)
    → check_signature crypto public_key protected_headers payload signature ≡ ok structure
    → (cip8_sign_structure protected_headers payload ≡ ok structure)
      × (crypto.verify signature structure public_key ≡ true)
      × (crypto.is_point public_key ≡ true)
      × (crypto.is_small_order public_key ≡ false)
      × (crypto.is_torsion_free public_key ≡ true)
unfolding check_signature
check_signature-eq-ok crypto public_key protected_headers payload signature structure h =
    ground arith

assert_address_key-eq-ok :
    (hash : Bytes → Bytes) (a : CardanoAddress) (public_key : Bytes)
    → assert_address_key hash a public_key ≡ ok tt
    → (length public_key ≡ 32) × (a.key_hash ≡ hash public_key)
unfolding assert_address_key
assert_address_key-eq-ok hash a public_key h =
    (ground arith, (equal_bytes_iff _ _).0 (ground arith))

-- What the holder of a key has signed, for the address and the payload that were expected.
pub record Authorizes (crypto : Crypto) (bech32 : Bech32) (e : Expected) (v : VerifiedCip8)
    : Type 0 where
  pub address : parse_cardano_address bech32 e.address (some e.network) ≡ ok v.address
  pub key_length : length v.public_key ≡ 32
  pub key_hash : v.address.key_hash ≡ crypto.blake2b_224 v.public_key
  pub on_curve : crypto.is_point v.public_key ≡ true
  pub not_small : crypto.is_small_order v.public_key ≡ false
  pub torsion_free : crypto.is_torsion_free v.public_key ≡ true
  pub signature_length : length v.signature ≡ 64
  pub structure : cip8_sign_structure v.protected_headers e.payload ≡ ok v.sign_structure
  pub signed : crypto.verify v.signature v.sign_structure v.public_key ≡ true
  pub header_length : length v.protected_headers ≤ 256
  pub header_address :
      (headers : Entries) × (decode_cbor v.protected_headers false ≡ ok (object headers))
      × (is_num (get headers (num_key (pos 1))) (negsuc 7) ≡ true)
      × (get headers (text_key (codes "address")) ≡ some (bytes v.address.bytes))

-- A signature is accepted only if it authorizes the expectation: the expected address parses, the
-- key has 32 bytes, is a point of the curve in the large subgroup, and hashes to the address; its
-- 64-byte signature holds for the structure made of the returned header bytes and the expected
-- payload; and those headers, of at most 256 bytes, decode to a map with the algorithm EdDSA and
-- the bytes of the address.
pub verify_cip8_signature-Authorizes :
    (crypto : Crypto) (bech32 : Bech32) (signed : DataSignature) (e : Expected) (v : VerifiedCip8)
    → verify_cip8_signature crypto bech32 signed e ≡ ok v
    → Authorizes crypto bech32 e v
unfolding verify_cip8_signature
verify_cip8_signature-Authorizes crypto bech32 signed e v h =
    let (_, h₁) = >>-eq-ok (ltb 32768 (length signed.signature) || _) _ _ h in
    let (m, em, h₂) = >>=-eq-ok (read_message signed.signature) _ h₁ in
    let (address, ea, h₃) =
      >>=-eq-ok (parse_cardano_address bech32 e.address (some e.network)) _ h₂ in
    let (signature, es, h₄) = >>=-eq-ok (check_content m address e.payload) _ h₃ in
    let (key, ek, h₅) = >>=-eq-ok (read_key signed.key m.headers) _ h₄ in
    let (_, ha, h₆) = >>=-eq-ok (assert_address_key crypto.blake2b_224 address key) _ h₅ in
    let (structure, ec, h₇) =
      >>=-eq-ok (check_signature crypto key m.protected_headers e.payload signature) _ h₆ in
    let (decoded, eddsa, short) = read_message-eq-ok signed.signature m em in
    let (named, _, _, len) = check_content-eq-ok m address e.payload signature es in
    let (key_len, hash) = assert_address_key-eq-ok crypto.blake2b_224 address key ha in
    let (made, valid, point, order, torsion) =
      check_signature-eq-ok crypto key m.protected_headers e.payload signature structure ec in
    subst (Authorizes crypto bech32 e) (ok-injective h₇) (record {
      address = ea;
      key_length = key_len;
      key_hash = hash;
      on_curve = point;
      not_small = order;
      torsion_free = torsion;
      signature_length = len;
      structure = made;
      signed = valid;
      header_length = short;
      header_address = (m.headers, decoded, eddsa, named);
    })

-- The message behind an accepted signature: its payload and its signed address.
accepted_message :
    (crypto : Crypto) (bech32 : Bech32) (signed : DataSignature) (e : Expected) (v : VerifiedCip8)
    → verify_cip8_signature crypto bech32 signed e ≡ ok v
    → (m : Message) × (read_message signed.signature ≡ ok m)
      × (m.payload ≡ bytes e.payload)
      × (get m.headers (text_key (codes "address")) ≡ some (bytes v.address.bytes))
unfolding verify_cip8_signature
accepted_message crypto bech32 signed e v h =
    let (_, h₁) = >>-eq-ok (ltb 32768 (length signed.signature) || _) _ _ h in
    let (m, em, h₂) = >>=-eq-ok (read_message signed.signature) _ h₁ in
    let (address, ea, h₃) =
      >>=-eq-ok (parse_cardano_address bech32 e.address (some e.network)) _ h₂ in
    let (signature, es, h₄) = >>=-eq-ok (check_content m address e.payload) _ h₃ in
    let (key, ek, h₅) = >>=-eq-ok (read_key signed.key m.headers) _ h₄ in
    let (_, ha, h₆) = >>=-eq-ok (assert_address_key crypto.blake2b_224 address key) _ h₅ in
    let (structure, ec, h₇) =
      >>=-eq-ok (check_signature crypto key m.protected_headers e.payload signature) _ h₆ in
    let (named, paid, _, _) = check_content-eq-ok m address e.payload signature es in
    let same = ap (λ (x : VerifiedCip8). x.address) (ok-injective h₇) in
    (m, em, paid, named ∙ ap (λ (a : CardanoAddress). some (bytes a.bytes)) same)

-- A signed message serves one payload and one address: if it is accepted for two expectations, with
-- whatever keys, these have the same payload and addresses of the same bytes.
pub verify_cip8_signature_binds :
    (crypto : Crypto) (bech32 : Bech32) (signed signed' : DataSignature) (e e' : Expected)
    (v v' : VerifiedCip8)
    → signed.signature ≡ signed'.signature
    → verify_cip8_signature crypto bech32 signed e ≡ ok v
    → verify_cip8_signature crypto bech32 signed' e' ≡ ok v'
    → (e.payload ≡ e'.payload) × (v.address.bytes ≡ v'.address.bytes)
verify_cip8_signature_binds crypto bech32 signed signed' e e' v v' same h h' =
    let (m, em, paid, named) = accepted_message crypto bech32 signed e v h in
    let (m', em', paid', named') = accepted_message crypto bech32 signed' e' v' h' in
    let one = ok-injective (sym em ∙ (ap read_message same ∙ em')) in
    (
      bytes_injective (sym paid ∙ (ap (λ (x : Message). x.payload) one ∙ paid')),
      some_bytes_injective (
          sym named
          ∙ (ap (λ (x : Message). get x.headers (text_key (codes "address"))) one ∙ named')),
    )
  where
    bytes_injective : {a b : Bytes} → bytes a ≡ bytes b → a ≡ b
    bytes_injective h = cc

    some_bytes_injective : {a b : Bytes} → some (bytes a) ≡ some (bytes b) → a ≡ b
    some_bytes_injective h = cc

-- ===== src/Enrollment/Identity/Chains.antt =====
-- The account of a key in packages/enrollment/src/identity.ts is the same on every chain.
use cardano_on_evm.Prelude.{
  ℕ, ◌+◌, ◌%◌, ◌∷◌, ◌^◌, ◌≡◌, sym, ap, ◌∙◌, Bool, true, not, List, map, arith, ok, >>=-eq-ok,
  >>-eq-ok, ok-injective, Str, Bytes, IsBytes, codes, to_lower, ltb, length, has_prefix,
}
use cardano_on_evm.Wallet.Bytes.{to_hex, concat_bytes}
use cardano_on_evm.Wallet.Bytes.Hex.{length-to_hex, all_hex-to_hex, parse_pairs-to_hex}
use cardano_on_evm.Wallet.Cip8.{Crypto}
use cardano_on_evm.Enrollment.Service.{is_positive_safe}
use cardano_on_evm.Enrollment.Identity.{
  TableIdentityConfig, TableIdentity, prefixed_bytes, prefixed_hex, word, number_bytes, text_hash,
  creation_code, deployment_words, backend_table_config_hash, identity_behind,
  derive_backend_table_identity, validator_code,
}

prefixed_bytes-prefixed_hex : (b : Bytes) → IsBytes b → prefixed_bytes (prefixed_hex b) ≡ ok b
unfolding prefixed_bytes prefixed_hex has_prefix
prefixed_bytes-prefixed_hex b h =
    let hex = all_hex-to_hex b h in
    let pairs = parse_pairs-to_hex b h in
    let even : (2 + length (to_hex b)) % 2 ≡ 0 = omega (arith, length-to_hex b) in
    ground (arith, hex, pairs, even)

word_safe : (n : ℕ) → is_positive_safe n ≡ true → (w : Bytes) × (word n ≡ ok w)
unfolding word
word_safe n h = let small : ltb n (2 ^ 256) ≡ true = ground arith in (number_bytes 32 n, rw small)

module _ (crypto : Crypto) (affine_x : Bytes → ℕ) (keccak : Bytes → Bytes)
    (keccak-IsBytes : (b : Bytes) → IsBytes (keccak b)) where
  config_hash_parts :
      (c : TableIdentityConfig) (hash : Str)
      → backend_table_config_hash crypto affine_x keccak c ≡ ok hash
      → (is_positive_safe c.chain_id ≡ true)
        × (code : Bytes) × (words : List Bytes) × (creation_code crypto affine_x keccak c ≡ ok code)
        × (deployment_words crypto affine_x keccak c code ≡ ok words)
  unfolding backend_table_config_hash
  config_hash_parts c hash h =
      let (safe, h₁) = >>-eq-ok (not (is_positive_safe c.chain_id)) _ _ h in
      let (code, e, h₂) = >>=-eq-ok (creation_code crypto affine_x keccak c) _ h₁ in
      let (_, _, h₃) = >>=-eq-ok (word c.chain_id) _ h₂ in
      let (words, e', _) = >>=-eq-ok (deployment_words crypto affine_x keccak c code) _ h₃ in
      (ground (arith, safe), code, words, e, e')

  config_hash_made :
      (c : TableIdentityConfig) (n : ℕ) (code w : Bytes) (words : List Bytes)
      → is_positive_safe n ≡ true
      → creation_code crypto affine_x keccak c ≡ ok code
      → word n ≡ ok w
      → deployment_words crypto affine_x keccak c code ≡ ok words
      → (b : Bytes) × (backend_table_config_hash crypto affine_x keccak (record c { chain_id = n })
          ≡ ok (prefixed_hex b))
        × (prefixed_bytes (prefixed_hex b) ≡ ok b)
  unfolding backend_table_config_hash creation_code deployment_words
  config_hash_made c n code w words safe e ew e' =
      let preimage = concat_bytes (
        text_hash crypto affine_x keccak
          (codes "cardano-kernel:identity:v1:experimental-general:portable")
        ∷ w
        ∷ words) in
      (
        keccak preimage,
        rw (safe, e, ew) (rw e'),
        prefixed_bytes-prefixed_hex (keccak preimage) (keccak-IsBytes preimage),
      )

  -- Nothing but the check of the chain depends on the chain.
  identity_elsewhere :
      (c : TableIdentityConfig) (n : ℕ) (key headers : Str) (i : TableIdentity)
      → is_positive_safe c.chain_id ≡ true
      → is_positive_safe n ≡ true
      → identity_behind crypto affine_x keccak c (is_positive_safe c.chain_id) key headers ≡ ok i
      → identity_behind crypto affine_x keccak
          (record c { chain_id = n })
          (is_positive_safe n)
          key
          headers
        ≡ ok i
  unfolding identity_behind creation_code deployment_words validator_code
  identity_elsewhere c n key headers i here there h =
      ap (λ (safe : Bool). identity_behind crypto affine_x keccak c safe key headers)
        (there ∙ sym here)
      ∙ h

  -- If a key has an identity under a configuration, it has one under the configuration of any other
  -- chain, and the two differ in the configuration's hash alone: the account, its salts, the validator
  -- and the data that deploy them are the same.
  pub derive_backend_table_identity_elsewhere :
      (key headers : Str) (c : TableIdentityConfig) (i : TableIdentity) (n : ℕ)
      → derive_backend_table_identity crypto affine_x keccak key headers c ≡ ok i
      → is_positive_safe n ≡ true
      → (hash : Str) × (derive_backend_table_identity crypto affine_x keccak key headers
            (record c { chain_id = n })
          ≡ ok (record i { config_hash = hash }))
  unfolding derive_backend_table_identity
  derive_backend_table_identity_elsewhere key headers c i n h safe =
      let (hash, e, h₁) = >>=-eq-ok (backend_table_config_hash crypto affine_x keccak c) _ h in
      let (b, _, h₂) = >>=-eq-ok (prefixed_bytes hash) _ h₁ in
      let (identity, ei, h₃) =
        >>=-eq-ok
          (identity_behind crypto affine_x keccak c (is_positive_safe c.chain_id) (map to_lower key)
            (map to_lower headers))
          _ h₂ in
      let (here, code, words, ec, ew) = config_hash_parts c hash e in
      let (w, en) = word_safe n safe in
      let (b', e', back) = config_hash_made c n code w words safe ec en ew in
      let same =
        identity_elsewhere c n (map to_lower key) (map to_lower headers) identity here safe ei in
      (
        prefixed_hex b',
        rw (e', derive_backend_table_identity)
            (rw back (
              rw (same) (
                ap (λ (x : TableIdentity). ok (record x { config_hash = prefixed_hex b' }))
                  (ok-injective h₃)))),
      )

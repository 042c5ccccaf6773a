-- ===== src/Wallet/Address/Parse.antt =====
-- What a parsed address is, and that its hexadecimal text parses to the same address.
use cardano_on_evm.Prelude.{
  ℕ, ◌/◌, ◌%◌, ◌≡◌, refl, sym, ap, ◌∙◌, ◌⊎◌, inl, inr, true, false, List, [], ◌∷◌, Option, none,
  some, arith, ok, ◌>>=◌, >>=-eq-ok, Str, Bytes, IsBytes, has_prefix, first_byte, Bool-cases,
  length,
}
use cardano_on_evm.Wallet.Bytes.{from_hex, to_hex}
use cardano_on_evm.Wallet.Bytes.Hex.{from_hex-to_hex, to_hex-from_hex}
use cardano_on_evm.Wallet.Address.{
  CardanoAddress, Bech32, is_bech32_address, to_bytes, address_length, is_supported_kind,
  expected_prefix, differs_from, prefix_differs, address_of, check_address, parse_cardano_address,
}

-- The bytes of an address, with what its header byte promises.
pub record IsAddress (a : CardanoAddress) : Type 0 where
  pub are_bytes : IsBytes a.bytes
  pub fields : a ≡ address_of a.bytes
  pub known_network : (a.network ≡ 0) ⊎ (a.network ≡ 1)
  pub known_kind : is_supported_kind a.kind ≡ true
  pub exact_length : length a.bytes ≡ address_length a.kind

pub check_address-eq-ok :
    (prefix : Option Str) (bytes : Bytes) (expected : Option ℕ) (a : CardanoAddress)
    → check_address prefix bytes expected ≡ ok a
    → (a ≡ address_of bytes)
      × ((a.network ≡ 0) ⊎ (a.network ≡ 1))
      × (differs_from expected a.network ≡ false)
      × (is_supported_kind a.kind ≡ true)
      × (length bytes ≡ address_length a.kind)
      × (prefix_differs prefix (expected_prefix a.kind a.network) ≡ false)
unfolding check_address
check_address-eq-ok prefix bytes expected a h = ground arith

to_bytes-IsBytes : (ns : List ℕ) → IsBytes (to_bytes ns)
to_bytes-IsBytes [] = tt
to_bytes-IsBytes (n ∷ ns) = (omega arith, to_bytes-IsBytes ns)

check_address-IsAddress :
    (prefix : Option Str) (bytes : Bytes) (expected : Option ℕ) (a : CardanoAddress)
    → IsBytes bytes
    → check_address prefix bytes expected ≡ ok a
    → IsAddress a
check_address-IsAddress prefix bytes expected a fine h =
    let (e, net, _, kind, len, _) = check_address-eq-ok prefix bytes expected a h in
    let same : a.bytes ≡ bytes = ap (λ (x : CardanoAddress). x.bytes) e in
    record {
      are_bytes = rw same fine;
      fields = e ∙ ap address_of (sym same);
      known_network = net;
      known_kind = kind;
      exact_length = ap length same ∙ len;
    }

-- A supported kind is written with a digit that no bech32 prefix begins with.
hex_is_not_bech32 :
    (bytes : Bytes)
    → is_supported_kind (first_byte bytes / 16) ≡ true
    → is_bech32_address (to_hex bytes) ≡ false
unfolding is_bech32_address is_supported_kind to_hex has_prefix
hex_is_not_bech32 [] h = refl
hex_is_not_bech32 (b ∷ bs) h = ground arith

check_address-bytes :
    (bytes : Bytes) (expected : Option ℕ)
    → (first_byte bytes % 16 ≡ 0) ⊎ (first_byte bytes % 16 ≡ 1)
    → differs_from expected (first_byte bytes % 16) ≡ false
    → is_supported_kind (first_byte bytes / 16) ≡ true
    → length bytes ≡ address_length (first_byte bytes / 16)
    → check_address none bytes expected ≡ ok (address_of bytes)
unfolding check_address address_length
check_address-bytes bytes expected net same kind len = ground arith

address-check :
    (a : CardanoAddress) (expected : Option ℕ)
    → IsAddress a
    → differs_from expected a.network ≡ false
    → check_address none a.bytes expected ≡ ok a
address-check a expected v same =
    let kind : a.kind ≡ first_byte a.bytes / 16 = ap (λ (x : CardanoAddress). x.kind) v.fields in
    let network : a.network ≡ first_byte a.bytes % 16 =
      ap (λ (x : CardanoAddress). x.network) v.fields in
    check_address-bytes a.bytes expected (rw (← network) v.known_network) (rw (← network) same)
      (rw (← kind) v.known_kind) (rw (← kind) v.exact_length)
    ∙ ap ok (sym v.fields)

module _ (bech32 : Bech32) where
  -- Whatever text was accepted, the result is an address: bytes of the length of its kind, which is
  -- supported, with a known network, the fields read off them, and the expected network if one is
  -- given.
  pub parse_cardano_address-IsAddress :
      (input : Str) (expected : Option ℕ) (a : CardanoAddress)
      → parse_cardano_address bech32 input expected ≡ ok a
      → IsAddress a × (differs_from expected a.network ≡ false)
  unfolding parse_cardano_address
  parse_cardano_address-IsAddress input expected a h = elim (Bool-cases (is_bech32_address input)) [
    | inl coded ↦
        let (d, _, h₁) =
          >>=-eq-ok (bech32.decode input 120)
            (λ d. bech32.from_words d.1 >>= λ ns. check_address (some d.0) (to_bytes ns) expected)
            (rw coded at h) in
        let (ns, _, c) =
          >>=-eq-ok (bech32.from_words d.1) (λ ns. check_address (some d.0) (to_bytes ns) expected)
            h₁ in
        (
          check_address-IsAddress (some d.0) (to_bytes ns) expected a (to_bytes-IsBytes ns) c,
          (check_address-eq-ok (some d.0) (to_bytes ns) expected a c).2,
        )
    | inr plain ↦
        let (bytes, e, c) =
          >>=-eq-ok (from_hex input) (λ b. check_address none b expected) (rw plain at h) in
        (
          check_address-IsAddress none bytes expected a (to_hex-from_hex input bytes e).0 c,
          (check_address-eq-ok none bytes expected a c).2,
        )
  ]

  -- The hexadecimal text of a parsed address parses to the same address, under the same expected
  -- network: every spelling that is accepted leads to one text.
  pub parse_cardano_address-hex :
      (input : Str) (expected : Option ℕ) (a : CardanoAddress)
      → parse_cardano_address bech32 input expected ≡ ok a
      → parse_cardano_address bech32 a.hex expected ≡ ok a
  unfolding parse_cardano_address
  parse_cardano_address-hex input expected a h =
      let (v, same) = parse_cardano_address-IsAddress input expected a h in
      let hex : a.hex ≡ to_hex a.bytes = ap (λ (x : CardanoAddress). x.hex) v.fields in
      let kind : a.kind ≡ first_byte a.bytes / 16 = ap (λ (x : CardanoAddress). x.kind) v.fields in
      let plain = hex_is_not_bech32 a.bytes (rw (← kind) v.known_kind) in
      let at_bytes : parse_cardano_address bech32 (to_hex a.bytes) expected ≡ ok a =
        rw (plain, from_hex-to_hex a.bytes v.are_bytes) (address-check a expected v same) in
      ap (λ (t : Str). parse_cardano_address bech32 t expected) hex ∙ at_bytes

-- ===== src/Enrollment/Payload.antt =====
-- `payload` of packages/enrollment/src/service.ts: the bytes that a wallet signs to enroll, the UTF-8
-- of a JSON object with its properties in a fixed order.
use cardano_on_evm.Prelude.{
  ℕ, ◌/◌, ◌%◌, not, ◌||◌, List, [], ◌∷◌, ◌++◌, Str, Bytes, String, codes, ltb, ◌==◌, if◌then◌else◌,
}
use cardano_on_evm.Prelude.Decimal.{decimal}
use cardano_on_evm.Wallet.Bytes.{hex_char}
use cardano_on_evm.Wallet.Utf8.{is_scalar, utf8_encode}
use cardano_on_evm.Enrollment.Store.{ChallengeRecord}

abbrev unicode_escape : ℕ → Str
unicode_escape c =
    92
    ∷ b'u'
    ∷ hex_char (c / 4096)
    ∷ hex_char (c / 256 % 16)
    ∷ hex_char (c / 16 % 16)
    ∷ hex_char (c % 16)
    ∷ []

-- One character of a string in `JSON.stringify`.
unfoldable pub json_char : ℕ → Str
unfolding hex_char
json_char c =
    if c == 34 || c == 92
    then 92 ∷ c ∷ []
    else if c == 8
    then 92 ∷ b'b' ∷ []
    else if c == 9
    then 92 ∷ b't' ∷ []
    else if c == 10
    then 92 ∷ b'n' ∷ []
    else if c == 12
    then 92 ∷ b'f' ∷ []
    else if c == 13
    then 92 ∷ b'r' ∷ []
    else if ltb c 32 || not (is_scalar c)
    then unicode_escape c
    else c ∷ []

unfoldable pub json_chars : Str → Str
unfolding json_char
json_chars [] = []
json_chars (c ∷ s) = json_char c ++ json_chars s

unfoldable pub json_string : Str → Str
unfolding json_chars
json_string s = 34 ∷ (json_chars s ++ 34 ∷ [])

-- `"name":value`
abbrev property : String → Str → Str
property name value = json_string (codes name) ++ 58 ∷ value

unfoldable pub json_members : List Str → Str
json_members [] = []
json_members (m ∷ []) = m
json_members (m ∷ m' ∷ ms) = m ++ 44 ∷ json_members (m' ∷ ms)

abbrev pub enrollment_domain : Str
enrollment_domain = codes "cardano-kernel:enrollment:v1"

unfoldable pub payload_text : ChallengeRecord → Str
unfolding json_string decimal json_members
payload_text r =
    123
    ∷ (json_members (
          property "domain" (json_string enrollment_domain)
          ∷ property "challenge" (json_string r.id)
          ∷ property "application" (json_string r.application)
          ∷ property "cardanoAddress" (json_string r.cardano_address)
          ∷ property "cardanoNetwork" (decimal r.cardano_network)
          ∷ property "baseChainId" (decimal r.base_chain_id)
          ∷ property "configHash" (json_string r.config_hash)
          ∷ property "issuedAt" (decimal r.issued_at)
          ∷ property "expiresAt" (decimal r.expires_at)
          ∷ [])
        ++ 125 ∷ [])

unfoldable pub payload : ChallengeRecord → Bytes
payload r = utf8_encode (payload_text r)

-- ===== src/Enrollment/Service.antt =====
-- `createEnrollmentService` of packages/enrollment/src/service.ts: issuing a challenge and enrolling
-- with its signature. Clock readings and random bytes are arguments; the store is any `ChallengeStore`.
pub mod Outcome
pub mod Complete
pub mod Schedule
use cardano_on_evm.Prelude.{
  ℕ, zero, suc, ◌+◌, ◌-◌, ◌^◌, ◌≡◌, Bool, true, false, not, ◌&&◌, ◌||◌, List, [], ◌∷◌, Option, none,
  some, Result, ok, err, ◌>>=◌, ◌>>◌, throw_if, or_throw, Str, Bytes, codes, has_prefix, str_eq,
  ltb, leb, ◌==◌, if◌then◌else◌, length, drop,
}
use cardano_on_evm.Wallet.Bytes.{from_hex, to_hex}
use cardano_on_evm.Wallet.Address.{CardanoAddress, CardanoCredential, Bech32, parse_cardano_address}
use cardano_on_evm.Wallet.Cip8.{
  DataSignature, VerifiedCip8, Expected, Crypto, verify_cip8_signature,
}
use cardano_on_evm.Enrollment.Store.{ChallengeRecord, ChallengeStore}
use cardano_on_evm.Enrollment.Payload.{payload}

pub record EnrollmentScope : Type 0 where
  pub application : Str
  pub base_chain_id : ℕ
  pub cardano_network : ℕ
  pub config_hash : Str

-- `new URL(text)`: its protocol and origin, or an error.
pub record Url : Type 0 where
  pub protocol : Str
  pub origin : Str

-- `/^[0-9a-f]*$/`
unfoldable pub all_lower_hex : Str → Bool
all_lower_hex [] = true
all_lower_hex (c ∷ s) = (leb b'0' c && leb c b'9' || leb b'a' c && leb c b'f') && all_lower_hex s

-- `/^[0-9a-f]{64}$/`
unfoldable pub is_challenge_id : Str → Bool
unfolding all_lower_hex
is_challenge_id id = length id == 64 && all_lower_hex id

-- `/^0x[0-9a-f]{64}$/`
unfoldable pub is_config_hash : Str → Bool
unfolding is_challenge_id
is_config_hash hash = has_prefix (codes "0x") hash && is_challenge_id (drop 2 hash)

-- `Number.isSafeInteger(n) && n > 0`
abbrev pub is_positive_safe : ℕ → Bool
is_positive_safe n = ltb 0 n && ltb n (2 ^ 53)

abbrev pub or_default : Option ℕ → ℕ → ℕ
or_default none d = d
or_default (some n) d = n

-- The checks of the options: the scope and the lifetime of challenges in milliseconds.
unfoldable pub create_enrollment_service :
    (Str → Result Url) → EnrollmentScope → Option ℕ → Result (EnrollmentScope × ℕ)
create_enrollment_service parse_url options ttl = do
  url ← parse_url options.application
  throw_if
      (not (str_eq url.protocol (codes "https:") || str_eq url.protocol (codes "http:"))
        || not (str_eq url.origin options.application))
      "Application must be an exact HTTP(S) origin"
  throw_if (not (is_positive_safe options.base_chain_id)) "Invalid Base chain ID"
  throw_if (not (options.cardano_network == 0) && not (options.cardano_network == 1))
      "Invalid Cardano network"
  throw_if (not (is_config_hash options.config_hash)) "Configuration hash must be canonical bytes32"
  let ttl_ms = or_default ttl 300000
  throw_if (not (is_positive_safe ttl_ms) || ltb 900000 ttl_ms)
      "Challenge lifetime must be 1..900000 ms"
  ok (options, ttl_ms)

-- The record of a challenge but for its payload, and with it.
abbrev pub challenge_data : EnrollmentScope → ℕ → ℕ → Bytes → Str → ChallengeRecord
challenge_data scope ttl_ms now random address = record {
  id = to_hex random;
  application = scope.application;
  cardano_address = address;
  cardano_network = scope.cardano_network;
  base_chain_id = scope.base_chain_id;
  config_hash = scope.config_hash;
  issued_at = now;
  expires_at = now + ttl_ms;
  payload_hex = [];
}

-- `{ ...data, payloadHex: toHex(payload(data)) }`
abbrev pub with_payload : ChallengeRecord → ChallengeRecord
with_payload r = record r { payload_hex = to_hex (payload r) }

abbrev pub scope_differs : ChallengeRecord → EnrollmentScope → Bool
scope_differs c scope =
    not (str_eq c.application scope.application)
    || not (c.base_chain_id == scope.base_chain_id)
    || not (c.cardano_network == scope.cardano_network)
    || not (str_eq c.config_hash scope.config_hash)

pub record Enrolled (Identity : Type 0) : Type 0 where
  pub identity : Identity
  pub public_key : Str
  pub address : Str
  pub credential : CardanoCredential

-- An enrollment whose signature is verified and whose challenge is still to be consumed.
pub record Pending (Identity : Type 0) : Type 0 where
  pub id : Str
  pub payload_hex : Str
  pub enrolled : Enrolled Identity

module _ (crypto : Crypto) (bech32 : Bech32) {Identity : Type 0}
    (derive_identity : VerifiedCip8 → Result Identity) (scope : EnrollmentScope) where
  -- The checks on a stored challenge, at two readings of the clock.
  unfoldable pub check_challenge : Option ChallengeRecord → ℕ → ℕ → Result ChallengeRecord
  check_challenge found now now' = do
    challenge ← or_throw found "Challenge expired or unavailable"
    throw_if (leb challenge.expires_at now || ltb now' challenge.issued_at)
        "Challenge expired or unavailable"
    throw_if (scope_differs challenge scope) "Challenge scope mismatch"
    throw_if (not (str_eq challenge.payload_hex (to_hex (payload challenge))))
        "Challenge storage integrity failure"
    ok challenge

  unfoldable pub verify_challenge :
      Str → ChallengeRecord → DataSignature → Result (Pending Identity)
  verify_challenge id challenge signed = do
    bytes ← from_hex challenge.payload_hex
    verified ← verify_cip8_signature crypto bech32 signed (record {
      address = challenge.cardano_address;
      network = scope.cardano_network;
      payload = bytes;
    })
    identity ← derive_identity verified
    ok (record {
      id = id;
      payload_hex = challenge.payload_hex;
      enrolled = record {
        identity = identity;
        public_key = to_hex verified.public_key;
        address = verified.address.hex;
        credential = verified.address.credential;
      };
    })

  module _ (store : ChallengeStore) where
    -- `issue`, from the parsed address on.
    unfoldable pub store_challenge :
        ℕ → ℕ → Bytes → Result CardanoAddress → store.State → Result ChallengeRecord × store.State
    store_challenge ttl_ms now random (err e) s = (err e, s)
    store_challenge ttl_ms now random (ok address) s =
        let r = with_payload (challenge_data scope ttl_ms now random address.hex) in
        let (stored, s') = store.put r s in (stored >> ok r, s')

    unfoldable pub issue : ℕ → ℕ → Bytes → Str → store.State → Result ChallengeRecord × store.State
    issue ttl_ms now random cardano_address s =
        store_challenge ttl_ms now random
          (parse_cardano_address bech32 cardano_address (some scope.cardano_network)) s

    -- Up to the last `await`: the challenge is read, checked and verified.
    unfoldable pub begin_enroll :
        Str → DataSignature → ℕ → ℕ → store.State → Result (Pending Identity)
    begin_enroll id signed now now' s = do
      throw_if (not (is_challenge_id id)) "Invalid challenge identifier"
      challenge ← check_challenge (store.get id s) now now'
      verify_challenge id challenge signed

    -- The challenge is compared and deleted in one step, at a last reading of the clock.
    unfoldable pub finish_enroll :
        Pending Identity → ℕ → store.State → Result (Enrolled Identity) × store.State
    finish_enroll p now s =
        let (used, s') = store.consume p.id p.payload_hex now s in
        (if used then ok p.enrolled else err "Challenge expired or already consumed", s')

    unfoldable pub enroll :
        Str → DataSignature → ℕ → ℕ → ℕ → store.State → Result (Enrolled Identity) × store.State
    unfolding finish_enroll
    enroll id signed now now' now'' s = elim (begin_enroll id signed now now' s) [
      | err e ↦ (err e, s)
      | ok p ↦ finish_enroll p now'' s
    ]

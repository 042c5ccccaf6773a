-- ===== src/Sdk/Enrollment/Sound.antt =====
-- What an enrolled account proves.
use mathlib.Core.Path.{subst}
use cardano_on_evm.Prelude.{
  ℕ, ◌≡◌, ◌≤◌, ◌<◌, ◌-◌, refl, sym, ap, ◌∙◌, Bool, true, false, not, ◌||◌, List, [], ◌∷◌, map, All,
  Option, none, some, arith, String, Result, ok, throw_if, throw_if-eq-ok, >>-eq-ok, ok-injective,
  Str, Bytes, str_eq, str_eq_iff, to_lower, ◌==◌, ==_iff,
}
use cardano_on_evm.Prelude.Json.{
  Json, null, boolean, number, text, array, object, member_at, as_text,
}
use cardano_on_evm.Wallet.Bytes.{to_hex, from_hex}
use cardano_on_evm.Wallet.Address.{CardanoAddress, CardanoCredential, payment, stake, Bech32}
use cardano_on_evm.Wallet.Connector.{same_credential}
use cardano_on_evm.Wallet.Cip8.{VerifiedCip8, DataSignature, verify_cip8_signature}
use cardano_on_evm.Enrollment.Store.{ChallengeRecord}
use cardano_on_evm.Enrollment.Payload.{payload}
use cardano_on_evm.Enrollment.Service.{Url}
use cardano_on_evm.Submission.Adapters.Traces.{Ends, ends_call, ends_pure, ends_last}
use cardano_on_evm.Sdk.Account.{
  Sdk, CardanoAccount, AccountConfig, chain_of, config_hash_of, account_from_verified_key,
}
use cardano_on_evm.Sdk.Signing.{CardanoWalletAdapter}
use cardano_on_evm.Sdk.Signing.Sound.{resolve_account_config-same}
use cardano_on_evm.Sdk.Enrollment.{
  EnrollReply, EnrollmentTransport, EnrollOptions, identity_fields, same_lower, agrees_on, scope_is,
  is_current, check_offer, check_claim, need_selected, verify_enrollment, check_reply,
  enroll_cardano_account,
}

-- A challenge that was offered for the request: its scope, its times and its payload.
pub record Offered (options : EnrollOptions) (hex wanted : Str) (now : ℕ)
    (challenge : ChallengeRecord) : Type 0 where
  pub application : challenge.application ≡ options.application
  pub address : challenge.cardano_address ≡ hex
  pub network : challenge.cardano_network ≡ options.cardano_network
  pub chain : challenge.base_chain_id ≡ chain_of options.config
  pub config : challenge.config_hash ≡ wanted
  pub issued : challenge.issued_at ≤ now
  pub current : now < challenge.expires_at
  pub lifetime : challenge.expires_at - challenge.issued_at ≤ 900000
  pub same_payload : challenge.payload_hex ≡ to_hex (payload challenge)

check_offer-Offered :
    (options : EnrollOptions) (hex wanted : Str) (now : ℕ) (challenge : ChallengeRecord)
    (u : Unit {0})
    → check_offer options hex wanted now challenge ≡ ok u
    → Offered options hex wanted now challenge
unfolding check_offer scope_is is_current
check_offer-Offered options hex wanted now challenge u h =
    let (scope, h₁) = >>-eq-ok (not (scope_is options hex wanted challenge)) _ _ h in
    let (times, h₂) = >>-eq-ok (not (is_current now challenge)) _ _ h₁ in
    let same =
      throw_if-eq-ok (not (str_eq challenge.payload_hex (to_hex (payload challenge)))) _ u h₂ in
    record {
      application = (str_eq_iff _ _).0 (ground (arith, scope));
      address = (str_eq_iff _ _).0 (ground (arith, scope));
      network = ground (arith, scope);
      chain = ground (arith, scope);
      config = (str_eq_iff _ _).0 (ground (arith, scope));
      issued = ground (arith, times);
      current = ground (arith, times);
      lifetime = ground (arith, times);
      same_payload = (str_eq_iff _ _).0 (ground (arith, same));
    }

-- A member of the backend's identity that is this text, but for the case of letters.
abbrev pub Names : Json → Str × Str → Type 0
Names identity (name, wanted) =
    (actual : Str) × (member_at identity name ≡ some (text actual))
    × (map to_lower actual ≡ map to_lower wanted)

same_lower-text :
    (o : Option Json) (wanted : Str)
    → same_lower (as_text o) wanted ≡ true
    → (actual : Str) × (o ≡ some (text actual)) × (map to_lower actual ≡ map to_lower wanted)
unfolding as_text
same_lower-text (some (text s)) wanted h = (s, refl, (str_eq_iff _ _).0 h)
same_lower-text none wanted h = cc
same_lower-text (some null) wanted h = cc
same_lower-text (some (boolean b)) wanted h = cc
same_lower-text (some (number n)) wanted h = cc
same_lower-text (some (array vs)) wanted h = cc
same_lower-text (some (object ms)) wanted h = cc

agrees_on-Names :
    (identity : Json) (fields : List (Str × Str))
    → agrees_on identity fields ≡ true
    → All (Names identity) fields
unfolding agrees_on
agrees_on-Names identity [] h = tt
agrees_on-Names identity ((name, wanted) ∷ fields) h = (
  same_lower-text (member_at identity name) wanted (ground (arith, h)),
  agrees_on-Names identity fields (ground (arith, h)),
)

same_credential-eq : (a b : CardanoCredential) → same_credential a b ≡ true → a ≡ b
same_credential-eq payment payment h = refl
same_credential-eq stake stake h = refl
same_credential-eq payment stake h = cc
same_credential-eq stake payment h = cc

kept : (m : String) (b : Bool) (u : Unit {0}) → throw_if (not b) m ≡ ok u → b ≡ true
kept m true u h = refl
kept m false u h = cc

module _ (sdk : Sdk) (bech32 : Bech32) where
  -- What the backend returned for an account: its key, its address, its credential, and every field
  -- of its identity.
  pub record Confirmed (claimed : CardanoAddress) (verified : VerifiedCip8)
      (account : CardanoAccount) (reply : EnrollReply) : Type 0 where
    pub public_key : reply.public_key ≡ to_hex verified.public_key
    pub address : reply.address ≡ claimed.hex
    pub credential : reply.credential ≡ claimed.credential
    pub identity : All (Names reply.identity) (identity_fields account.identity)

  check_reply-Confirmed :
      (claimed : CardanoAddress) (verified : VerifiedCip8) (account r : CardanoAccount)
      (reply : EnrollReply)
      → check_reply sdk bech32 claimed verified account reply ≡ ok r
      → (account ≡ r) × Confirmed claimed verified account reply
  unfolding check_reply
  check_reply-Confirmed claimed verified account r reply h =
      let (fits, h₁) =
        >>-eq-ok
          (not (str_eq reply.public_key (to_hex verified.public_key))
            || not (str_eq reply.address claimed.hex)
            || not (same_credential reply.credential claimed.credential))
          _ _ h in
      let (agree, h₂) =
        >>-eq-ok (not (agrees_on reply.identity (identity_fields account.identity))) _ _ h₁ in
      (
        ok-injective h₂,
        record {
          public_key = (str_eq_iff _ _).0 (ground (arith, fits));
          address = (str_eq_iff _ _).0 (ground (arith, fits));
          credential = same_credential-eq _ _ (ground (arith, fits));
          identity = agrees_on-Names _ _ (ground (arith, agree));
        },
      )

  -- What stands behind an account that is enrolled, from the state `n` to the state `n'`.
  pub record Enrolled {N : Type 0} (wallet : CardanoWalletAdapter N)
      (transport : EnrollmentTransport N) (now : ℕ) (options : EnrollOptions) (n : N)
      (account : CardanoAccount) (n' : N) : Type 0 where
    pub claimed : CardanoAddress
    pub wanted : Str
    pub challenge : ChallengeRecord
    pub given : List Str
    pub bytes : Bytes
    pub signed : DataSignature
    pub verified : VerifiedCip8
    pub reply : EnrollReply
    pub n₁ : N
    pub n₂ : N
    pub n₃ : N
    pub n₄ : N
    pub n₅ : N
    pub claims : check_claim sdk bech32 options ≡ ok claimed
    pub hashed : config_hash_of sdk options.config ≡ ok wanted
    pub challenged : transport.challenge claimed.hex n ≡ (ok challenge, n₁)
    pub offered : Offered options claimed.hex wanted now challenge
    pub network_before : wallet.network n₁ ≡ (ok options.cardano_network, n₂)
    pub listed : wallet.addresses options.credential n₂ ≡ (ok given, n₃)
    pub available : need_selected sdk bech32 options.cardano_network claimed.hex given ≡ ok tt
    pub are_bytes : from_hex (to_hex (payload challenge)) ≡ ok bytes
    pub signs : wallet.sign_data claimed.hex bytes n₃ ≡ (ok signed, n₄)
    pub network_after : wallet.network n₄ ≡ (ok options.cardano_network, n₅)
    pub signature :
        verify_cip8_signature sdk.crypto bech32 signed
          (record { address = claimed.hex; network = options.cardano_network; payload = bytes })
        ≡ ok verified
    pub derived : account_from_verified_key sdk verified options.config ≡ ok account
    pub enrolls : transport.enroll challenge.id signed n₅ ≡ (ok reply, n')
    pub confirmed : Confirmed claimed verified account reply

  verify_enrollment-signature :
      (options : EnrollOptions) (hex : Str) (challenge : ChallengeRecord) (signed : DataSignature)
      (bytes : Bytes) (v : VerifiedCip8)
      → from_hex (to_hex (payload challenge)) ≡ ok bytes
      → verify_enrollment sdk bech32 options hex challenge signed ≡ ok v
      → verify_cip8_signature sdk.crypto bech32 signed
          (record { address = hex; network = options.cardano_network; payload = bytes })
        ≡ ok v
  unfolding verify_enrollment
  verify_enrollment-signature options hex challenge signed bytes v e h = (rw e at h)

  enroll_cardano_account-ends :
      {N : Type 0} (parse_url : Str → Result Url) (wallet : CardanoWalletAdapter N)
      (transport : EnrollmentTransport N) (now : ℕ) (options : EnrollOptions) (n : N)
      → Ends
          (enroll_cardano_account sdk bech32 parse_url wallet transport now options)
          n
          (Enrolled wallet transport now options n)
  unfolding enroll_cardano_account
  enroll_cardano_account-ends parse_url wallet transport now options n = ends_pure _ _ _ _ λ u e₁.
      ends_pure _ _ _ _ λ config resolved. ends_pure _ _ _ _ λ claimed claims.
        ends_pure _ _ _ _ λ wanted hashed. ends_call _ _ _ _ λ challenge n₁ challenged.
          ends_pure _ _ _ _ λ u₂ offered. ends_call _ _ _ _ λ before n₂ net₁.
            ends_pure _ _ _ _ λ u₃ same₁. ends_call _ _ _ _ λ given n₃ listed.
              ends_pure _ _ _ _ λ u₄ available. ends_pure _ _ _ _ λ bytes are_bytes.
                ends_call _ _ _ _ λ signed n₄ signs. ends_call _ _ _ _ λ after n₅ net₂.
                  ends_pure _ _ _ _ λ u₅ same₂. ends_pure _ _ _ _ λ verified signature.
                    ends_pure _ _ _ _ λ derived derives. ends_call _ _ _ _ λ reply n₆ enrolls.
                      ends_last _ _ _ λ account checked.
                        let (same, confirmed) =
                          check_reply-Confirmed claimed verified derived account reply checked in
                        let same_config =
                          sym (
                            resolve_account_config-same sdk bech32 options.config config
                              resolved) in
                        record {
                          claimed = claimed;
                          wanted = wanted;
                          challenge = challenge;
                          given = given;
                          bytes = bytes;
                          signed = signed;
                          verified = verified;
                          reply = reply;
                          n₁ = n₁;
                          n₂ = n₂;
                          n₃ = n₃;
                          n₄ = n₄;
                          n₅ = n₅;
                          claims = claims;
                          hashed =
                              subst (λ (c : AccountConfig). config_hash_of sdk c ≡ ok wanted)
                                same_config hashed;
                          challenged = challenged;
                          offered =
                              check_offer-Offered options claimed.hex wanted now challenge u₂
                                offered;
                          network_before =
                              net₁ ∙ ap (λ (x : ℕ). (ok x, n₂)) (network_same _ before u₃ same₁);
                          listed = listed;
                          available = available;
                          are_bytes = are_bytes;
                          signs = signs;
                          network_after =
                              net₂ ∙ ap (λ (x : ℕ). (ok x, n₅)) (network_same _ after u₅ same₂);
                          signature =
                              verify_enrollment-signature options claimed.hex challenge signed bytes
                                verified are_bytes signature;
                          derived =
                              subst
                                (λ (c : AccountConfig).
                                  account_from_verified_key sdk verified c ≡ ok account)
                                same_config (derives ∙ ap ok same);
                          enrolls = enrolls;
                          confirmed =
                              subst (λ (a : CardanoAccount). Confirmed claimed verified a reply)
                                same confirmed;
                        }
    where
      network_same :
          (m : String) (x : ℕ) (u : Unit {0})
          → throw_if (not (x == options.cardano_network)) m ≡ ok u
          → x ≡ options.cardano_network
      network_same m x u h = (==_iff x options.cardano_network).0 (kept m _ u h)

  -- An account that is enrolled is that of the claimed address under the given configuration. In this
  -- order: the transport gave a challenge for this very request that has not expired; the wallet was on
  -- the network, listed the address, signed the challenge's payload, and was on the network again; and
  -- the transport answered the enrollment with that signature. The signature is verified, the account
  -- is derived from the verified key, and the answer has the key, the address, the credential and, but
  -- for the case of letters, every field of the identity.
  pub enroll_cardano_account-Enrolled :
      {N : Type 0} (parse_url : Str → Result Url) (wallet : CardanoWalletAdapter N)
      (transport : EnrollmentTransport N) (now : ℕ) (options : EnrollOptions) (n n' : N)
      (account : CardanoAccount)
      → enroll_cardano_account sdk bech32 parse_url wallet transport now options n
        ≡ (ok account, n')
      → Enrolled wallet transport now options n account n'
  unfolding Ends
  enroll_cardano_account-Enrolled parse_url wallet transport now options n n' account h =
      enroll_cardano_account-ends parse_url wallet transport now options n account n' h

-- ===== src/Enrollment/Service/Complete.antt =====
-- A challenge that was issued and answered enrolls, once.
use mathlib.Core.Path.{subst}
use mathlib.Core.Bool.{false≢true}
use cardano_on_evm.Prelude.{
  ℕ, ◌+◌, ◌/◌, ◌%◌, ◌≤◌, ◌<◌, ◌≡◌, refl, sym, ap, ◌∙◌, inl, inr, true, false, ◌&&◌, ◌||◌, [], ◌∷◌,
  none, some, arith, Result, ok, err, ◌>>◌, is_ok, ok-injective, ok-ne-err, Str, Bytes, IsBytes,
  String, str_eq, str_eq_iff, str_eq_refl, ltb, leb, Bool-cases, Option-cases, if◌then◌else◌,
  length,
}
use cardano_on_evm.Wallet.Bytes.{to_hex, hex_char}
use cardano_on_evm.Wallet.Bytes.Hex.{length-to_hex}
use cardano_on_evm.Wallet.Address.{CardanoAddress, Bech32}
use cardano_on_evm.Wallet.Cip8.{DataSignature, VerifiedCip8, Crypto, verify_cip8_signature}
use cardano_on_evm.Enrollment.Store.{ChallengeRecord, ChallengeStore, is_consumable}
use cardano_on_evm.Enrollment.Payload.{payload, payload_text}
use cardano_on_evm.Enrollment.Service.{
  EnrollmentScope, Enrolled, Pending, all_lower_hex, is_challenge_id, scope_differs, challenge_data,
  with_payload, check_challenge, verify_challenge, store_challenge, issue, begin_enroll,
  finish_enroll, enroll,
}
use cardano_on_evm.Enrollment.Service.Outcome.{IsCurrent, answer_to, payload_bytes, enroll-eq-ok}

hex_char_lower :
    (d : ℕ)
    → d < 16
    → (leb b'0' (hex_char d) && leb (hex_char d) b'9'
        || leb b'a' (hex_char d) && leb (hex_char d) b'f')
      ≡ true
unfolding hex_char
hex_char_lower d h = ground arith

all_lower_hex-to_hex : (bs : Bytes) → IsBytes bs → all_lower_hex (to_hex bs) ≡ true
unfolding all_lower_hex to_hex
all_lower_hex-to_hex [] h = refl
all_lower_hex-to_hex (b ∷ bs) h =
    rw (hex_char_lower (b / 16) (omega arith), hex_char_lower (b % 16) (omega arith))
      (all_lower_hex-to_hex bs h.1)

-- 32 random bytes make an identifier of the form that `enroll` accepts.
is_challenge_id-to_hex :
    (random : Bytes) → IsBytes random → length random ≡ 32 → is_challenge_id (to_hex random) ≡ true
unfolding is_challenge_id
is_challenge_id-to_hex random fine len =
    let n : length (to_hex random) ≡ 64 = omega (arith, length-to_hex random) in
    rw (n, all_lower_hex-to_hex random fine)

payload-with_payload : (r : ChallengeRecord) → payload (with_payload r) ≡ payload r
unfolding payload payload_text
payload-with_payload r = refl

module _ (crypto : Crypto) (bech32 : Bech32) {Identity : Type 0}
    (derive_identity : VerifiedCip8 → Result Identity) (scope : EnrollmentScope) where
  check_challenge-ok :
      (c : ChallengeRecord) (now now' : ℕ)
      → IsCurrent scope now now' c
      → check_challenge crypto bech32 derive_identity scope (some c) now now' ≡ ok c
  unfolding check_challenge
  check_challenge-ok c now now' v =
      let timely : (leb c.expires_at now || ltb now' c.issued_at) ≡ false = ground arith in
      let a = (str_eq_iff c.application scope.application).1 v.application in
      let h = (str_eq_iff c.config_hash scope.config_hash).1 v.config in
      let scoped : scope_differs c scope ≡ false = ground arith in
      let p = (str_eq_iff c.payload_hex (to_hex (payload c))).1 v.intact in rw (timely, scoped, p)

  -- The enrollment that a verified signature leads to.
  abbrev pub enrolled_by : VerifiedCip8 → Identity → Enrolled Identity
  enrolled_by v identity = record {
    identity = identity;
    public_key = to_hex v.public_key;
    address = v.address.hex;
    credential = v.address.credential;
  }

  abbrev pending_by : Str → ChallengeRecord → VerifiedCip8 → Identity → Pending Identity
  pending_by id c v identity = record {
    id = id;
    payload_hex = c.payload_hex;
    enrolled = enrolled_by v identity;
  }

  verify_challenge-ok :
      (id : Str) (c : ChallengeRecord) (signed : DataSignature) (v : VerifiedCip8)
      (identity : Identity)
      → c.payload_hex ≡ to_hex (payload c)
      → verify_cip8_signature crypto bech32 signed (answer_to scope c) ≡ ok v
      → derive_identity v ≡ ok identity
      → verify_challenge crypto bech32 derive_identity scope id c signed
        ≡ ok (pending_by id c v identity)
  unfolding verify_challenge
  verify_challenge-ok id c signed v identity intact ev ei =
      rw (payload_bytes crypto bech32 derive_identity scope c intact) (rw ev (rw ei))

  module _ (store : ChallengeStore) where
    -- A current challenge in the store, answered by a valid signature, enrolls.
    pub enroll_current :
        (c : ChallengeRecord) (signed : DataSignature) (v : VerifiedCip8) (identity : Identity)
        (now now' now'' : ℕ) (s : store.State)
        → store.IsValid s
        → is_challenge_id c.id ≡ true
        → store.get c.id s ≡ some c
        → IsCurrent scope now now' c
        → now'' < c.expires_at
        → verify_cip8_signature crypto bech32 signed (answer_to scope c) ≡ ok v
        → derive_identity v ≡ ok identity
        → (enroll crypto bech32 derive_identity scope store c.id signed now now' now'' s).0
          ≡ ok (enrolled_by v identity)
    unfolding enroll begin_enroll finish_enroll
    enroll_current c signed v identity now now' now'' s valid named found current late ev ei =
        let began : begin_enroll crypto bech32 derive_identity scope store c.id signed now now' s
            ≡ ok (pending_by c.id c v identity) =
          rw (named, found, check_challenge-ok c now now' current)
            (verify_challenge-ok c.id c signed v identity current.intact ev ei) in
        let used : (store.consume c.id c.payload_hex now'' s).0 ≡ true =
          store.consume_answer c.id c.payload_hex now'' s valid
          ∙ (rw found (unused_payload c now'' late)) in
        rw (began, enroll) (rw used)
      where
        unused_payload :
            (c : ChallengeRecord) (now : ℕ)
            → now < c.expires_at
            → is_consumable (some c) c.payload_hex now ≡ true
        unused_payload c now h = ground (arith, str_eq_refl c.payload_hex)

    store_challenge-eq-ok :
        (ttl now : ℕ) (random : Bytes) (a : Result CardanoAddress) (s s' : store.State)
        (c : ChallengeRecord)
        → store.IsValid s
        → store_challenge crypto bech32 derive_identity scope store ttl now random a s ≡ (ok c, s')
        → ((address : CardanoAddress) × (a ≡ ok address)
            × (c ≡ with_payload (challenge_data scope ttl now random address.hex)))
          × (store.get c.id s ≡ none)
          × ((j : Str) → store.get j s' ≡ (if str_eq c.id j then some c else store.get j s))
          × store.IsValid s'
    unfolding store_challenge
    store_challenge-eq-ok ttl now random (err e) s s' c valid h =
        absurd (ok-ne-err (ap (λ (x : Result ChallengeRecord × store.State). x.0) h))
    store_challenge-eq-ok ttl now random (ok address) s s' c valid h =
        let r = with_payload (challenge_data scope ttl now random address.hex) in
        let first : ((store.put r s).0 >> ok r) ≡ ok c =
          ap (λ (x : Result ChallengeRecord × store.State). x.0) h in
        let second : (store.put r s).1 ≡ s' =
          ap (λ (x : Result ChallengeRecord × store.State). x.1) h in
        let same : r ≡ c = stored_same (store.put r s).0 r c first in
        subst
          (λ (x : ChallengeRecord).
            ((b : CardanoAddress) × (ok address ≡ ok b)
              × (x ≡ with_payload (challenge_data scope ttl now random b.hex)))
            × (store.get x.id s ≡ none)
            × ((j : Str) → store.get j s' ≡ (if str_eq x.id j then some x else store.get j s))
            × store.IsValid s')
          same (stored r address refl first second)
      where
        stored_same : (o : Result (Unit {0})) (r c : ChallengeRecord) → (o >> ok r) ≡ ok c → r ≡ c
        stored_same (ok u) r c h = ok-injective h
        stored_same (err e) r c h = cc

        stored_ok :
            (o : Result (Unit {0})) (r c : ChallengeRecord) → (o >> ok r) ≡ ok c → is_ok o ≡ true
        stored_ok (ok u) r c h = refl
        stored_ok (err e) r c h = cc

        stored :
            (r : ChallengeRecord) (address : CardanoAddress)
            → r ≡ with_payload (challenge_data scope ttl now random address.hex)
            → ((store.put r s).0 >> ok r) ≡ ok c
            → (store.put r s).1 ≡ s'
            → ((b : CardanoAddress) × (ok address ≡ ok b)
                × (r ≡ with_payload (challenge_data scope ttl now random b.hex)))
              × (store.get r.id s ≡ none)
              × ((j : Str) → store.get j s' ≡ (if str_eq r.id j then some r else store.get j s))
              × store.IsValid s'
        stored r address e first second = elim (Option-cases (store.get r.id s)) [
          | inl free ↦ (
            (address, refl, e),
            free,
            λ j. ap (store.get j) (sym second) ∙ (store.put_fresh r s valid free).1 j,
            subst store.IsValid second (store.put-IsValid r s valid),
          )
          | inr (old, taken) ↦ absurd (
              false≢true (
                sym (store.put_taken r old s valid taken).0
                ∙ stored_ok (store.put r s).0 r c first))
        ]

    -- In a valid store, a challenge issued from 32 random bytes enrolls the derived identity if,
    -- within its lifetime, it is answered by a signature that `verify_cip8_signature` accepts for
    -- its address and payload, and the identity can be derived.
    pub issue-enroll :
        (ttl now t t' t'' : ℕ) (random : Bytes) (address : Str) (signed : DataSignature)
        (s s' : store.State) (c : ChallengeRecord) (v : VerifiedCip8) (identity : Identity)
        → store.IsValid s
        → IsBytes random
        → length random ≡ 32
        → issue crypto bech32 derive_identity scope store ttl now random address s ≡ (ok c, s')
        → t < now + ttl
        → now ≤ t'
        → t'' < now + ttl
        → verify_cip8_signature crypto bech32 signed (answer_to scope c) ≡ ok v
        → derive_identity v ≡ ok identity
        → (enroll crypto bech32 derive_identity scope store c.id signed t t' t'' s').0
          ≡ ok (enrolled_by v identity)
    unfolding issue
    issue-enroll ttl now t t' t'' random address signed s s' c v identity valid fine len h ht ht'
          ht'' ev ei =
        let (made, free, gets, valid') = store_challenge-eq-ok ttl now random _ s s' c valid h in
        let (a, _, e) = made in
        let fields = challenge_data scope ttl now random a.hex in
        let expiry : c.expires_at ≡ now + ttl = ap (λ (x : ChallengeRecord). x.expires_at) e in
        let start : c.issued_at ≡ now = ap (λ (x : ChallengeRecord). x.issued_at) e in
        let id : c.id ≡ to_hex random = ap (λ (x : ChallengeRecord). x.id) e in
        let same_payload : payload c ≡ payload fields =
          ap payload e ∙ payload-with_payload fields in
        enroll_current c signed v identity t t' t'' s' valid'
          (ap is_challenge_id id ∙ is_challenge_id-to_hex random fine len)
          (gets c.id ∙ (rw (str_eq_refl c.id)))
          (record {
            not_expired = omega arith;
            issued = omega arith;
            application = ap (λ (x : ChallengeRecord). x.application) e;
            chain = ap (λ (x : ChallengeRecord). x.base_chain_id) e;
            network = ap (λ (x : ChallengeRecord). x.cardano_network) e;
            config = ap (λ (x : ChallengeRecord). x.config_hash) e;
            intact = ap (λ (x : ChallengeRecord). x.payload_hex) e ∙ ap to_hex (sym same_payload);
          })
          (omega arith) ev ei

    absent_fails :
        (id : Str) (signed : DataSignature) (now now' now'' : ℕ) (s : store.State)
        → store.get id s ≡ none
        → (e : String) × (enroll crypto bech32 derive_identity scope store id signed now now' now''
              s
            ≡ (err e, s))
    unfolding enroll begin_enroll check_challenge
    absent_fails id signed now now' now'' s absent = elim (Bool-cases (is_challenge_id id)) [
      | inl fine ↦
          let failed : begin_enroll crypto bech32 derive_identity scope store id signed now now' s
              ≡ err "Challenge expired or unavailable" =
            rw (fine, absent) in
          ("Challenge expired or unavailable", rw (failed, enroll))
      | inr bad ↦
          let failed : begin_enroll crypto bech32 derive_identity scope store id signed now now' s
              ≡ err "Invalid challenge identifier" =
            rw bad in
          ("Invalid challenge identifier", rw (failed, enroll))
    ]

    -- After an enrollment in a valid store, another one under the same identifier fails and changes
    -- nothing, whatever its signature and its readings of the clock.
    pub enroll_again :
        (id : Str) (signed signed' : DataSignature) (t t' t'' u u' u'' : ℕ) (s s' : store.State)
        (r : Enrolled Identity)
        → store.IsValid s
        → enroll crypto bech32 derive_identity scope store id signed t t' t'' s ≡ (ok r, s')
        → (e : String) × (enroll crypto bech32 derive_identity scope store id signed' u u' u'' s'
            ≡ (err e, s'))
    enroll_again id signed signed' t t' t'' u u' u'' s s' r valid h =
        let gone =
          (enroll-eq-ok crypto bech32 derive_identity scope store id signed t t' t'' s s' r valid
              h).1
            id in
        absent_fails id signed' u u' u'' s' (gone ∙ (rw (str_eq_refl id)))

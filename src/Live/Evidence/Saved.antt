-- ===== src/Live/Evidence/Saved.antt =====
-- What a capture has saved when it succeeds.
use mathlib.Core.Path.{subst}
use cardano_on_evm.Prelude.{
  ◌≡◌, refl, ap, sym, ◌∙◌, Bool, true, false, not, ◌||◌, ◌∷◌, map, some, arith, Result, ok, err,
  or_throw, >>=-eq-ok, >>-eq-ok, or_throw-eq-ok, ok-injective, Returns, returns_bind, returns_check,
  returns_last, Str, Bytes, str_eq, str_eq_iff, to_lower, if◌then◌else◌,
}
use cardano_on_evm.Prelude.Json.{lookup}
use cardano_on_evm.Wallet.Bytes.{from_hex}
use cardano_on_evm.Wallet.Address.{Bech32}
use cardano_on_evm.Wallet.Cip8.{DataSignature, VerifiedCip8, verify_cip8_signature}
use cardano_on_evm.Protocol.Operation.{Operation, has_member}
use cardano_on_evm.Sdk.Account.{Sdk}
use cardano_on_evm.Enrollment.Service.{is_challenge_id}
use cardano_on_evm.Live.Metadata.{wallet_metadata}
use cardano_on_evm.Live.Request.{LiveRequest, check_live_request}
use cardano_on_evm.Live.Evidence.{
  Authorization, Evidence, CaptureBody, Captured, read_live_request, verify_capture, authorize,
  save_signature, save_when, capture, other_wallet, is_release, is_user_agent,
}

by_presence :
    (a : Authorization) (e e' : Evidence) (c : Captured) (present : Bool)
    → ◌≡◌ {A = Result Captured × Evidence}
        (if present then (err "EEXIST", e) else (
          ok (record { id = a.request.id; user_operation_hash = a.request.user_operation_hash }),
          record e { signatures = (a.request.id, a) ∷ e.signatures },
        ))
        (ok c, e')
    → (present ≡ false)
      × (c.id ≡ a.request.id)
      × (e' ≡ record e { signatures = (a.request.id, a) ∷ e.signatures })
by_presence a e e' c true h = cc
by_presence a e e' c false h = (
  refl,
  ap (λ (x : Captured). x.id) (sym (ok-injective (ap (λ (x : Result Captured × Evidence). x.0) h))),
  sym (ap (λ (x : Result Captured × Evidence). x.1) h),
)

module _ (sdk : Sdk) (bech32 : Bech32) where
  -- The wallet's answer signs the payload of the request, with the key of the request.
  pub record Verified (request : LiveRequest) (signed : DataSignature) : Type 0 where
    pub payload : Bytes
    pub verified : VerifiedCip8
    pub is_payload : from_hex request.payload_hex ≡ ok payload
    pub signature :
        verify_cip8_signature sdk.crypto bech32 signed (record {
          address = request.cardano_address;
          network = request.cardano_network;
          payload = payload;
        })
        ≡ ok verified
    pub same_key :
        map to_lower (sdk.viem.bytes_to_hex verified.public_key) ≡ map to_lower request.public_key

  verify_capture-Verified :
      (request : LiveRequest) (signed : DataSignature)
      → Returns (verify_capture sdk bech32 request signed) (λ v. Verified request signed)
  unfolding verify_capture Returns
  verify_capture-Verified request signed v h =
      let (payload, is_payload, h₁) = >>=-eq-ok (from_hex request.payload_hex) _ h in
      let (verified, signature, h₂) =
        >>=-eq-ok (verify_cip8_signature sdk.crypto bech32 signed _) _ h₁ in
      let (same, _) =
        >>-eq-ok
          (not (
              str_eq (map to_lower (sdk.viem.bytes_to_hex verified.public_key))
                (map to_lower request.public_key))
            || not (
                str_eq (sdk.viem.keccak256 (sdk.viem.bytes_to_hex verified.protected_headers))
                  request.protected_header_hash))
          _ _ h₂ in
      record {
        payload = payload;
        verified = verified;
        is_payload = is_payload;
        signature = signature;
        same_key = (str_eq_iff _ _).0 (ground (arith, same));
      }

  -- The request of the identifier, which is valid, and its signature.
  pub record Authorized (body : CaptureBody) (e : Evidence) (request : LiveRequest) : Type 0 where
    pub found : lookup body.id e.requests ≡ some request
    pub same_id : request.id ≡ body.id
    pub operation : Operation
    pub valid : check_live_request sdk bech32 request ≡ ok operation
    pub verified : Verified request body.signed

  read_live_request-found :
      (e : Evidence) (id : Str)
      → Returns
          (read_live_request sdk bech32 e id)
          (λ r. (lookup id e.requests ≡ some r) × (r.id ≡ id))
  unfolding read_live_request Returns
  read_live_request-found e id r h =
      let (_, h₁) = >>-eq-ok (not (is_challenge_id id)) _ _ h in
      let (request, found, h₂) = >>=-eq-ok (or_throw (lookup id e.requests) "ENOENT") _ h₁ in
      let (same, h₃) = >>-eq-ok (not (str_eq request.id id)) _ _ h₂ in
      let (_, _, h₄) = >>=-eq-ok (check_live_request sdk bech32 request) _ h₃ in
      (
        or_throw-eq-ok _ _ found ∙ ap some (ok-injective h₄),
        ap (λ (q : LiveRequest). q.id) (sym (ok-injective h₄))
            ∙ (str_eq_iff request.id id).0 (ground (arith, same)),
      )

  authorize-Authorized :
      (now : Str) (body : CaptureBody) (e : Evidence)
      → Returns
          (authorize sdk bech32 now body e)
          (λ a. Authorized body e a.request × (a.signed ≡ body.signed))
  unfolding authorize Returns
  authorize-Authorized now body e =
      returns_bind (wallet_metadata body.wallet) _ _ λ metadata reported.
        returns_bind (read_live_request sdk bech32 e body.id) _ _ λ request read.
          returns_check (other_wallet request.wallet_id metadata.id) _ _ _ λ same_wallet.
            returns_bind (check_live_request sdk bech32 request) _ _ λ operation valid.
              returns_check
                (not (is_release body.wallet_version) || not (is_user_agent body.user_agent)) _ _ _
                λ labelled.
                  returns_bind (verify_capture sdk bech32 request body.signed) _ _ λ v verified.
                    returns_last _ _ λ a same.
                      let (found, same_id) = read_live_request-found e body.id request read in
                      subst
                        (λ (a : Authorization).
                          Authorized body e a.request × (a.signed ≡ body.signed))
                        (ok-injective same)
                        (
                          record {
                            found = found;
                            same_id = same_id;
                            operation = operation;
                            valid = valid;
                            verified = verify_capture-Verified request body.signed v verified;
                          },
                          refl,
                        )

  -- A capture that succeeds is for the request of its identifier, which passes the checks of a live
  -- request; the wallet's answer is a valid signature of the request's payload by the request's key;
  -- no signature was saved for the request before; and what it changes is that the answer is now saved
  -- for it, in front of the signatures that were there.
  pub capture-Authorized :
      (now : Str) (body : CaptureBody) (e e' : Evidence) (c : Captured)
      → capture sdk bech32 now body e ≡ (ok c, e')
      → (a : Authorization) × Authorized body e a.request
        × (a.signed ≡ body.signed)
        × (has_member e.signatures a.request.id ≡ false)
        × (c.id ≡ a.request.id)
        × (e' ≡ record e { signatures = (a.request.id, a) ∷ e.signatures })
  unfolding capture save_when save_signature Returns
  capture-Authorized now body e e' c h = saved (authorize sdk bech32 now body e) refl h
    where
      saved :
          (r : Result Authorization)
          → authorize sdk bech32 now body e ≡ r
          → save_when sdk bech32 r e ≡ (ok c, e')
          → (a : Authorization) × Authorized body e a.request
            × (a.signed ≡ body.signed)
            × (has_member e.signatures a.request.id ≡ false)
            × (c.id ≡ a.request.id)
            × (e' ≡ record e { signatures = (a.request.id, a) ∷ e.signatures })
      saved (err message) made h = cc
      saved (ok a) made h =
          let (authorized, signed) = authorize-Authorized now body e a made in
          let (fresh, same_id, after) =
            by_presence a e e' c (has_member e.signatures a.request.id) h in
          (a, authorized, signed, fresh, same_id, after)

-- ===== src/Live/Evidence.antt =====
-- scripts/lib/live-evidence.ts: the requests that wait for a signature and the signatures that are saved
-- for them. A directory is the list of its files by name, without `.json`; the clock is an argument.
pub mod Saved
use cardano_on_evm.Prelude.{
  Bool, true, false, not, ◌&&◌, ◌||◌, List, [], ◌∷◌, map, Option, none, some, Result, ok, err,
  ◌>>=◌, ◌>>◌, throw_if, or_throw, Str, codes, str_eq, to_lower, ltb, leb, ◌==◌, if◌then◌else◌,
  length, take,
}
use cardano_on_evm.Prelude.Json.{Json, text, Members, lookup}
use cardano_on_evm.Wallet.Bytes.{from_hex}
use cardano_on_evm.Wallet.Address.{Bech32}
use cardano_on_evm.Wallet.Cip8.{DataSignature, VerifiedCip8, verify_cip8_signature}
use cardano_on_evm.Enrollment.Service.{is_challenge_id}
use cardano_on_evm.Protocol.Operation.{operation_to_json, has_member}
use cardano_on_evm.Protocol.Payload.{validator_signature}
use cardano_on_evm.Protocol.Profiles.{sort_by}
use cardano_on_evm.Sdk.Account.{Sdk}
use cardano_on_evm.Sdk.Signing.{set_field}
use cardano_on_evm.Live.Metadata.{WalletBody, WalletMetadata, trim, trimmed, wallet_metadata}
use cardano_on_evm.Live.Request.{LiveRequest, check_live_request}

-- The file of a signature.
pub record Authorization : Type 0 where
  pub captured_at : Str
  pub request : LiveRequest
  pub wallet : WalletMetadata
  pub release : Option Str
  pub user_agent : Option Json
  pub signed : DataSignature
  pub operation : Members

pub record Evidence : Type 0 where
  pub requests : List (Str × LiveRequest)
  pub signatures : List (Str × Authorization)
  pub results : List (Str × Json)

pub record Listed : Type 0 where
  pub request : LiveRequest
  pub signed : Bool
  pub result : Option Json

pub record CaptureBody : Type 0 where
  pub id : Str
  pub wallet : WalletBody
  pub wallet_version : Option Json
  pub user_agent : Option Json
  pub signed : DataSignature

pub record Captured : Type 0 where
  pub id : Str
  pub user_operation_hash : Str

-- `typeof value === 'string' && value.trim() && value.length <= 80`
unfoldable pub is_release : Option Json → Bool
is_release (some (text s)) = not (length (trim s) == 0) && leb (length s) 80
is_release _ = false

unfoldable pub is_user_agent : Option Json → Bool
is_user_agent (some (text s)) = leb (length s) 512
is_user_agent _ = false

abbrev pub release_of : Option Json → Option Str
release_of (some value) = trimmed value
release_of none = none

unfoldable pub other_wallet : Option Str → Option Str → Bool
other_wallet none reported = false
other_wallet (some wanted) none = true
other_wallet (some wanted) (some id) = not (str_eq id wanted)

-- `b.localeCompare(a) < 0` on instants in ISO 8601, which is the order of their characters.
unfoldable pub text_after : Str → Str → Bool
text_after [] t = false
text_after (x ∷ s) [] = true
text_after (x ∷ s) (y ∷ t) = ltb y x || x == y && text_after s t

unfoldable pub later_first : Listed → Listed → Bool
later_first a b = text_after a.request.created_at b.request.created_at

module _ (sdk : Sdk) (bech32 : Bech32) where
  unfoldable pub read_live_request : Evidence → Str → Result LiveRequest
  read_live_request e id = do
    throw_if (not (is_challenge_id id)) "Invalid signing request ID"
    request ← or_throw (lookup id e.requests) "ENOENT"
    throw_if (not (str_eq request.id id)) "Signing request ID mismatch"
    operation ← check_live_request sdk bech32 request
    ok request

  unfoldable pub list_files : Evidence → List (Str × LiveRequest) → Result (List Listed)
  list_files e [] = ok []
  list_files e ((name, _) ∷ files) = if not (is_challenge_id name) then list_files e files else do
    request ← read_live_request e name
    rest ← list_files e files
    ok (
        record {
          request = request;
          signed = has_member e.signatures request.id;
          result = lookup request.id e.results;
        }
        ∷ rest)

  -- `list`: the 30 newest.
  unfoldable pub list_requests : Evidence → Result (List Listed)
  list_requests e = do all ← list_files e e.requests; ok (take 30 (sort_by later_first all))

  unfoldable pub verify_capture : LiveRequest → DataSignature → Result VerifiedCip8
  verify_capture request signed = do
    payload ← from_hex request.payload_hex
    verified ← verify_cip8_signature sdk.crypto bech32 signed (record {
      address = request.cardano_address;
      network = request.cardano_network;
      payload = payload;
    })
    throw_if
        (not (
            str_eq (map to_lower (sdk.viem.bytes_to_hex verified.public_key))
              (map to_lower request.public_key))
          || not (
              str_eq (sdk.viem.keccak256 (sdk.viem.bytes_to_hex verified.protected_headers))
                request.protected_header_hash))
        "Wallet key or protected header profile changed"
    ok verified

  -- What `capture` checks before it writes, and the record that it writes.
  unfoldable pub authorize : Str → CaptureBody → Evidence → Result Authorization
  authorize now body e = do
    metadata ← wallet_metadata body.wallet
    request ← read_live_request e body.id
    throw_if (other_wallet request.wallet_id metadata.id)
        "Selected wallet differs from enrollment; enroll again"
    operation ← check_live_request sdk bech32 request
    throw_if (not (is_release body.wallet_version) || not (is_user_agent body.user_agent))
        "Wallet release and browser metadata required"
    verified ← verify_capture request body.signed
    ok (record {
      captured_at = now;
      request = request;
      wallet = metadata;
      release = release_of body.wallet_version;
      user_agent = body.user_agent;
      signed = body.signed;
      operation =
          operation_to_json
            (set_field operation (codes "signature") (validator_signature sdk.viem verified));
    })

  -- The flag `wx` refuses a file that exists.
  unfoldable pub save_signature : Authorization → Evidence → Result Captured × Evidence
  save_signature authorization e =
      let id = authorization.request.id in
      if has_member e.signatures id then (err "EEXIST", e) else (
        ok (record { id = id; user_operation_hash = authorization.request.user_operation_hash }),
        record e { signatures = (id, authorization) ∷ e.signatures },
      )

  unfoldable pub save_when : Result Authorization → Evidence → Result Captured × Evidence
  save_when (err message) e = (err message, e)
  save_when (ok authorization) e = save_signature authorization e

  unfoldable pub capture : Str → CaptureBody → Evidence → Result Captured × Evidence
  capture now body e = save_when (authorize now body e) e

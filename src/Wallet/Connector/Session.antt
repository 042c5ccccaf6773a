-- ===== src/Wallet/Connector/Session.antt =====
-- The connection of `connectWallet` in packages/wallet/src/connector.ts: its flag `invalid`, the calls
-- to the wallet behind it, and the errors it throws. The wallet is any machine with a state of its
-- own: every call may change the state, so an account or a network may change between two calls.
use cardano_on_evm.Prelude.{
  ℕ, Bool, true, false, ◌||◌, List, [], ◌∷◌, ◌++◌, Option, none, some, Result, ok, err, String, Str,
  codes, if◌then◌else◌,
}
use cardano_on_evm.Prelude.Int.{ℤ, pos, negsuc, int_eq}
use cardano_on_evm.Prelude.Decimal.{signed_decimal}
use cardano_on_evm.Wallet.Cip8.{DataSignature}

pub data CardanoWalletId : Type 0 where
  lace eternl : CardanoWalletId

abbrev pub label_of : CardanoWalletId → Str
label_of lace = codes "Lace"
label_of eternl = codes "Eternl"

-- What a wallet throws: `code` if it is a number, `info` if it is a string, and the message of an
-- `Error`, or the string thrown.
pub record Cause : Type 0 where
  pub code : Option ℤ
  pub info : Option Str
  pub message : Option Str

pub data Reply {ℓ} (T : Type ℓ) : Type ℓ where
  resolved : T → Reply T
  rejected : Cause → Reply T

-- `Cip30Provider` with the `Cip30Api` that `enable` returns.
pub record Cip30 (W : Type 0) : Type 0 where
  pub name : Str
  pub api_version : Str
  pub enable : W → Reply (Unit {0}) × W
  pub get_network_id : W → Reply ℕ × W
  pub get_change_address : W → Reply Str × W
  pub get_used_addresses : W → Reply (List Str) × W
  pub get_reward_addresses : W → Reply (List Str) × W
  pub sign_data : Str → Str → W → Reply DataSignature × W

pub record CardanoWalletError : Type 0 where
  pub text : Str
  pub wallet_id : CardanoWalletId
  pub reconnect_required : Bool
  pub code : Option ℤ

pub data Failure : Type 0 where
  plain : String → Failure
  wallet_error : CardanoWalletError → Failure

pub data Outcome {ℓ} (T : Type ℓ) : Type ℓ where
  done : T → Outcome T
  failed : Failure → Outcome T

pub record Session (W : Type 0) : Type 0 where
  pub invalid : Bool
  pub wallet : W

-- A step of the connection.
abbrev pub Step : Type 0 → Type 0 → Type 0
Step W T = Session W → Outcome T × Session W

abbrev pub continue_with :
    {W A B : Type 0} → Outcome A × Session W → (A → Step W B) → Outcome B × Session W
continue_with (done a, s) next = next a s
continue_with (failed e, s) next = (failed e, s)

unfoldable pub bind : {W A B : Type 0} → Step W A → (A → Step W B) → Step W B
bind step next s = continue_with (step s) next

abbrev pub give : {W A : Type 0} → A → Step W A
give a s = (done a, s)

-- A pure function that may throw an `Error`.
unfoldable pub lift : {W A : Type 0} → Result A → Step W A
lift (ok a) s = (done a, s)
lift (err e) s = (failed (plain e), s)

-- `messages[code] ?? `Wallet error ${code}``
unfoldable pub code_text : ℤ → Str
code_text code =
    if int_eq code (negsuc 0)
    then codes "Invalid wallet request"
    else if int_eq code (negsuc 1)
    then codes "Wallet internal error"
    else if int_eq code (negsuc 2)
    then codes "Wallet access was refused or lost"
    else if int_eq code (negsuc 3)
    then codes "Wallet account changed"
    else if int_eq code (pos 1)
    then codes "Wallet could not sign with this key"
    else if int_eq code (pos 2)
    then codes "Address does not have a signing key"
    else if int_eq code (pos 3)
    then codes "Signing declined; you can retry"
    else codes "Wallet error " ++ signed_decimal code

unfoldable pub reason : Option ℤ → Str
reason none = codes "Wallet request failed"
reason (some code) = code_text code

-- `code === -3 || code === -4`
unfoldable pub is_reconnect_code : Option ℤ → Bool
is_reconnect_code none = false
is_reconnect_code (some code) = int_eq code (negsuc 2) || int_eq code (negsuc 3)

-- ` (${detail})`, or nothing when the detail is empty.
abbrev in_brackets : Str → Str
in_brackets [] = []
in_brackets (c ∷ s) = codes " (" ++ (c ∷ s) ++ codes ")"

abbrev or_else : Option Str → Str → Str
or_else none d = d
or_else (some s) d = s

unfoldable pub detail : Cause → Str
detail cause = in_brackets (or_else cause.info (or_else cause.message []))

module _ (id : CardanoWalletId) where
  -- `reconnect`: the connection is invalid from here on.
  unfoldable pub reconnect : {W A : Type 0} → String → Step W A
  reconnect message s = (
    failed (
        wallet_error (record {
          text =
              label_of id
              ++ codes ": "
              ++ codes message
              ++ codes ". Reconnect "
              ++ label_of id
              ++ codes ".";
          wallet_id = id;
          reconnect_required = true;
          code = none;
        })),
    record s { invalid = true },
  )

  -- The error of a call that the wallet refused.
  unfoldable pub refusal : String → Cause → CardanoWalletError
  refusal method cause = record {
    text =
        label_of id
        ++ codes " "
        ++ codes method
        ++ codes ": "
        ++ reason cause.code
        ++ detail cause
        ++ codes "."
        ++ (if is_reconnect_code cause.code
            then codes " Reconnect " ++ label_of id ++ codes "."
            else []);
    wallet_id = id;
    reconnect_required = is_reconnect_code cause.code;
    code = cause.code;
  }

  -- What a reply of the wallet does to the connection.
  unfoldable pub settle : {W A : Type 0} → String → Session W → Reply A × W → Outcome A × Session W
  settle method s (resolved a, w) = (done a, record s { wallet = w })
  settle method s (rejected cause, w) = (
    failed (wallet_error (refusal method cause)),
    record { invalid = is_reconnect_code cause.code || s.invalid; wallet = w },
  )

  -- `call`: an invalid connection does not reach the wallet.
  unfoldable pub call : {W A : Type 0} → String → (W → Reply A × W) → Step W A
  call method fn s =
      if s.invalid
      then reconnect "Connection is no longer valid" s
      else settle method s (fn s.wallet)

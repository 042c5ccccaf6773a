-- ===== src/Live/Metadata.antt =====
-- scripts/lib/wallet-metadata.ts: what a request reports of the wallet.
use cardano_on_evm.Prelude.{
  ℕ, Bool, false, not, ◌&&◌, ◌||◌, [], ◌∷◌, Option, none, some, Result, ok, err, ◌>>=◌, ◌>>◌,
  throw_if, String, Str, codes, str_eq, leb, ◌==◌, if◌then◌else◌, length, is_space,
}
use cardano_on_evm.Prelude.Json.{Json, text}

unfoldable pub trim_start : Str → Str
trim_start [] = []
trim_start (c ∷ s) = let rest = trim_start s in if is_space c then rest else c ∷ s

-- A character stays when it or one behind it is not white space.
unfoldable pub trim_end : Str → Str
trim_end [] = []
trim_end (c ∷ s) = keep c (trim_end s)
  where
    keep : ℕ → Str → Str
    keep c (d ∷ rest) = c ∷ d ∷ rest
    keep c [] = if is_space c then [] else c ∷ []

unfoldable pub trim : Str → Str
trim s = trim_start (trim_end s)

-- `typeof value === 'string' && value.trim() && value.length <= 80`
unfoldable pub is_label : Json → Bool
is_label (text s) = not (length (trim s) == 0) && leb (length s) 80
is_label _ = false

pub record WalletBody : Type 0 where
  pub wallet_id : Option Json
  pub wallet_name : Option Json
  pub wallet_api_version : Option Json

pub record WalletMetadata : Type 0 where
  pub id : Option Str
  pub name : Option Str
  pub api_version : Option Str

abbrev pub is_known_wallet : Str → Bool
is_known_wallet id = str_eq id (codes "lace") || str_eq id (codes "eternl")

unfoldable pub read_wallet_id : Option Json → Result (Option Str)
read_wallet_id none = ok none
read_wallet_id (some (text id)) =
    if is_known_wallet id then ok (some id) else err "Unsupported wallet ID"
read_wallet_id (some _) = err "Unsupported wallet ID"

abbrev pub trimmed : Json → Option Str
trimmed (text s) = some (trim s)
trimmed _ = none

unfoldable pub read_label : Option Json → String → Result (Option Str)
read_label none message = ok none
read_label (some value) message = do throw_if (not (is_label value)) message; ok (trimmed value)

unfoldable pub wallet_metadata : WalletBody → Result WalletMetadata
wallet_metadata body = do
  id ← read_wallet_id body.wallet_id
  name ← read_label body.wallet_name "Invalid walletName"
  api_version ← read_label body.wallet_api_version "Invalid walletApiVersion"
  ok (record { id = id; name = name; api_version = api_version })

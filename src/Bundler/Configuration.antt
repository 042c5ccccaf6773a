-- ===== src/Bundler/Configuration.antt =====
-- infra/bundler/src/config.mjs: the validation of the service's configuration, and its credentials. The
-- input is JSON; `isAddress` of viem and the URL parser are parameters.
use cardano_on_evm.Prelude.{
  ℕ, Bool, true, false, not, ◌&&◌, ◌||◌, List, [], ◌∷◌, Option, none, some, Result, ok, err, ◌>>=◌,
  ◌>>◌, throw_if, Str, codes, str_eq, includes, leb, ltb, ◌==◌, if◌then◌else◌, length,
}
use cardano_on_evm.Prelude.Int.{pos}
use cardano_on_evm.Prelude.Decimal.Digits.{is_numeral}
use cardano_on_evm.Prelude.Json.{Json, null, boolean, number, text, member_at}
use cardano_on_evm.Enrollment.Service.{Url, is_config_hash, is_positive_safe}
use cardano_on_evm.Submission.Inclusion.{is_falsy, is_hash32}
use cardano_on_evm.Bundler.Admission.{Abi, Policy}
use cardano_on_evm.Bundler.Policy.{validate_policy}
use cardano_on_evm.Bundler.Gateway.{tested_text}

-- A configuration that is valid: the input, and what is added or replaced.
pub record ValidConfig : Type 0 where
  pub input : Json
  pub worker_build : Str
  pub policy : Policy

-- `c.workerBuild ??= 'package'`
unfoldable pub worker_build_of : Option Json → Result Str
worker_build_of none = ok (codes "package")
worker_build_of (some null) = ok (codes "package")
worker_build_of (some (text s)) =
    if includes s (codes "package" ∷ codes "source" ∷ [])
    then ok s
    else err "Select the pinned package or locally rebuilt source worker"
worker_build_of (some _) = err "Select the pinned package or locally rebuilt source worker"

-- The number, if it is an integer between the two.
unfoldable pub in_range : ℕ → ℕ → Option Json → Bool
in_range low high (some (number (pos n))) = leb low n && leb n high
in_range low high _ = false

unfoldable pub is_exactly : ℕ → Option Json → Bool
is_exactly n value = in_range n n value

unfoldable pub same_number : Option Json → Option Json → Bool
same_number (some (number (pos m))) (some (number (pos n))) = m == n
same_number _ _ = false

unfoldable pub is_chain : Option Json → Bool
is_chain (some (number (pos n))) = is_positive_safe n
is_chain _ = false

-- A test of a pattern, on what `test` makes of the value.
abbrev pub tests : (Str → Bool) → Option Json → Bool
tests pattern none = pattern (codes "undefined")
tests pattern (some value) = tested_by (tested_text value)
  where
    tested_by : Option Str → Bool
    tested_by none = false
    tested_by (some s) = pattern s

-- `/^[A-Z][A-Z0-9_]{1,80}$/`
abbrev pub is_capital : ℕ → Bool
is_capital c = leb b'A' c && leb c b'Z'

unfoldable pub all_variable : Str → Bool
all_variable [] = true
all_variable (c ∷ s) = (is_capital c || leb b'0' c && leb c b'9' || c == b'_') && all_variable s

unfoldable pub is_variable : Str → Bool
is_variable [] = false
is_variable (c ∷ s) = is_capital c && all_variable s && leb 1 (length s) && leb (length s) 80

-- `/^[1-9][0-9]{0,29}$/` on a string.
unfoldable pub is_limit : Option Json → Bool
is_limit (some (text s)) = is_numeral s && not (str_eq s (codes "0")) && leb (length s) 30
is_limit _ = false

abbrev pub is_loopback : Option Json → Bool
is_loopback (some (text s)) = includes s (codes "127.0.0.1" ∷ codes "::1" ∷ [])
is_loopback _ = false

-- `value?.name`
abbrev pub at : Option Json → Str → Option Json
at none name = none
at (some value) name = member_at value name

abbrev pub flag : Option Json → Option Bool
flag (some (boolean b)) = some b
flag _ = none

unfoldable pub all_names : (Str → Bool) → List Str → Bool
all_names test [] = true
all_names test (name ∷ names) = test name && all_names test names

unfoldable pub check_gateway_fields : Option Json → List (Str × ℕ × ℕ) → Result (Unit {0})
check_gateway_fields gateway [] = ok tt
check_gateway_fields gateway ((field, low, high) ∷ fields) = do
  throw_if (not (in_range low high (at gateway field))) "Invalid gateway field"
  check_gateway_fields gateway fields

abbrev pub gateway_fields : List (Str × ℕ × ℕ)
gateway_fields =
    (codes "port", 1024, 65535)
    ∷ (codes "maxBodyBytes", 1024, 262144)
    ∷ (codes "requestsPerMinute", 1, 10000)
    ∷ (codes "maxConcurrent", 1, 100)
    ∷ (codes "upstreamTimeoutMs", 1000, 60000)
    ∷ []

abbrev pub has_value : Option Json → Bool
has_value none = false
has_value (some value) = true

abbrev pub is_false_flag : Option Json → Bool
is_false_flag value = elim (flag value) [ none ↦ false | some b ↦ not b ]

-- Whether the deviation from the validation rules is not documented, where there is one.
unfoldable pub undocumented : Option Json → Option Json → Bool
undocumented safe_mode (some (text reason)) = is_false_flag safe_mode && ltb (length reason) 20
undocumented safe_mode _ = is_false_flag safe_mode

unfoldable pub bad_logging : Option Json → Bool
bad_logging none = false
bad_logging (some logging) =
    not (is_falsy logging) && not (known_level (member_at logging (codes "level")))
  where
    known_level : Option Json → Bool
    known_level (some (text s)) =
        includes s (codes "info" ∷ codes "warn" ∷ codes "error" ∷ codes "fatal" ∷ [])
    known_level _ = false

unfoldable pub check_worker : Json → Result (Unit {0})
check_worker c = do
  let worker = member_at c (codes "worker")
  let port = at worker (codes "port")
  throw_if
      (not (in_range 1024 65535 port)
        || same_number port (at (member_at c (codes "gateway")) (codes "port")))
      "Invalid worker port"
  throw_if
      (not (
        all_names (λ field. is_limit (at (member_at c (codes "limits")) field))
          (codes "verificationGas"
            ∷ codes "callGas"
            ∷ codes "totalGas"
            ∷ codes "maxFeePerGas"
            ∷ codes "maxOperationCostWei"
            ∷ [])))
      "Invalid limit"
  let safe_mode = at worker (codes "safe-mode")
  throw_if (elim (flag safe_mode) [ none ↦ true | some b ↦ false ]) "Select safe-mode explicitly"
  throw_if (bad_logging (member_at c (codes "logging"))) "Unsupported log level"
  throw_if (undocumented safe_mode (member_at c (codes "admissionDeviationReason")))
      "Document the validation-rule deviation"
  throw_if
      (not (
        all_names (λ field. not (has_value (at worker field)))
          (codes "executor-private-keys"
            ∷ codes "utility-private-key"
            ∷ codes "rpc-url"
            ∷ codes "send-transaction-rpc-url"
            ∷ codes "entrypoints"
            ∷ codes "rpc-methods"
            ∷ codes "log-level"
            ∷ codes "json"
            ∷ [])))
      "Use the supported reference for a field"
  throw_if
      (not (
        all_names (λ field. is_false_flag (at worker field))
          (codes "dangerous-skip-user-operation-validation"
            ∷ codes "enable-debug-endpoints"
            ∷ codes "enable-instant-bundling-endpoint"
            ∷ codes "enable-cors"
            ∷ codes "deploy-simulations-contract"
            ∷ codes "refilling-wallets"
            ∷ [])))
      "A field must be false in the supplied service"

module _ (abi : Abi) (is_address : Option Json → Bool) where
  unfoldable pub check_network : Json → Result (Unit {0})
  check_network c = do
    throw_if
        (not (is_exactly 1 (member_at c (codes "version")))
          || not (is_chain (member_at c (codes "chainId")))
          || not (is_address (member_at c (codes "entryPoint"))))
        "Invalid network/EntryPoint configuration"
    throw_if (not (tests is_config_hash (member_at c (codes "entryPointCodeHash"))))
        "Pin the EntryPoint runtime hash"
    throw_if
        (not (
          all_names (λ key. tests is_variable (member_at c key))
            (codes "rpcUrlEnv" ∷ codes "executorKeyEnv" ∷ codes "authTokenEnv" ∷ [])))
        "Invalid secret environment reference"
    throw_if (not (is_loopback (at (member_at c (codes "gateway")) (codes "host"))))
        "Bind behind a TLS reverse proxy on loopback"
    check_gateway_fields (member_at c (codes "gateway")) gateway_fields

  abbrev pub policy_of : Option Json → Result Policy
  policy_of none = validate_policy abi null
  policy_of (some policy) = validate_policy abi policy

  -- `validateConfig`
  unfoldable pub validate_config : Json → Result ValidConfig
  validate_config c = do
    worker_build ← worker_build_of (member_at c (codes "workerBuild"))
    check_network c
    check_worker c
    policy ← policy_of (member_at c (codes "policy"))
    ok (record { input = c; worker_build = worker_build; policy = policy })

pub record Credentials : Type 0 where
  pub rpc_url : Str
  pub key : Str
  pub token : Str

-- `/^[A-Za-z0-9_-]{32,256}$/`
unfoldable pub all_token : Str → Bool
all_token [] = true
all_token (c ∷ s) =
    (is_capital c || leb b'a' c && leb c b'z' || leb b'0' c && leb c b'9' || c == b'_' || c == b'-')
    && all_token s

abbrev pub text_or_empty : Option Str → Str
text_or_empty none = []
text_or_empty (some s) = s

-- `credentials`: the three variables of the environment, by the names of the configuration.
unfoldable pub credentials :
    (Str → Result Url) → Option Str → Option Str → Option Str → Result Credentials
credentials parse_url rpc_url key token = do
  url ← parse_url (text_or_empty rpc_url)
  throw_if (not (includes url.protocol (codes "http:" ∷ codes "https:" ∷ [])))
      "RPC must use HTTP(S)"
  throw_if (not (is_hash32 (text_or_empty key))) "Executor key is missing or invalid"
  throw_if
      (ltb (length (text_or_empty token)) 32
        || ltb 256 (length (text_or_empty token))
        || not (all_token (text_or_empty token)))
      "Use a random 32+ character gateway token"
  ok (record {
    rpc_url = text_or_empty rpc_url;
    key = text_or_empty key;
    token = text_or_empty token;
  })

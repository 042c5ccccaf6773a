-- ===== src/Bundler/Gateway.antt =====
-- infra/bundler/src/gateway.mjs: the authenticated JSON-RPC gateway in front of the bundler. A request
-- changes the gateway when it starts and when it is answered; between the two it waits. Tokens of the
-- rate limit are counted in 60000ths of a request, so that a refill is exact; the clock does not go
-- back.
pub mod Bounds
pub mod Forwarding
use cardano_on_evm.Prelude.{
  ℕ, zero, suc, ◌+◌, ◌*◌, ◌-◌, ◌^◌, Bool, true, false, not, ◌&&◌, ◌||◌, List, [], ◌∷◌, ◌++◌, map,
  Option, none, some, Result, ok, err, Str, Bytes, codes, has_prefix, includes, str_eq, to_lower,
  leb, ltb, ◌==◌, if◌then◌else◌, length, drop,
}
use cardano_on_evm.Prelude.Int.{ℤ, pos, negsuc, int_eq}
use cardano_on_evm.Prelude.Json.{
  Json, null, text, number, array, object, Elements, elements, member_at, as_text,
}
use cardano_on_evm.Wallet.Bytes.{concat_bytes}
use cardano_on_evm.Submission.Inclusion.{is_falsy, is_hash32, is_text}
use cardano_on_evm.Bundler.Verdict.{
  Verdict, passed, thrown, refused, Refusal, Fault, syntax, broken, attempt, ◌>>=◌, ◌>>◌,
}
use cardano_on_evm.Bundler.Admission.{Abi, Config, admit_operation}

-- The settings that the handler reads: of the section `gateway`, and for the admission.
pub record GatewayConfig : Type 0 where
  pub admission : Config
  pub requests_per_minute : ℕ
  pub max_concurrent : ℕ
  pub max_body_bytes : ℕ
  pub upstream_timeout : ℕ
  -- The JSON of everything that a reload may not change.
  pub rest : Str

pub record Counters : Type 0 where
  pub requests : ℕ
  pub admitted : ℕ
  pub rejected : ℕ
  pub upstream_errors : ℕ
  pub reloads : ℕ

pub record Gateway : Type 0 where
  pub current : GatewayConfig
  pub active : ℕ
  pub available : ℕ
  pub last_refill : ℕ
  pub counters : Counters

unfoldable pub start_gateway : GatewayConfig → ℕ → Gateway
start_gateway config now = record {
  current = config;
  active = 0;
  available = config.requests_per_minute * 60000;
  last_refill = now;
  counters = record { requests = 0; admitted = 0; rejected = 0; upstream_errors = 0; reloads = 0 };
}

-- The head of an HTTP request; `authorized` is the comparison of the digests.
pub record Head : Type 0 where
  pub url : Str
  pub method : Str
  pub authorized : Bool
  pub content_type : Str

-- `/^application\/json(?:;|$)/i`
unfoldable pub is_json_type : Str → Bool
is_json_type t =
    let s = map to_lower t in
    has_prefix (codes "application/json;") s || str_eq s (codes "application/json")

-- What is answered at once, or none if the request starts.
unfoldable pub answer_head : Head → Option ℕ
answer_head head =
    if str_eq head.url (codes "/health") && str_eq head.method (codes "GET")
    then some 200
    else if not head.authorized
    then some 401
    else if str_eq head.url (codes "/metrics") && str_eq head.method (codes "GET")
    then some 200
    else if not (str_eq head.url (codes "/rpc"))
        || not (str_eq head.method (codes "POST"))
        || not (is_json_type head.content_type)
    then some 400
    else none

abbrev pub min_of : ℕ → ℕ → ℕ
min_of a b = if ltb a b then a else b

unfoldable pub refill : Gateway → ℕ → Gateway
refill g now =
    let rate = g.current.requests_per_minute in
    record g {
      available = min_of (rate * 60000) (g.available + (now - g.last_refill) * rate);
      last_refill = now;
    }

abbrev pub count_request : Counters → Counters
count_request c = record c { requests = suc c.requests }

abbrev pub admitted : Gateway → Gateway
admitted g = record g {
  available = g.available - 60000;
  active = suc g.active;
  counters = count_request g.counters;
}

unfoldable pub admit_request : Gateway → Option ℕ × Gateway
admit_request g =
    if ltb g.available 60000 || leb g.current.max_concurrent g.active
    then (some 429, g)
    else (none, admitted g)

-- The first part of the handler: a status, or none if the request has started.
unfoldable pub begin_request : Head → ℕ → Gateway → Option ℕ × Gateway
begin_request head now g = elim (answer_head head) [
  | some status ↦ (some status, g)
  | none ↦ admit_request (refill g now)
]

abbrev pub methods : List Str
methods =
    codes "eth_chainId"
    ∷ codes "eth_supportedEntryPoints"
    ∷ codes "eth_sendUserOperation"
    ∷ codes "eth_estimateUserOperationGas"
    ∷ codes "eth_getUserOperationReceipt"
    ∷ codes "eth_getUserOperationByHash"
    ∷ codes "pimlico_getUserOperationGasPrice"
    ∷ codes "pimlico_getUserOperationStatus"
    ∷ []

abbrev pub operation_methods : List Str
operation_methods = codes "eth_sendUserOperation" ∷ codes "eth_estimateUserOperationGas" ∷ []

abbrev pub hash_methods : List Str
hash_methods =
    codes "eth_getUserOperationReceipt"
    ∷ codes "eth_getUserOperationByHash"
    ∷ codes "pimlico_getUserOperationStatus"
    ∷ []

abbrev refuse_if : Bool → Str → ℤ → Verdict (Unit {0})
refuse_if true message code = thrown (refused (record { message = message; code = code }))
refuse_if false message code = passed tt

-- The loop on the body's chunks.
unfoldable pub read_chunks : ℕ → ℕ → List Bytes → Verdict (List Bytes)
read_chunks limit size [] = passed []
read_chunks limit size (chunk ∷ chunks) = do
  refuse_if (ltb limit (size + length chunk)) (codes "Request body too large") (negsuc 32599)
  rest ← read_chunks limit (size + length chunk) chunks
  passed (chunk ∷ rest)

unfoldable pub is_request_id : Option Json → Bool
is_request_id (some (text s)) = leb (length s) 128
is_request_id (some (number (pos n))) = ltb n (2 ^ 53)
is_request_id (some (number (negsuc n))) = ltb (suc n) (2 ^ 53)
is_request_id _ = false

unfoldable pub params_of : Option Json → Option (List Json)
params_of (some (array vs)) = some (elements vs)
params_of _ = none

unfoldable pub known_method : Option Str → Option Str
known_method none = none
known_method (some m) = if includes m methods then some m else none

pub record RpcRequest : Type 0 where
  pub id : Json
  pub method : Str
  pub params : List Json

unfoldable pub make_request : Option Json → Option Str → Option (List Json) → Verdict RpcRequest
make_request (some id) (some method) (some params) =
    passed (record { id = id; method = method; params = params })
make_request _ _ _ =
    thrown
      (refused (record { message = codes "Unsupported JSON-RPC request"; code = negsuc 32599 }))

unfoldable pub read_request : Json → Verdict RpcRequest
read_request request = do
  refuse_if
      (not (is_text (as_text (member_at request (codes "jsonrpc"))) (codes "2.0"))
        || not (is_request_id (member_at request (codes "id"))))
      (codes "Unsupported JSON-RPC request") (negsuc 32599)
  make_request (member_at request (codes "id"))
      (known_method (as_text (member_at request (codes "method"))))
      (params_of (member_at request (codes "params")))

unfoldable pub check_operation_params : Abi → Config → Bool → List Json → Verdict (Unit {0})
check_operation_params abi config estimate (op ∷ entry_point ∷ []) =
    admit_operation abi op entry_point config estimate >>= λ revision. passed tt
check_operation_params abi config estimate _ =
    thrown (
      refused (record { message = codes "Expected operation and EntryPoint"; code = negsuc 32601 }))

-- The string that `RegExp.test` makes of a value, where it can be a hash: an array of one element is
-- the string of that element.
unfoldable pub tested_text : Json → Option Str
tested_text (text s) = some s
tested_text (array (Elements.cons v Elements.nil)) = tested_text v
tested_text _ = none

abbrev pub is_hash_text : Option Str → Bool
is_hash_text none = false
is_hash_text (some s) = is_hash32 s

unfoldable pub check_hash_params : List Json → Verdict (Unit {0})
unfolding tested_text
check_hash_params (v ∷ []) =
    refuse_if (not (is_hash_text (tested_text v))) (codes "Expected UserOperation hash")
      (negsuc 32601)
check_hash_params _ =
    thrown (refused (record { message = codes "Expected UserOperation hash"; code = negsuc 32601 }))

unfoldable pub check_params : Abi → Config → RpcRequest → Verdict (Unit {0})
check_params abi config request =
    if includes request.method operation_methods
    then check_operation_params abi config
        (str_eq request.method (codes "eth_estimateUserOperationGas")) request.params
    else if includes request.method hash_methods
    then check_hash_params request.params
    else refuse_if (not (length request.params == 0)) (codes "Expected empty params") (negsuc 32601)

-- `JSON.parse`, which throws a SyntaxError.
abbrev pub parsed_body : Result Json → Verdict Json
parsed_body (ok v) = passed v
parsed_body (err e) = thrown syntax

-- From the body to the request that is forwarded, under the configuration of that moment.
unfoldable pub check_body :
    Abi → (Bytes → Result Json) → GatewayConfig → List Bytes → Verdict RpcRequest
check_body abi parse config body = do
  chunks ← read_chunks config.max_body_bytes 0 body
  value ← parsed_body (parse (concat_bytes chunks))
  request ← read_request value
  check_params abi config.admission request
  passed request

-- How a started request ends: an upstream result, with an error in it or without, or a fault.
pub data Ending : Type 0 where
  forwarded upstream_rejected gateway_rejected : Ending

abbrev pub count_ending : Ending → Counters → Counters
count_ending forwarded c = record c { admitted = suc c.admitted }
count_ending upstream_rejected c = record c { upstream_errors = suc c.upstream_errors }
count_ending gateway_rejected c = record c { rejected = suc c.rejected }

unfoldable pub same_id : Json → Option Json → Bool
same_id (text a) (some (text b)) = str_eq a b
same_id (number a) (some (number b)) = int_eq a b
same_id _ _ = false

abbrev pub ending_of_error : Option Json → Ending
ending_of_error none = forwarded
ending_of_error (some e) = if is_falsy e then forwarded else upstream_rejected

abbrev pub is_given : Option Json → Bool
is_given none = false
is_given (some v) = true

-- How a forwarded request ends, from what the upstream answered, if it did.
unfoldable pub read_upstream : Json → Option Json → Ending
read_upstream id none = gateway_rejected
read_upstream id (some result) =
    let has_result = is_given (member_at result (codes "result")) in
    let has_error = is_given (member_at result (codes "error")) in
    if not (is_text (as_text (member_at result (codes "jsonrpc"))) (codes "2.0"))
      || not (same_id id (member_at result (codes "id")))
      || (if has_result then has_error else not has_error)
    then gateway_rejected
    else ending_of_error (member_at result (codes "error"))

-- The last part of the handler, with its `finally`.
unfoldable pub end_request : Ending → Gateway → Gateway
end_request e g = record g { active = g.active - 1; counters = count_ending e g.counters }

-- The code of the JSON-RPC error that a fault is answered with.
unfoldable pub fault_code : Fault → ℤ
fault_code (refused r) = r.code
fault_code syntax = negsuc 32699
fault_code broken = negsuc 32602

unfoldable pub reload : GatewayConfig → Gateway → Result Gateway
reload next g =
    if not (str_eq next.rest g.current.rest)
    then err "This configuration change requires a restart"
    else ok (record g {
      current = next;
      available = min_of g.available (next.requests_per_minute * 60000);
      counters = record g.counters { reloads = suc g.counters.reloads };
    })

-- ===== src/Submission/Http.antt =====
-- `httpRpc` of packages/submission/src/index.ts, and `httpEnrollmentTransport` of
-- packages/sdk/src/index.ts, which both post JSON. A call of `httpRpc` takes its number, waits for its
-- turn, and reads its response; readings of the clock are arguments. The code of an error of the
-- server is left as it is in the response, and a message that has a status is without it.
use cardano_on_evm.Prelude.{
  ℕ, zero, suc, ◌+◌, ◌-◌, Bool, true, false, not, ◌&&◌, ◌||◌, List, [], ◌∷◌, ◌++◌, map, Option,
  none, some, Result, ok, err, ◌>>◌, throw_if, Str, codes, has_prefix, str_eq, includes, to_lower,
  leb, ltb, ◌==◌, if◌then◌else◌, length, take, drop, is_space,
}
use cardano_on_evm.Prelude.Int.{pos, negsuc}
use cardano_on_evm.Prelude.Decimal.{signed_decimal}
use cardano_on_evm.Prelude.Json.{
  Json, null, boolean, number, text, array, object, Elements, nil, cons, member_at, as_text,
}
use cardano_on_evm.Protocol.Profiles.{sort_by}
use cardano_on_evm.Submission.Inclusion.{is_falsy}

-- What the URL parser says of an endpoint.
pub record Endpoint : Type 0 where
  pub protocol : Str
  pub hostname : Str
  pub search_values : List Str
  pub username : Str
  pub password : Str
  pub pathname : Str

-- HTTPS, or HTTP on a loopback host.
unfoldable pub is_safe_endpoint : Endpoint → Bool
is_safe_endpoint e =
    str_eq e.protocol (codes "https:")
    || str_eq e.protocol (codes "http:")
      && includes e.hostname (codes "127.0.0.1" ∷ codes "localhost" ∷ codes "[::1]" ∷ [])

-- `pathname.split('/')`
unfoldable pub split_path : Str → List Str
split_path [] = [] ∷ []
split_path (c ∷ s) = push c (split_path s)
  where
    push : ℕ → List Str → List Str
    push c [] = (c ∷ []) ∷ []
    push c (part ∷ parts) = if c == b'/' then [] ∷ part ∷ parts else (c ∷ part) ∷ parts

unfoldable pub longer_than : ℕ → List Str → List Str
longer_than n [] = []
longer_than n (s ∷ rest) =
    let others = longer_than n rest in if ltb n (length s) then s ∷ others else others

-- The values that no message may show, the longest first.
unfoldable pub sensitive_values : List Str → Endpoint → List Str
sensitive_values headers e =
    sort_by (λ (a b : Str). leb (length b) (length a))
      (longer_than 3 (
        headers
        ++ e.search_values
        ++ e.username ∷ e.password ∷ longer_than 15 (split_path e.pathname)))

-- `message.split(value).join('[credential withheld]')`, for a value that is not empty; `skip` counts the
-- characters of an occurrence that are left.
unfoldable pub withhold : ℕ → Str → Str → Str
withhold skip value [] = []
withhold (suc skip) value (c ∷ s) = withhold skip value s
withhold zero value (c ∷ s) =
    let inside = withhold (length value - 1) value s in
    let behind = withhold zero value s in
    if has_prefix value (c ∷ s) then codes "[credential withheld]" ++ inside else c ∷ behind

unfoldable pub withhold_all : List Str → Str → Str
withhold_all [] message = message
withhold_all (value ∷ values) message = withhold_all values (withhold zero value message)

-- `/https?:\/\//i` at the front, with a character behind that is not blank.
unfoldable pub starts_url : Str → Bool
starts_url s =
    let lower = map to_lower s in
    has_prefix (codes "http://") lower && not_blank (drop 7 s)
    || has_prefix (codes "https://") lower && not_blank (drop 8 s)
  where
    not_blank : Str → Bool
    not_blank [] = false
    not_blank (c ∷ s) = not (is_space c)

-- URLs are replaced up to the next blank; `inside` is whether one has begun.
unfoldable pub withhold_urls : Bool → Str → Str
withhold_urls inside [] = []
withhold_urls true (c ∷ s) =
    let still = withhold_urls true s in
    let after = withhold_urls false s in if is_space c then c ∷ after else still
withhold_urls false (c ∷ s) =
    let still = withhold_urls true s in
    let after = withhold_urls false s in
    if starts_url (c ∷ s) then codes "[endpoint withheld]" ++ still else c ∷ after

-- `String(value)`
unfoldable mutual
  pub string_of : Json → Str
  string_of null = codes "null"
  string_of (boolean b) = if b then codes "true" else codes "false"
  string_of (number n) = signed_decimal n
  string_of (text s) = s
  string_of (array vs) = joined vs
  string_of (object ms) = codes "[object Object]"

  pub joined : Elements → Str
  joined nil = []
  joined (cons v nil) = element_text v
  joined (cons v (cons w vs)) = element_text v ++ codes "," ++ joined (cons w vs)

  pub element_text : Json → Str
  element_text null = []
  element_text (boolean b) = if b then codes "true" else codes "false"
  element_text (number n) = signed_decimal n
  element_text (text s) = s
  element_text (array vs) = joined vs
  element_text (object ms) = codes "[object Object]"

-- The parameters of a transport, and what it remembers between its calls.
pub record HttpState : Type 0 where
  pub sequence : ℕ
  pub next_request_at : ℕ

abbrev pub first_state : HttpState
first_state = record { sequence = 0; next_request_at = 0 }

-- The number of a call.
unfoldable pub begin_call : HttpState → ℕ × HttpState
begin_call s = (suc s.sequence, record s { sequence = suc s.sequence })

-- How long a call waits at `now`, and the slot that it reserves at `now'`, when it has waited.
unfoldable pub reserve_slot : ℕ → ℕ → ℕ → HttpState → ℕ × HttpState
reserve_slot minimum_interval now now' s =
    (s.next_request_at - now, record s { next_request_at = now' + minimum_interval })

-- What comes back of a request.
pub data Reply : Type 0 where
  no_reply : Reply
  status : ℕ → Reply
  not_json : Reply
  json : Json → Reply

pub record RpcError : Type 0 where
  pub code : Option Json
  pub message : Str

pub data RpcAnswer : Type 0 where
  answered : Json → RpcAnswer
  failed : RpcError → RpcAnswer

-- A failure of the transport: -32096 and below, so the argument is one less than the number.
abbrev pub failure : ℕ → Str → RpcAnswer
failure code message = failed (record { code = some (number (negsuc code)); message = message })

abbrev pub or_message : Option Json → Str
or_message none = codes "RPC rejected the request"
or_message (some null) = codes "RPC rejected the request"
or_message (some value) = string_of value

abbrev pub is_number : ℕ → Option Json → Bool
is_number n (some (number (pos m))) = m == n
is_number n _ = false

unfoldable pub error_message : List Str → Option Json → Str
error_message sensitive message =
    withhold_all sensitive (take 2000 (withhold_urls false (or_message message)))

unfoldable pub read_result : Option Json → RpcAnswer
read_result none = failure 32095 (codes "Missing RPC result")
read_result (some value) = answered value

abbrev pub is_version_2 : Option Str → Bool
is_version_2 none = false
is_version_2 (some version) = str_eq version (codes "2.0")

-- The response to the call of the number `id`.
unfoldable pub read_reply : List Str → ℕ → Reply → RpcAnswer
read_reply sensitive id no_reply = failure 32097 (codes "RPC transport failed or timed out")
read_reply sensitive id (status n) = failure 32096 (codes "RPC HTTP status")
read_reply sensitive id not_json = failure 32095 (codes "Invalid RPC JSON response")
read_reply sensitive id (json body) =
    if not (is_version_2 (as_text (member_at body (codes "jsonrpc"))))
      || not (is_number id (member_at body (codes "id")))
    then failure 32095 (codes "RPC response ID mismatch")
    else read_body body (member_at body (codes "error"))
  where
    read_body : Json → Option Json → RpcAnswer
    read_body body none = read_result (member_at body (codes "result"))
    read_body body (some error) =
        if is_falsy error
        then read_result (member_at body (codes "result"))
        else failed (record {
          code = member_at error (codes "code");
          message = error_message sensitive (member_at error (codes "message"));
        })

unfoldable pub open_rpc : List Str → Endpoint → Result (List Str)
open_rpc headers endpoint = do
  throw_if (not (is_safe_endpoint endpoint)) "Use HTTPS or a loopback RPC"
  ok (sensitive_values headers endpoint)

-- The transport of an enrollment.
unfoldable pub open_enrollment : Endpoint → Result (Unit {0})
open_enrollment base = throw_if (not (is_safe_endpoint base)) "Use HTTPS or loopback enrollment"

unfoldable pub read_post : Reply → Result Json
read_post no_reply = err "Enrollment transport failed"
read_post (status n) = err "Enrollment rejected the request"
read_post not_json = err "Unexpected token"
read_post (json body) = ok body

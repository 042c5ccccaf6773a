-- ===== src/Bundler/Gateway/Forwarding.antt =====
-- What the gateway forwards to the bundler.
use cardano_on_evm.Prelude.{
  ◌≡◌, refl, Bool, true, List, [], ◌∷◌, Result, Str, Bytes, codes, includes, str_eq,
}
use cardano_on_evm.Prelude.Json.{Json}
use mathlib.Core.Path.{subst}
use cardano_on_evm.Wallet.Bytes.{concat_bytes}
use cardano_on_evm.Bundler.Verdict.{passed, bind-eq-passed, passed-injective}
use cardano_on_evm.Bundler.Admission.{Abi, Config, admit_operation}
use cardano_on_evm.Bundler.Gateway.{
  GatewayConfig, RpcRequest, operation_methods, read_chunks, read_request, check_operation_params,
  check_params, check_body, parsed_body,
}

-- The parameters of a request that admission has let through.
abbrev pub Admitted : Abi → Config → RpcRequest → Type 0
Admitted abi config request =
    (op entry_point : Json) × (revision : Str) × (request.params ≡ op ∷ entry_point ∷ [])
    × (admit_operation abi op entry_point config
          (str_eq request.method (codes "eth_estimateUserOperationGas"))
        ≡ passed revision)

check_operation_params-passed :
    (abi : Abi) (config : Config) (estimate : Bool) (params : List Json) (u : Unit {0})
    → check_operation_params abi config estimate params ≡ passed u
    → (op entry_point : Json) × (revision : Str) × (params ≡ op ∷ entry_point ∷ [])
      × (admit_operation abi op entry_point config estimate ≡ passed revision)
unfolding check_operation_params
check_operation_params-passed abi config estimate (op ∷ entry_point ∷ []) u h =
    let (revision, e, _) =
      bind-eq-passed (admit_operation abi op entry_point config estimate) _ h in
    (op, entry_point, revision, refl, e)
check_operation_params-passed abi config estimate [] u h = cc
check_operation_params-passed abi config estimate (a ∷ []) u h = cc
check_operation_params-passed abi config estimate (a ∷ b ∷ c ∷ vs) u h = cc

-- A request that sends an operation or estimates its gas is forwarded only with two parameters, an
-- operation and an EntryPoint, that admission has let through under the configuration of that moment.
pub check_body-Admitted :
    (abi : Abi) (parse : Bytes → Result Json) (config : GatewayConfig) (body : List Bytes)
    (request : RpcRequest)
    → check_body abi parse config body ≡ passed request
    → includes request.method operation_methods ≡ true
    → Admitted abi config.admission request
unfolding check_body check_params
check_body-Admitted abi parse config body request h sends =
    let (chunks, _, h₁) = bind-eq-passed (read_chunks config.max_body_bytes 0 body) _ h in
    let (value, _, h₂) = bind-eq-passed (parsed_body (parse (concat_bytes chunks))) _ h₁ in
    let (read, _, h₃) = bind-eq-passed (read_request value) _ h₂ in
    let (u, e, h₄) = bind-eq-passed (check_params abi config.admission read) _ h₃ in
    let checked : check_params abi config.admission request ≡ passed u =
      subst (λ (r : RpcRequest). check_params abi config.admission r ≡ passed u)
        (passed-injective h₄) e in
    check_operation_params-passed abi config.admission _ request.params u (rw sends at checked)

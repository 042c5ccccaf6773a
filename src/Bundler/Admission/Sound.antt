-- ===== src/Bundler/Admission/Sound.antt =====
-- What an operation that `admitOperation` lets through keeps to.
use mathlib.Core.List.{Memᴰ}
use cardano_on_evm.Prelude.{
  ℕ, ◌+◌, ◌*◌, ◌≤◌, ◌≡◌, refl, sym, ap, ◌∙◌, ◌⊎◌, inl, inr, Bool, true, false, not, ◌||◌, List, [],
  ◌∷◌, Option, none, some, arith, Str, codes, includes, str_eq, str_eq_iff, ltb, Bool-cases, All,
  length, take,
}
use cardano_on_evm.Prelude.Json.{Json, member_at}
use cardano_on_evm.Submission.Inclusion.{is_falsy}
use cardano_on_evm.Bundler.Verdict.{
  passed, reject_if, or_reject, bind-eq-passed, reject_if-eq-passed, passed-injective,
}
use cardano_on_evm.Bundler.Admission.{
  Call, Abi, Rule, Limits, Config, quantity, json_address, decode_execution, find_rule, admit_data,
  admit_call, admit_calls, admit_member, admit_sender, exceeds_gas, exceeds_fee, admit_fees,
  admit_rules, check_entry_point, is_object, admit_operation,
}

-- What a rule lets a call carry.
abbrev pub CarriesAllowed : Rule → Str → Type 0
CarriesAllowed rule call =
    ((call ≡ codes "0x") × (rule.allow_empty ≡ true))
    ⊎ ((10 ≤ length call) × Memᴰ (take 10 call) rule.selectors)

-- A call that the rules let through: to another account, under one of the rules, that of its target.
abbrev pub IsAllowed : Str → List Rule → Call → Type 0
IsAllowed sender rules c =
    (str_eq c.target sender ≡ false)
    × ((rule : Rule) × Memᴰ rule rules
        × (rule.target ≡ c.target)
        × (c.value ≤ rule.max_value)
        × CarriesAllowed rule c.call)

-- The caps that the gas and the fees of an operation keep to.
pub record Capped (op : Json) (limits : Limits) (estimate : Bool) : Type 0 where
  pub verification : ℕ
  pub call : ℕ
  pub pre : ℕ
  pub paymaster : ℕ
  pub post : ℕ
  pub fee : ℕ
  pub priority : ℕ
  pub verification_is :
      quantity (member_at op (codes "verificationGasLimit")) (codes "verificationGasLimit") estimate
      ≡ passed verification
  pub call_is :
      quantity (member_at op (codes "callGasLimit")) (codes "callGasLimit") estimate ≡ passed call
  pub pre_is :
      quantity (member_at op (codes "preVerificationGas")) (codes "preVerificationGas") estimate
      ≡ passed pre
  pub paymaster_is :
      quantity
        (member_at op (codes "paymasterVerificationGasLimit"))
        (codes "paymasterVerificationGasLimit")
        true
      ≡ passed paymaster
  pub post_is :
      quantity
        (member_at op (codes "paymasterPostOpGasLimit"))
        (codes "paymasterPostOpGasLimit")
        true
      ≡ passed post
  pub fee_is :
      quantity (member_at op (codes "maxFeePerGas")) (codes "maxFeePerGas") estimate ≡ passed fee
  pub priority_is :
      quantity (member_at op (codes "maxPriorityFeePerGas")) (codes "maxPriorityFeePerGas") estimate
      ≡ passed priority
  pub verification_gas : verification ≤ limits.verification_gas
  pub call_gas : call ≤ limits.call_gas
  pub total_gas : verification + call + pre + paymaster + post ≤ limits.total_gas
  pub max_fee : fee ≤ limits.max_fee_per_gas
  pub priority_fee : priority ≤ fee
  pub cost : (verification + call + pre + paymaster + post) * fee ≤ limits.max_operation_cost

module _ (abi : Abi) where
  find_rule-Mem :
      (target : Str) (rules : List Rule) (r : Rule)
      → find_rule abi target rules ≡ some r
      → Memᴰ r rules × (r.target ≡ target)
  unfolding find_rule
  find_rule-Mem target [] r h = cc
  find_rule-Mem target (x ∷ xs) r h = elim (Bool-cases (str_eq x.target target)) [
    | inl same ↦
        let e : some x ≡ some r = (rw same at h) in
        let is_x : r ≡ x = ap (λ (o : Option Rule). elim o [ none ↦ x | some y ↦ y ]) (sym e) in
        (Memᴰ.head is_x, ap (λ (y : Rule). y.target) is_x ∙ (str_eq_iff x.target target).0 same)
    | inr other ↦
        let (there, same) = find_rule-Mem target xs r (rw other at h) in (Memᴰ.tail there, same)
  ]

  includes-Mem : (s : Str) (list : List Str) → includes s list ≡ true → Memᴰ s list
  unfolding includes
  includes-Mem s [] h = cc
  includes-Mem s (t ∷ ts) h = elim (Bool-cases (str_eq t s)) [
    | inl same ↦ Memᴰ.head (sym ((str_eq_iff t s).0 same))
    | inr other ↦ Memᴰ.tail (includes-Mem s ts (rw other at h))
  ]

  admit_data-CarriesAllowed :
      (rule : Rule) (call : Str) (u : Unit {0})
      → admit_data abi rule call ≡ passed u
      → CarriesAllowed rule call
  unfolding admit_data
  admit_data-CarriesAllowed rule call u h = elim (Bool-cases (str_eq call (codes "0x"))) [
    | inl empty ↦
        inl ((str_eq_iff call (codes "0x")).0 empty, open_rule rule.allow_empty (rw empty at h))
    | inr full ↦
        let fits =
          fitting (ltb (length call) 10 || not (includes (take 10 call) rule.selectors))
            (rw full at h) in
        inr (ground (arith, fits), includes-Mem _ _ (ground (arith, fits)))
  ]
    where
      open_rule :
          (b : Bool)
          → reject_if (not b) (codes "Empty call denied by admission") ≡ passed u
          → b ≡ true
      open_rule true h = refl
      open_rule false h = cc

      fitting :
          (b : Bool) → reject_if b (codes "Selector denied by admission") ≡ passed u → b ≡ false
      fitting true h = cc
      fitting false h = refl

  admit_call-IsAllowed :
      (sender : Str) (rules : List Rule) (c : Call) (u : Unit {0})
      → admit_call abi sender rules c ≡ passed u
      → IsAllowed sender rules c
  unfolding admit_call
  admit_call-IsAllowed sender rules c u h =
      let (other, h₁) = reject_if-eq-passed (str_eq c.target sender) _ _ h in
      let (rule, e, h₂) = bind-eq-passed (or_reject (find_rule abi c.target rules) _) _ h₁ in
      let (small, h₃) = reject_if-eq-passed (ltb rule.max_value c.value) _ _ h₂ in
      let found : find_rule abi c.target rules ≡ some rule =
        found_rule (find_rule abi c.target rules) rule e in
      let (listed, same) = find_rule-Mem c.target rules rule found in
      (
        other,
        (rule, listed, same, ground (arith, small), admit_data-CarriesAllowed rule c.call u h₃),
      )
    where
      found_rule :
          (o : Option Rule) (r : Rule)
          → or_reject o (codes "Target or value denied by admission") ≡ passed r
          → o ≡ some r
      found_rule none r h = cc
      found_rule (some x) r h = ap some (passed-injective h)

  admit_calls-IsAllowed :
      (sender : Str) (rules : List Rule) (cs : List Call) (u : Unit {0})
      → admit_calls abi sender rules cs ≡ passed u
      → All (IsAllowed sender rules) cs
  unfolding admit_calls
  admit_calls-IsAllowed sender rules [] u h = tt
  admit_calls-IsAllowed sender rules (c ∷ cs) u h =
      let (v, e, h₁) = bind-eq-passed (admit_call abi sender rules c) _ h in
      (admit_call-IsAllowed sender rules c v e, admit_calls-IsAllowed sender rules cs u h₁)

  admit_fees-Capped :
      (op : Json) (limits : Limits) (estimate : Bool) (u : Unit {0})
      → admit_fees abi op limits estimate ≡ passed u
      → Capped op limits estimate
  unfolding admit_fees exceeds_gas exceeds_fee
  admit_fees-Capped op limits estimate u h =
      let (verification, e₁, h₁) =
        bind-eq-passed
          (quantity (member_at op (codes "verificationGasLimit")) (codes "verificationGasLimit")
            estimate)
          _ h in
      let (call, e₂, h₂) =
        bind-eq-passed
          (quantity (member_at op (codes "callGasLimit")) (codes "callGasLimit") estimate) _ h₁ in
      let (pre, e₃, h₃) =
        bind-eq-passed
          (quantity (member_at op (codes "preVerificationGas")) (codes "preVerificationGas")
            estimate)
          _ h₂ in
      let (paymaster, e₄, h₄) =
        bind-eq-passed
          (quantity (member_at op (codes "paymasterVerificationGasLimit"))
            (codes "paymasterVerificationGasLimit") true)
          _ h₃ in
      let (post, e₅, h₅) =
        bind-eq-passed
          (quantity (member_at op (codes "paymasterPostOpGasLimit"))
            (codes "paymasterPostOpGasLimit") true)
          _ h₄ in
      let (fee, e₆, h₆) =
        bind-eq-passed
          (quantity (member_at op (codes "maxFeePerGas")) (codes "maxFeePerGas") estimate) _ h₅ in
      let (priority, e₇, h₇) =
        bind-eq-passed
          (quantity (member_at op (codes "maxPriorityFeePerGas")) (codes "maxPriorityFeePerGas")
            estimate)
          _ h₆ in
      let total = verification + call + pre + paymaster + post in
      let (gas, h₈) = reject_if-eq-passed (exceeds_gas abi limits verification call total) _ _ h₇ in
      let within = cheap (exceeds_fee abi limits total fee priority) h₈ in
      record {
        verification = verification;
        call = call;
        pre = pre;
        paymaster = paymaster;
        post = post;
        fee = fee;
        priority = priority;
        verification_is = e₁;
        call_is = e₂;
        pre_is = e₃;
        paymaster_is = e₄;
        post_is = e₅;
        fee_is = e₆;
        priority_is = e₇;
        verification_gas = ground (arith, gas);
        call_gas = ground (arith, gas);
        total_gas = ground (arith, gas);
        max_fee = ground (arith, within);
        priority_fee = ground (arith, within);
        cost = ground (arith, within);
      }
    where
      cheap : (b : Bool) → reject_if b (codes "Operation fee cap exceeded") ≡ passed u → b ≡ false
      cheap true h = cc
      cheap false h = refl

  -- The calls that the rules of an allowlist were held against.
  abbrev pub RulesKept : Option (List Rule) → Str → Option Json → Type 0
  RulesKept none sender input = Unit
  RulesKept (some rules) sender input =
      (calls : List Call) × (decode_execution abi input ≡ passed calls)
      × All (IsAllowed sender rules) calls

  admit_rules-RulesKept :
      (rules : Option (List Rule)) (sender : Str) (input : Option Json) (u : Unit {0})
      → admit_rules abi rules sender input ≡ passed u
      → RulesKept rules sender input
  unfolding admit_rules
  admit_rules-RulesKept none sender input u h = tt
  admit_rules-RulesKept (some rules) sender input u h =
      let (calls, e, h₁) = bind-eq-passed (decode_execution abi input) _ h in
      (calls, e, admit_calls-IsAllowed sender rules calls u h₁)

  -- A sender that the policy names, if it names any.
  abbrev pub SenderNamed : Option (List Str) → Str → Type 0
  SenderNamed none sender = Unit
  SenderNamed (some list) sender = Memᴰ sender list

  -- A factory or a paymaster: where the operation has one and the policy names any, one of these.
  abbrev pub MemberNamed : Option Json → Option (List Str) → Type 0
  MemberNamed none list = Unit
  MemberNamed (some value) none = Unit
  MemberNamed (some value) (some list) =
      (is_falsy value ≡ true)
      ⊎ ((place : Str) × (json_address abi (some value) ≡ passed place) × Memᴰ place list)

  unless_rejected : (b : Bool) (m : Str) (u : Unit {0}) → reject_if b m ≡ passed u → b ≡ false
  unless_rejected true m u h = cc
  unless_rejected false m u h = refl

  admit_sender-SenderNamed :
      (list : Option (List Str)) (sender : Str) (u : Unit {0})
      → admit_sender abi list sender ≡ passed u
      → SenderNamed list sender
  unfolding admit_sender
  admit_sender-SenderNamed none sender u h = tt
  admit_sender-SenderNamed (some list) sender u h =
      let kept = unless_rejected (not (includes sender list)) _ u h in
      includes-Mem sender list (ground (arith, kept))

  admit_member-MemberNamed :
      (value : Option Json) (list : Option (List Str)) (field : Str) (u : Unit {0})
      → admit_member abi value list field ≡ passed u
      → MemberNamed value list
  unfolding admit_member
  admit_member-MemberNamed none list field u h = tt
  admit_member-MemberNamed (some value) none field u h = tt
  admit_member-MemberNamed (some value) (some list) field u h = elim (Bool-cases (is_falsy value)) [
    | inl falsy ↦ inl falsy
    | inr given ↦
        let (place, is_place, h₁) =
          bind-eq-passed (json_address abi (some value)) _ (rw given at h) in
        let kept = unless_rejected (not (includes place list)) _ u h₁ in
        inr (place, is_place, includes-Mem place list (ground (arith, kept)))
  ]

  -- An admitted operation keeps the gas and fee caps; its sender is one of those that the policy
  -- names, if it names any, and so are its factory and its paymaster, if it has them; and if the policy
  -- is an allowlist, its data decodes to calls, each to another account, under a rule of the list for
  -- its target, with a value and a selector that the rule allows. The answer is the revision of the
  -- policy.
  pub admit_operation-eq-passed :
      (op entry_point : Json) (config : Config) (estimate : Bool) (revision : Str)
      → admit_operation abi op entry_point config estimate ≡ passed revision
      → (sender : Str) × (json_address abi (member_at op (codes "sender")) ≡ passed sender)
        × SenderNamed config.policy.senders sender
        × MemberNamed (member_at op (codes "factory")) config.policy.factories
        × MemberNamed (member_at op (codes "paymaster")) config.policy.paymasters
        × Capped op config.limits estimate
        × RulesKept config.policy.rules sender (member_at op (codes "callData"))
        × (revision ≡ config.policy.revision)
  unfolding admit_operation
  admit_operation-eq-passed op entry_point config estimate revision h =
      let (_, _, h₁) = bind-eq-passed (check_entry_point abi entry_point config) _ h in
      let (_, h₂) = reject_if-eq-passed (not (is_object abi op)) _ _ h₁ in
      let (sender, e₃, h₃) =
        bind-eq-passed (json_address abi (member_at op (codes "sender"))) _ h₂ in
      let (_, _, h₄) =
        bind-eq-passed (quantity (member_at op (codes "nonce")) (codes "nonce") false) _ h₃ in
      let (u₅, e₅, h₅) = bind-eq-passed (admit_sender abi config.policy.senders sender) _ h₄ in
      let (u₆, e₆, h₆) =
        bind-eq-passed
          (admit_member abi (member_at op (codes "factory")) config.policy.factories
            (codes "factory"))
          _ h₅ in
      let (u₇, e₇, h₇) =
        bind-eq-passed
          (admit_member abi (member_at op (codes "paymaster")) config.policy.paymasters
            (codes "paymaster"))
          _ h₆ in
      let (u, e₈, h₈) = bind-eq-passed (admit_fees abi op config.limits estimate) _ h₇ in
      let (u', e₉, h₉) =
        bind-eq-passed
          (admit_rules abi config.policy.rules sender (member_at op (codes "callData"))) _ h₈ in
      (
        sender,
        e₃,
        admit_sender-SenderNamed config.policy.senders sender u₅ e₅,
        admit_member-MemberNamed _ config.policy.factories _ u₆ e₆,
        admit_member-MemberNamed _ config.policy.paymasters _ u₇ e₇,
        admit_fees-Capped op config.limits estimate u e₈,
        admit_rules-RulesKept config.policy.rules sender (member_at op (codes "callData")) u' e₉,
        sym (passed-injective h₉),
      )

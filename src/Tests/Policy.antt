-- ===== src/Tests/Policy.antt =====
-- `validatePolicy` of infra/bundler/src/admission.mjs on a policy with two rules.
use cardano_on_evm.Bundler.Policy.{
  kind_of, revision_of, is_revision_char, all_revision, read_addresses, rules_for, read_rules,
  read_rule, lower_address, read_selectors, read_selector, flag_of, max_value_of,
}
use cardano_on_evm.Prelude.{str_eq, has_prefix, to_lower, includes}
use cardano_on_evm.Prelude.Json.{member_at, lookup, as_text}
use cardano_on_evm.Prelude.Decimal.Digits.{is_numeral, all_digits, digits_value}
use cardano_on_evm.Wallet.Bytes.{all_hex, is_hex_digit}
use cardano_on_evm.Wallet.Connector.{unique}
use cardano_on_evm.Prelude.{◌≡◌, refl, true, List, [], ◌∷◌, none, some, ok, Str, codes, All}
use cardano_on_evm.Prelude.Json.{Json, Elements, Members, text, boolean, array, object}
use cardano_on_evm.Bundler.Admission.{Rule, Policy, find_rule}
use cardano_on_evm.Bundler.Policy.{validate_policy}
use cardano_on_evm.Bundler.Policy.Rules.{validate_policy-found}
use cardano_on_evm.Tests.Bundler.{toy_abi}

abbrev rule_json : Str → Json
rule_json target = object (
    Members.member (codes "target") (text target) (
      Members.member (codes "selectors")
        (array (Elements.cons (text (codes "0xABCDEF01")) Elements.nil))
        (Members.member (codes "allowEmpty") (boolean true)
          (Members.member (codes "maxValueWei") (text (codes "5")) Members.end))))

abbrev policy_json : Json
policy_json = object (
    Members.member (codes "kind") (text (codes "allowlist")) (
      Members.member (codes "revision") (text (codes "v1")) (
        Members.member (codes "rules")
          (array (
            Elements.cons (rule_json (codes "0xA"))
              (Elements.cons (rule_json (codes "0xB")) Elements.nil)))
          Members.end)))

abbrev rule_for : Str → Rule
rule_for target = record {
  target = target;
  selectors = codes "0xabcdef01" ∷ [];
  allow_empty = true;
  max_value = 5;
}

abbrev two_rules : List Rule
two_rules = rule_for (codes "0xa") ∷ rule_for (codes "0xb") ∷ []

abbrev sample_policy : Policy
sample_policy = record {
  revision = codes "v1";
  senders = none;
  factories = none;
  paymasters = none;
  rules = some two_rules;
}

policy_accepted : validate_policy toy_abi policy_json ≡ ok sample_policy
unfolding validate_policy kind_of revision_of is_revision_char all_revision read_addresses rules_for
    read_rules read_rule lower_address read_selectors read_selector flag_of max_value_of str_eq
    has_prefix to_lower includes member_at lookup as_text is_numeral all_digits digits_value all_hex
    is_hex_digit unique
policy_accepted = refl

validate_policy-found_example :
    All (λ (r : Rule). find_rule toy_abi r.target two_rules ≡ some r) two_rules
validate_policy-found_example =
    validate_policy-found toy_abi policy_json sample_policy two_rules policy_accepted refl

-- ===== src/Bundler/Policy.antt =====
-- infra/bundler/src/admission.mjs: `validatePolicy`, from the JSON of a policy.
pub mod Rules
use cardano_on_evm.Prelude.{
  ℕ, ◌≤◌, Bool, true, false, not, ◌&&◌, ◌||◌, List, [], ◌∷◌, ◌++◌, map, Option, none, some, Result,
  ok, err, String, ◌>>=◌, ◌>>◌, throw_if, or_throw, Str, codes, has_prefix, str_eq, to_lower, leb,
  ltb, ◌==◌, if◌then◌else◌, length, drop,
}
use cardano_on_evm.Prelude.Decimal.Digits.{is_numeral, digits_value}
use cardano_on_evm.Prelude.Json.{Json, text, boolean, array, member_at, as_text}
use cardano_on_evm.Wallet.Bytes.{all_hex}
use cardano_on_evm.Wallet.Connector.{unique}
use cardano_on_evm.Submission.Inclusion.{as_elements}
use cardano_on_evm.Bundler.Admission.{Abi, Rule, Policy}

-- `[\w.-]`
unfoldable pub is_revision_char : ℕ → Bool
is_revision_char c =
    (leb 48 c && leb c 57)
    || (leb 65 c && leb c 90)
    || (leb 97 c && leb c 122)
    || c == 95
    || c == 46
    || c == 45

unfoldable pub all_revision : Str → Bool
all_revision [] = true
all_revision (c ∷ s) = is_revision_char c && all_revision s

unfoldable pub revision_of : Option Str → Result Str
revision_of none = err "Invalid admission policy"
revision_of (some s) =
    throw_if (not (all_revision s && leb 1 (length s) && leb (length s) 64))
      "Invalid admission policy"
    >> ok s

-- Whether the kind is `allowlist`.
unfoldable pub kind_of : Option Str → Result Bool
kind_of none = err "Invalid admission policy"
kind_of (some s) =
    if str_eq s (codes "allowlist")
    then ok true
    else if str_eq s (codes "open")
    then ok false
    else err "Invalid admission policy"

-- `/^0x[0-9a-fA-F]{8}$/`
unfoldable pub read_selector : Json → Result Str
read_selector (text s) =
    throw_if (not (has_prefix (codes "0x") s && length s == 10 && all_hex (drop 2 s)))
      "Invalid selectors"
    >> ok (map to_lower s)
read_selector _ = err "Invalid selectors"

unfoldable pub read_selectors : List Json → Result (List Str)
read_selectors [] = ok []
read_selectors (v ∷ vs) = do s ← read_selector v; rest ← read_selectors vs; ok (s ∷ rest)

unfoldable pub flag_of : Option Json → Result Bool
flag_of (some (boolean b)) = ok b
flag_of _ = err "Invalid rule value/empty-data setting"

unfoldable pub max_value_of : Option Str → Result ℕ
max_value_of none = err "Invalid rule value/empty-data setting"
max_value_of (some s) =
    throw_if (not (is_numeral s) || ltb 78 (length s)) "Invalid rule value/empty-data setting"
    >> ok (digits_value 0 s)

module _ (abi : Abi) where
  unfoldable pub lower_address : Option Str → Result Str
  lower_address none = err "Invalid address"
  lower_address (some s) = do a ← abi.get_address s; ok (map to_lower a)

  unfoldable pub lower_addresses : List Json → Result (List Str)
  lower_addresses [] = ok []
  lower_addresses (v ∷ vs) = do
    a ← lower_address (as_text (some v))
    rest ← lower_addresses vs
    ok (a ∷ rest)

  -- One of `senders`, `factories` and `paymasters`.
  unfoldable pub read_addresses : String → Option Json → Result (Option (List Str))
  read_addresses message none = ok none
  read_addresses message (some v) = do
    vs ← or_throw (as_elements (some v)) message
    throw_if (ltb 1024 (length vs)) message
    addresses ← lower_addresses vs
    ok (some (unique [] addresses))

  unfoldable pub read_rule : Json → Result Rule
  read_rule v = do
    target ← lower_address (as_text (member_at v (codes "target")))
    vs ← or_throw (as_elements (member_at v (codes "selectors"))) "Invalid selectors"
    throw_if (ltb 64 (length vs)) "Invalid selectors"
    selectors ← read_selectors vs
    allow_empty ← flag_of (member_at v (codes "allowEmpty"))
    max_value ← max_value_of (as_text (member_at v (codes "maxValueWei")))
    ok (record {
      target = target;
      selectors = selectors;
      allow_empty = allow_empty;
      max_value = max_value;
    })

  unfoldable pub read_rules : List Json → Result (List Rule)
  read_rules [] = ok []
  read_rules (v ∷ vs) = do r ← read_rule v; rest ← read_rules vs; ok (r ∷ rest)

  abbrev pub targets : List Rule → List Str
  targets rules = map (λ (r : Rule). r.target) rules

  unfoldable pub rules_for : Bool → Option Json → Result (Option (List Rule))
  rules_for false v = ok none
  rules_for true v = do
    vs ← or_throw (as_elements v) "Supply admission rules"
    throw_if (length vs == 0 || ltb 256 (length vs)) "Supply admission rules"
    rules ← read_rules vs
    throw_if (not (length (unique [] (targets rules)) == length rules)) "Duplicate target rules"
    ok (some rules)

  unfoldable pub validate_policy : Json → Result Policy
  validate_policy v = do
    allowlist ← kind_of (as_text (member_at v (codes "kind")))
    revision ← revision_of (as_text (member_at v (codes "revision")))
    senders ← read_addresses "Invalid policy senders" (member_at v (codes "senders"))
    factories ← read_addresses "Invalid policy factories" (member_at v (codes "factories"))
    paymasters ← read_addresses "Invalid policy paymasters" (member_at v (codes "paymasters"))
    rules ← rules_for allowlist (member_at v (codes "rules"))
    ok (record {
      revision = revision;
      senders = senders;
      factories = factories;
      paymasters = paymasters;
      rules = rules;
    })

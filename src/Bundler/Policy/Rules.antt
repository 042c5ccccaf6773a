-- ===== src/Bundler/Policy/Rules.antt =====
-- The rules of a policy that `validatePolicy` accepts: admission finds each of them by its target.
use mathlib.Core.Path.{subst}
use cardano_on_evm.Prelude.{
  suc, ◌≤◌, ◌≡◌, refl, ap, ◌∙◌, Bool, true, false, not, ◌||◌, inl, inr, List, [], ◌∷◌, Option, some,
  ok, arith, >>=-eq-ok, >>-eq-ok, or_throw, ok-injective, Str, codes, str_eq, str_eq_refl, includes,
  ltb, ◌==◌, length, All, Bool-cases,
}
use cardano_on_evm.Prelude.Json.{Json, member_at, as_text}
use cardano_on_evm.Wallet.Connector.{unique}
use cardano_on_evm.Submission.Inclusion.{as_elements}
use cardano_on_evm.Bundler.Admission.{Abi, Rule, Policy, find_rule}
use cardano_on_evm.Bundler.Policy.{
  kind_of, revision_of, read_addresses, read_rules, targets, rules_for, validate_policy,
}

length-unique : (seen ss : List Str) → length (unique seen ss) ≤ length ss
unfolding unique
length-unique seen [] = omega arith
length-unique seen (s ∷ ss) = elim (Bool-cases (includes s seen)) [
  | inl old ↦ rw old (omega (arith, length-unique seen ss))
  | inr fresh ↦ rw fresh (omega (arith, length-unique (s ∷ seen) ss))
]

older :
    (t : Str) (seen : List Str) (rs : List Rule)
    → All (λ (r : Rule). includes r.target (t ∷ seen) ≡ false) rs
    → All (λ (r : Rule). includes r.target seen ≡ false) rs
unfolding includes
older t seen [] h = tt
older t seen (r ∷ rs) (h, hs) = (ground (arith, h), older t seen rs hs)

module _ (abi : Abi) where
  -- If dropping the targets seen before and the repeated ones drops none, each rule's target differs
  -- from those seen before.
  unseen :
      (seen : List Str) (rs : List Rule)
      → length (unique seen (targets abi rs)) ≡ length rs
      → All (λ (r : Rule). includes r.target seen ≡ false) rs
  unfolding unique
  unseen seen [] h = tt
  unseen seen (r ∷ rs) h = elim (Bool-cases (includes r.target seen)) [
    | inl old ↦
        let short : length (unique seen (targets abi rs)) ≡ suc (length rs) = (rw old at h) in
        absurd (omega (arith, short, length-unique seen (targets abi rs), same_length rs))
    | inr fresh ↦
        let whole : suc (length (unique (r.target ∷ seen) (targets abi rs))) ≡ suc (length rs) =
          (rw fresh at h) in
        (fresh, older r.target seen rs (unseen (r.target ∷ seen) rs (omega (arith, whole))))
  ]
    where
      same_length : (rs : List Rule) → length (targets abi rs) ≡ length rs
      same_length [] = refl
      same_length (r ∷ rs) = ap suc (same_length rs)

  tail_unique :
      (seen : List Str) (r : Rule) (rs : List Rule)
      → length (unique seen (targets abi (r ∷ rs))) ≡ suc (length rs)
      → length (unique (r.target ∷ seen) (targets abi rs)) ≡ length rs
  unfolding unique
  tail_unique seen r rs h =
      let (fresh, _) = unseen seen (r ∷ rs) h in
      let whole : suc (length (unique (r.target ∷ seen) (targets abi rs))) ≡ suc (length rs) =
        (rw fresh at h) in
      omega (arith, whole)

  found_behind :
      (x : Rule) (all rs : List Rule) (seen : List Str)
      → All (λ (r : Rule). includes r.target (x.target ∷ seen) ≡ false) rs
      → All (λ (r : Rule). find_rule abi r.target all ≡ some r) rs
      → All (λ (r : Rule). find_rule abi r.target (x ∷ all) ≡ some r) rs
  unfolding find_rule includes
  found_behind x all [] seen h found = tt
  found_behind x all (r ∷ rs) seen (h, hs) (f, fs) =
      let other : str_eq x.target r.target ≡ false = ground (arith, h) in
      (rw (other, f), found_behind x all rs seen hs fs)

  found :
      (seen : List Str) (rs : List Rule)
      → length (unique seen (targets abi rs)) ≡ length rs
      → All (λ (r : Rule). find_rule abi r.target rs ≡ some r) rs
  unfolding find_rule
  found seen [] h = tt
  found seen (r ∷ rs) h =
      let behind = tail_unique seen r rs h in
      (
        rw (str_eq_refl r.target),
        found_behind r rs rs seen (unseen (r.target ∷ seen) rs behind)
            (found (r.target ∷ seen) rs behind),
      )

  rules_for-found :
      (allowlist : Bool) (v : Option Json) (rules : List Rule)
      → rules_for abi allowlist v ≡ ok (some rules)
      → All (λ (r : Rule). find_rule abi r.target rules ≡ some r) rules
  unfolding rules_for
  rules_for-found false v rules h = cc
  rules_for-found true v rules h =
      let (vs, _, h₁) = >>=-eq-ok (or_throw (as_elements v) "Supply admission rules") _ h in
      let (_, h₂) = >>-eq-ok (length vs == 0 || ltb 256 (length vs)) _ _ h₁ in
      let (read, _, h₃) = >>=-eq-ok (read_rules abi vs) _ h₂ in
      let (distinct, h₄) =
        >>-eq-ok (not (length (unique [] (targets abi read)) == length read)) _ _ h₃ in
      let full : length (unique [] (targets abi read)) ≡ length read = ground (arith, distinct) in
      let same : read ≡ rules = cc h₄ in
      subst (λ (rs : List Rule). All (λ (r : Rule). find_rule abi r.target rs ≡ some r) rs) same
        (found [] read full)

  -- In a policy that was accepted, the rule that admission finds for the target of any of its rules is
  -- that rule: no rule hides another.
  pub validate_policy-found :
      (v : Json) (p : Policy) (rules : List Rule)
      → validate_policy abi v ≡ ok p
      → p.rules ≡ some rules
      → All (λ (r : Rule). find_rule abi r.target rules ≡ some r) rules
  unfolding validate_policy
  validate_policy-found v p rules h has =
      let (allowlist, _, h₁) = >>=-eq-ok (kind_of (as_text (member_at v (codes "kind")))) _ h in
      let (revision, _, h₂) =
        >>=-eq-ok (revision_of (as_text (member_at v (codes "revision")))) _ h₁ in
      let (senders, _, h₃) =
        >>=-eq-ok (read_addresses abi "Invalid policy senders" (member_at v (codes "senders"))) _
          h₂ in
      let (factories, _, h₄) =
        >>=-eq-ok (read_addresses abi "Invalid policy factories" (member_at v (codes "factories")))
          _ h₃ in
      let (paymasters, _, h₅) =
        >>=-eq-ok
          (read_addresses abi "Invalid policy paymasters" (member_at v (codes "paymasters"))) _
          h₄ in
      let (o, e, h₆) = >>=-eq-ok (rules_for abi allowlist (member_at v (codes "rules"))) _ h₅ in
      let same : o ≡ p.rules = ap (λ (q : Policy). q.rules) (ok-injective h₆) in
      rules_for-found allowlist (member_at v (codes "rules")) rules (e ∙ ap ok (same ∙ has))

-- ===== src/Policy/Reads.antt =====
-- The checks of the period and of the policy write nothing: they keep every property.
use capital_os.Base.{String, Option, none, some, Bool, List, [], ◌∷◌}
use capital_os.Int.{ℤ}
use capital_os.Store.{
  Database, Env, BundlePayload, Period, PeriodStatus, opened, closed, locked, RuleRow,
}
use capital_os.Store.Steady.{Steady, steady_rules}
use capital_os.Periods.{status_constraint, period_constraint, enforce_period_write_constraints}
use capital_os.Policy.{
  PolicyRule, load_approval_policy, rules_of, load_active_rules, velocity_match, rule_matches,
  first_match, decide_policy, evaluate_transaction_policy,
}

module _ {P : Database → Type 0} where
  status_constraint-Steady :
      (s : PeriodStatus) (payload : BundlePayload) → Steady P (status_constraint s payload)
  unfolding status_constraint
  status_constraint-Steady opened payload = search steady_rules
  status_constraint-Steady closed payload = search steady_rules
  status_constraint-Steady locked payload = search steady_rules

  period_constraint-Steady :
      (p : Option Period) (payload : BundlePayload) → Steady P (period_constraint p payload)
  unfolding period_constraint
  period_constraint-Steady none payload = search steady_rules
  period_constraint-Steady (some p) payload = status_constraint-Steady p.status payload

  pub enforce_period_write_constraints-Steady :
      (payload : BundlePayload) → Steady P (enforce_period_write_constraints payload)
  unfolding enforce_period_write_constraints
  enforce_period_write_constraints-Steady payload = search (steady_rules, period_constraint-Steady)

  load_approval_policy-Steady : (env : Env) → Steady P (load_approval_policy env)
  unfolding load_approval_policy
  load_approval_policy-Steady env = search steady_rules

  rules_of-Steady : (rows : List RuleRow) → Steady P (rules_of rows)
  unfolding rules_of
  rules_of-Steady [] = search steady_rules
  rules_of-Steady (row ∷ rows) = let ih = rules_of-Steady rows in search steady_rules

  load_active_rules-Steady : Steady P load_active_rules
  unfolding load_active_rules
  load_active_rules-Steady = search (steady_rules, rules_of-Steady)

  velocity_match-Steady :
      (rule : PolicyRule) (payload : BundlePayload) → Steady P (velocity_match rule payload)
  unfolding velocity_match
  velocity_match-Steady rule payload = search steady_rules

  rule_matches-Steady :
      (tool : String) (rule : PolicyRule) (payload : BundlePayload)
      → Steady P (rule_matches tool rule payload)
  unfolding rule_matches
  rule_matches-Steady tool rule payload = search (steady_rules, velocity_match-Steady)

  first_match-Steady :
      (tool : String) (payload : BundlePayload) (rules : List PolicyRule)
      → Steady P (first_match tool payload rules)
  unfolding first_match
  first_match-Steady tool payload [] = search steady_rules
  first_match-Steady tool payload (rule ∷ rules) =
      let ih = first_match-Steady tool payload rules in search (steady_rules, rule_matches-Steady)

  decide_policy-Steady :
      (selected : Option PolicyRule) (fallback impact : ℤ) (force : Bool)
      → Steady P (decide_policy selected fallback impact force)
  unfolding decide_policy
  decide_policy-Steady none fallback impact force = search steady_rules
  decide_policy-Steady (some rule) fallback impact force = search steady_rules

  pub evaluate_transaction_policy-Steady :
      (env : Env) (payload : BundlePayload) (impact : ℤ) (tool : String) (force : Bool)
      → Steady P (evaluate_transaction_policy env payload impact tool force)
  unfolding evaluate_transaction_policy
  evaluate_transaction_policy-Steady env payload impact tool force =
      search
        (
          steady_rules, load_approval_policy-Steady, load_active_rules-Steady, first_match-Steady,
          decide_policy-Steady,
        )
        depth 8

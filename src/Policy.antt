-- ===== src/Policy.antt =====
-- src/capital_os/domain/policy/service.py: which approvals a transaction needs.
pub mod Reads
use capital_os.Base.{
  ℕ, zero, ◌+◌, ◌-◌, String, str_eq, Option, none, some, Bool, true, false, ◌&&◌, ◌||◌, not, List,
  [], ◌∷◌, length, select, sort_by, is_some, truthy, opt_eq, ltb, leb, ◌==◌, if◌then◌else◌,
}
use capital_os.Int.{ℤ, pos, ltb_ℤ}
use capital_os.Exec.{Result, ok, err, Error}
use capital_os.Money.{normalize_amount}
use capital_os.Calendar.{timestamp}
use capital_os.Text.{codes, text_leb}
use capital_os.Store.{Database, Env, BundlePayload, RuleRow, TransactionRow}
use capital_os.Store.Action.{Action, pure, raise, raise_if, lift, gets, match_option, ◌>>=◌, ◌>>◌}
use capital_os.Periods.{entity_of}
use capital_os.Approval.Repository.{max_one}

pub record PolicyDecision : Type 0 where
  pub approval_required : Bool
  pub threshold_amount : ℤ
  pub impact_amount : ℤ
  pub required_approvals : ℕ
  pub matched_rule_id : Option String

pub record PolicyRule : Type 0 where
  pub rule_id : String
  pub tool_name : Option String
  pub entity_id : Option String
  pub transaction_category : Option String
  pub risk_band : Option String
  pub velocity_limit_count : Option ℕ
  pub velocity_window_seconds : Option ℕ
  pub threshold_amount : ℤ
  pub required_approvals : ℕ

-- `load_approval_policy` of src/capital_os/domain/approval/policy.py
unfoldable pub load_approval_policy : Env → Action ℤ
load_approval_policy env = do
  threshold ← lift (normalize_amount env.approval_threshold_amount)
  raise_if (ltb_ℤ threshold (pos 0)) (Error.value "approval threshold must be non-negative")
  pure threshold

-- ORDER BY priority ASC, rule_id ASC
abbrev rule_leb : RuleRow → RuleRow → Bool
rule_leb a b =
    ltb_ℤ a.priority b.priority
    || (not (ltb_ℤ b.priority a.priority) && text_leb (codes a.rule_id) (codes b.rule_id))

abbrev rule_of : RuleRow → ℤ → PolicyRule
rule_of row threshold = record {
  rule_id = row.rule_id;
  tool_name = row.tool_name;
  entity_id = row.entity_id;
  transaction_category = row.transaction_category;
  risk_band = row.risk_band;
  velocity_limit_count = row.velocity_limit_count;
  velocity_window_seconds = row.velocity_window_seconds;
  threshold_amount = threshold;
  required_approvals = max_one row.required_approvals;
}

unfoldable pub rules_of : List RuleRow → Action (List PolicyRule)
rules_of [] = pure []
rules_of (row ∷ rows) = do
  threshold ← lift (normalize_amount row.threshold_amount)
  rest ← rules_of rows
  pure (rule_of row threshold ∷ rest)

unfoldable pub load_active_rules : Action (List PolicyRule)
load_active_rules = do
  rows ← gets (λ db. sort_by rule_leb (select (λ row. row.active) db.rules))
  rules_of rows

abbrev same_source : BundlePayload → TransactionRow → Bool
same_source payload t =
    str_eq t.source_system payload.source_system && str_eq t.entity_id (entity_of payload.entity_id)

-- between `tx_date - window` and `tx_date`, both ends included
abbrev in_window : BundlePayload → ℕ → TransactionRow → Bool
in_window payload window t =
    leb (timestamp payload.date) (timestamp t.transaction_date + window)
    && leb (timestamp t.transaction_date) (timestamp payload.date)

-- The transactions of the source in the window, or all of them where the window has none.
unfoldable pub observed_count : BundlePayload → ℕ → Database → ℕ
observed_count payload window db =
    let recent =
      length (select (λ t. same_source payload t && in_window payload window t) db.transactions) in
    if recent == 0 then length (select (same_source payload) db.transactions) else recent

-- A window that begins before the first instant of the calendar raises OverflowError.
unfoldable pub velocity_match : PolicyRule → BundlePayload → Action Bool
velocity_match rule payload = match_option rule.velocity_limit_count (pure true) λ limit.
    match_option rule.velocity_window_seconds (pure true) λ window.
      if ltb (timestamp payload.date) window
      then raise Error.overflow
      else gets (λ db. leb limit (observed_count payload window db))

-- `rule.f and rule.f != value`
abbrev excludes : Option String → Option String → Bool
excludes field value = truthy field && not (opt_eq field value)

unfoldable pub rule_matches : String → PolicyRule → BundlePayload → Action Bool
rule_matches tool_name rule payload =
    if excludes rule.tool_name (some tool_name)
    then pure false
    else if excludes rule.entity_id (some (entity_of payload.entity_id))
    then pure false
    else if excludes rule.transaction_category payload.transaction_category
    then pure false
    else if excludes rule.risk_band payload.risk_band
    then pure false
    else velocity_match rule payload

-- the first rule that matches
unfoldable pub first_match : String → BundlePayload → List PolicyRule → Action (Option PolicyRule)
first_match tool_name payload [] = pure none
first_match tool_name payload (rule ∷ rules) = do
  found ← rule_matches tool_name rule payload
  if found then pure (some rule) else (first_match tool_name payload rules)

-- What the selected rule, or the configured threshold, decides.
unfoldable pub decide_policy : Option PolicyRule → ℤ → ℤ → Bool → Action PolicyDecision
decide_policy none fallback impact force_approval = do
  impact_amount ← lift (normalize_amount (record { coef = impact; places = 4 }))
  pure (record {
    approval_required = force_approval || ltb_ℤ fallback impact;
    threshold_amount = fallback;
    impact_amount = impact_amount;
    required_approvals = 1;
    matched_rule_id = none;
  })
decide_policy (some rule) fallback impact force_approval = do
  impact_amount ← lift (normalize_amount (record { coef = impact; places = 4 }))
  pure (record {
    approval_required =
        force_approval || is_some rule.velocity_limit_count || ltb_ℤ rule.threshold_amount impact;
    threshold_amount = rule.threshold_amount;
    impact_amount = impact_amount;
    required_approvals = rule.required_approvals;
    matched_rule_id = some rule.rule_id;
  })

unfoldable pub evaluate_transaction_policy :
    Env → BundlePayload → ℤ → String → Bool → Action PolicyDecision
evaluate_transaction_policy env payload impact tool_name force_approval = do
  fallback ← load_approval_policy env
  rules ← load_active_rules
  selected ← first_match tool_name payload rules
  decide_policy selected fallback impact force_approval

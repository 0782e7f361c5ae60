-- ===== src/Approval/Repository.antt =====
-- src/capital_os/domain/approval/repository.py: proposals and decisions.
use capital_os.Base.{
  ℕ, zero, suc, String, str_eq, Option, none, some, Bool, true, false, ◌&&◌, not, List, [], ◌∷◌,
  ◌++◌, ◌==◌, is_some, any, find, select, update, length, if◌then◌else◌,
}
use capital_os.Int.{ℤ}
use capital_os.Exec.{Error}
use capital_os.Store.{
  Database, Response, Request, Proposal, Status, idempotent_replay, proposed, Decision, Decided,
  approve, reject, default_entity_id,
}
use capital_os.Store.Action.{Action, pure, raise_if, gets, modify, fresh_id, ◌>>=◌, ◌>>◌}

abbrev pub is_for : String → String → String → Proposal → Bool
is_for tool_name source_system external_id p =
    str_eq p.tool_name tool_name
    && str_eq p.source_system source_system
    && str_eq p.external_id external_id

unfoldable pub fetch_proposal_by_source_external :
    String → String → String → Database → Option Proposal
fetch_proposal_by_source_external tool_name source_system external_id db =
    find (is_for tool_name source_system external_id) db.proposals

unfoldable pub fetch_proposal_by_id : ℕ → Database → Option Proposal
fetch_proposal_by_id proposal_id db = find (λ p. p.proposal_id == proposal_id) db.proposals

abbrev pub max_one : ℕ → ℕ
max_one zero = 1
max_one (suc n) = suc n

-- the arguments of `insert_proposal`
pub record NewProposal : Type 0 where
  pub tool_name : String
  pub source_system : String
  pub external_id : String
  pub correlation_id : String
  pub input_hash : String
  pub policy_threshold_amount : ℤ
  pub impact_amount : ℤ
  pub request_payload : Request
  pub entity_id : Option String
  pub matched_rule_id : Option String
  pub required_approvals : ℕ

-- `entity_id or DEFAULT_ENTITY_ID`
abbrev entity_or_default : Option String → String
entity_or_default none = default_entity_id
entity_or_default (some e) = if str_eq e "" then default_entity_id else e

abbrev pub proposal_of : ℕ → NewProposal → Proposal
proposal_of n p = record {
  proposal_id = n;
  tool_name = p.tool_name;
  source_system = p.source_system;
  external_id = p.external_id;
  correlation_id = p.correlation_id;
  input_hash = p.input_hash;
  policy_threshold_amount = p.policy_threshold_amount;
  impact_amount = p.impact_amount;
  request_payload = p.request_payload;
  status = proposed;
  entity_id = entity_or_default p.entity_id;
  matched_rule_id = p.matched_rule_id;
  required_approvals = max_one p.required_approvals;
  decision_reason = none;
  approved_transaction_id = none;
  response_payload = none;
  output_hash = none;
}

abbrev rule_exists : Option String → Database → Bool
rule_exists none db = true
rule_exists (some rule_id) db = any (λ r. str_eq r.rule_id rule_id) db.rules

unfoldable pub insert_proposal : NewProposal → Action ℕ
insert_proposal p = do
  proposal_id ← fresh_id
  taken ← gets (λ db. any (is_for p.tool_name p.source_system p.external_id) db.proposals)
  raise_if taken (Error.integrity "UNIQUE constraint failed")
  known ← gets (λ db.
      any (str_eq (entity_or_default p.entity_id)) db.entities && rule_exists p.matched_rule_id db)
  raise_if (not known) (Error.integrity "FOREIGN KEY constraint failed")
  modify (λ db. record db { proposals = db.proposals ++ proposal_of proposal_id p ∷ [] })
  pure proposal_id

abbrev is_allowed : Status → Bool
is_allowed idempotent_replay = false
is_allowed _ = true

unfoldable pub persist_proposal_result :
    ℕ → Status → Response → String → Option String → Option ℕ → Action (Unit {0})
persist_proposal_result proposal_id status response output_hash reason transaction_id = do
  raise_if (not (is_allowed status)) (Error.value "invalid proposal status")
  modify (λ db. record db {
    proposals =
        update (λ p. p.proposal_id == proposal_id)
          (λ p. record p {
            status = status;
            response_payload = some response;
            output_hash = some output_hash;
            decision_reason = reason;
            approved_transaction_id = transaction_id;
          })
          db.proposals;
  })

abbrev pub same_action : Decided → Decided → Bool
same_action approve approve = true
same_action approve reject = false
same_action reject approve = false
same_action reject reject = true

-- a decision of this action on the proposal
abbrev pub is_decision : ℕ → Decided → Decision → Bool
is_decision proposal_id action d = d.proposal_id == proposal_id && same_action d.action action

abbrev pub is_by : Option String → Decision → Bool
is_by none d = false
is_by (some a) d = elim d.approver_id [ none ↦ false | some b ↦ str_eq a b ]

unfoldable pub insert_decision :
    ℕ → Decided → String → Option String → Option String → Action (Unit {0})
insert_decision proposal_id action correlation_id reason approver_id = do
  decision_id ← fresh_id
  taken ←
      gets (λ db. any (λ d. is_decision proposal_id action d && is_by approver_id d) db.decisions)
  raise_if taken (Error.integrity "UNIQUE constraint failed")
  modify (λ db. record db {
    decisions =
        db.decisions
        ++ record {
          decision_id = decision_id;
          proposal_id = proposal_id;
          action = action;
          correlation_id = correlation_id;
          reason = reason;
          approver_id = approver_id;
        }
          ∷ [];
  })

unfoldable pub has_approver_decision : ℕ → Decided → Option String → Database → Bool
has_approver_decision proposal_id action approver_id db =
    any (λ d. is_decision proposal_id action d && is_by approver_id d) db.decisions

-- COUNT(*)
unfoldable pub count_decisions : ℕ → Decided → List Decision → ℕ
count_decisions proposal_id action ds = length (select (is_decision proposal_id action) ds)

-- COUNT(DISTINCT approver_id), without NULL: each approver counts at the last of the decisions
unfoldable pub count_approvers : ℕ → Decided → List Decision → ℕ
count_approvers proposal_id action [] = 0
count_approvers proposal_id action (d ∷ ds) =
    let rest = count_approvers proposal_id action ds in
    if is_decision proposal_id action d
      && is_some d.approver_id
      && not (any (λ e. is_decision proposal_id action e && is_by d.approver_id e) ds)
    then suc rest
    else rest

unfoldable pub count_distinct_approvers : ℕ → Decided → Database → ℕ
unfolding count_approvers
count_distinct_approvers proposal_id action db = count_approvers proposal_id action db.decisions

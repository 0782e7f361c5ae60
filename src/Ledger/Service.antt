-- ===== src/Ledger/Service.antt =====
-- `record_transaction_bundle` of src/capital_os/domain/ledger/service.py.
use capital_os.Base.{
  String, str_eq, Option, none, some, Bool, true, false, ◌||◌, not, List, [], ◌∷◌, or_default,
  is_some, any, if◌then◌else◌,
}
use capital_os.Int.{ℤ}
use capital_os.Exec.{Error, Result, ok, err}
use capital_os.Money.{normalize_amount, ensure_balanced, transaction_impact_amount}
use capital_os.Store.{
  Env, BundlePayload, MatchedTransaction, DuplicateContext, Response, Request, Proposal, committed,
  idempotent_replay, proposed, Hashed,
}
use capital_os.Store.Action.{
  Action, pure, raise, raise_if, lift, gets, transaction, on_integrity_error, match_option, ◌>>=◌,
  ◌>>◌,
}
use capital_os.EventLog.{log_event, ok_event}
use capital_os.Periods.{entity_of, enforce_period_write_constraints}
use capital_os.Policy.{PolicyDecision, evaluate_transaction_policy}
use capital_os.Approval.Repository.{
  NewProposal, max_one, fetch_proposal_by_source_external, insert_proposal, persist_proposal_result,
}
use capital_os.Ledger.Repository.{
  resolve_transaction_idempotency, insert_transaction_bundle, save_transaction_response,
}
use capital_os.Ledger.Canonical.{stored_postings}
use capital_os.Ledger.Duplicates.{find_duplicate_risk_matches, duplicate_risk_context}

abbrev pub bundle_tool : String
bundle_tool = "record_transaction_bundle"

-- `response["output_hash"]`
abbrev pub hash_of : Response → Result String
hash_of r = elim r.output_hash [ none ↦ err (Error.key "output_hash") | some h ↦ ok h ]

-- `tx_payload.setdefault("entity_id", DEFAULT_ENTITY_ID)`
abbrev pub with_entity : BundlePayload → BundlePayload
with_entity p = record p { entity_id = some (entity_of p.entity_id) }

abbrev pub is_not_empty {ℓ} : {A : Type ℓ} → List A → Bool
is_not_empty [] = false
is_not_empty (_ ∷ _) = true

module _ (env : Env) where
  -- `payload_hash` of the response, and the response with it
  abbrev pub hashed : Response → Response
  hashed r = record r { output_hash = some (env.payload_hash (Hashed.response r)) }

  abbrev pub log_ok : String → String → String → String → Action (Unit {0})
  log_ok tool correlation_id input_hash output_hash =
      log_event env (ok_event tool correlation_id input_hash output_hash)

  -- A replay is logged, and keeps the hash of the first response.
  unfoldable pub replay_bundle : BundlePayload → String → Response → Action Response
  replay_bundle payload input_hash replay = do
    let output_hash = or_default replay.output_hash (env.payload_hash (Hashed.response replay))
    log_ok bundle_tool payload.correlation_id input_hash output_hash
    pure (record replay { output_hash = some output_hash })

  -- the first response of a proposal
  unfoldable pub new_response : Proposal → Option DuplicateContext → Action Response
  new_response p context = do
    threshold ← lift (normalize_amount (record { coef = p.policy_threshold_amount; places = 4 }))
    impact ← lift (normalize_amount (record { coef = p.impact_amount; places = 4 }))
    pure (
        hashed (record {
          status = proposed;
          transaction_id = none;
          posting_ids = [];
          proposal_id = some p.proposal_id;
          approval_threshold_amount = some threshold;
          impact_amount = some impact;
          matched_rule_id = p.matched_rule_id;
          required_approvals = some (max_one p.required_approvals);
          approvals_received = some 0;
          duplicate_context = context;
          reason = none;
          correlation_id = p.correlation_id;
          output_hash = none;
        }))

  unfoldable pub proposal_response_payload : Proposal → Option DuplicateContext → Action Response
  proposal_response_payload p context =
      match_option p.response_payload (new_response p context) pure

  unfoldable pub context_of :
      BundlePayload → List MatchedTransaction → Action (Option DuplicateContext)
  context_of payload [] = pure none
  context_of payload (m ∷ ms) = do
    context ← lift (duplicate_risk_context payload (m ∷ ms))
    pure (some context)

  unfoldable pub persist_if_new : Proposal → Response → Action (Unit {0})
  persist_if_new p response = do
    output_hash ← lift (hash_of response)
    if is_some p.response_payload
        then pure tt
        else persist_proposal_result p.proposal_id proposed response output_hash none none

  -- the answer that a proposal gives, which is stored with it the first time
  unfoldable pub respond_proposed :
      BundlePayload → String → List MatchedTransaction → Proposal → Action Response
  respond_proposed payload input_hash matches p = do
    context ← context_of (with_entity payload) matches
    response ← proposal_response_payload p context
    persist_if_new p response
    output_hash ← lift (hash_of response)
    log_ok bundle_tool payload.correlation_id input_hash output_hash
    pure response

  unfoldable pub new_proposal : BundlePayload → String → PolicyDecision → ℤ → Action NewProposal
  new_proposal payload input_hash decision impact = do
    postings ← lift (stored_postings payload.postings)
    pure (record {
      tool_name = bundle_tool;
      source_system = payload.source_system;
      external_id = payload.external_id;
      correlation_id = payload.correlation_id;
      input_hash = input_hash;
      policy_threshold_amount = decision.threshold_amount;
      impact_amount = impact;
      request_payload = Request.bundle (record (with_entity payload) { postings = postings });
      entity_id = (with_entity payload).entity_id;
      matched_rule_id = decision.matched_rule_id;
      required_approvals = decision.required_approvals;
    })

  -- a new proposal, inserted and read back
  unfoldable pub insert_request : BundlePayload → NewProposal → Action Proposal
  insert_request payload request = do
    _ ← insert_proposal request
    made ←
        gets
          (fetch_proposal_by_source_external bundle_tool payload.source_system payload.external_id)
    match_option made (raise (Error.invariant "proposal was not persisted")) pure

  unfoldable pub propose_bundle : BundlePayload → String → PolicyDecision → ℤ → Action Proposal
  propose_bundle payload input_hash decision impact = do
    request ← new_proposal payload input_hash decision impact
    insert_request payload request

  -- the proposal of the bundle, made where there is none
  unfoldable pub find_or_propose : BundlePayload → String → PolicyDecision → ℤ → Action Proposal
  find_or_propose payload input_hash decision impact = do
    existing ←
        gets
          (fetch_proposal_by_source_external bundle_tool payload.source_system payload.external_id)
    match_option existing (propose_bundle payload input_hash decision impact) pure

  unfoldable pub commit_bundle : BundlePayload → String → Action Response
  commit_bundle payload input_hash = do
    (tx_id, posting_ids) ← insert_transaction_bundle (with_entity payload) input_hash
    let response : Response = hashed (record {
      status = committed;
      transaction_id = some tx_id;
      posting_ids = posting_ids;
      proposal_id = none;
      approval_threshold_amount = none;
      impact_amount = none;
      matched_rule_id = none;
      required_approvals = none;
      approvals_received = none;
      duplicate_context = none;
      reason = none;
      correlation_id = payload.correlation_id;
      output_hash = none;
    })
    output_hash ← lift (hash_of response)
    save_transaction_response tx_id response output_hash
    log_ok bundle_tool payload.correlation_id input_hash output_hash
    pure response

  -- Past the replay: the period, the policy and the duplicates decide between a proposal and a
  -- commit.
  unfoldable pub decide_bundle : BundlePayload → String → ℤ → Action Response
  decide_bundle payload input_hash impact = do
    force_approval ← enforce_period_write_constraints (with_entity payload)
    decision ←
        evaluate_transaction_policy env (with_entity payload) impact bundle_tool force_approval
    found ← gets (find_duplicate_risk_matches payload.date payload.postings)
    matches ← lift found
    if decision.approval_required || is_not_empty matches
        then (do
          p ← find_or_propose payload input_hash decision impact
          respond_proposed payload input_hash matches p)
        else commit_bundle payload input_hash

  -- the block under `try`
  unfoldable pub record_block : BundlePayload → String → ℤ → Action Response
  record_block payload input_hash impact = do
    replay ← gets (resolve_transaction_idempotency payload.source_system payload.external_id)
    match_option replay (decide_bundle payload input_hash impact) (replay_bundle payload input_hash)

  unfoldable pub recover_proposal : BundlePayload → String → Error → Action Response
  recover_proposal payload input_hash error = do
    existing ←
        gets
          (fetch_proposal_by_source_external bundle_tool payload.source_system payload.external_id)
    match_option existing (raise error) λ p. do
      found ← gets (find_duplicate_risk_matches payload.date payload.postings)
      matches ← lift found
      respond_proposed payload input_hash matches p

  -- the block under `except sqlite3.IntegrityError`
  unfoldable pub recover_block : BundlePayload → String → Error → Action Response
  recover_block payload input_hash error = do
    replay ← gets (resolve_transaction_idempotency payload.source_system payload.external_id)
    match_option replay (recover_proposal payload input_hash error)
        λ r. replay_bundle payload input_hash (record r { status = idempotent_replay })

  -- what follows the checks of the currency and of the balance
  unfoldable pub record_checked : BundlePayload → String → Action Response
  record_checked payload input_hash = do
    impact ← lift (transaction_impact_amount payload.postings)
    on_integrity_error (transaction (record_block payload input_hash impact))
        (λ error. transaction (recover_block payload input_hash error))

  unfoldable pub record_transaction_bundle : BundlePayload → Action Response
  record_transaction_bundle payload = do
    let input_hash = env.payload_hash (Hashed.bundle payload)
    raise_if (any (λ p. not (str_eq p.currency "USD")) payload.postings)
        (Error.invariant "Only USD is supported in phase 1")
    lift (ensure_balanced payload.postings)
    record_checked payload input_hash

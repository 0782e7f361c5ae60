-- ===== src/Approval/Service.antt =====
-- src/capital_os/domain/approval/service.py: approving and rejecting a proposal.
use capital_os.Base.{
  ℕ, String, Option, none, some, Bool, true, false, ◌&&◌, not, List, [], or_default, truthy, ltb,
  leb, if◌then◌else◌,
}
use capital_os.Exec.{Error}
use capital_os.Store.{
  Database, Env, ApprovalPayload, BundlePayload, Response, Request, Proposal, Status, committed,
  proposed, rejected, approve, reject, Hashed,
}
use capital_os.Store.Action.{
  Action, pure, raise, raise_if, lift, gets, transaction, on_integrity_error, match_option, ◌>>=◌,
  ◌>>◌,
}
use capital_os.Approval.Repository.{
  max_one, fetch_proposal_by_id, persist_proposal_result, insert_decision, has_approver_decision,
  count_decisions, count_distinct_approvers,
}
use capital_os.Ledger.Repository.{
  resolve_transaction_idempotency, insert_transaction_bundle, save_transaction_response,
}
use capital_os.Ledger.Service.{hash_of, hashed, log_ok}

abbrev pub approve_tool : String
approve_tool = "approve_proposed_transaction"

abbrev pub reject_tool : String
reject_tool = "reject_proposed_transaction"

unfoldable pub approval_count : ℕ → ℕ → Database → ℕ
approval_count proposal_id required db =
    if leb required 1
    then count_decisions proposal_id approve db.decisions
    else count_distinct_approvers proposal_id approve db

abbrev pub is_rejected : Status → Bool
is_rejected rejected = true
is_rejected _ = false

abbrev pub is_committed : Status → Bool
is_committed committed = true
is_committed _ = false

-- a response with no key but these
abbrev pub bare_response : Status → ℕ → String → Response
bare_response status proposal_id correlation_id = record {
  status = status;
  transaction_id = none;
  posting_ids = [];
  proposal_id = some proposal_id;
  approval_threshold_amount = none;
  impact_amount = none;
  matched_rule_id = none;
  required_approvals = none;
  approvals_received = none;
  duplicate_context = none;
  reason = none;
  correlation_id = correlation_id;
  output_hash = none;
}

abbrev pub counted_response : Status → Proposal → ℕ → ℕ → Response
counted_response status p required received =
    record (bare_response status p.proposal_id p.correlation_id) {
      required_approvals = some required;
      approvals_received = some received;
    }

-- the proposal of the payload
unfoldable pub with_proposal : ApprovalPayload → (Proposal → Action Response) → Action Response
with_proposal payload step = do
  found ← gets (fetch_proposal_by_id payload.proposal_id)
  match_option found (raise (Error.invariant "proposal not found")) step

module _ (env : Env) where
  -- a stored response, logged with its hash
  unfoldable pub replay_response : String → String → String → Response → Action Response
  replay_response tool correlation_id input_hash response = do
    let output_hash = or_default response.output_hash (env.payload_hash (Hashed.response response))
    log_ok env tool correlation_id input_hash output_hash
    pure (record response { output_hash = some output_hash })

  unfoldable pub replay_committed : ApprovalPayload → String → Option Response → Action Response
  replay_committed payload input_hash response =
      match_option response
        (raise (Error.invariant "proposal is committed but missing response payload"))
        (replay_response approve_tool payload.correlation_id input_hash)

  -- the approvals so far
  unfoldable pub proposed_response : Proposal → ℕ → ℕ → Response
  proposed_response p required received = hashed env (counted_response proposed p required received)

  unfoldable pub report_proposed : ApprovalPayload → String → Proposal → ℕ → Action Response
  report_proposed payload input_hash p required = do
    received ← gets (approval_count p.proposal_id required)
    let response = proposed_response p required received
    output_hash ← lift (hash_of response)
    log_ok env approve_tool payload.correlation_id input_hash output_hash
    pure response

  -- `except sqlite3.IntegrityError: if not approver_id: raise`
  unfoldable pub record_decision : ApprovalPayload → Proposal → Action (Unit {0})
  record_decision payload p =
      on_integrity_error
        (insert_decision p.proposal_id approve payload.correlation_id payload.reason
          payload.approver_id)
        (λ error. if truthy payload.approver_id then pure tt else raise error)

  -- the transaction that was inserted, with its answer
  unfoldable pub answer_inserted : Proposal → ℕ → ℕ → ℕ × List ℕ → Action Response
  answer_inserted p required received (tx_id, posting_ids) = do
    let response : Response = hashed env (record (counted_response committed p required received) {
      transaction_id = some tx_id;
      posting_ids = posting_ids;
    })
    output_hash ← lift (hash_of response)
    save_transaction_response tx_id response output_hash
    pure response

  -- the block under the inner `try`
  unfoldable pub insert_block : Proposal → BundlePayload → ℕ → ℕ → Action Response
  insert_block p request required received = do
    inserted ← insert_transaction_bundle request p.input_hash
    answer_inserted p required received inserted

  -- the block under its `except sqlite3.IntegrityError`
  unfoldable pub reuse_block : Proposal → BundlePayload → ℕ → ℕ → Error → Action Response
  reuse_block p request required received error = do
    replay ← gets (resolve_transaction_idempotency request.source_system request.external_id)
    match_option replay (raise error) λ r.
        pure (record (counted_response committed p required received) {
          transaction_id = r.transaction_id;
          posting_ids = r.posting_ids;
          output_hash = some (or_default r.output_hash (env.payload_hash (Hashed.response r)));
        })

  -- the bundle of the request, inserted and answered
  unfoldable pub insert_approved : Request → Proposal → ℕ → ℕ → Action Response
  insert_approved Request.other p required received = raise (Error.key "postings")
  insert_approved (Request.bundle request) p required received =
      on_integrity_error (insert_block p request required received)
        (reuse_block p request required received)

  unfoldable pub commit_proposal : ApprovalPayload → String → Proposal → ℕ → ℕ → Action Response
  commit_proposal payload input_hash p required received = do
    response ← insert_approved p.request_payload p required received
    output_hash ← lift (hash_of response)
    persist_proposal_result p.proposal_id committed response output_hash payload.reason
        response.transaction_id
    log_ok env approve_tool payload.correlation_id input_hash output_hash
    pure response

  unfoldable pub await_approvals : ApprovalPayload → String → Proposal → ℕ → ℕ → Action Response
  await_approvals payload input_hash p required received = do
    let response = proposed_response p required received
    output_hash ← lift (hash_of response)
    persist_proposal_result p.proposal_id proposed response output_hash payload.reason none
    log_ok env approve_tool payload.correlation_id input_hash output_hash
    pure response

  -- committed with enough approvals
  unfoldable pub settle_approval : ApprovalPayload → String → Proposal → ℕ → Action Response
  settle_approval payload input_hash p required = do
    received ← gets (approval_count p.proposal_id required)
    if ltb received required
        then await_approvals payload input_hash p required received
        else commit_proposal payload input_hash p required received

  unfoldable pub decide_approval : ApprovalPayload → String → Proposal → ℕ → Action Response
  decide_approval payload input_hash p required = do
    record_decision payload p
    settle_approval payload input_hash p required

  -- what follows the checks, where `decided` says that this approver has approved before
  unfoldable pub answer_approval : ApprovalPayload → String → Proposal → ℕ → Bool → Action Response
  answer_approval payload input_hash p required decided =
      if is_committed p.status
      then replay_committed payload input_hash p.response_payload
      else if truthy payload.approver_id && decided
      then report_proposed payload input_hash p required
      else decide_approval payload input_hash p required

  unfoldable pub approve_proposal : ApprovalPayload → String → Proposal → Action Response
  approve_proposal payload input_hash p = do
    raise_if (is_rejected p.status) (Error.invariant "rejected proposals cannot be approved")
    let required = max_one p.required_approvals
    raise_if (ltb 1 required && not (truthy payload.approver_id))
        (Error.invariant "approver_id is required for multi-party approvals")
    decided ← gets (has_approver_decision p.proposal_id approve payload.approver_id)
    answer_approval payload input_hash p required decided

  unfoldable pub approve_proposed_transaction : ApprovalPayload → Action Response
  approve_proposed_transaction payload = transaction (
      with_proposal payload (approve_proposal payload (env.payload_hash (Hashed.approval payload))))

  unfoldable pub reject_new : ApprovalPayload → String → Proposal → Action Response
  reject_new payload input_hash p = do
    let response : Response =
        hashed env (record (bare_response rejected p.proposal_id p.correlation_id) {
          reason = payload.reason;
        })
    output_hash ← lift (hash_of response)
    persist_proposal_result p.proposal_id rejected response output_hash payload.reason none
    insert_decision p.proposal_id reject payload.correlation_id payload.reason payload.approver_id
    log_ok env reject_tool payload.correlation_id input_hash output_hash
    pure response

  unfoldable pub reject_proposal : ApprovalPayload → String → Proposal → Action Response
  reject_proposal payload input_hash p = do
    raise_if (is_committed p.status) (Error.invariant "committed proposals cannot be rejected")
    if is_rejected p.status
        then (match_option p.response_payload (reject_new payload input_hash p)
            (replay_response reject_tool payload.correlation_id input_hash))
        else reject_new payload input_hash p

  unfoldable pub reject_proposed_transaction : ApprovalPayload → Action Response
  reject_proposed_transaction payload =
      transaction (
        with_proposal payload
          (reject_proposal payload (env.payload_hash (Hashed.approval payload))))

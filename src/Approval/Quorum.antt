-- ===== src/Approval/Quorum.antt =====
-- A proposal is committed only by enough approvals.
use capital_os.Base.{
  ℕ, ◌≤◌, ◌≡◌, ◌⊎◌, refl, String, Option, some, Bool, false, Bool-cases, inl, inr, List, [], ◌∷◌,
  ltb→le, ltb, truthy, ◌&&◌,
}
use capital_os.Exec.{Error, Result}
use capital_os.Money.{Posting}
use capital_os.Store.{
  Database, Env, Hashed, BundlePayload, ApprovalPayload, Response, Request, Proposal, Status,
  Decision,
}
use capital_os.Store.Action.{modify, fresh_id}
use capital_os.Store.Keeps.{Post, Post-of, Post-transaction, Says, Says-bind, Says-if, says_rules}
use capital_os.Store.Steady.{Steady, Keeps-of-Steady, steady_rules}
use capital_os.EventLog.{EventFields, log_event}
use capital_os.Ledger.Repository.{
  insert_transaction_row, insert_posting, insert_postings, insert_sorted, insert_transaction_bundle,
  save_transaction_response,
}
use capital_os.Approval.Repository.{
  max_one, fetch_proposal_by_id, count_distinct_approvers, persist_proposal_result,
}
use capital_os.Approval.Service.{
  proposed_response, is_committed, approval_count, report_proposed, await_approvals,
  answer_inserted, insert_block, reuse_block, insert_approved, commit_proposal, decide_approval,
  settle_approval, answer_approval, approve_proposal, with_proposal, approve_proposed_transaction,
}

-- The decisions are these.
abbrev Decisions : List Decision → Database → Type 0
Decisions ds db = db.decisions ≡ ds

modify-Decisions :
    (ds : List Decision) (f : Database → Database)
    → ((db : Database) → (f db).decisions ≡ db.decisions)
    → Steady (Decisions ds) (modify f)
modify-Decisions ds f same = record { at = λ db h. rw (same db) h }

fresh_id-Decisions : (ds : List Decision) → Steady (Decisions ds) fresh_id
fresh_id-Decisions ds = record { at = λ db h. h }

ruleset write_rules = (steady_rules, modify-Decisions, fresh_id-Decisions)

module _ (ds : List Decision) where
  insert_transaction_row-Decisions :
      (payload : BundlePayload) (h : String) (tx : ℕ)
      → Steady (Decisions ds) (insert_transaction_row payload h tx)
  unfolding insert_transaction_row
  insert_transaction_row-Decisions payload h tx = search write_rules depth 12

  insert_posting-Decisions : (tx : ℕ) (p : Posting) → Steady (Decisions ds) (insert_posting tx p)
  unfolding insert_posting
  insert_posting-Decisions tx p = search write_rules depth 14

  insert_postings-Decisions :
      (tx : ℕ) (ps : List Posting) → Steady (Decisions ds) (insert_postings tx ps)
  unfolding insert_postings
  insert_postings-Decisions tx [] = search write_rules
  insert_postings-Decisions tx (p ∷ ps) =
      let ih = insert_postings-Decisions tx ps in search (write_rules, insert_posting-Decisions)

  insert_sorted-Decisions :
      (payload : BundlePayload) (tx : ℕ) → Steady (Decisions ds) (insert_sorted payload tx)
  unfolding insert_sorted
  insert_sorted-Decisions payload tx = search (write_rules, insert_postings-Decisions)

  insert_transaction_bundle-Decisions :
      (payload : BundlePayload) (h : String)
      → Steady (Decisions ds) (insert_transaction_bundle payload h)
  unfolding insert_transaction_bundle
  insert_transaction_bundle-Decisions payload h =
      search (write_rules, insert_transaction_row-Decisions, insert_sorted-Decisions) depth 10

  save_transaction_response-Decisions :
      (tx : ℕ) (r : Response) (h : String)
      → Steady (Decisions ds) (save_transaction_response tx r h)
  unfolding save_transaction_response
  save_transaction_response-Decisions tx r h = search write_rules depth 10

  persist_proposal_result-Decisions :
      (n : ℕ) (s : Status) (r : Response) (h : String) (why : Option String) (tx : Option ℕ)
      → Steady (Decisions ds) (persist_proposal_result n s r h why tx)
  unfolding persist_proposal_result
  persist_proposal_result-Decisions n s r h why tx = search write_rules depth 10

  log_event-Decisions : (env : Env) (e : EventFields) → Steady (Decisions ds) (log_event env e)
  unfolding log_event
  log_event-Decisions env e = search write_rules depth 10

  module _ (env : Env) where
    answer_inserted-Decisions :
        (p : Proposal) (required received : ℕ) (a : ℕ × List ℕ)
        → Steady (Decisions ds) (answer_inserted env p required received a)
    unfolding answer_inserted
    answer_inserted-Decisions p required received (tx, ids) =
        search (write_rules, save_transaction_response-Decisions) depth 10

    insert_block-Decisions :
        (p : Proposal) (b : BundlePayload) (required received : ℕ)
        → Steady (Decisions ds) (insert_block env p b required received)
    unfolding insert_block
    insert_block-Decisions p b required received =
        search (write_rules, insert_transaction_bundle-Decisions, answer_inserted-Decisions)

    reuse_block-Decisions :
        (p : Proposal) (b : BundlePayload) (required received : ℕ) (e : Error)
        → Steady (Decisions ds) (reuse_block env p b required received e)
    unfolding reuse_block
    reuse_block-Decisions p b required received e = search write_rules

    insert_approved-Decisions :
        (r : Request) (p : Proposal) (required received : ℕ)
        → Steady (Decisions ds) (insert_approved env r p required received)
    unfolding insert_approved
    insert_approved-Decisions Request.other p required received = search write_rules
    insert_approved-Decisions (Request.bundle b) p required received =
        search (write_rules, insert_block-Decisions, reuse_block-Decisions)

    commit_proposal-Decisions :
        (payload : ApprovalPayload) (h : String) (p : Proposal) (required received : ℕ)
        → Steady (Decisions ds) (commit_proposal env payload h p required received)
    unfolding commit_proposal
    commit_proposal-Decisions payload h p required received =
        search
          (
            write_rules, insert_approved-Decisions, persist_proposal_result-Decisions,
            log_event-Decisions,
          )
          depth 12

-- An answer that says committed comes with enough approvals.
abbrev pub Enough : ℕ → ℕ → Response → Database → Type 0
Enough n required r d = (is_committed r.status ≡ false) ⊎ (required ≤ approval_count n required d)

-- An answer that does not say committed.
abbrev Waits : Response → Database → Type 0
Waits r d = is_committed r.status ≡ false

Enough-of-Waits :
    (n required : ℕ) (out : Result Response × Database)
    → Post Waits out
    → Post (Enough n required) out
Enough-of-Waits n required out waits = Post-of out waits λ r d no. inl no

module _ (env : Env) where
  await_approvals-Waits :
      (payload : ApprovalPayload) (h : String) (p : Proposal) (required received : ℕ)
      → Says Waits (await_approvals env payload h p required received)
  unfolding await_approvals proposed_response
  await_approvals-Waits payload h p required received = search says_rules depth 10

  report_proposed-Waits :
      (payload : ApprovalPayload) (h : String) (p : Proposal) (required : ℕ)
      → Says Waits (report_proposed env payload h p required)
  unfolding report_proposed proposed_response
  report_proposed-Waits payload h p required = search says_rules depth 10

  commit_proposal-Enough :
      (payload : ApprovalPayload) (h : String) (p : Proposal) (required : ℕ) (db : Database)
      → required ≤ approval_count p.proposal_id required db
      → Post
          (Enough p.proposal_id required)
          (commit_proposal env payload h p required (approval_count p.proposal_id required db) db)
  unfolding approval_count count_distinct_approvers
  commit_proposal-Enough payload h p required db enough =
      let keeps : Steady (Decisions db.decisions)
          (commit_proposal env payload h p required (approval_count p.proposal_id required db)) =
        commit_proposal-Decisions db.decisions env payload h p required _ in
      Post-of {R = Enough p.proposal_id required}
        (commit_proposal env payload h p required (approval_count p.proposal_id required db) db)
        ((Keeps-of-Steady _ keeps).at db refl) λ r d same. inr (rw same enough)

  settle_approval-Enough :
      (payload : ApprovalPayload) (h : String) (p : Proposal) (required : ℕ)
      → Says (Enough p.proposal_id required) (settle_approval env payload h p required)
  unfolding settle_approval
  settle_approval-Enough payload h p required = record {
    at = λ d. elim (Bool-cases (ltb (approval_count p.proposal_id required d) required)) [
      | inl few ↦ rw few (
          Enough-of-Waits p.proposal_id required _
            ((await_approvals-Waits payload h p required _).at d))
      | inr enough ↦ rw enough (commit_proposal-Enough payload h p required d (ltb→le _ _ enough))
    ];
  }

  decide_approval-Enough :
      (payload : ApprovalPayload) (h : String) (p : Proposal) (required : ℕ)
      → Says (Enough p.proposal_id required) (decide_approval env payload h p required)
  unfolding decide_approval
  decide_approval-Enough payload h p required = search (Says-bind, settle_approval-Enough)

  report_proposed-Enough :
      (payload : ApprovalPayload) (h : String) (p : Proposal) (required : ℕ)
      → Says (Enough p.proposal_id required) (report_proposed env payload h p required)
  report_proposed-Enough payload h p required = record {
    at = λ d.
        Enough-of-Waits p.proposal_id required _
          ((report_proposed-Waits payload h p required).at d);
  }

  answer_approval-Enough :
      (payload : ApprovalPayload) (h : String) (p : Proposal) (required : ℕ) (decided : Bool)
      → is_committed p.status ≡ false
      → Says (Enough p.proposal_id required) (answer_approval env payload h p required decided)
  unfolding answer_approval
  answer_approval-Enough payload h p required decided fresh = rw fresh (
      Says-if (truthy payload.approver_id && decided) _ _
        (report_proposed-Enough payload h p required) (decide_approval-Enough payload h p required))

  approve_proposal-Enough :
      (payload : ApprovalPayload) (h : String) (p : Proposal)
      → is_committed p.status ≡ false
      → Says
          (Enough p.proposal_id (max_one p.required_approvals))
          (approve_proposal env payload h p)
  unfolding approve_proposal
  approve_proposal-Enough payload h p fresh = search (Says-bind, answer_approval-Enough) depth 8

-- An approval that commits a proposal that was not committed has the approvals that the proposal
-- requires: as many decisions to approve it, and of as many approvers where it requires several.
pub approve_proposed_transaction-Enough :
    (env : Env) (payload : ApprovalPayload) (db : Database) (p : Proposal)
    → fetch_proposal_by_id payload.proposal_id db ≡ some p
    → is_committed p.status ≡ false
    → Post
        (Enough p.proposal_id (max_one p.required_approvals))
        (approve_proposed_transaction env payload db)
unfolding approve_proposed_transaction with_proposal
approve_proposed_transaction-Enough env payload db p found fresh = Post-transaction _ _ db (
    rw found (
      (approve_proposal-Enough env payload (env.payload_hash (Hashed.approval payload)) p fresh).at
        db))

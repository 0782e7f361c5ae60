-- ===== src/Ledger/Untouched.antt =====
-- The steps of `record_transaction_bundle` (src/capital_os/domain/ledger/service.py) that write no
-- transaction: they keep whatever holds of the table of the transactions.
use capital_os.Base.{ℕ, ◌≡◌, String, Option, List, [], ◌∷◌}
use capital_os.Int.{ℤ}
use capital_os.Exec.{Error}
use capital_os.Money.{Posting}
use capital_os.Store.{
  Database, Env, BundlePayload, TransactionRow, MatchedTransaction, DuplicateContext, Response,
  Status, Proposal,
}
use capital_os.Store.Action.{modify, fresh_id}
use capital_os.Store.Steady.{Steady, steady_rules}
use capital_os.EventLog.{EventFields, log_event}
use capital_os.Policy.{PolicyDecision}
use capital_os.Approval.Repository.{NewProposal, insert_proposal, persist_proposal_result}
use capital_os.Ledger.Repository.{insert_posting, insert_postings, insert_sorted}
use capital_os.Ledger.Service.{
  replay_bundle, new_response, proposal_response_payload, insert_request, propose_bundle,
  context_of, persist_if_new, respond_proposed, new_proposal, find_or_propose, recover_proposal,
}

module _ (R : List TransactionRow → Type 0) where
  -- `R` holds of the transactions.
  abbrev pub Of : Database → Type 0
  Of d = R d.transactions

  modify-Of :
      (f : Database → Database)
      → ((db : Database) → (f db).transactions ≡ db.transactions)
      → Steady Of (modify f)
  modify-Of f same = record { at = λ db h. rw (same db) h }

  fresh_id-Of : Steady Of fresh_id
  fresh_id-Of = record { at = λ db h. h }

  insert_posting-Of : (tx : ℕ) (p : Posting) → Steady Of (insert_posting tx p)
  unfolding insert_posting
  insert_posting-Of tx p = search (steady_rules, modify-Of, fresh_id-Of) depth 14

  pub insert_postings-Of : (tx : ℕ) (ps : List Posting) → Steady Of (insert_postings tx ps)
  unfolding insert_postings
  insert_postings-Of tx [] = search steady_rules
  insert_postings-Of tx (p ∷ ps) =
      let ih = insert_postings-Of tx ps in search (steady_rules, insert_posting-Of)

  pub insert_sorted-Of : (payload : BundlePayload) (tx : ℕ) → Steady Of (insert_sorted payload tx)
  unfolding insert_sorted
  insert_sorted-Of payload tx = search (steady_rules, insert_postings-Of)

  pub log_event-Of : (env : Env) (e : EventFields) → Steady Of (log_event env e)
  unfolding log_event
  log_event-Of env e = search (steady_rules, modify-Of, fresh_id-Of)

  insert_proposal-Of : (p : NewProposal) → Steady Of (insert_proposal p)
  unfolding insert_proposal
  insert_proposal-Of p = search (steady_rules, modify-Of, fresh_id-Of) depth 12

  persist_proposal_result-Of :
      (n : ℕ) (s : Status) (r : Response) (h : String) (reason : Option String) (tx : Option ℕ)
      → Steady Of (persist_proposal_result n s r h reason tx)
  unfolding persist_proposal_result
  persist_proposal_result-Of n s r h reason tx = search (steady_rules, modify-Of)

  module _ (env : Env) where
    pub replay_bundle-Of :
        (payload : BundlePayload) (h : String) (r : Response)
        → Steady Of (replay_bundle env payload h r)
    unfolding replay_bundle
    replay_bundle-Of payload h r = search (steady_rules, log_event-Of)

    proposal_response_payload-Of :
        (p : Proposal) (c : Option DuplicateContext) → Steady Of (proposal_response_payload env p c)
    unfolding proposal_response_payload new_response
    proposal_response_payload-Of p c = search steady_rules depth 8

    context_of-Of :
        (payload : BundlePayload) (ms : List MatchedTransaction)
        → Steady Of (context_of env payload ms)
    unfolding context_of
    context_of-Of payload [] = search steady_rules
    context_of-Of payload (m ∷ ms) = search steady_rules

    persist_if_new-Of : (p : Proposal) (r : Response) → Steady Of (persist_if_new env p r)
    unfolding persist_if_new
    persist_if_new-Of p r = search (steady_rules, persist_proposal_result-Of)

    pub respond_proposed-Of :
        (payload : BundlePayload) (h : String) (ms : List MatchedTransaction) (p : Proposal)
        → Steady Of (respond_proposed env payload h ms p)
    unfolding respond_proposed
    respond_proposed-Of payload h ms p =
        search
          (
            steady_rules, context_of-Of, proposal_response_payload-Of, persist_if_new-Of,
            log_event-Of,
          )
          depth 10

    insert_request-Of :
        (payload : BundlePayload) (q : NewProposal) → Steady Of (insert_request env payload q)
    unfolding insert_request
    insert_request-Of payload q = search (steady_rules, insert_proposal-Of) depth 8

    propose_bundle-Of :
        (payload : BundlePayload) (h : String) (d : PolicyDecision) (impact : ℤ)
        → Steady Of (propose_bundle env payload h d impact)
    unfolding propose_bundle new_proposal
    propose_bundle-Of payload h d impact = search (steady_rules, insert_request-Of) depth 8

    pub find_or_propose-Of :
        (payload : BundlePayload) (h : String) (d : PolicyDecision) (impact : ℤ)
        → Steady Of (find_or_propose env payload h d impact)
    unfolding find_or_propose
    find_or_propose-Of payload h d impact = search (steady_rules, propose_bundle-Of)

    pub recover_proposal-Of :
        (payload : BundlePayload) (h : String) (e : Error)
        → Steady Of (recover_proposal env payload h e)
    unfolding recover_proposal
    recover_proposal-Of payload h e = search (steady_rules, respond_proposed-Of) depth 8

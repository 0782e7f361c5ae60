-- ===== src/Ledger/Books.antt =====
-- Recording a bundle keeps every transaction of the books balanced.
use capital_os.Base.{
  ℕ, ◌<◌, ◌≡◌, sym, ap, ◌∙◌, String, Option, inl, inr, List, [], ◌∷◌, ◌++◌, ◌==◌, All-append,
  All-update, update,
}
use capital_os.Int.{ℤ, pos, ◌+ℤ◌}
use capital_os.Exec.{Error, ok, Result-cases, >>=-eq-ok}
use capital_os.Money.{Posting, context_limit, normalize_amount, ensure_balanced, nearest_units}
use capital_os.Money.Balance.{total_units, total_size, nearest_units_four, ensure_balanced-eq_ok}
use capital_os.Store.{
  Database, Env, BundlePayload, MatchedTransaction, DuplicateContext, Response, Proposal, Status,
}
use capital_os.Store.Action.{pure, modify}
use capital_os.Store.Keeps.{
  Post, Keeps, Keeps-bind_with, Keeps-bind, Keeps-gets, Keeps-option, Keeps-pure, keeps_rules,
}
use capital_os.Store.Steady.{
  Steady, Keeps-of-Steady, Steady-transaction, Steady-bind, Steady-bind_lift, Steady-raise_if,
  steady_rules,
}
use capital_os.EventLog.{EventFields, log_event}
use capital_os.Policy.{PolicyDecision}
use capital_os.Policy.Reads.{
  enforce_period_write_constraints-Steady, evaluate_transaction_policy-Steady,
}
use capital_os.Approval.Repository.{
  NewProposal, proposal_of, insert_proposal, persist_proposal_result,
}
use capital_os.Ledger.Repository.{save_transaction_response}
use capital_os.Ledger.Service.{
  replay_bundle, new_response, proposal_response_payload, insert_request, propose_bundle,
  context_of, persist_if_new, respond_proposed, new_proposal, find_or_propose, commit_bundle,
  decide_bundle, record_block, recover_proposal, recover_block, record_checked,
  record_transaction_bundle,
}
use capital_os.Ledger.Canonical.{stored_posting, stored_postings}
use capital_os.Ledger.Balance.{
  IsBalanced, RequestBalances, modify-IsBalanced, fresh_id-IsBalanced, normalize_amount-eq_ok,
  insert_transaction_bundle-IsBalanced,
}

pub log_event-IsBalanced : (env : Env) (e : EventFields) → Keeps IsBalanced (log_event env e)
unfolding log_event
log_event-IsBalanced env e = search (keeps_rules, modify-IsBalanced, fresh_id-IsBalanced)

pub save_transaction_response-IsBalanced :
    (tx : ℕ) (r : Response) (h : String) → Keeps IsBalanced (save_transaction_response tx r h)
unfolding save_transaction_response
save_transaction_response-IsBalanced tx r h = search (keeps_rules, modify-IsBalanced) depth 8

-- Storing a result changes no request.
persist_write-IsBalanced :
    (n : ℕ) (f : Proposal → Proposal)
    → ((p : Proposal) → (f p).request_payload ≡ p.request_payload)
    → Keeps IsBalanced
        (modify (λ db. record db { proposals = update (λ p. p.proposal_id == n) f db.proposals }))
persist_write-IsBalanced n f same = record {
  at = λ db h. record {
    books = h.books;
    requests =
        All-update (λ (p : Proposal). RequestBalances p.request_payload) _ f
          (λ p balances. rw (same p) balances) db.proposals h.requests;
  };
}

pub persist_proposal_result-IsBalanced :
    (n : ℕ) (s : Status) (r : Response) (h : String) (why : Option String) (tx : Option ℕ)
    → Keeps IsBalanced (persist_proposal_result n s r h why tx)
unfolding persist_proposal_result
persist_proposal_result-IsBalanced n s r h why tx =
    search (keeps_rules, persist_write-IsBalanced) depth 8

total_units-stored_postings :
    (ps qs : List Posting) → stored_postings ps ≡ ok qs → total_units qs ≡ total_units ps
unfolding stored_postings
total_units-stored_postings [] qs h = let e : [] ≡ qs = cc in ap total_units (sym e)
total_units-stored_postings (p ∷ ps) qs h =
    let (z, normal, h') = >>=-eq-ok (normalize_amount p.amount) _ h in
    let (rest, stored, h'') = >>=-eq-ok (stored_postings ps) _ h' in
    let e : stored_posting p z ∷ rest ≡ qs = cc in
    rw (← e, nearest_units_four z, normalize_amount-eq_ok p.amount z normal)
      (ap (λ (t : ℤ). nearest_units p.amount +ℤ t) (total_units-stored_postings ps rest stored))

-- A new proposal is one request more.
propose-IsBalanced :
    (n : ℕ) (p : NewProposal)
    → RequestBalances p.request_payload
    → Keeps IsBalanced
        (modify (λ db. record db { proposals = db.proposals ++ proposal_of n p ∷ [] }))
propose-IsBalanced n p balances = record {
  at = λ db h. record {
    books = h.books;
    requests =
        All-append (λ (q : Proposal). RequestBalances q.request_payload) db.proposals _ h.requests
          (balances, tt);
  };
}

insert_proposal-IsBalanced :
    (p : NewProposal) → RequestBalances p.request_payload → Keeps IsBalanced (insert_proposal p)
unfolding insert_proposal
insert_proposal-IsBalanced p balances =
    search (keeps_rules, fresh_id-IsBalanced, propose-IsBalanced) depth 10

pub ruleset balance_rules = (
  keeps_rules, modify-IsBalanced, fresh_id-IsBalanced, log_event-IsBalanced,
  save_transaction_response-IsBalanced, persist_proposal_result-IsBalanced,
)

module _ (env : Env) where
  replay_bundle-IsBalanced :
      (payload : BundlePayload) (h : String) (r : Response)
      → Keeps IsBalanced (replay_bundle env payload h r)
  unfolding replay_bundle
  replay_bundle-IsBalanced payload h r = search balance_rules

  commit_bundle-IsBalanced :
      (payload : BundlePayload) (h : String)
      → total_units payload.postings ≡ pos 0
      → Keeps IsBalanced (commit_bundle env payload h)
  unfolding commit_bundle
  commit_bundle-IsBalanced payload h zero_sum =
      search (balance_rules, insert_transaction_bundle-IsBalanced) depth 12

  context_of-IsBalanced :
      (payload : BundlePayload) (ms : List MatchedTransaction)
      → Keeps IsBalanced (context_of env payload ms)
  unfolding context_of
  context_of-IsBalanced payload [] = search keeps_rules
  context_of-IsBalanced payload (m ∷ ms) = search keeps_rules

  proposal_response_payload-IsBalanced :
      (p : Proposal) (c : Option DuplicateContext)
      → Keeps IsBalanced (proposal_response_payload env p c)
  unfolding proposal_response_payload new_response
  proposal_response_payload-IsBalanced p c =
      Keeps-option p.response_payload (new_response env p c) pure (search keeps_rules) Keeps-pure

  persist_if_new-IsBalanced :
      (p : Proposal) (r : Response) → Keeps IsBalanced (persist_if_new env p r)
  unfolding persist_if_new
  persist_if_new-IsBalanced p r = search balance_rules

  respond_proposed-IsBalanced :
      (payload : BundlePayload) (h : String) (ms : List MatchedTransaction) (p : Proposal)
      → Keeps IsBalanced (respond_proposed env payload h ms p)
  unfolding respond_proposed
  respond_proposed-IsBalanced payload h ms p =
      search
        (
          balance_rules, context_of-IsBalanced, proposal_response_payload-IsBalanced,
          persist_if_new-IsBalanced,
        )
        depth 8

  new_proposal-balances :
      (payload : BundlePayload) (h : String) (d : PolicyDecision) (impact : ℤ) (db : Database)
      → total_units payload.postings ≡ pos 0
      → IsBalanced db
      → Post
          (λ p d'. IsBalanced d' × RequestBalances p.request_payload)
          (new_proposal env payload h d impact db)
  unfolding new_proposal
  new_proposal-balances payload h d impact db zero_sum b =
      elim (Result-cases (stored_postings payload.postings)) [
        | inl (qs, e) ↦ rw e (b, total_units-stored_postings payload.postings qs e ∙ zero_sum)
        | inr (er, e) ↦ rw e tt
      ]

  insert_request-IsBalanced :
      (payload : BundlePayload) (p : NewProposal)
      → RequestBalances p.request_payload
      → Keeps IsBalanced (insert_request env payload p)
  unfolding insert_request
  insert_request-IsBalanced payload p balances =
      search (keeps_rules, insert_proposal-IsBalanced) depth 8

  propose_bundle-IsBalanced :
      (payload : BundlePayload) (h : String) (d : PolicyDecision) (impact : ℤ)
      → total_units payload.postings ≡ pos 0
      → Keeps IsBalanced (propose_bundle env payload h d impact)
  unfolding propose_bundle
  propose_bundle-IsBalanced payload h d impact zero_sum =
      Keeps-bind_with (λ p. RequestBalances p.request_payload) (new_proposal env payload h d impact)
        (insert_request env payload)
        (λ db b. new_proposal-balances payload h d impact db zero_sum b)
        (insert_request-IsBalanced payload)

  find_or_propose-IsBalanced :
      (payload : BundlePayload) (h : String) (d : PolicyDecision) (impact : ℤ)
      → total_units payload.postings ≡ pos 0
      → Keeps IsBalanced (find_or_propose env payload h d impact)
  unfolding find_or_propose
  find_or_propose-IsBalanced payload h d impact zero_sum =
      search (keeps_rules, propose_bundle-IsBalanced)

  decide_bundle-IsBalanced :
      (payload : BundlePayload) (h : String) (impact : ℤ)
      → total_units payload.postings ≡ pos 0
      → Keeps IsBalanced (decide_bundle env payload h impact)
  unfolding decide_bundle
  decide_bundle-IsBalanced payload h impact zero_sum =
      search
        (
          keeps_rules, Keeps-of-Steady, enforce_period_write_constraints-Steady,
          evaluate_transaction_policy-Steady, find_or_propose-IsBalanced,
          respond_proposed-IsBalanced, commit_bundle-IsBalanced,
        )
        depth 12

  record_block-IsBalanced :
      (payload : BundlePayload) (h : String) (impact : ℤ)
      → total_units payload.postings ≡ pos 0
      → Keeps IsBalanced (record_block env payload h impact)
  unfolding record_block
  record_block-IsBalanced payload h impact zero_sum =
      search (keeps_rules, replay_bundle-IsBalanced, decide_bundle-IsBalanced)

  recover_proposal-IsBalanced :
      (payload : BundlePayload) (h : String) (e : Error)
      → Keeps IsBalanced (recover_proposal env payload h e)
  unfolding recover_proposal
  recover_proposal-IsBalanced payload h e =
      search (keeps_rules, respond_proposed-IsBalanced) depth 8

  recover_block-IsBalanced :
      (payload : BundlePayload) (h : String) (e : Error)
      → Keeps IsBalanced (recover_block env payload h e)
  unfolding recover_block
  recover_block-IsBalanced payload h e =
      search (keeps_rules, replay_bundle-IsBalanced, recover_proposal-IsBalanced)

record_checked-IsBalanced :
    (env : Env) (payload : BundlePayload) (h : String)
    → total_units payload.postings ≡ pos 0
    → Steady IsBalanced (record_checked env payload h)
unfolding record_checked
record_checked-IsBalanced env payload h zero_sum =
    search
      (steady_rules, Steady-transaction, record_block-IsBalanced env, recover_block-IsBalanced env)

-- Within the digits of the context, recording a bundle keeps the books balanced: every transaction
-- sums to zero afterwards, and so does every bundle that waits for approval, whether the bundle was
-- committed, proposed, replayed or refused.
pub record_transaction_bundle-IsBalanced :
    (env : Env) (payload : BundlePayload) (db : Database)
    → total_size payload.postings < context_limit
    → IsBalanced db
    → IsBalanced (record_transaction_bundle env payload db).1
unfolding record_transaction_bundle
record_transaction_bundle-IsBalanced env payload db fits b =
    let checked : Steady IsBalanced (record_transaction_bundle env payload) =
      Steady-bind _ _ (Steady-raise_if _ _) λ _.
        Steady-bind_lift (ensure_balanced payload.postings) _ λ _ passed.
          record_checked-IsBalanced env payload _
            (ensure_balanced-eq_ok payload.postings fits passed) in
    checked.at db b

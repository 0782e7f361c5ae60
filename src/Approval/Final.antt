-- ===== src/Approval/Final.antt =====
-- A rejection of src/capital_os/domain/approval/service.py is final.
use capital_os.Base.{
  ℕ, ◌≡◌, ◌+◌, ◌++◌, ◌==◌, refl, ap, String, Option, some, false, List, [], ◌∷◌, find-update,
  update, none, ◌∙◌, sym, eqb_refl, or_default, select, arith,
}
use capital_os.Exec.{Error, Result, ok, err}
use capital_os.Store.{
  Database, Env, ApprovalPayload, Proposal, Response, Decision, proposed, rejected, reject, Hashed,
}
use capital_os.Store.Action.{Action, pure, transaction, ◌>>◌}
use capital_os.Store.Keeps.{Returns, Returns-bind, Returns-at, Returns-transaction}
use capital_os.EventLog.{log_event}
use capital_os.Ledger.Service.{hashed, log_ok}
use capital_os.Approval.Repository.{
  fetch_proposal_by_id, has_approver_decision, persist_proposal_result, insert_decision,
  count_decisions,
}
use capital_os.Approval.Service.{
  bare_response, reject_tool, approve_proposal, approve_proposed_transaction, reject_new,
  reject_proposal, reject_proposed_transaction, replay_response, with_proposal,
}

-- The proposal is rejected, and stores the response with its hash.
abbrev RejectedAs : ℕ → Response → Database → Type 0
RejectedAs id r d =
    (p : Proposal) × (fetch_proposal_by_id id d ≡ some p)
    × (p.status ≡ rejected)
    × (p.response_payload ≡ some r)
    × (h : String) × (r.output_hash ≡ some h)

-- the decision of a rejection
abbrev decision_of : ApprovalPayload → ℕ → ℕ → Decision
decision_of payload proposal_id id = record {
  decision_id = id;
  proposal_id = proposal_id;
  action = reject;
  correlation_id = payload.correlation_id;
  reason = payload.reason;
  approver_id = payload.approver_id;
}

insert_decision_new :
    (payload : ApprovalPayload) (id : ℕ) (db : Database)
    → has_approver_decision id reject payload.approver_id db ≡ false
    → insert_decision id reject payload.correlation_id payload.reason payload.approver_id db ≡ (
      ok tt,
      record db {
        next_id = db.next_id + 1;
        decisions = db.decisions ++ decision_of payload id db.next_id ∷ [];
      },
    )
unfolding insert_decision has_approver_decision
insert_decision_new payload id db new = simp new

count_decisions-append :
    (payload : ApprovalPayload) (id n : ℕ) (ds : List Decision)
    → count_decisions id reject (ds ++ decision_of payload id n ∷ [])
      ≡ count_decisions id reject ds + 1
unfolding count_decisions
count_decisions-append payload id n [] = rw (select, eqb_refl id) (omega arith)
count_decisions-append payload id n (d ∷ ds) =
    let rest = count_decisions-append payload id n ds in ground arith

-- What a rejection leaves, where `before` is the database that it found.
abbrev Rejects : ApprovalPayload → ℕ → Database → Response → Database → Type 0
Rejects payload id before r d =
    RejectedAs payload.proposal_id r d
    × (r.status ≡ rejected)
    × (d.transactions ≡ before.transactions)
    × (d.postings ≡ before.postings)
    × (count_decisions id reject d.decisions ≡ count_decisions id reject before.decisions + 1)

-- the response of a rejection, and the proposal and the database with it stored
abbrev unhashed : ApprovalPayload → Proposal → Response
unhashed payload p = record (bare_response rejected p.proposal_id p.correlation_id) {
  reason = payload.reason;
}

abbrev rejection : Env → ApprovalPayload → Proposal → Response
rejection env payload p = hashed env (unhashed payload p)

abbrev settled : Env → ApprovalPayload → Proposal → Proposal → Proposal
settled env payload p q = record q {
  status = rejected;
  response_payload = some (rejection env payload p);
  output_hash = (rejection env payload p).output_hash;
  decision_reason = payload.reason;
  approved_transaction_id = none;
}

abbrev stored : Env → ApprovalPayload → Proposal → Database → Database
stored env payload p db = record db {
  proposals =
      update (λ (q : Proposal). q.proposal_id == p.proposal_id) (settled env payload p)
        db.proposals;
}

abbrev decided : Env → ApprovalPayload → Proposal → Database → Database
decided env payload p db = record (stored env payload p db) {
  next_id = db.next_id + 1;
  decisions = db.decisions ++ decision_of payload p.proposal_id db.next_id ∷ [];
}

reject_new-Rejects :
    (env : Env) (payload : ApprovalPayload) (h : String) (p : Proposal) (db : Database)
    → fetch_proposal_by_id payload.proposal_id db ≡ some p
    → has_approver_decision p.proposal_id reject payload.approver_id db ≡ false
    → Returns (Rejects payload p.proposal_id db) (reject_new env payload h p db)
unfolding reject_new persist_proposal_result log_event fetch_proposal_by_id has_approver_decision
reject_new-Rejects env payload h p db found new =
    let response = rejection env payload p in
    let left = decided env payload p db in
    let row =
      find-update _ (λ (q : Proposal). q.proposal_id == p.proposal_id) (settled env payload p)
        db.proposals p (λ q. refl) found (eqb_refl p.proposal_id) in
    Returns-bind (λ _ d. d ≡ left) (Rejects payload p.proposal_id db)
      (insert_decision p.proposal_id reject payload.correlation_id payload.reason
        payload.approver_id)
      (λ _.
        log_ok env reject_tool payload.correlation_id h
          (env.payload_hash (Hashed.response (unhashed payload p)))
        >> pure response)
      (stored env payload p db)
      (rw (insert_decision_new payload p.proposal_id (stored env payload p db) new) refl)
      λ _ d e. rw e (
        (settled env payload p p, row, refl, refl, _, refl),
        refl,
        refl,
        refl,
        count_decisions-append payload p.proposal_id db.next_id db.decisions,
      )

-- In the state `now` an approval is refused, and a rejection answers `r` again; neither changes a
-- proposal, a decision or the books.
abbrev pub IsRefused : Env → ApprovalPayload → Response → Database → Type 0
IsRefused env again r now =
    (approve_proposed_transaction env again now
      ≡ (err (Error.invariant "rejected proposals cannot be approved"), now))
    × Returns
        (λ r' d.
          (r' ≡ r)
          × (d.proposals ≡ now.proposals)
          × (d.decisions ≡ now.decisions)
          × (d.transactions ≡ now.transactions))
        (reject_proposed_transaction env again now)

transaction-eq_err :
    {A : Type 0} (m : Action A) (db d : Database) (e : Error)
    → m db ≡ (err e, d)
    → transaction m db ≡ (err e, db)
unfolding transaction
transaction-eq_err m db d e h = ap (λ (x : Result _ × Database). transaction (λ _. x) db) h

module _ (env : Env) (again : ApprovalPayload) (r : Response) (now : Database) where
  approve-refused :
      RejectedAs again.proposal_id r now
      → approve_proposed_transaction env again now
        ≡ (err (Error.invariant "rejected proposals cannot be approved"), now)
  unfolding approve_proposed_transaction with_proposal approve_proposal
  approve-refused (p, found, is, answered, h, has_hash) =
      transaction-eq_err _ now now _ (rw (found, is) refl)

  same_hash :
      (h x : String) → r.output_hash ≡ some h → some (or_default r.output_hash x) ≡ r.output_hash
  same_hash h x e = rw e refl

  reject-repeats :
      RejectedAs again.proposal_id r now
      → Returns
          (λ r' d.
            (r' ≡ r)
            × (d.proposals ≡ now.proposals)
            × (d.decisions ≡ now.decisions)
            × (d.transactions ≡ now.transactions))
          (reject_proposed_transaction env again now)
  unfolding reject_proposed_transaction with_proposal reject_proposal replay_response log_event
  reject-repeats (p, found, is, answered, h, has_hash) = Returns-transaction _ _ now (
      rw (found, is, answered)
        (
          ap (λ (o : Option String). record r { output_hash = o }) (same_hash h _ has_hash),
          refl,
          refl,
          refl,
        ))

-- Rejecting a proposal that waits, by an approver who has not rejected it, returns; it counts one more
-- rejection of the proposal and writes no transaction and no posting. In every later state whose row
-- for the proposal is the one that this left, an approval is refused and changes nothing, and another
-- rejection answers the same response and changes no proposal, no decision and no transaction.
pub reject_proposed_transaction-IsFinal :
    (env later : Env) (payload again : ApprovalPayload) (p : Proposal) (db now : Database)
    → again.proposal_id ≡ payload.proposal_id
    → fetch_proposal_by_id payload.proposal_id db ≡ some p
    → p.status ≡ proposed
    → has_approver_decision p.proposal_id reject payload.approver_id db ≡ false
    → fetch_proposal_by_id payload.proposal_id now
      ≡ fetch_proposal_by_id payload.proposal_id (reject_proposed_transaction env payload db).1
    → Returns
        (λ r d.
          (r.status ≡ rejected)
          × (d.transactions ≡ db.transactions)
          × (d.postings ≡ db.postings)
          × (count_decisions p.proposal_id reject d.decisions
              ≡ count_decisions p.proposal_id reject db.decisions + 1)
          × IsRefused later again r now)
        (reject_proposed_transaction env payload db)
unfolding reject_proposed_transaction with_proposal reject_proposal
reject_proposed_transaction-IsFinal env later payload again p db now same found waits new
      unwritten =
    let h = env.payload_hash (Hashed.approval payload) in
    let block = with_proposal payload (reject_proposal env payload h) in
    let done : Returns (Rejects payload p.proposal_id db) (block db) =
      rw found (simp waits (reject_new-Rejects env payload h p db found new)) in
    Returns-at (reject_proposed_transaction env payload db)
      (Returns-transaction (Rejects payload p.proposal_id db) block db done)
      λ r d is q.
        let kept = unwritten ∙ ap (fetch_proposal_by_id payload.proposal_id) (sym is) in
        let left : RejectedAs again.proposal_id r now =
          rw same (q.0.0, kept ∙ q.0.1, q.0.2, q.0.3, q.0.4, q.0.5) in
        (
          q.1,
          q.2,
          q.3,
          q.4,
          (approve-refused later again r now left, reject-repeats later again r now left),
        )

-- ===== src/Approval/Books.antt =====
-- Approving keeps every transaction of the books balanced. An insertion that fails
-- within `approve_proposed_transaction` is caught with its rows still there: it is answered by the
-- first transaction only if that was there before, and then nothing was inserted.
use capital_os.Base.{
  ℕ, ◌≡◌, refl, ◌⊎◌, inl, inr, String, Option, none, some, Bool, true, false, Bool-cases, List, [],
  ◌∷◌, ◌++◌, any, find, Option-cases, find-All, find-append_none, eq_refl, arith, ◌+◌,
}
use capital_os.Int.{pos}
use capital_os.Exec.{Error}
use capital_os.Money.{Posting}
use capital_os.Money.Balance.{total_units}
use capital_os.Store.{
  Database, Env, Hashed, BundlePayload, ApprovalPayload, Decided, Response, Request, Proposal,
  TransactionRow,
}
use capital_os.Store.Action.{fresh_id, modify}
use capital_os.Store.Keeps.{Post, Keeps, Post-on_integrity_error, keeps_rules}
use capital_os.Store.Steady.{
  Steady, Steady-transaction-at, Keeps-of-Steady, Steady-modify, Both-bind, Both-of, steady_rules,
}
use capital_os.Periods.{entity_of}
use capital_os.Approval.Repository.{fetch_proposal_by_id, insert_decision}
use capital_os.Ledger.Repository.{
  has_key, entity_exists, fetch_transaction_by_external_id, resolve_transaction_idempotency,
  insert_transaction_row, insert_posting, insert_postings, insert_sorted, insert_transaction_bundle,
  save_transaction_response,
}
use capital_os.Ledger.Balance.{
  IsBalanced, RequestBalances, modify-IsBalanced, fresh_id-IsBalanced,
  insert_transaction_bundle-IsBalanced,
}
use capital_os.Ledger.Books.{balance_rules}
use capital_os.Approval.Service.{
  with_proposal, settle_approval, answer_approval, replay_response, replay_committed,
  report_proposed, record_decision, insert_block, reuse_block, insert_approved, commit_proposal,
  await_approvals, decide_approval, approve_proposal, answer_inserted, approve_proposed_transaction,
}

-- No transaction with this key has a response.
abbrev Unanswered : BundlePayload → Database → Type 0
Unanswered payload db =
    resolve_transaction_idempotency payload.source_system payload.external_id db ≡ none

fresh_id-Steady : Steady IsBalanced fresh_id
fresh_id-Steady = record { at = fresh_id-IsBalanced.at }

insert_transaction_row-Steady :
    (payload : BundlePayload) (h : String) (tx : ℕ)
    → Steady IsBalanced (insert_transaction_row payload h tx)
unfolding insert_transaction_row
insert_transaction_row-Steady payload h tx =
    search (steady_rules, Steady-modify, modify-IsBalanced) depth 14

-- A key that no row has is not found.
find-of-any :
    (p : TransactionRow → Bool) (ts : List TransactionRow) → any p ts ≡ false → find p ts ≡ none
find-of-any p [] h = refl
find-of-any p (t ∷ ts) h = ground (arith, find-of-any p ts)

-- A row with the key of a free key and with no response leaves the key unanswered.
row-Unanswered :
    (payload : BundlePayload) (row : TransactionRow) (db : Database)
    → any (has_key payload.source_system payload.external_id) db.transactions ≡ false
    → row.source_system ≡ payload.source_system
    → row.external_id ≡ payload.external_id
    → row.response_payload ≡ none
    → Unanswered payload (record db { transactions = db.transactions ++ row ∷ [] })
unfolding resolve_transaction_idempotency fetch_transaction_by_external_id
row-Unanswered payload row db free same_source same_id unanswered =
    let p = has_key payload.source_system payload.external_id in
    let mine : p row ≡ true = rw (same_source, same_id, eq_refl, eq_refl) refl in
    rw
      (
        resolve_transaction_idempotency,
        fetch_transaction_by_external_id,
        find-append_none p db.transactions (row ∷ []) (find-of-any p db.transactions free),
        mine,
        unanswered,
      )
      refl

-- The row that was inserted has no response.
insert_transaction_row-Unanswered :
    (payload : BundlePayload) (h : String) (tx : ℕ) (db : Database)
    → Post (λ _ d. Unanswered payload d) (insert_transaction_row payload h tx db)
unfolding insert_transaction_row
insert_transaction_row-Unanswered payload h tx db =
    elim (Bool-cases (any (has_key payload.source_system payload.external_id) db.transactions)) [
      | inl taken ↦ rw taken tt
      | inr free ↦ elim (Bool-cases (entity_exists (entity_of payload.entity_id) db)) [
        | inr missing ↦ rw (free, missing) tt
        | inl known ↦ rw (free, known) (row-Unanswered payload _ db free refl refl refl)
      ]
    ]

-- A write that leaves the transactions alone.
modify-Unanswered :
    (payload : BundlePayload) (f : Database → Database)
    → ((db : Database) → (f db).transactions ≡ db.transactions)
    → Steady (Unanswered payload) (modify f)
unfolding resolve_transaction_idempotency fetch_transaction_by_external_id
modify-Unanswered payload f same = record { at = λ db h. rw (same db) h }

fresh_id-Unanswered : (payload : BundlePayload) → Steady (Unanswered payload) fresh_id
unfolding resolve_transaction_idempotency fetch_transaction_by_external_id
fresh_id-Unanswered payload = record { at = λ db h. h }

insert_posting-Unanswered :
    (payload : BundlePayload) (tx : ℕ) (p : Posting)
    → Steady (Unanswered payload) (insert_posting tx p)
unfolding insert_posting
insert_posting-Unanswered payload tx p =
    search (steady_rules, modify-Unanswered, fresh_id-Unanswered) depth 14

insert_postings-Unanswered :
    (payload : BundlePayload) (tx : ℕ) (ps : List Posting)
    → Steady (Unanswered payload) (insert_postings tx ps)
unfolding insert_postings
insert_postings-Unanswered payload tx [] = search steady_rules
insert_postings-Unanswered payload tx (p ∷ ps) =
    let ih = insert_postings-Unanswered payload tx ps in
    search (steady_rules, insert_posting-Unanswered)

insert_sorted-Unanswered :
    (payload : BundlePayload) (tx : ℕ) → Steady (Unanswered payload) (insert_sorted payload tx)
unfolding insert_sorted
insert_sorted-Unanswered payload tx = search (steady_rules, insert_postings-Unanswered)

-- What an insertion leaves behind, even a failed one: balanced books, or no answer for its key.
abbrev Loose : BundlePayload → Database → Type 0
Loose payload db = IsBalanced db ⊎ Unanswered payload db

insert_transaction_bundle-Loose :
    (payload : BundlePayload) (h : String) (db : Database)
    → IsBalanced db
    → Loose payload (insert_transaction_bundle payload h db).1
unfolding insert_transaction_bundle
insert_transaction_bundle-Loose payload h db b =
    let tx = db.next_id in
    let begun : Database = record db { next_id = tx + 1 } in
    Both-bind (λ _ d. Unanswered payload d × Loose payload d) (Loose payload)
      (insert_transaction_row payload h tx) (λ _. insert_sorted payload tx) begun
      (Both-of (λ _ d. Unanswered payload d) (Loose payload)
        (insert_transaction_row payload h tx begun)
        (insert_transaction_row-Unanswered payload h tx begun)
        (inl ((insert_transaction_row-Steady payload h tx).at begun (fresh_id-Steady.at db b))))
      λ _ d q. inr ((insert_sorted-Unanswered payload tx).at d q.0)

save_transaction_response-Steady :
    (tx : ℕ) (r : Response) (h : String) → Steady IsBalanced (save_transaction_response tx r h)
unfolding save_transaction_response
save_transaction_response-Steady tx r h =
    search (steady_rules, Steady-modify, modify-IsBalanced) depth 10

requests-fetch :
    (db : Database) (p : Proposal) (n : ℕ)
    → IsBalanced db
    → fetch_proposal_by_id n db ≡ some p
    → RequestBalances p.request_payload
unfolding fetch_proposal_by_id
requests-fetch db p n b found =
    find-All (λ (q : Proposal). RequestBalances q.request_payload) _ db.proposals p b.requests found

module _ (env : Env) where
  answer_inserted-Steady :
      (p : Proposal) (required received : ℕ) (a : ℕ × List ℕ)
      → Steady IsBalanced (answer_inserted env p required received a)
  unfolding answer_inserted
  answer_inserted-Steady p required received (tx, ids) =
      search (steady_rules, save_transaction_response-Steady) depth 10

  insert_block-IsBalanced :
      (p : Proposal) (request : BundlePayload) (required received : ℕ)
      → total_units request.postings ≡ pos 0
      → Keeps IsBalanced (insert_block env p request required received)
  unfolding insert_block
  insert_block-IsBalanced p request required received zero_sum =
      search (
        balance_rules, insert_transaction_bundle-IsBalanced, Keeps-of-Steady,
        answer_inserted-Steady,
      )

  insert_block-Loose :
      (p : Proposal) (request : BundlePayload) (required received : ℕ) (db : Database)
      → total_units request.postings ≡ pos 0
      → IsBalanced db
      → Loose request (insert_block env p request required received db).1
  unfolding insert_block
  insert_block-Loose p request required received db zero_sum b =
      Both-bind (λ _ d. IsBalanced d × Loose request d) (Loose request)
        (insert_transaction_bundle request p.input_hash) (answer_inserted env p required received)
        db
        (Both-of (λ _ d. IsBalanced d) (Loose request) _
          ((insert_transaction_bundle-IsBalanced request p.input_hash zero_sum).at db b)
          (insert_transaction_bundle-Loose request p.input_hash db b))
        λ a d q. inl ((answer_inserted-Steady p required received a).at d q.0)

  -- A transaction answers for the rows of a failed insertion only where the books balance.
  reuse_block-IsBalanced :
      (p : Proposal) (request : BundlePayload) (required received : ℕ) (e : Error) (db : Database)
      → Loose request db
      → Post (λ _ d. IsBalanced d) (reuse_block env p request required received e db)
  unfolding reuse_block
  reuse_block-IsBalanced p request required received e db (inl b) =
      let keeps : Keeps IsBalanced (reuse_block env p request required received e) =
        search keeps_rules in
      keeps.at db b
  reuse_block-IsBalanced p request required received e db (inr unanswered) = rw unanswered tt

  insert_approved-IsBalanced :
      (r : Request) (p : Proposal) (required received : ℕ)
      → RequestBalances r
      → Keeps IsBalanced (insert_approved env r p required received)
  unfolding insert_approved
  insert_approved-IsBalanced Request.other p required received b = search keeps_rules
  insert_approved-IsBalanced (Request.bundle request) p required received zero_sum = record {
    at = λ db b.
        Post-on_integrity_error (λ _ d. IsBalanced d) (Loose request)
          (insert_block env p request required received)
          (reuse_block env p request required received) db
          ((insert_block-IsBalanced p request required received zero_sum).at db b)
          (insert_block-Loose p request required received db zero_sum b)
          (reuse_block-IsBalanced p request required received);
  }

  commit_proposal-IsBalanced :
      (payload : ApprovalPayload) (h : String) (p : Proposal) (required received : ℕ)
      → RequestBalances p.request_payload
      → Keeps IsBalanced (commit_proposal env payload h p required received)
  unfolding commit_proposal
  commit_proposal-IsBalanced payload h p required received balances =
      search (balance_rules, insert_approved-IsBalanced) depth 12

  await_approvals-IsBalanced :
      (payload : ApprovalPayload) (h : String) (p : Proposal) (required received : ℕ)
      → Keeps IsBalanced (await_approvals env payload h p required received)
  unfolding await_approvals
  await_approvals-IsBalanced payload h p required received = search balance_rules depth 12

  insert_decision-Steady :
      (n : ℕ) (d : Decided) (c : String) (why who : Option String)
      → Steady IsBalanced (insert_decision n d c why who)
  unfolding insert_decision
  insert_decision-Steady n d c why who =
      search (steady_rules, fresh_id-Steady, Steady-modify, modify-IsBalanced) depth 12

  record_decision-Steady :
      (payload : ApprovalPayload) (p : Proposal) → Steady IsBalanced (record_decision env payload p)
  unfolding record_decision
  record_decision-Steady payload p = search (steady_rules, insert_decision-Steady)

  settle_approval-IsBalanced :
      (payload : ApprovalPayload) (h : String) (p : Proposal) (required : ℕ)
      → RequestBalances p.request_payload
      → Keeps IsBalanced (settle_approval env payload h p required)
  unfolding settle_approval
  settle_approval-IsBalanced payload h p required balances =
      search (keeps_rules, await_approvals-IsBalanced, commit_proposal-IsBalanced) depth 10

  decide_approval-IsBalanced :
      (payload : ApprovalPayload) (h : String) (p : Proposal) (required : ℕ)
      → RequestBalances p.request_payload
      → Keeps IsBalanced (decide_approval env payload h p required)
  unfolding decide_approval
  decide_approval-IsBalanced payload h p required balances =
      search (keeps_rules, Keeps-of-Steady, record_decision-Steady, settle_approval-IsBalanced)
        depth 10

  replay_response-IsBalanced :
      (tool c h : String) (r : Response) → Keeps IsBalanced (replay_response env tool c h r)
  unfolding replay_response
  replay_response-IsBalanced tool c h r = search balance_rules depth 8

  replay_committed-IsBalanced :
      (payload : ApprovalPayload) (h : String) (r : Option Response)
      → Keeps IsBalanced (replay_committed env payload h r)
  unfolding replay_committed
  replay_committed-IsBalanced payload h r = search (keeps_rules, replay_response-IsBalanced)

  report_proposed-IsBalanced :
      (payload : ApprovalPayload) (h : String) (p : Proposal) (required : ℕ)
      → Keeps IsBalanced (report_proposed env payload h p required)
  unfolding report_proposed
  report_proposed-IsBalanced payload h p required = search balance_rules depth 10

  answer_approval-IsBalanced :
      (payload : ApprovalPayload) (h : String) (p : Proposal) (required : ℕ) (decided : Bool)
      → RequestBalances p.request_payload
      → Keeps IsBalanced (answer_approval env payload h p required decided)
  unfolding answer_approval
  answer_approval-IsBalanced payload h p required decided balances =
      search
        (
          keeps_rules, replay_committed-IsBalanced, report_proposed-IsBalanced,
          decide_approval-IsBalanced,
        )
        depth 10

  approve_proposal-IsBalanced :
      (payload : ApprovalPayload) (h : String) (p : Proposal)
      → RequestBalances p.request_payload
      → Keeps IsBalanced (approve_proposal env payload h p)
  unfolding approve_proposal
  approve_proposal-IsBalanced payload h p balances =
      search (keeps_rules, answer_approval-IsBalanced) depth 12

-- Approving keeps the books balanced, whether the bundle is committed, still waits, is answered by a
-- transaction that was there, or the approval fails.
pub approve_proposed_transaction-IsBalanced :
    (env : Env) (payload : ApprovalPayload) (db : Database)
    → IsBalanced db
    → IsBalanced (approve_proposed_transaction env payload db).1
unfolding approve_proposed_transaction with_proposal
approve_proposed_transaction-IsBalanced env payload db b =
    Steady-transaction-at IsBalanced
      (with_proposal payload
        (approve_proposal env payload (env.payload_hash (Hashed.approval payload))))
      db b
      (elim (Option-cases (fetch_proposal_by_id payload.proposal_id db)) [
        | inl e ↦ rw e tt
        | inr (p, e) ↦ rw e (
            (approve_proposal-IsBalanced env payload _ p
                (requests-fetch db p payload.proposal_id b e)).at
              db b)
      ])

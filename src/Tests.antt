-- ===== src/Tests.antt =====
-- The theorems on the books at concrete inputs.
pub mod Engines
pub mod Codec
pub mod Queries
pub mod Entities
pub mod Accounts
pub mod Runtime
pub mod Coa
use capital_os.Base.{
  ℕ, ◌+◌, ◌*◌, ◌≤◌, ◌<◌, ◌≡◌, ◌≢◌, ◌⊎◌, refl, Option, none, some, Bool, true, false, List, [], ◌∷◌,
  length, or_default, arith,
}
use capital_os.Int.{ℤ, pos, negsuc, ◌+ℤ◌, ◌-ℤ◌, abs, eqb_ℤ}
use capital_os.Exec.{Error, Result, ok}
use capital_os.Money.{
  Decimal, Posting, quantize_units, nearest_units, normalize_amount, ensure_balanced,
  transaction_impact_amount, div_half_even,
}
use capital_os.Money.Balance.{total_units}
use capital_os.Store.{Database, Env, Response, committed, idempotent_replay, rejected, reject}
use capital_os.Store.Keeps.{Post, Returns}
use capital_os.Ledger.Balance.{IsBalanced}
use capital_os.Ledger.Books.{record_transaction_bundle-IsBalanced}
use capital_os.Ledger.Once.{Repeated, record_transaction_bundle-once}
use capital_os.Ledger.Atomic.{record_transaction_bundle-Atomic}
use capital_os.Ledger.Service.{record_transaction_bundle}
use capital_os.Approval.Repository.{fetch_proposal_by_id, has_approver_decision, count_decisions}
use capital_os.Approval.Service.{
  approve_proposed_transaction, reject_proposed_transaction, with_proposal,
}
use capital_os.Approval.Quorum.{Enough, approve_proposed_transaction-Enough}
use capital_os.Approval.Books.{approve_proposed_transaction-IsBalanced}
use capital_os.Approval.Final.{IsRefused, reject_proposed_transaction-IsFinal}
use capital_os.Periods.{enforce_period_write_constraints}
use capital_os.Ledger.Repository.{resolve_transaction_idempotency, fetch_transaction_by_external_id}
use capital_os.Money.{
  sum_amounts, sum_sizes, add_context, round_context, round_at, div_context, quotient_places,
}
use capital_os.Fixtures.{env, rent, astray, waiting, empty_books, waiting_books, approval}

empty_books-IsBalanced : IsBalanced empty_books
empty_books-IsBalanced = record { books = λ n. refl; requests = tt }

waiting_books-IsBalanced : IsBalanced waiting_books
unfolding nearest_units div_half_even ◌+ℤ◌
waiting_books-IsBalanced = record { books = λ n. refl; requests = (refl, tt) }

record_transaction_bundle-IsBalanced_example :
    IsBalanced (record_transaction_bundle env rent empty_books).1
unfolding nearest_units div_half_even ◌+ℤ◌
record_transaction_bundle-IsBalanced_example =
    record_transaction_bundle-IsBalanced env rent empty_books (omega arith) empty_books-IsBalanced

approve_proposed_transaction-IsBalanced_example :
    IsBalanced (approve_proposed_transaction env approval waiting_books).1
approve_proposed_transaction-IsBalanced_example =
    approve_proposed_transaction-IsBalanced env approval waiting_books waiting_books-IsBalanced

abbrev rejected_books : Database
rejected_books = (reject_proposed_transaction env approval waiting_books).1

reject_proposed_transaction-IsFinal_example :
    Returns
      (λ r d.
        (r.status ≡ rejected)
        × (d.transactions ≡ waiting_books.transactions)
        × (d.postings ≡ waiting_books.postings)
        × (count_decisions 7 reject d.decisions
            ≡ count_decisions 7 reject waiting_books.decisions + 1)
        × IsRefused env approval r rejected_books)
      (reject_proposed_transaction env approval waiting_books)
unfolding fetch_proposal_by_id has_approver_decision
reject_proposed_transaction-IsFinal_example =
    reject_proposed_transaction-IsFinal env env approval approval waiting waiting_books
      rejected_books refl refl refl refl refl

approve_proposed_transaction-Enough_example :
    Post (Enough 7 1) (approve_proposed_transaction env approval waiting_books)
unfolding fetch_proposal_by_id
approve_proposed_transaction-Enough_example =
    approve_proposed_transaction-Enough env approval waiting_books waiting refl refl

record_transaction_bundle-Atomic_example :
    (record_transaction_bundle env astray empty_books).1 ≡ empty_books
unfolding capital_os.Money.quantize_units capital_os.Money.nearest_units
    capital_os.Money.normalize_amount capital_os.Money.round_at capital_os.Money.round_context
    capital_os.Money.add_context capital_os.Money.div_context capital_os.Money.quotient_places
    capital_os.Money.div_half_even capital_os.Money.sum_amounts capital_os.Money.sum_sizes
    capital_os.Money.ensure_balanced capital_os.Money.transaction_impact_amount
    capital_os.Text.codes capital_os.Text.text_leb capital_os.Text.text_eq capital_os.Text.digits
    capital_os.Text.decimal_text capital_os.Ledger.Repository.resolve_transaction_idempotency
    capital_os.Ledger.Repository.fetch_transaction_by_external_id
    capital_os.Ledger.Repository.insert_transaction_row capital_os.Ledger.Repository.insert_posting
    capital_os.Ledger.Repository.insert_postings capital_os.Ledger.Repository.insert_sorted
    capital_os.Ledger.Repository.insert_transaction_bundle
    capital_os.Ledger.Repository.save_transaction_response
    capital_os.Ledger.Duplicates.normalize_postings
    capital_os.Ledger.Duplicates.find_duplicate_risk_matches capital_os.Ledger.Service.commit_bundle
    capital_os.Ledger.Service.decide_bundle capital_os.Ledger.Service.record_block
    capital_os.Ledger.Service.recover_proposal capital_os.Ledger.Service.recover_block
    capital_os.Ledger.Service.record_checked capital_os.Ledger.Service.record_transaction_bundle
    capital_os.Periods.fetch_period capital_os.Periods.status_constraint
    capital_os.Periods.period_constraint capital_os.Periods.enforce_period_write_constraints
    capital_os.Policy.load_approval_policy capital_os.Policy.rules_of
    capital_os.Policy.load_active_rules capital_os.Policy.decide_policy
    capital_os.Policy.first_match capital_os.Policy.evaluate_transaction_policy
    capital_os.Store.Action.transaction capital_os.Store.Action.on_integrity_error
    capital_os.Approval.Repository.fetch_proposal_by_source_external capital_os.Int.◌+ℤ◌
    capital_os.Base.sort_by
record_transaction_bundle-Atomic_example =
    record_transaction_bundle-Atomic env astray empty_books
      (Error.integrity "FOREIGN KEY constraint failed") refl

-- the answer to the rent
abbrev receipt : Response
receipt = record {
  status = committed;
  transaction_id = some 100;
  posting_ids = 101 ∷ 102 ∷ [];
  proposal_id = none;
  approval_threshold_amount = none;
  impact_amount = none;
  matched_rule_id = none;
  required_approvals = none;
  approvals_received = none;
  duplicate_context = none;
  reason = none;
  correlation_id = "c1";
  output_hash = some "hash";
}

abbrev paid_books : Database
paid_books = (record_transaction_bundle env rent empty_books).1

record_transaction_bundle-once_example :
    Returns (Repeated receipt paid_books) (record_transaction_bundle env rent paid_books)
unfolding capital_os.Money.quantize_units capital_os.Money.nearest_units
    capital_os.Money.normalize_amount capital_os.Money.round_at capital_os.Money.round_context
    capital_os.Money.add_context capital_os.Money.div_context capital_os.Money.quotient_places
    capital_os.Money.div_half_even capital_os.Money.sum_amounts capital_os.Money.sum_sizes
    capital_os.Money.ensure_balanced capital_os.Money.transaction_impact_amount
    capital_os.Text.codes capital_os.Text.text_leb capital_os.Text.text_eq capital_os.Text.digits
    capital_os.Text.decimal_text capital_os.Ledger.Repository.resolve_transaction_idempotency
    capital_os.Ledger.Repository.fetch_transaction_by_external_id
    capital_os.Ledger.Repository.insert_transaction_row capital_os.Ledger.Repository.insert_posting
    capital_os.Ledger.Repository.insert_postings capital_os.Ledger.Repository.insert_sorted
    capital_os.Ledger.Repository.insert_transaction_bundle
    capital_os.Ledger.Repository.save_transaction_response
    capital_os.Ledger.Duplicates.normalize_postings
    capital_os.Ledger.Duplicates.find_duplicate_risk_matches capital_os.Ledger.Service.commit_bundle
    capital_os.Ledger.Service.decide_bundle capital_os.Ledger.Service.record_block
    capital_os.Ledger.Service.recover_proposal capital_os.Ledger.Service.recover_block
    capital_os.Ledger.Service.record_checked capital_os.Ledger.Service.record_transaction_bundle
    capital_os.Periods.fetch_period capital_os.Periods.status_constraint
    capital_os.Periods.period_constraint capital_os.Periods.enforce_period_write_constraints
    capital_os.Policy.load_approval_policy capital_os.Policy.rules_of
    capital_os.Policy.load_active_rules capital_os.Policy.decide_policy
    capital_os.Policy.first_match capital_os.Policy.evaluate_transaction_policy
    capital_os.Store.Action.transaction capital_os.Store.Action.on_integrity_error
    capital_os.Approval.Repository.fetch_proposal_by_source_external capital_os.Int.◌+ℤ◌
    capital_os.Base.sort_by capital_os.EventLog.log_event
record_transaction_bundle-once_example =
    record_transaction_bundle-once env env rent empty_books paid_books receipt
      (record receipt { status = idempotent_replay }) refl refl refl refl

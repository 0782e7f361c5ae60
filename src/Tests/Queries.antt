-- ===== src/Tests/Queries.antt =====
-- The theorems on queries, snapshots, obligations and reconciliation at concrete inputs.
use capital_os.Base.{
  ℕ, ◌≡◌, ◌≤◌, ◌==◌, refl, String, str_eq, Bool, true, false, ◌&&◌, none, some, [], ◌∷◌, ◌++◌,
  arith, sort_by, if◌then◌else◌,
}
use capital_os.Int.{pos, negsuc, ◌-ℤ◌}
use capital_os.Money.{
  normalize_amount, quantize_units, nearest_units, div_half_even, sub_amounts, round_context,
  round_at,
}
use capital_os.Calendar.{Date, IsDate, days_in_month, same_date, date_leb}
use capital_os.Text.{codes, text_leb, amount_text, decimal_text, digits}
use capital_os.Json.{no_member}
use capital_os.Store.{
  Database, TransactionRow, Obligation, SnapshotPayload, FulfillPayload, Snapshot,
}
use capital_os.Store.Keeps.{Returns}
use capital_os.Query.Lists.{Outside, show_transaction, show_obligation, sum_column}
use capital_os.Query.Transactions.{HasTransactions, query_transactions_page_complete}
use capital_os.Query.Obligations.{DateTexts, HasObligations, query_obligations_page_complete}
use capital_os.Ledger.Snapshots.{record_balance_snapshot}
use capital_os.Ledger.Statements.{balance_on, Keyed, record_balance_snapshot-Recorded}
use capital_os.EventLog.{log_event}
use capital_os.Store.Action.{transaction}
use capital_os.Ledger.Obligations.{
  fulfill_obligation, fulfill_block, fulfill_row, mark_fulfilled, report_fulfillment,
}
use capital_os.Ledger.Fulfilled.{Repeats, fulfill_obligation-once}
use capital_os.Balances.{
  snapshot_only, ledger_amounts, latest_snapshot, balance_context, fetch_account_balance_context,
  optional_amount,
}
use capital_os.Reconciliation.{
  ReconcilePayload, AdjustmentBundle, Reconciled, suggested_adjustment_bundle, source_of,
  may_suggest, suggest, delta_of, reconcile_context, reconcile_account,
}
use capital_os.Reconciliation.Adjustment.{Closes, reconcile_account-Closes}
use capital_os.Fixtures.{env, empty_books}
use capital_os.Tests.Codec.{plain_codec, plain_codec-CodecLaws}

abbrev outside : Outside
outside = record {
  codec = plain_codec;
  uuid_text = λ n. n ∷ [];
  date_text = λ d. d.year ∷ d.month ∷ d.day ∷ [];
  stored_date = λ n. (if n == 2 then b'9' else b'5') ∷ [];
  created_at = λ n. n ∷ [];
  sum = λ _. record { coef = pos 500000; places = 4 };
}

abbrev january : ℕ → Date
january day = record { year = 2026; month = 1; day = day }

abbrev paid_on : ℕ → ℕ → TransactionRow
paid_on id day = record {
  transaction_id = id;
  source_system = "bank";
  external_id = "t";
  transaction_date = record { date = january day; second = 0 };
  description = "rent";
  correlation_id = "c";
  input_hash = "h";
  entity_id = "entity-default";
  is_adjusting_entry = false;
  adjusting_reason_code = none;
  response_payload = none;
  output_hash = none;
}

-- three transactions, two of them on the same day
abbrev three_paid : Database
three_paid = record empty_books { transactions = paid_on 1 5 ∷ paid_on 2 9 ∷ paid_on 3 5 ∷ [] }

query_transactions_page_complete_example : HasTransactions outside three_paid 2 2
unfolding show_transaction sum_column normalize_amount quantize_units nearest_units div_half_even
query_transactions_page_complete_example =
    query_transactions_page_complete outside three_paid 2 2 plain_codec-CodecLaws
      (((λ e. cc), ((λ e. cc), tt)), (((λ e. cc), tt), (tt, tt)))
      ((_, refl), ((_, refl), ((_, refl), tt))) (omega arith) (omega arith) (omega arith)

abbrev due : ℕ → ℕ → Bool → Obligation
due id day active = record {
  obligation_id = id;
  source_system = "lease";
  name = "rent";
  account_id = "home";
  cadence = "monthly";
  expected_amount = pos 250000;
  variability_flag = false;
  next_due_date = january day;
  metadata = no_member;
  active = active;
  entity_id = "entity-default";
  fulfilled_by_transaction_id = none;
  fulfilled_at = none;
}

-- three obligations, of which two are active
abbrev three_due : Database
three_due = record empty_books { obligations = due 1 9 true ∷ due 2 3 false ∷ due 3 5 true ∷ [] }

outside-DateTexts : DateTexts outside
unfolding text_leb date_leb
outside-DateTexts a b p q = ground arith

january-IsDate : (day : ℕ) → 1 ≤ day → day ≤ 31 → IsDate (january day)
unfolding days_in_month
january-IsDate day h k = record {
  first_month = omega arith;
  last_month = omega arith;
  first_day = h;
  last_day = k;
}

query_obligations_page_complete_example : HasObligations outside true three_due 1 3
unfolding show_obligation normalize_amount quantize_units nearest_units div_half_even
query_obligations_page_complete_example =
    query_obligations_page_complete outside true three_due 1 3 plain_codec-CodecLaws
      outside-DateTexts (((λ e. cc), ((λ e. cc), tt)), (((λ e. cc), tt), (tt, tt)))
      (
        (january-IsDate 9 (omega arith) (omega arith), omega arith),
        (
          (january-IsDate 3 (omega arith) (omega arith), omega arith),
          ((january-IsDate 5 (omega arith) (omega arith), omega arith), tt),
        ),
      )
      ((_, refl), ((_, refl), ((_, refl), tt))) (omega arith) (omega arith) (omega arith)

abbrev fulfill : ℕ → String → FulfillPayload
fulfill id at = record {
  obligation_id = id;
  fulfilled_by_transaction_id = some "t1";
  fulfilled_at = some at;
  correlation_id = "c";
}

-- the first of them fulfilled at dawn, and the others gone
abbrev one_done : Database
one_done = record empty_books {
  obligations =
      record (due 1 9 false) { fulfilled_by_transaction_id = some "t1"; fulfilled_at = some "dawn" }
      ∷ [];
}

fulfill_obligation-once_example :
    Returns
      (λ r _.
        Returns
          (λ r' d'. Repeats r one_done r' d')
          (fulfill_obligation env (fulfill 1 "noon") one_done))
      (fulfill_obligation env (fulfill 1 "dawn") three_due)
unfolding fulfill_obligation fulfill_block fulfill_row mark_fulfilled report_fulfillment log_event
    transaction
fulfill_obligation-once_example =
    fulfill_obligation-once env env (fulfill 1 "dawn") (fulfill 1 "noon") (due 1 9 true) three_due
      one_done refl refl refl

-- a statement of 500 dollars
abbrev statement : SnapshotPayload
statement = record {
  source_system = "bank";
  account_id = "cash";
  snapshot_date = january 31;
  balance = record { coef = pos 50000; places = 2 };
  currency = "USD";
  source_artifact_id = none;
  entity_id = "entity-default";
  correlation_id = "c";
}

record_balance_snapshot-Recorded_example :
    Returns
      (λ _ d.
        Keyed d
        × (balance_on "cash" (january 31) d ≡ (
            if str_eq statement.account_id "cash" && same_date statement.snapshot_date (january 31)
            then some (pos 5000000)
            else balance_on "cash" (january 31) empty_books)))
      (record_balance_snapshot env statement empty_books)
unfolding normalize_amount quantize_units nearest_units div_half_even
record_balance_snapshot-Recorded_example =
    record_balance_snapshot-Recorded statement (pos 5000000) "cash" (january 31) env empty_books
      (record { below = tt; distinct = tt })
      (record { amount = refl; currency = refl; entity = refl; account = refl })

abbrev snapshot : Snapshot
snapshot = record {
  snapshot_id = 9;
  source_system = "bank";
  account_id = "cash";
  snapshot_date = january 31;
  balance = pos 5000000;
  currency = "USD";
  source_artifact_id = none;
  entity_id = "entity-default";
}

-- a statement of 500 dollars and an empty ledger
abbrev stated : Database
stated = record empty_books { snapshots = snapshot ∷ [] }

abbrev question : ReconcilePayload
question = record { account_id = "cash"; as_of_date = january 31; method = snapshot_only }

abbrev adjustment : AdjustmentBundle
adjustment = record {
  status = "proposed";
  auto_commit = false;
  source_system = "capital-os-reconciliation";
  external_id =
      codes "reconcile:cash:" ++ 2026 ∷ 1 ∷ 31 ∷ codes ":snapshot_only:" ++ codes "500.0000";
  date = january 31;
  description = codes "Suggested reconciliation adjustment for account cash";
  postings =
      record {
        account_id = "cash";
        amount = record { coef = pos 5000000; places = 4 };
        currency = "USD";
        memo = some "Apply reconciliation delta to target account";
      }
      ∷ record {
        account_id = "__OFFSET_ACCOUNT_REQUIRED__";
        amount = record { coef = negsuc 4999999; places = 4 };
        currency = "USD";
        memo = some "Select balancing account before recording";
      }
      ∷ [];
}

abbrev answer : Reconciled
answer = record {
  status = "ok";
  account_id = "cash";
  as_of_date = january 31;
  method = snapshot_only;
  ledger_balance = some (pos 0);
  snapshot_balance = some (pos 5000000);
  snapshot_date = some (january 31);
  delta = some (pos 5000000);
  suggested_adjustment_bundle = some adjustment;
  source_used = "snapshot";
}

reconcile_account-Closes_example : Closes question answer adjustment
unfolding reconcile_account reconcile_context fetch_account_balance_context balance_context
    latest_snapshot ledger_amounts sum_column optional_amount delta_of suggest may_suggest source_of
    suggested_adjustment_bundle normalize_amount quantize_units nearest_units div_half_even
    sub_amounts round_context round_at ◌-ℤ◌ sort_by date_leb codes amount_text decimal_text digits
reconcile_account-Closes_example =
    reconcile_account-Closes outside question stated answer adjustment refl refl

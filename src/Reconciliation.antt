-- ===== src/Reconciliation.antt =====
-- src/capital_os/domain/reconciliation/service.py: the difference between an account's ledger and
-- its latest snapshot, and the bundle that would close it. The response shows amounts as texts of
-- four places; here they are the amounts.
pub mod Adjustment
use capital_os.Base.{
  ℕ, String, Bool, true, false, ◌&&◌, not, Option, none, some, List, [], ◌∷◌, ◌++◌, is_some,
  if◌then◌else◌,
}
use capital_os.Int.{ℤ, pos, ◌-ℤ◌, eqb_ℤ}
use capital_os.Exec.{Result, ok, ◌>>=◌}
use capital_os.Money.{Decimal, Posting, normalize_amount, sub_amounts}
use capital_os.Calendar.{Date}
use capital_os.Text.{Text, codes, amount_text}
use capital_os.Store.{Database}
use capital_os.Query.Lists.{Outside, column_amount}
use capital_os.Balances.{
  SourcePolicy, ledger_only, snapshot_only, best_available, BalanceContext, optional_amount,
  fetch_account_balance_context,
}

pub record ReconcilePayload : Type 0 where
  pub account_id : String
  pub as_of_date : Date
  pub method : SourcePolicy

pub record AdjustmentBundle : Type 0 where
  pub status : String
  pub auto_commit : Bool
  pub source_system : String
  pub external_id : Text
  pub date : Date
  pub description : Text
  pub postings : List Posting

pub record Reconciled : Type 0 where
  pub status : String
  pub account_id : String
  pub as_of_date : Date
  pub method : SourcePolicy
  pub ledger_balance : Option ℤ
  pub snapshot_balance : Option ℤ
  pub snapshot_date : Option Date
  pub delta : Option ℤ
  pub suggested_adjustment_bundle : Option AdjustmentBundle
  pub source_used : String

abbrev pub method_text : SourcePolicy → String
method_text ledger_only = "ledger_only"
method_text snapshot_only = "snapshot_only"
method_text best_available = "best_available"

abbrev adjustment_posting : String → ℤ → String → Posting
adjustment_posting account_id amount memo = record {
  account_id = account_id;
  amount = record { coef = amount; places = 4 };
  currency = "USD";
  memo = some memo;
}

unfoldable pub source_of : SourcePolicy → Option ℤ → String
source_of snapshot_only snapshot = if is_some snapshot then "snapshot" else "none"
source_of best_available snapshot = if is_some snapshot then "snapshot" else "ledger"
source_of ledger_only snapshot = "ledger"

unfoldable pub may_suggest : SourcePolicy → Bool
may_suggest ledger_only = false
may_suggest snapshot_only = true
may_suggest best_available = true

unfoldable pub delta_of : Option ℤ → ℤ → Result (Option ℤ)
delta_of none ledger = ok none
delta_of (some snapshot) ledger = do delta ← sub_amounts snapshot ledger; ok (some delta)

module _ (outside : Outside) where
  unfoldable pub suggested_adjustment_bundle :
      String → Date → SourcePolicy → ℤ → Result AdjustmentBundle
  suggested_adjustment_bundle account_id as_of method delta = do
    normalized_delta ← column_amount delta
    amount ← column_amount normalized_delta
    offset ← column_amount (pos 0 -ℤ normalized_delta)
    ok (record {
      status = "proposed";
      auto_commit = false;
      source_system = "capital-os-reconciliation";
      external_id =
          codes "reconcile:"
          ++ codes account_id
          ++ b':' ∷ outside.date_text as_of
          ++ b':' ∷ codes (method_text method)
          ++ b':' ∷ amount_text amount;
      date = as_of;
      description = codes "Suggested reconciliation adjustment for account " ++ codes account_id;
      postings =
          adjustment_posting account_id amount "Apply reconciliation delta to target account"
          ∷ adjustment_posting "__OFFSET_ACCOUNT_REQUIRED__" offset
              "Select balancing account before recording"
          ∷ [];
    })

  -- `delta != Decimal("0.0000")`, where a suggestion is asked for
  unfoldable pub suggest : ReconcilePayload → Option ℤ → Result (Option AdjustmentBundle)
  suggest payload none = ok none
  suggest payload (some delta) =
      if may_suggest payload.method && not (eqb_ℤ delta (pos 0))
      then (do
        bundle ←
            suggested_adjustment_bundle payload.account_id payload.as_of_date payload.method delta
        ok (some bundle))
      else ok none

  unfoldable pub reconcile_context : ReconcilePayload → BalanceContext → Result Reconciled
  reconcile_context payload context = do
    ledger ← normalize_amount context.ledger_balance
    snapshot ← optional_amount context.snapshot_balance
    delta ← delta_of snapshot ledger
    suggestion ← suggest payload delta
    ok (record {
      status = "ok";
      account_id = payload.account_id;
      as_of_date = payload.as_of_date;
      method = payload.method;
      ledger_balance = some ledger;
      snapshot_balance = snapshot;
      snapshot_date = context.snapshot_date;
      delta = delta;
      suggested_adjustment_bundle = suggestion;
      source_used = source_of payload.method snapshot;
    })

  abbrev not_found : ReconcilePayload → Reconciled
  not_found payload = record {
    status = "account_not_found";
    account_id = payload.account_id;
    as_of_date = payload.as_of_date;
    method = payload.method;
    ledger_balance = none;
    snapshot_balance = none;
    snapshot_date = none;
    delta = none;
    suggested_adjustment_bundle = none;
    source_used = "none";
  }

  unfoldable pub reconcile_account : ReconcilePayload → Database → Result Reconciled
  reconcile_account payload db =
      elim (fetch_account_balance_context outside payload.account_id payload.as_of_date db) [
        | none ↦ ok (not_found payload)
        | some context ↦ reconcile_context payload context
      ]

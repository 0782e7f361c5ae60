-- ===== src/Balances.antt =====
-- The balances of accounts as of a date: `fetch_account_balance_context` and
-- `fetch_account_balances_as_of` of src/capital_os/domain/ledger/repository.py, and
-- `query_account_balances` of src/capital_os/domain/query/service.py.
use capital_os.Base.{
  ◌==◌, String, str_eq, Bool, ◌&&◌, Option, none, some, List, [], ◌∷◌, map, any, find, select,
  sort_by,
}
use capital_os.Int.{ℤ}
use capital_os.Exec.{Result, ok, ◌>>=◌}
use capital_os.Money.{Decimal, normalize_amount}
use capital_os.Calendar.{Date, date_leb}
use capital_os.Text.{Text}
use capital_os.Store.{Database, Account, PostingRow, Snapshot}
use capital_os.Query.Order.{Order, text_order, descending, two_columns}
use capital_os.Query.Page.{row_leb, show_rows}
use capital_os.Query.Lists.{Outside, sum_column, account_key, column_amount}

-- `JOIN ledger_transactions ... WHERE date(t.transaction_date) <= date(?)`
abbrev pub dated_by : Date → Database → PostingRow → Bool
dated_by as_of db p =
    any (λ t. t.transaction_id == p.transaction_id && date_leb t.transaction_date.date as_of)
      db.transactions

-- the amounts of an account's postings
unfoldable pub ledger_amounts : String → Date → Database → List ℤ
ledger_amounts account_id as_of db =
    map (λ (p : PostingRow). p.amount)
      (select (λ p. str_eq p.account_id account_id && dated_by as_of db p) db.postings)

abbrev pub first_row : {A : Type 0} → List A → Option A
first_row [] = none
first_row (x ∷ _) = some x

-- what the queries read of an account
pub record BalanceContext : Type 0 where
  pub ledger_balance : Decimal
  pub snapshot_balance : Option ℤ
  pub snapshot_date : Option Date

-- how a balance is chosen
pub data SourcePolicy : Type 0 where
  ledger_only snapshot_only best_available : SourcePolicy

pub record BalanceItem : Type 0 where
  pub account_id : String
  pub code : String
  pub name : String
  pub account_type : String
  pub balance : Option ℤ
  pub currency : String
  pub source_used : String
  pub ledger_balance : ℤ
  pub snapshot_balance : Option ℤ
  pub snapshot_date : Option Date

-- the amount of a column that may be NULL
unfoldable pub optional_amount : Option ℤ → Result (Option ℤ)
optional_amount none = ok none
optional_amount (some z) = do amount ← column_amount z; ok (some amount)

-- the balance by the policy, and where it comes from
unfoldable pub choose_balance : SourcePolicy → ℤ → Option ℤ → Option ℤ × String
choose_balance ledger_only ledger snapshot = (some ledger, "ledger")
choose_balance snapshot_only ledger none = (none, "none")
choose_balance snapshot_only ledger (some b) = (some b, "snapshot")
choose_balance best_available ledger none = (some ledger, "ledger")
choose_balance best_available ledger (some b) = (some b, "snapshot")

module _ (outside : Outside) where
  -- `snapshot_date DESC, snapshot_id DESC`
  snapshot_order : Order (Text × Text)
  snapshot_order = two_columns (descending text_order) (descending text_order)

  snapshot_key : Snapshot → Text × Text
  snapshot_key s = (outside.date_text s.snapshot_date, outside.uuid_text s.snapshot_id)

  unfoldable pub latest_snapshot : String → Date → Database → Option Snapshot
  unfolding snapshot_order snapshot_key
  latest_snapshot account_id as_of db = first_row (
      sort_by (row_leb snapshot_order snapshot_key) (
        select (λ s. str_eq s.account_id account_id && date_leb s.snapshot_date as_of)
          db.snapshots))

  -- the sum of the ledger and the latest snapshot
  unfoldable pub balance_context : String → Date → Database → BalanceContext
  unfolding latest_snapshot sum_column ledger_amounts
  balance_context account_id as_of db =
      let ledger = sum_column outside (ledger_amounts account_id as_of db) in
      elim (latest_snapshot account_id as_of db) [
        | none ↦ record { ledger_balance = ledger; snapshot_balance = none; snapshot_date = none }
        | some s ↦ record {
          ledger_balance = ledger;
          snapshot_balance = some s.balance;
          snapshot_date = some s.snapshot_date;
        }
      ]

  unfoldable pub fetch_account_balance_context : String → Date → Database → Option BalanceContext
  fetch_account_balance_context account_id as_of db =
      elim (find (λ a. str_eq a.account_id account_id) db.accounts) [
        | none ↦ none
        | some _ ↦ some (balance_context account_id as_of db)
      ]

  unfoldable pub show_balance : SourcePolicy → Date → Database → Account → Result BalanceItem
  show_balance policy as_of db a = do
    let context = balance_context a.account_id as_of db
    ledger ← normalize_amount context.ledger_balance
    snapshot ← optional_amount context.snapshot_balance
    let (balance, source_used) = choose_balance policy ledger snapshot
    ok (record {
      account_id = a.account_id;
      code = a.code;
      name = a.name;
      account_type = a.account_type;
      balance = balance;
      currency = "USD";
      source_used = source_used;
      ledger_balance = ledger;
      snapshot_balance = snapshot;
      snapshot_date = context.snapshot_date;
    })

  -- `ORDER BY a.code, a.account_id`
  unfoldable pub fetch_account_balances_as_of :
      SourcePolicy → Date → Database → Result (List BalanceItem)
  fetch_account_balances_as_of policy as_of db =
      show_rows (show_balance policy as_of db)
        (sort_by (row_leb (two_columns text_order text_order) (account_key outside)) db.accounts)

  -- `source_policy or get_settings().balance_source_policy`
  unfoldable pub query_account_balances :
      SourcePolicy
      → Option SourcePolicy
      → Date
      → Database
      → Result (SourcePolicy × List BalanceItem)
  query_account_balances configured none as_of db = do
    rows ← fetch_account_balances_as_of configured as_of db
    ok (configured, rows)
  query_account_balances configured (some policy) as_of db = do
    rows ← fetch_account_balances_as_of policy as_of db
    ok (policy, rows)

-- ===== src/Query/Lists.antt =====
-- The list queries of src/capital_os/domain/query/service.py, with the rows that the functions
-- `list_*_page` of src/capital_os/domain/ledger/repository.py read.
use capital_os.Base.{
  ℕ, ◌==◌, String, str_eq, Bool, true, Option, none, some, List, [], ◌∷◌, ◌++◌, map, zero, suc,
  truthy, or_default, length, select, if◌then◌else◌,
}
use capital_os.Int.{ℤ, pos, abs}
use capital_os.Money.{Decimal, normalize_amount}
use capital_os.Exec.{Error, Result, ok, err, ◌>>=◌}
use capital_os.Calendar.{Date}
use capital_os.Text.{Text, codes}
use capital_os.Json.{Members, Codec}
use capital_os.Store.{
  Database, Account, TransactionRow, PostingRow, Obligation, Proposal, Status, committed,
  idempotent_replay, proposed, rejected,
}
use capital_os.Query.Order.{Order, text_order, descending, two_columns}
use capital_os.Query.Page.{Page, query_page}
use capital_os.Query.Cursor.{
  ListQuery, accounts, transactions, obligations, proposals, read_columns, written_columns,
  cursor_keys, encode_keys,
}

-- What the queries take from outside: json and base64, the texts of keys and dates, the text that
-- the date column of a transaction holds, which is the driver's where the bundle was recorded and
-- that of the stored request where it was approved, the time that the database stamped a row with,
-- and `SUM` of a numeric column.
pub record Outside : Type 0 where
  pub codec : Codec
  pub uuid_text : ℕ → Text
  pub date_text : Date → Text
  pub stored_date : ℕ → Text
  pub created_at : ℕ → Text
  pub sum : List ℤ → Decimal

pub record AccountItem : Type 0 where
  pub account_id : String
  pub code : String
  pub name : String
  pub account_type : String
  pub parent_account_id : Option String
  pub metadata : Members

pub record TransactionItem : Type 0 where
  pub transaction_id : ℕ
  pub source_system : String
  pub external_id : String
  pub transaction_date : Text
  pub description : String
  pub correlation_id : String
  pub entity_id : String
  pub posting_count : ℕ
  pub gross_posting_amount : ℤ
  pub currency : String

pub record ObligationItem : Type 0 where
  pub obligation_id : ℕ
  pub source_system : String
  pub name : String
  pub account_id : String
  pub cadence : String
  pub expected_amount : ℤ
  pub variability_flag : Bool
  pub next_due_date : Date
  pub metadata : Members
  pub active : Bool
  pub entity_id : String

pub record ProposalItem : Type 0 where
  pub proposal_id : ℕ
  pub tool_name : String
  pub source_system : String
  pub external_id : String
  pub correlation_id : String
  pub status : Status
  pub policy_threshold_amount : ℤ
  pub impact_amount : ℤ
  pub matched_rule_id : Option String
  pub required_approvals : ℕ
  pub entity_id : String

-- the amount of a column
abbrev pub column_amount : ℤ → Result ℤ
column_amount z = normalize_amount (record { coef = z; places = 4 })

unfoldable pub show_account : Account → Result AccountItem
show_account a = ok (record {
  account_id = a.account_id;
  code = a.code;
  name = a.name;
  account_type = a.account_type;
  parent_account_id = a.parent_account_id;
  metadata = a.metadata;
})

unfoldable pub show_obligation : Obligation → Result ObligationItem
show_obligation o = do
  expected_amount ← column_amount o.expected_amount
  ok (record {
    obligation_id = o.obligation_id;
    source_system = o.source_system;
    name = o.name;
    account_id = o.account_id;
    cadence = o.cadence;
    expected_amount = expected_amount;
    variability_flag = o.variability_flag;
    next_due_date = o.next_due_date;
    metadata = o.metadata;
    active = o.active;
    entity_id = o.entity_id;
  })

unfoldable pub show_proposal : Proposal → Result ProposalItem
show_proposal p = do
  policy_threshold_amount ← column_amount p.policy_threshold_amount
  impact_amount ← column_amount p.impact_amount
  ok (record {
    proposal_id = p.proposal_id;
    tool_name = p.tool_name;
    source_system = p.source_system;
    external_id = p.external_id;
    correlation_id = p.correlation_id;
    status = p.status;
    policy_threshold_amount = policy_threshold_amount;
    impact_amount = impact_amount;
    matched_rule_id = p.matched_rule_id;
    required_approvals = p.required_approvals;
    entity_id = p.entity_id;
  })

-- `status = ?`, where a status is given
abbrev pub status_name : Status → String
status_name committed = "committed"
status_name idempotent_replay = "idempotent_replay"
status_name proposed = "proposed"
status_name rejected = "rejected"

abbrev pub has_status : Option String → Proposal → Bool
has_status status p =
    if truthy status then str_eq (status_name p.status) (or_default status "") else true

-- `code, account_id`, `transaction_date DESC, transaction_id`, `next_due_date, obligation_id` and
-- `created_at DESC, proposal_id`
unfoldable pub order_of : ListQuery → Order (Text × Text)
order_of accounts = two_columns text_order text_order
order_of transactions = two_columns (descending text_order) text_order
order_of obligations = two_columns text_order text_order
order_of proposals = two_columns (descending text_order) text_order

module _ (outside : Outside) where
  -- `COALESCE(SUM(...), 0)`
  unfoldable pub sum_column : List ℤ → Decimal
  sum_column [] = record { coef = pos 0; places = 0 }
  sum_column (x ∷ xs) = outside.sum (x ∷ xs)

  unfoldable pub show_transaction : Database → TransactionRow → Result TransactionItem
  unfolding sum_column
  show_transaction db t = do
    let postings = select (λ p. p.transaction_id == t.transaction_id) db.postings
    gross ← normalize_amount (sum_column (map (λ (p : PostingRow). pos (abs p.amount)) postings))
    ok (record {
      transaction_id = t.transaction_id;
      source_system = t.source_system;
      external_id = t.external_id;
      transaction_date = outside.stored_date t.transaction_id;
      description = t.description;
      correlation_id = t.correlation_id;
      entity_id = t.entity_id;
      posting_count = length postings;
      gross_posting_amount = gross;
      currency = "USD";
    })

  -- The sort key of a row, and that of the row as it is shown.
  abbrev pub account_key : Account → Text × Text
  account_key a = (codes a.code, codes a.account_id)

  abbrev pub account_item_key : AccountItem → Text × Text
  account_item_key a = (codes a.code, codes a.account_id)

  abbrev pub transaction_key : TransactionRow → Text × Text
  transaction_key t = (outside.stored_date t.transaction_id, outside.uuid_text t.transaction_id)

  abbrev pub transaction_item_key : TransactionItem → Text × Text
  transaction_item_key t = (t.transaction_date, outside.uuid_text t.transaction_id)

  abbrev pub obligation_key : Obligation → Text × Text
  obligation_key o = (outside.date_text o.next_due_date, outside.uuid_text o.obligation_id)

  abbrev pub obligation_item_key : ObligationItem → Text × Text
  obligation_item_key o = (outside.date_text o.next_due_date, outside.uuid_text o.obligation_id)

  abbrev pub proposal_key : Proposal → Text × Text
  proposal_key p = (outside.created_at p.proposal_id, outside.uuid_text p.proposal_id)

  abbrev pub proposal_item_key : ProposalItem → Text × Text
  proposal_item_key p = (outside.created_at p.proposal_id, outside.uuid_text p.proposal_id)

  -- A list query: the cursor read, the page, and its cursor written.
  module _ {A B : Type 0} (query : ListQuery) (key : A → Text × Text) (shown_key : B → Text × Text)
      (show : A → Result B) (keep : A → Bool) where
    unfoldable pub list_query : ℕ → Option Text → List A → Result (Page B Text)
    list_query limit cursor rows = do
      keys ← cursor_keys outside.codec (read_columns query) cursor
      page ← query_page (order_of query) key shown_key show keep limit keys rows
      ok (record {
        rows = page.rows;
        next_cursor = elim page.next_cursor [
          | none ↦ none
          | some k ↦ some (encode_keys outside.codec (written_columns query) k)
        ];
      })

  unfoldable pub query_accounts_page : ℕ → Option Text → Database → Result (Page AccountItem Text)
  query_accounts_page limit cursor db =
      list_query accounts account_key account_item_key show_account (λ _. true) limit cursor
        db.accounts

  unfoldable pub query_transactions_page :
      ℕ → Option Text → Database → Result (Page TransactionItem Text)
  query_transactions_page limit cursor db =
      list_query transactions transaction_key transaction_item_key (show_transaction db) (λ _. true)
        limit cursor db.transactions

  unfoldable pub query_obligations_page :
      Bool → ℕ → Option Text → Database → Result (Page ObligationItem Text)
  query_obligations_page active_only limit cursor db =
      list_query obligations obligation_key obligation_item_key show_obligation
        (λ o. if active_only then o.active else true) limit cursor db.obligations

  unfoldable pub query_proposals_page :
      Option String → ℕ → Option Text → Database → Result (Page ProposalItem Text)
  query_proposals_page status limit cursor db =
      list_query proposals proposal_key proposal_item_key show_proposal (has_status status) limit
        cursor db.proposals

-- A client that follows the cursors of a query from `cursor` on, with as many requests as `fuel`.
unfoldable pub follow :
    {B : Type 0} → (Option Text → Result (Page B Text)) → ℕ → Option Text → Result (List B)
follow query zero cursor = err (Error.value "too many pages")
follow query (suc fuel) cursor = do
  page ← query cursor
  elim page.next_cursor [
    | none ↦ ok page.rows
    | some next ↦ do rest ← follow query fuel (some next); ok (page.rows ++ rest)
  ]

-- ===== src/Ledger/Repository.antt =====
-- src/capital_os/domain/ledger/repository.py and idempotency.py: the rows of a transaction. The
-- constraints of the tables raise sqlite3.IntegrityError: the unique key of a transaction before
-- its foreign key, the currency check of a posting before its foreign key.
use capital_os.Base.{
  ℕ, String, str_eq, Option, none, some, Bool, ◌&&◌, not, List, [], ◌∷◌, ◌++◌, ◌==◌, or_default,
  is_some, any, find, update, sort_by, if◌then◌else◌,
}
use capital_os.Exec.{Error}
use capital_os.Money.{Posting, normalize_amount}
use capital_os.Text.{Text, codes, text_leb, text_eq, decimal_text}
use capital_os.Store.{Database, BundlePayload, TransactionRow, Response, idempotent_replay}
use capital_os.Store.Action.{Action, pure, raise_if, lift, gets, modify, fresh_id, ◌>>=◌, ◌>>◌}
use capital_os.Periods.{entity_of}
pub use capital_os.Periods.{entity_exists}

abbrev pub has_key : String → String → TransactionRow → Bool
has_key source_system external_id t =
    str_eq t.source_system source_system && str_eq t.external_id external_id

unfoldable pub fetch_transaction_by_external_id : String → String → Database → Option TransactionRow
fetch_transaction_by_external_id source_system external_id db =
    find (has_key source_system external_id) db.transactions

-- The stored response of the transaction with this key. A transaction with no response gives the
-- empty dict, which is false to every caller, as None is.
unfoldable pub resolve_transaction_idempotency : String → String → Database → Option Response
resolve_transaction_idempotency source_system external_id db =
    elim (fetch_transaction_by_external_id source_system external_id db) [
      | none ↦ none
      | some t ↦ elim t.response_payload [
        | none ↦ none
        | some r ↦ some (record r { status = idempotent_replay })
      ]
    ]

-- the order of the postings of a bundle: account, text of the amount, memo or ""
abbrev pub posting_leb : (Posting → Text) → Posting → Posting → Bool
posting_leb amount a b =
    let same_account = str_eq a.account_id b.account_id in
    let same_amount = text_eq (amount a) (amount b) in
    if same_account
    then (if same_amount
        then text_leb (codes (or_default a.memo "")) (codes (or_default b.memo ""))
        else text_leb (amount a) (amount b))
    else text_leb (codes a.account_id) (codes b.account_id)

abbrev pub account_exists : String → Database → Bool
account_exists account_id db = any (λ a. str_eq a.account_id account_id) db.accounts

unfoldable pub insert_transaction_row : BundlePayload → String → ℕ → Action (Unit {0})
insert_transaction_row payload input_hash tx_id = do
  duplicate ← gets (λ db. any (has_key payload.source_system payload.external_id) db.transactions)
  raise_if duplicate (Error.integrity "UNIQUE constraint failed")
  known ← gets (entity_exists (entity_of payload.entity_id))
  raise_if (not known) (Error.integrity "FOREIGN KEY constraint failed")
  modify (λ db. record db {
    transactions =
        db.transactions
        ++ record {
          transaction_id = tx_id;
          source_system = payload.source_system;
          external_id = payload.external_id;
          transaction_date = payload.date;
          description = payload.description;
          correlation_id = payload.correlation_id;
          input_hash = input_hash;
          entity_id = entity_of payload.entity_id;
          is_adjusting_entry = payload.is_adjusting_entry;
          adjusting_reason_code = payload.adjusting_reason_code;
          response_payload = none;
          output_hash = none;
        }
          ∷ [];
  })

unfoldable pub insert_posting : ℕ → Posting → Action ℕ
insert_posting tx_id p = do
  posting_id ← fresh_id
  amount ← lift (normalize_amount p.amount)
  raise_if (not (str_eq p.currency "USD")) (Error.integrity "CHECK constraint failed")
  known ← gets (account_exists p.account_id)
  raise_if (not known) (Error.integrity "FOREIGN KEY constraint failed")
  modify (λ db. record db {
    postings =
        db.postings
        ++ record {
          posting_id = posting_id;
          transaction_id = tx_id;
          account_id = p.account_id;
          amount = amount;
          currency = p.currency;
          memo = p.memo;
        }
          ∷ [];
  })
  pure posting_id

unfoldable pub insert_postings : ℕ → List Posting → Action (List ℕ)
insert_postings tx_id [] = pure []
insert_postings tx_id (p ∷ ps) = do
  posting_id ← insert_posting tx_id p
  rest ← insert_postings tx_id ps
  pure (posting_id ∷ rest)

-- the postings, sorted
unfoldable pub insert_sorted : BundlePayload → ℕ → Action (ℕ × List ℕ)
insert_sorted payload tx_id = do
  posting_ids ←
      insert_postings tx_id (sort_by (posting_leb (λ p. decimal_text p.amount)) payload.postings)
  pure (tx_id, posting_ids)

unfoldable pub insert_transaction_bundle : BundlePayload → String → Action (ℕ × List ℕ)
insert_transaction_bundle payload input_hash = do
  tx_id ← fresh_id
  insert_transaction_row payload input_hash tx_id
  insert_sorted payload tx_id

-- A trigger raises where the transaction has a response.
unfoldable pub save_transaction_response : ℕ → Response → String → Action (Unit {0})
save_transaction_response tx_id response output_hash = do
  answered ←
      gets
        (λ db. any (λ t. t.transaction_id == tx_id && is_some t.response_payload) db.transactions)
  raise_if answered (Error.integrity "Append-only table: ledger_transactions UPDATE not permitted")
  modify (λ db. record db {
    transactions =
        update (λ t. t.transaction_id == tx_id)
          (λ t. record t { response_payload = some response; output_hash = some output_hash })
          db.transactions;
  })

-- ===== src/Query/Transactions.antt =====
-- Following the cursors of `query_transactions_page` in src/capital_os/domain/query/service.py.
use capital_os.Base.{
  ℕ, ◌≡◌, ◌≤◌, ◌*◌, refl, ap, inl, inr, true, none, List, [], ◌∷◌, All, ◌⊎◌, length, select,
  Distinct,
}
use capital_os.Exec.{ok, >>=-eq-ok, ok_inj}
use capital_os.Json.{CodecLaws}
use mathlib.Core.Path.{subst}
use capital_os.Store.{Database, TransactionRow}
use capital_os.Query.Order.{
  text_order, descending, text_order-OrderLaws, descending-OrderLaws, two_columns, before_cases,
}
use capital_os.Query.Page.{show_rows}
use capital_os.Query.Complete.{CanShow, TextBefore, text_ltb-TextBefore, Ordered, Ordered-of}
use mathlib.Core.List.{Perm}
use capital_os.Query.Walk.{KeepsKey}
use capital_os.Money.{normalize_amount}
use capital_os.Query.Cursor.{transactions}
use capital_os.Query.Lists.{
  Outside, order_of, follow, query_transactions_page, transaction_key, transaction_item_key,
  show_transaction, TransactionItem,
}
use capital_os.Query.Follow.{follow-Complete}

select-true : {A : Type 0} (xs : List A) → select (λ _. true) xs ≡ xs
select-true [] = refl
select-true (x ∷ xs) = ap (λ rest. x ∷ rest) (select-true xs)

module _ (outside : Outside) where
  show_transaction-KeepsKey :
      (db : Database)
      → KeepsKey
          (transaction_key outside)
          (transaction_item_key outside)
          (show_transaction outside db)
  unfolding show_transaction
  show_transaction-KeepsKey db t item h =
      let (gross, e, made) = >>=-eq-ok (normalize_amount _) _ h in rw (← ok_inj made) refl

  -- `a` has the later text of the date, or the same and the first key.
  abbrev pub LaterText : TransactionRow → TransactionRow → Type 0
  LaterText a b =
      TextBefore (outside.stored_date b.transaction_id) (outside.stored_date a.transaction_id)
      ⊎ ((outside.stored_date a.transaction_id ≡ outside.stored_date b.transaction_id)
          × TextBefore (outside.uuid_text a.transaction_id) (outside.uuid_text b.transaction_id))

  -- What the client has from the transactions: the rows of the table in an order, as they are shown.
  pub record HasTransactions (db : Database) (limit fuel : ℕ) : Type 0 where
    pub rows : List TransactionRow
    pub items : List TransactionItem
    pub same_rows : Perm rows db.transactions
    pub latest_first : Ordered LaterText rows
    pub are_shown : show_rows (show_transaction outside db) rows ≡ ok items
    pub followed : follow (λ c. query_transactions_page outside limit c db) fuel none ≡ ok items

  LaterText-of :
      (a b : TransactionRow)
      → (order_of transactions).lt (transaction_key outside a) (transaction_key outside b) ≡ true
      → LaterText a b
  unfolding order_of two_columns text_order
  LaterText-of a b h =
      elim (before_cases (descending text_order) text_order
        (descending-OrderLaws text_order text_order-OrderLaws) text_order-OrderLaws
        (transaction_key outside a) (transaction_key outside b) h) [
          | inl e ↦ inl (text_ltb-TextBefore _ _ e)
          | inr (e, later) ↦ inr (e, text_ltb-TextBefore _ _ later)
        ]

  -- A client that asks for the transactions with any limit of at least one and follows the cursors
  -- gets every row of the table exactly once, those with the last text of the date first and of the
  -- same text those with the first text of the key, in as many requests as fill pages of the limit,
  -- if no two have the same text of the date and of the key and each can be shown.
  pub query_transactions_page_complete :
      (db : Database) (limit fuel : ℕ)
      → CodecLaws outside.codec
      → Distinct (transaction_key outside) db.transactions
      → All (CanShow (show_transaction outside db)) db.transactions
      → 1 ≤ limit
      → length db.transactions ≤ fuel * limit
      → 1 ≤ fuel
      → HasTransactions db limit fuel
  unfolding query_transactions_page
  query_transactions_page_complete db limit fuel laws d can positive enough some_fuel =
      let whole = select-true db.transactions in
      let c =
        follow-Complete outside transactions (transaction_key outside)
          (transaction_item_key outside) (show_transaction outside db) (λ _. true)
          (CanShow (show_transaction outside db)) limit fuel db.transactions laws d
          (show_transaction-KeepsKey db) (rw whole can) (rw whole can) positive (rw whole enough)
          some_fuel in
      record {
        rows = c.sorted;
        items = c.items;
        same_rows = subst (Perm c.sorted) whole c.same_rows;
        latest_first =
            Ordered-of (CanShow (show_transaction outside db)) _ LaterText
              (λ a b _ _. LaterText-of a b) c.sorted c.all c.ascending;
        are_shown = c.are_shown;
        followed = c.followed;
      }

-- ===== src/Query/Follow.antt =====
-- Following the written cursors of the list queries of src/capital_os/domain/query/service.py.
use capital_os.Base.{
  ℕ, zero, suc, ◌≡◌, ◌≤◌, ◌*◌, refl, ap, ◌∙◌, inl, inr, Bool, true, Option, none, some, List, ◌++◌,
  [], ◌∷◌, All, arith, length, select, sort_by, Option-cases, Distinct,
}
use capital_os.Exec.{Result, ok, ◌>>=◌, Result-cases}
use capital_os.Text.{Text}
use capital_os.Json.{CodecLaws}
use capital_os.Query.Order.{
  OrderLaws, text_order, descending, text_order-OrderLaws, descending-OrderLaws,
  two_columns-OrderLaws,
}
use capital_os.Query.Page.{row_leb, show_rows, query_page, follow_cursors}
use capital_os.Query.Sorted.{Ascending, All-sort_by, sort_by-Ascending, Distinct-select}
use capital_os.Query.Complete.{CanShow, Ordered, sort_by-perm, show_rows_total}
use mathlib.Core.List.{Perm}
use capital_os.Query.Walk.{KeepsKey, follow_cursors-eq-sorted}
use capital_os.Query.Cursor.{
  ListQuery, accounts, transactions, obligations, proposals, read_columns, written_columns,
  cursor_keys, encode_keys, cursor_keys-encode_keys,
}
use capital_os.Query.Lists.{Outside, list_query, order_of, follow}

-- The rows of a query, in its order.
abbrev in_order : {A : Type 0} → ListQuery → (A → Text × Text) → (A → Bool) → List A → List A
in_order query key keep rows = sort_by (row_leb (order_of query) key) (select keep rows)

order_of-OrderLaws : (query : ListQuery) → OrderLaws (order_of query)
unfolding order_of
order_of-OrderLaws accounts =
    two_columns-OrderLaws text_order text_order text_order-OrderLaws text_order-OrderLaws
order_of-OrderLaws transactions =
    two_columns-OrderLaws (descending text_order) text_order
      (descending-OrderLaws text_order text_order-OrderLaws) text_order-OrderLaws
order_of-OrderLaws obligations =
    two_columns-OrderLaws text_order text_order text_order-OrderLaws text_order-OrderLaws
order_of-OrderLaws proposals =
    two_columns-OrderLaws (descending text_order) text_order
      (descending-OrderLaws text_order text_order-OrderLaws) text_order-OrderLaws

module _ (outside : Outside) {A B : Type 0} (query : ListQuery) (key : A → Text × Text)
    (shown_key : B → Text × Text) (show : A → Result B) (keep : A → Bool) where
  written : Option (Text × Text) → Option Text
  written none = none
  written (some k) = some (encode_keys outside.codec (written_columns query) k)

  read_written :
      CodecLaws outside.codec
      → (cursor : Option (Text × Text))
      → cursor_keys outside.codec (read_columns query) (written cursor) ≡ ok cursor
  unfolding written cursor_keys
  read_written laws none = refl
  read_written laws (some k) = cursor_keys-encode_keys outside.codec query k laws

  -- the written cursors lead through the same pages as the keys that they hold
  follow-list_query :
      (limit fuel : ℕ) (cursor : Option (Text × Text)) (rows : List A)
      → CodecLaws outside.codec
      → follow
          (λ c. list_query outside query key shown_key show keep limit c rows)
          fuel
          (written cursor)
        ≡ follow_cursors (order_of query) key shown_key show keep limit fuel cursor rows
  unfolding written follow follow_cursors list_query
  follow-list_query limit zero cursor rows laws = refl
  follow-list_query limit (suc fuel) cursor rows laws =
      elim (Result-cases (query_page (order_of query) key shown_key show keep limit cursor rows)) [
        | inr (e, failed) ↦ rw (read_written laws cursor, failed) refl
        | inl (page, paged) ↦ elim (Option-cases page.next_cursor) [
          | inl last ↦ rw (read_written laws cursor, paged, last) refl
          | inr (k, more) ↦
              let rest = follow-list_query limit fuel (some k) rows laws in
              rw (read_written laws cursor, paged, more)
                (ap (λ (r : Result (List B)). r >>= λ more_rows. ok (page.rows ++ more_rows)) rest)
        ]
      ]

  -- with any limit of at least one
  follow-list_query-eq-sorted :
      (limit fuel : ℕ) (rows : List A) (items : List B)
      → CodecLaws outside.codec
      → Distinct key rows
      → KeepsKey key shown_key show
      → show_rows show (in_order query key keep rows) ≡ ok items
      → 1 ≤ limit
      → length (select keep rows) ≤ fuel * limit
      → 1 ≤ fuel
      → follow (λ c. list_query outside query key shown_key show keep limit c rows) fuel none
        ≡ ok items
  unfolding written
  follow-list_query-eq-sorted zero fuel rows items laws d kk shown positive enough some_fuel =
      absurd (omega arith)
  follow-list_query-eq-sorted (suc n) fuel rows items laws d kk shown positive enough some_fuel =
      follow-list_query (suc n) fuel none rows laws
      ∙ follow_cursors-eq-sorted (order_of query) (order_of-OrderLaws query) key shown_key show keep
          n rows fuel items d kk shown enough some_fuel

  -- What a client that follows the cursors got: rows that are those the query keeps, each as often,
  -- and in the order of the query, as they are shown.
  pub record Complete (P : A → Type 0) (limit fuel : ℕ) (rows : List A) : Type 0 where
    pub sorted : List A
    pub items : List B
    pub same_rows : Perm sorted (select keep rows)
    pub ascending : Ordered (λ a b. (order_of query).lt (key a) (key b) ≡ true) sorted
    pub all : All P sorted
    pub are_shown : show_rows show sorted ≡ ok items
    pub followed :
        follow (λ c. list_query outside query key shown_key show keep limit c rows) fuel none
        ≡ ok items

  Ascending-Ordered :
      (xs : List A)
      → Ascending (order_of query) (order_of-OrderLaws query) key xs
      → Ordered (λ a b. (order_of query).lt (key a) (key b) ≡ true) xs
  Ascending-Ordered [] h = tt
  Ascending-Ordered (x ∷ xs) h = (h.0, Ascending-Ordered xs h.1)

  pub follow-Complete :
      (P : A → Type 0) (limit fuel : ℕ) (rows : List A)
      → CodecLaws outside.codec
      → Distinct key rows
      → KeepsKey key shown_key show
      → All (CanShow show) (select keep rows)
      → All P (select keep rows)
      → 1 ≤ limit
      → length (select keep rows) ≤ fuel * limit
      → 1 ≤ fuel
      → Complete P limit fuel rows
  follow-Complete P limit fuel rows laws d kk can all positive enough some_fuel =
      let order = order_of query in
      let order_laws = order_of-OrderLaws query in
      let kept = select keep rows in
      let can' = All-sort_by order order_laws key (CanShow show) kept can in
      let (items, shown) = show_rows_total show (in_order query key keep rows) can' in
      record {
        sorted = in_order query key keep rows;
        items = items;
        same_rows = sort_by-perm (row_leb order key) kept;
        ascending =
            Ascending-Ordered (in_order query key keep rows)
              (sort_by-Ascending order order_laws key kept (Distinct-select key keep rows d));
        all = All-sort_by order order_laws key P kept all;
        are_shown = shown;
        followed =
            follow-list_query-eq-sorted limit fuel rows items laws d kk shown positive enough
              some_fuel;
      }

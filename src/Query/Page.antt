-- ===== src/Query/Page.antt =====
-- One page of a list query: the rows after the cursor in their order, `LIMIT limit + 1`, and the
-- cursor of the next page where there is a row beyond the limit. The four list queries of
-- src/capital_os/domain/query/service.py differ in the rows, in the sort key and in the filter.
use capital_os.Base.{
  ℕ, zero, suc, Bool, true, ◌&&◌, not, Option, none, some, List, [], ◌∷◌, ◌++◌, ltb, length, select,
  sort_by, take, if◌then◌else◌,
}
use capital_os.Exec.{Error, Result, ok, err, ◌>>=◌}
use capital_os.Query.Order.{Order}

-- the rows as the response shows them, and the key of the last, where there are more
pub record Page (B K : Type 0) : Type 0 where
  pub rows : List B
  pub next_cursor : Option K

-- `rows[i - 1]`, which for 0 is the last row
unfoldable pub last_row : {A : Type 0} → List A → Option A
last_row [] = none
last_row (x ∷ []) = some x
last_row (x ∷ y ∷ ys) = last_row (y ∷ ys)

unfoldable pub row_before : {A : Type 0} → ℕ → List A → Option A
unfolding last_row
row_before zero xs = last_row xs
row_before (suc n) [] = none
row_before (suc zero) (x ∷ xs) = some x
row_before (suc (suc n)) (x ∷ xs) = row_before (suc n) xs

module _ {A B : Type 0} where
  -- each row as the response shows it; the first that cannot be shown ends the query
  unfoldable pub show_rows : (A → Result B) → List A → Result (List B)
  show_rows show [] = ok []
  show_rows show (x ∷ xs) = do b ← show x; bs ← show_rows show xs; ok (b ∷ bs)

module _ {A K : Type 0} (order : Order K) (key : A → K) where
  -- `(key > cursor)`, where there is a cursor
  abbrev pub after : Option K → A → Bool
  after none row = true
  after (some c) row = order.lt c (key row)

  abbrev pub row_leb : A → A → Bool
  row_leb a b = not (order.lt (key b) (key a))

  -- `WHERE after AND keep ORDER BY key LIMIT limit + 1`
  unfoldable pub list_page : (A → Bool) → ℕ → Option K → List A → List A
  list_page keep limit cursor rows =
      take (suc limit) (sort_by row_leb (select (λ r. after cursor r && keep r) rows))

-- `if len(rows) > limit:` the rows up to the limit, and the cursor of the last of them
unfoldable pub cut_page : {B K : Type 0} → (B → K) → ℕ → List B → Page B K
unfolding row_before
cut_page key limit rows =
    if ltb limit (length rows)
    then record {
      rows = take limit rows;
      next_cursor = elim (row_before limit rows) [ none ↦ none | some tail ↦ some (key tail) ];
    }
    else record { rows = rows; next_cursor = none }

module _ {A B K : Type 0} (order : Order K) (key : A → K) (shown_key : B → K)
    (show : A → Result B) where
  unfoldable pub query_page : (A → Bool) → ℕ → Option K → List A → Result (Page B K)
  query_page keep limit cursor rows = do
    shown ← show_rows show (list_page order key keep limit cursor rows)
    ok (cut_page shown_key limit shown)

  -- A client that follows the cursors, with as many requests as `fuel`.
  unfoldable pub follow_cursors : (A → Bool) → ℕ → ℕ → Option K → List A → Result (List B)
  follow_cursors keep limit zero cursor rows = err (Error.value "too many pages")
  follow_cursors keep limit (suc fuel) cursor rows = do
    page ← query_page keep limit cursor rows
    elim page.next_cursor [
      | none ↦ ok page.rows
      | some c ↦ do rest ← follow_cursors keep limit fuel (some c) rows; ok (page.rows ++ rest)
    ]

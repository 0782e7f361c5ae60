-- ===== src/Query/Walk.antt =====
-- Following the cursors of a list query from its first page to its last.
use capital_os.Base.{
  ℕ, zero, suc, ◌≡◌, ◌≤◌, ◌<◌, ◌+◌, ◌*◌, refl, sym, ap, ◌∙◌, inl, inr, Bool, false, Option, none,
  some, List, [], ◌∷◌, ◌++◌, arith, ltb, ltb→le, ltb→lt, lt→ltb, length, select, sort_by, take,
  Distinct, Bool-cases,
}
use mathlib.Core.Path.{subst}
use capital_os.Exec.{Result, ok, >>=-eq-ok}
use capital_os.Query.Order.{Order, OrderLaws}
use capital_os.Query.Page.{
  row_before, show_rows, after, row_leb, list_page, cut_page, query_page, follow_cursors,
}
use capital_os.Query.Sorted.{
  Distinct-select, select-and, select-sort_by, sort_by-Ascending, select-after, select-none,
  length-sort_by,
}

module _ {A B K : Type 0} (key : A → K) (shown_key : B → K) (show : A → Result B) where
  -- every row that is shown keeps its sort key
  abbrev pub KeepsKey : Type 0
  KeepsKey = (a : A) (b : B) → show a ≡ ok b → shown_key b ≡ key a

  -- the rows of the second list are those of the first, as they are shown
  Shows : List A → List B → Type 0
  Shows [] [] = Unit
  Shows [] (y ∷ ys) = ⊥
  Shows (x ∷ xs) [] = ⊥
  Shows (x ∷ xs) (y ∷ ys) = (show x ≡ ok y) × Shows xs ys

  show_rows-eq_ok : (xs : List A) (ys : List B) → show_rows show xs ≡ ok ys → Shows xs ys
  unfolding show_rows Shows
  show_rows-eq_ok [] [] h = tt
  show_rows-eq_ok [] (y ∷ ys) h = absurd (cc)
  show_rows-eq_ok (x ∷ xs) ys h =
      let (b, e, h1) = >>=-eq-ok (show x) _ h in
      let (bs, e', h2) = >>=-eq-ok (show_rows show xs) _ h1 in
      let same : b ∷ bs ≡ ys = cc in subst (Shows (x ∷ xs)) same (e, show_rows-eq_ok xs bs e')

  Shows-show_rows : (xs : List A) (ys : List B) → Shows xs ys → show_rows show xs ≡ ok ys
  unfolding show_rows Shows
  Shows-show_rows [] [] h = refl
  Shows-show_rows [] (y ∷ ys) h = absurd h
  Shows-show_rows (x ∷ xs) [] h = absurd h
  Shows-show_rows (x ∷ xs) (y ∷ ys) h = rw (h.0, Shows-show_rows xs ys h.1) refl

  Shows-take : (n : ℕ) (xs : List A) (ys : List B) → Shows xs ys → Shows (take n xs) (take n ys)
  unfolding Shows
  Shows-take zero xs ys h = tt
  Shows-take (suc n) [] [] h = tt
  Shows-take (suc n) [] (y ∷ ys) h = absurd h
  Shows-take (suc n) (x ∷ xs) [] h = absurd h
  Shows-take (suc n) (x ∷ xs) (y ∷ ys) h = (h.0, Shows-take n xs ys h.1)

  Shows-length : (xs : List A) (ys : List B) → Shows xs ys → length ys ≡ length xs
  unfolding Shows
  Shows-length [] [] h = refl
  Shows-length [] (y ∷ ys) h = absurd h
  Shows-length (x ∷ xs) [] h = absurd h
  Shows-length (x ∷ xs) (y ∷ ys) h = omega (arith, Shows-length xs ys h.1)

  -- The rows `xs` that are left, shown as `ys`, split after the first `limit`: `tail` is the last
  -- row of the page, and `rest` are the rows after it.
  record Cut (limit : ℕ) (xs : List A) (ys : List B) : Type 0 where
    front : List A
    tail : A
    rest : List A
    shown_tail : B
    shown_rest : List B
    split : xs ≡ front ++ tail ∷ rest
    shown_split : ys ≡ take limit (take (suc limit) ys) ++ shown_rest
    is_tail : row_before limit (take (suc limit) ys) ≡ some shown_tail
    shows_tail : show tail ≡ ok shown_tail
    more : limit < length (take (suc limit) ys)
    shows_rest : Shows rest shown_rest
    counts : length rest + limit ≡ length xs

  Cut-of : (n : ℕ) (xs : List A) (ys : List B) → Shows xs ys → suc n < length xs → Cut (suc n) xs ys
  unfolding Shows row_before
  Cut-of n [] ys h lt = absurd (omega arith)
  Cut-of n (x ∷ xs) [] h lt = absurd h
  Cut-of n (x ∷ []) (y ∷ ys) h lt = absurd (omega arith)
  Cut-of n (x ∷ x' ∷ xs) (y ∷ []) h lt = absurd h.1
  Cut-of zero (x ∷ x' ∷ xs) (y ∷ y' ∷ ys) h lt = record {
    front = [];
    tail = x;
    rest = x' ∷ xs;
    shown_tail = y;
    shown_rest = y' ∷ ys;
    split = refl;
    shown_split = refl;
    is_tail = refl;
    shows_tail = h.0;
    more = omega arith;
    shows_rest = h.1;
    counts = omega arith;
  }
  Cut-of (suc n) (x ∷ x' ∷ xs) (y ∷ y' ∷ ys) h lt =
      let c = Cut-of n (x' ∷ xs) (y' ∷ ys) h.1 (omega arith) in
      record {
        front = x ∷ c.front;
        tail = c.tail;
        rest = c.rest;
        shown_tail = c.shown_tail;
        shown_rest = c.shown_rest;
        split = ap (λ zs. x ∷ zs) c.split;
        shown_split = ap (λ zs. y ∷ zs) c.shown_split;
        is_tail = c.is_tail;
        shows_tail = c.shows_tail;
        more = let k = c.more in omega arith;
        shows_rest = c.shows_rest;
        counts = let k = c.counts in omega arith;
      }

  cut_page_more :
      (n : ℕ) (xs : List A) (ys : List B)
      → KeepsKey
      → (c : Cut (suc n) xs ys)
      → cut_page shown_key (suc n) (take (suc (suc n)) ys)
        ≡ record { rows = take (suc n) (take (suc (suc n)) ys); next_cursor = some (key c.tail) }
  unfolding cut_page
  cut_page_more n xs ys kk c =
      rw
        (
          lt→ltb (suc n) (length (take (suc (suc n)) ys)) c.more,
          c.is_tail,
          kk c.tail c.shown_tail c.shows_tail,
        )
        refl

take_all : {A : Type 0} (n : ℕ) (xs : List A) → length xs ≤ n → take n xs ≡ xs
take_all zero [] h = refl
take_all zero (x ∷ xs) h = absurd (omega arith)
take_all (suc n) [] h = refl
take_all (suc n) (x ∷ xs) h = ap (λ ys. x ∷ ys) (take_all n xs (omega arith))

++_assoc : {A : Type 0} (xs ys zs : List A) → (xs ++ ys) ++ zs ≡ xs ++ (ys ++ zs)
++_assoc [] ys zs = refl
++_assoc (x ∷ xs) ys zs = ap (λ rest. x ∷ rest) (++_assoc xs ys zs)

-- what a full page leaves to the pages that follow
pages_left : (fuel n r k : ℕ) → r + suc n ≡ k → k ≤ suc fuel * suc n → r ≤ fuel * suc n
pages_left fuel n r k h e = omega arith

one_left : (fuel n k : ℕ) → suc n < k → k ≤ suc fuel * suc n → 1 ≤ fuel
one_left zero n k h e = absurd (omega arith)
one_left (suc fuel) n k h e = omega arith

cut_page_last :
    {B K : Type 0} (shown_key : B → K) (n : ℕ) (ys : List B)
    → length ys ≤ suc n
    → cut_page shown_key (suc n) (take (suc (suc n)) ys) ≡ record { rows = ys; next_cursor = none }
unfolding cut_page
cut_page_last shown_key n ys h =
    let short : ltb (suc n) (length ys) ≡ false = ground arith in
    rw (take_all (suc (suc n)) ys (omega arith), short) refl

module _ {A B K : Type 0} (order : Order K) (laws : OrderLaws order) (key : A → K)
    (shown_key : B → K) (show : A → Result B) (keep : A → Bool) (n : ℕ) (rows : List A) where
  -- the rows of the query in their order
  abbrev sorted_rows : List A
  sorted_rows = sort_by (row_leb order key) (select keep rows)

  list_page_sorted :
      (cursor : Option K)
      → Distinct key rows
      → list_page order key keep (suc n) cursor rows
        ≡ take (suc (suc n)) (select (after order key cursor) sorted_rows)
  unfolding list_page
  list_page_sorted cursor d =
      rw
        (
          select-and (after order key cursor) keep rows,
          select-sort_by order laws key (after order key cursor) (select keep rows)
              (Distinct-select key keep rows d),
        )
        refl

  query_page_sorted :
      (cursor : Option K) (xs : List A) (ys : List B)
      → Distinct key rows
      → select (after order key cursor) sorted_rows ≡ xs
      → Shows key shown_key show xs ys
      → query_page order key shown_key show keep (suc n) cursor rows
        ≡ ok (cut_page shown_key (suc n) (take (suc (suc n)) ys))
  unfolding query_page
  query_page_sorted cursor xs ys d e h =
      let shown =
        Shows-show_rows key shown_key show (take (suc (suc n)) xs) (take (suc (suc n)) ys)
          (Shows-take key shown_key show (suc (suc n)) xs ys h) in
      rw (list_page_sorted cursor d, e, shown) refl

  follow_from :
      (fuel : ℕ) (cursor : Option K) (seen xs : List A) (ys : List B)
      → Distinct key rows
      → KeepsKey key shown_key show
      → sorted_rows ≡ seen ++ xs
      → select (after order key cursor) sorted_rows ≡ xs
      → Shows key shown_key show xs ys
      → length xs ≤ fuel * suc n
      → 1 ≤ fuel
      → follow_cursors order key shown_key show keep (suc n) fuel cursor rows ≡ ok ys
  unfolding follow_cursors cut_page
  follow_from zero cursor seen xs ys d kk split left h enough some_fuel = absurd (omega arith)
  follow_from (suc fuel) cursor seen xs ys d kk split left h enough some_fuel =
      elim (Bool-cases (ltb (suc n) (length xs))) [
        | inl more ↦
            let c = Cut-of key shown_key show n xs ys h (ltb→lt (suc n) (length xs) more) in
            let split' : sorted_rows ≡ (seen ++ c.front) ++ c.tail ∷ c.rest =
              split
              ∙ ap (λ zs. seen ++ zs) c.split
              ∙ sym (++_assoc seen c.front (c.tail ∷ c.rest)) in
            let next : select (after order key (some (key c.tail))) sorted_rows ≡ c.rest =
              rw split' (
                select-after order laws key (seen ++ c.front) c.tail c.rest (
                  rw (← split') (
                    sort_by-Ascending order laws key (select keep rows)
                      (Distinct-select key keep rows d)))) in
            let counted = c.counts in
            let rest =
              follow_from fuel (some (key c.tail)) ((seen ++ c.front) ++ c.tail ∷ []) c.rest
                c.shown_rest d kk (split' ∙ sym (++_assoc (seen ++ c.front) (c.tail ∷ []) c.rest))
                next c.shows_rest (pages_left fuel n (length c.rest) (length xs) counted enough)
                (one_left fuel n (length xs) (ltb→lt (suc n) (length xs) more) enough) in
            rw
              (
                query_page_sorted cursor xs ys d left h,
                cut_page_more key shown_key show n xs ys kk c,
                rest,
              )
              (ap ok (sym c.shown_split))
        | inr last ↦
            let len = Shows-length key shown_key show xs ys h in
            let small = ltb→le (suc n) (length xs) last in
            rw (query_page_sorted cursor xs ys d left h, cut_page_last shown_key n ys (omega arith))
              refl
      ]

  -- A client that follows the cursors of a list query with a limit of at least one gets every row
  -- that the query keeps exactly once and in the order of the query, within as many requests as it
  -- takes to fill pages of the limit, if the rows have distinct sort keys, and each of them can be
  -- shown and keeps its key.
  pub follow_cursors-eq-sorted :
      (fuel : ℕ) (ys : List B)
      → Distinct key rows
      → KeepsKey key shown_key show
      → show_rows show sorted_rows ≡ ok ys
      → length (select keep rows) ≤ fuel * suc n
      → 1 ≤ fuel
      → follow_cursors order key shown_key show keep (suc n) fuel none rows ≡ ok ys
  follow_cursors-eq-sorted fuel ys d kk shown enough some_fuel =
      let h = show_rows-eq_ok key shown_key show sorted_rows ys shown in
      let len = length-sort_by (row_leb order key) (select keep rows) in
      follow_from fuel none [] sorted_rows ys d kk refl (select-none order laws key sorted_rows) h
        (omega arith) some_fuel

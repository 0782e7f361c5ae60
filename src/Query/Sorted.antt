-- ===== src/Query/Sorted.antt =====
-- Rows with distinct sort keys: `ORDER BY` puts them in ascending order, and a `WHERE` may be
-- taken before it or after it.
use capital_os.Base.{
  ◌≡◌, ◌≢◌, refl, ap, inl, inr, Bool, true, false, ◌&&◌, List, [], ◌∷◌, ◌++◌, arith, length, select,
  All, Distinct, insert_by, sort_by, Bool-cases, ◌+◌, All-map, some, none,
}
use capital_os.Query.Order.{Order, OrderLaws}
use capital_os.Query.Page.{row_leb, after}

-- what both branches of a test have
pub branches {ℓ κ} :
    {B : Type ℓ} (Q : B → Type κ) (b : Bool) (x y : B)
    → (b ≡ true → Q x)
    → (b ≡ false → Q y)
    → Q (elim b [ true ↦ x | false ↦ y ])
branches Q true x y h k = h refl
branches Q false x y h k = k refl

module _ {A : Type 0} where
  pub All-select {κ} :
      (P : A → Type κ) (p : A → Bool) (xs : List A) → All P xs → All P (select p xs)
  All-select P p [] h = tt
  All-select P p (x ∷ xs) h =
      branches (All P) (p x) (x ∷ select p xs) (select p xs) (λ _. (h.0, All-select P p xs h.1))
        λ _. All-select P p xs h.1

  pub All-insert_by {κ} :
      (P : A → Type κ) (le : A → A → Bool) (x : A) (ys : List A)
      → P x
      → All P ys
      → All P (insert_by le x ys)
  All-insert_by P le x [] h k = (h, tt)
  All-insert_by P le x (y ∷ ys) h k =
      branches (All P) (le x y) (x ∷ y ∷ ys) (y ∷ insert_by le x ys) (λ _. (h, k))
        λ _. (k.0, All-insert_by P le x ys h k.1)

  select-All : (p : A → Bool) (xs : List A) → All (λ x. p x ≡ true) xs → select p xs ≡ xs
  select-All p [] h = refl
  select-All p (x ∷ xs) h = rw (select, h.0, select-All p xs h.1) refl

  All-middle {κ} : (P : A → Type κ) (xs : List A) (t : A) (zs : List A) → All P (xs ++ t ∷ zs) → P t
  All-middle P [] t zs h = h.0
  All-middle P (x ∷ xs) t zs h = All-middle P xs t zs h.1

  pub select-and :
      (p q : A → Bool) (xs : List A) → select (λ r. p r && q r) xs ≡ select p (select q xs)
  select-and p q [] = refl
  select-and p q (x ∷ xs) = ground (arith, select-and p q xs)

  pub length-insert_by :
      (le : A → A → Bool) (x : A) (ys : List A) → length (insert_by le x ys) ≡ length ys + 1
  length-insert_by le x [] = omega arith
  length-insert_by le x (y ∷ ys) = ground (arith, length-insert_by le x ys)

  pub length-sort_by : (le : A → A → Bool) (xs : List A) → length (sort_by le xs) ≡ length xs
  unfolding sort_by
  length-sort_by le [] = refl
  length-sort_by le (x ∷ xs) =
      omega (arith, length-insert_by le x (sort_by le xs), length-sort_by le xs)

module _ {A K : Type 0} (key : A → K) where
  pub Distinct-select : (p : A → Bool) (xs : List A) → Distinct key xs → Distinct key (select p xs)
  Distinct-select p [] h = tt
  Distinct-select p (x ∷ xs) h =
      branches (Distinct key) (p x) (x ∷ select p xs) (select p xs)
        (λ _. (All-select (λ y. key x ≢ key y) p xs h.0, Distinct-select p xs h.1))
        λ _. Distinct-select p xs h.1

module _ {A K : Type 0} (order : Order K) (laws : OrderLaws order) (key : A → K) where
  -- each row is before all that follow it
  abbrev pub Ascending : List A → Type 0
  Ascending [] = Unit
  Ascending (x ∷ xs) = All (λ y. order.lt (key x) (key y) ≡ true) xs × Ascending xs

  abbrev le : A → A → Bool
  le = row_leb order key

  -- the first of two rows that are not the wrong way round
  lt_of_le : (x y : A) → key x ≢ key y → le x y ≡ true → order.lt (key x) (key y) ≡ true
  lt_of_le x y d h = elim (Bool-cases (order.lt (key x) (key y))) [
    | inl e ↦ e
    | inr e ↦ absurd (d (laws.lt_connected (key x) (key y) e (ground arith)))
  ]

  lt_of_not_le : (x y : A) → le x y ≡ false → order.lt (key y) (key x) ≡ true
  lt_of_not_le x y h = ground arith

  lt_asym : (x y : A) → order.lt (key x) (key y) ≡ true → order.lt (key y) (key x) ≡ false
  lt_asym x y h = elim (Bool-cases (order.lt (key y) (key x))) [
    | inl e ↦
        let k = laws.lt_trans (key x) (key y) (key x) h e in
        let irr = laws.lt_irrefl (key x) in absurd (cc)
    | inr e ↦ e
  ]

  -- a row that is before the first of an ascending list is inserted at the front
  insert-front :
      (x : A) (zs : List A)
      → All (λ z. order.lt (key x) (key z) ≡ true) zs
      → insert_by le x zs ≡ x ∷ zs
  insert-front x [] h = refl
  insert-front x (z ∷ zs) h =
      let e : le x z ≡ true = rw (lt_asym x z h.0) refl in rw (insert_by, e) refl

  Ascending-insert_by :
      (x : A) (ys : List A)
      → All (λ y. key x ≢ key y) ys
      → Ascending ys
      → Ascending (insert_by le x ys)
  Ascending-insert_by x [] d h = (tt, tt)
  Ascending-insert_by x (y ∷ ys) d h =
      branches Ascending (le x y) (x ∷ y ∷ ys) (y ∷ insert_by le x ys)
        (λ e.
          let first = lt_of_le x y d.0 e in
          ((first, All-map _ _ (λ z. laws.lt_trans (key x) (key y) (key z) first) ys h.0), h))
        λ e. (
          All-insert_by (λ z. order.lt (key y) (key z) ≡ true) le x ys (lt_of_not_le x y e) h.0,
          Ascending-insert_by x ys d.1 h.1,
        )

  pub All-sort_by : (P : A → Type 0) (xs : List A) → All P xs → All P (sort_by le xs)
  unfolding sort_by
  All-sort_by P [] h = tt
  All-sort_by P (y ∷ ys) h = All-insert_by P le y (sort_by le ys) h.0 (All-sort_by P ys h.1)

  pub sort_by-Ascending : (xs : List A) → Distinct key xs → Ascending (sort_by le xs)
  unfolding sort_by
  sort_by-Ascending [] d = tt
  sort_by-Ascending (x ∷ xs) d =
      Ascending-insert_by x (sort_by le xs) (All-sort_by _ xs d.0) (sort_by-Ascending xs d.1)

  -- a row that the test keeps is inserted among the rows that it keeps
  select-insert_by :
      (p : A → Bool) (x : A) (ys : List A)
      → p x ≡ true
      → All (λ y. key x ≢ key y) ys
      → Ascending ys
      → select p (insert_by le x ys) ≡ insert_by le x (select p ys)
  select-insert_by p x [] t d h = rw (select, t) refl
  select-insert_by p x (y ∷ ys) t d h = elim (Bool-cases (le x y)) [
    | inl e ↦
        let first = lt_of_le x y d.0 e in
        let whole : All (λ z. order.lt (key x) (key z) ≡ true) (y ∷ ys) =
          (first, All-map _ _ (λ z. laws.lt_trans (key x) (key y) (key z) first) ys h.0) in
        rw
          (
            insert-front x (y ∷ ys) whole,
            insert-front x (select p (y ∷ ys)) (All-select _ p (y ∷ ys) whole),
          )
          (rw (select, t) refl)
    | inr e ↦ let rest = select-insert_by p x ys t d.1 h.1 in ground arith
  ]

  select-insert_by_dropped :
      (p : A → Bool) (x : A) (ys : List A)
      → p x ≡ false
      → select p (insert_by le x ys) ≡ select p ys
  select-insert_by_dropped p x [] t = rw (select, t) refl
  select-insert_by_dropped p x (y ∷ ys) t = ground (arith, select-insert_by_dropped p x ys t)

  -- `WHERE` before `ORDER BY`
  pub select-sort_by :
      (p : A → Bool) (xs : List A)
      → Distinct key xs
      → sort_by le (select p xs) ≡ select p (sort_by le xs)
  unfolding sort_by
  select-sort_by p [] d = refl
  select-sort_by p (x ∷ xs) d =
      let rest = select-sort_by p xs d.1 in
      elim (Bool-cases (p x)) [
        | inl t ↦
            rw
              (
                select-insert_by p x (sort_by le xs) t (All-sort_by _ xs d.0)
                    (sort_by-Ascending xs d.1),
                ← rest,
              )
              (rw (select, t) refl)
        | inr t ↦ rw (select-insert_by_dropped p x (sort_by le xs) t, ← rest) (rw (select, t) refl)
      ]

  -- A cursor at the end of a first part leaves the rest of an ascending list.
  pub select-after :
      (xs : List A) (t : A) (zs : List A)
      → Ascending (xs ++ t ∷ zs)
      → select (after order key (some (key t))) (xs ++ t ∷ zs) ≡ zs
  select-after [] t zs h =
      rw (select, laws.lt_irrefl (key t)) (select-All (after order key (some (key t))) zs h.0)
  select-after (x ∷ xs) t zs h =
      let first = All-middle (λ y. order.lt (key x) (key y) ≡ true) xs t zs h.0 in
      rw (select, lt_asym x t first) (select-after xs t zs h.1)

  pub select-none : (xs : List A) → select (after order key none) xs ≡ xs
  select-none [] = refl
  select-none (x ∷ xs) = ap (λ rest. x ∷ rest) (select-none xs)

-- ===== src/Base/Lists.antt =====
-- List functions over the native numbers and by Boolean tests, and their laws.
use Prim.Native.Nat.{ℕ, zero, suc, ◌+◌, ◌≤◌}
use mathlib.Core.Path.{◌≡◌, refl, sym, ap, ◌∙◌, subst}
use mathlib.Core.Logic.{◌≢◌, ◌⊎◌, inl, inr}
use mathlib.Core.Bool.{Bool, true, false, ◌&&◌, ◌||◌}
use mathlib.Core.Option.{Option, none, some}
use mathlib.Core.List.{List, [], ◌∷◌, ◌++◌}
use native.Mathlib.Omega.{arith}

test_cases : (b : Bool) → (b ≡ true) ⊎ (b ≡ false)
test_cases true = inl refl
test_cases false = inr refl

module _ {ℓ} {A : Type ℓ} where
  abbrev pub length : List A → ℕ
  length [] = 0
  length (x ∷ xs) = suc (length xs)

  -- the rows that a `WHERE` clause keeps
  abbrev pub select : (A → Bool) → List A → List A
  select p [] = []
  select p (x ∷ xs) = let rest = select p xs in elim (p x) [ true ↦ x ∷ rest | false ↦ rest ]

  -- `fetchone()`: the first row that a `WHERE` clause keeps
  abbrev pub find : (A → Bool) → List A → Option A
  find p [] = none
  find p (x ∷ xs) = let rest = find p xs in elim (p x) [ true ↦ some x | false ↦ rest ]

  abbrev pub any : (A → Bool) → List A → Bool
  any p [] = false
  any p (x ∷ xs) = p x || any p xs

  -- `UPDATE ... SET f WHERE p`
  abbrev pub update : (A → Bool) → (A → A) → List A → List A
  update p f [] = []
  update p f (x ∷ xs) = elim (p x) [ true ↦ f x | false ↦ x ] ∷ update p f xs

  -- every element satisfies `P`
  abbrev pub All {κ} : (A → Type κ) → List A → Type κ
  All P [] = Unit
  All P (x ∷ xs) = P x × All P xs

  abbrev pub all : (A → Bool) → List A → Bool
  all p [] = true
  all p (x ∷ xs) = p x && all p xs

  -- no two elements have the same key
  abbrev pub Distinct {κ} : {K : Type κ} → (A → K) → List A → Type κ
  Distinct key [] = Unit
  Distinct key (x ∷ xs) = All (λ y. key x ≢ key y) xs × Distinct key xs

  -- `sorted(xs, key=...)`, stable, by the order of the keys
  abbrev pub insert_by : (A → A → Bool) → A → List A → List A
  insert_by le x [] = x ∷ []
  insert_by le x (y ∷ ys) =
      let rest = insert_by le x ys in elim (le x y) [ true ↦ x ∷ y ∷ ys | false ↦ y ∷ rest ]

  unfoldable pub sort_by : (A → A → Bool) → List A → List A
  sort_by le [] = []
  sort_by le (x ∷ xs) = insert_by le x (sort_by le xs)

  pub length-append : (xs ys : List A) → length (xs ++ ys) ≡ length xs + length ys
  length-append [] ys = omega arith
  length-append (x ∷ xs) ys = omega (arith, length-append xs ys)

  pub All-append {κ} : (P : A → Type κ) (xs ys : List A) → All P xs → All P ys → All P (xs ++ ys)
  All-append P [] ys h k = k
  All-append P (x ∷ xs) ys h k = (h.0, All-append P xs ys h.1 k)

  pub All-update {κ} :
      (P : A → Type κ) (p : A → Bool) (f : A → A)
      → ((x : A) → P x → P (f x))
      → (xs : List A) → All P xs
      → All P (update p f xs)
  All-update P p f k [] h = tt
  All-update P p f k (x ∷ xs) h = (go (p x), All-update P p f k xs h.1)
    where
      go : (b : Bool) → P (elim b [ true ↦ f x | false ↦ x ])
      go true = k x h.0
      go false = h.0

  pub All-map {κ μ} :
      (P : A → Type κ) (Q : A → Type μ) (f : (x : A) → P x → Q x) (xs : List A)
      → All P xs
      → All Q xs
  All-map P Q f [] h = tt
  All-map P Q f (x ∷ xs) h = (f x h.0, All-map P Q f xs h.1)

  -- the row that a query finds satisfies the query and whatever all rows satisfy
  pub find-true : (p : A → Bool) (xs : List A) (a : A) → find p xs ≡ some a → p a ≡ true
  find-true p [] a h = cc
  find-true p (x ∷ xs) a h = ground (arith, find-true p xs a)

  pub find-All {κ} :
      (P : A → Type κ) (p : A → Bool) (xs : List A) (a : A) → All P xs → find p xs ≡ some a → P a
  find-All P p [] a h e = absurd (cc)
  find-All P p (x ∷ xs) a h e = go (p x) (find p xs) (find-All P p xs a h.1) e
    where
      go :
          (b : Bool) (rest : Option A)
          → (rest ≡ some a → P a)
          → elim b [ true ↦ some x | false ↦ rest ] ≡ some a
          → P a
      go true rest k q = let same : x ≡ a = cc in subst P same h.0
      go false rest k q = k q

  pub find-append_none :
      (p : A → Bool) (xs ys : List A) → find p xs ≡ none → find p (xs ++ ys) ≡ find p ys
  find-append_none p [] ys h = refl
  find-append_none p (x ∷ xs) ys h = ground (arith, find-append_none p xs ys)

  pub find-append_some :
      (p : A → Bool) (xs ys : List A) (a : A) → find p xs ≡ some a → find p (xs ++ ys) ≡ some a
  find-append_some p [] ys a h = cc
  find-append_some p (x ∷ xs) ys a h = ground (arith, find-append_some p xs ys a)

  pub length-update : (p : A → Bool) (f : A → A) (xs : List A) → length (update p f xs) ≡ length xs
  length-update p f [] = refl
  length-update p f (x ∷ xs) = omega (arith, length-update p f xs)

  pub length-select : (p : A → Bool) (xs : List A) → length (select p xs) ≤ length xs
  length-select p [] = omega arith
  length-select p (x ∷ xs) = ground (arith, length-select p xs)

  -- `LIMIT n`
  abbrev pub take : ℕ → List A → List A
  take zero xs = []
  take (suc n) [] = []
  take (suc n) (x ∷ xs) = x ∷ take n xs

  abbrev pub drop : ℕ → List A → List A
  drop zero xs = xs
  drop (suc n) [] = []
  drop (suc n) (x ∷ xs) = drop n xs

  -- A change of the row that was found is found, where it does not change what is looked for.
  pub find-update :
      (q p : A → Bool) (f : A → A) (xs : List A) (r : A)
      → ((x : A) → q (f x) ≡ q x)
      → find q xs ≡ some r
      → p r ≡ true
      → find q (update p f xs) ≡ some (f r)
  find-update q p f [] r same found mine = absurd (cc)
  find-update q p f (x ∷ xs) r same found mine = elim (test_cases (q x)) [
    | inl here ↦
        let taken : some x ≡ some r = rw (find, here) at found in
        let first : x ≡ r = cc in
        let mine' : p x ≡ true = ap p first ∙ mine in
        rw (mine', same x, here, mine') (ap (λ (z : A). some (f z)) first)
    | inr there ↦
        let rest : find q (update p f xs) ≡ some (f r) =
          find-update q p f xs r same (rw (find, there) at found) mine in
        elim (test_cases (p x)) [ inl m ↦ rw (m, same x, there) rest | inr m ↦ rw (m, there) rest ]
  ]

  -- A change of other rows than those that are looked for.
  pub find-update_other :
      (q p : A → Bool) (f : A → A) (xs : List A)
      → ((x : A) → q (f x) ≡ q x)
      → All (λ x. (p x ≡ false) ⊎ (q x ≡ false)) xs
      → find q (update p f xs) ≡ find q xs
  find-update_other q p f [] same h = refl
  find-update_other q p f (x ∷ xs) same h =
      let rest = find-update_other q p f xs same h.1 in
      elim (test_cases (p x)) [
        | inl m ↦ elim h.0 [
          | inl differs ↦ absurd (cc)
          | inr differs ↦ rw (find, m, same x, differs) rest
        ]
        | inr m ↦ elim (test_cases (q x)) [
          | inl here ↦
              let kept : (let z : A = elim (p x) [ true ↦ f x | false ↦ x ] in z) ≡ x = rw m refl in
              rw (find, m, here) (ap (λ (z : A). some z) kept)
          | inr there ↦ rw (find, m, there) rest
        ]
      ]

  pub find-append_other :
      (p : A → Bool) (xs ys : List A) → find p ys ≡ none → find p (xs ++ ys) ≡ find p xs
  find-append_other p [] ys h = h
  find-append_other p (x ∷ xs) ys h = ground (arith, find-append_other p xs ys h)

  -- the element that is found is the only one with its key
  pub find-Distinct :
      {K : Type 0} (key : A → K) (p : A → Bool) (xs : List A) (r : A)
      → Distinct key xs
      → find p xs ≡ some r
      → All (λ x. (x ≡ r) ⊎ (key x ≢ key r)) xs
  find-Distinct key p [] r d found = tt
  find-Distinct key p (x ∷ xs) r d found = elim (test_cases (p x)) [
    | inl here ↦
        let taken : some x ≡ some r = rw (find, here) at found in
        let first : x ≡ r = cc in
        (inl first, All-map _ _ (λ y differs. inr (λ e. differs (ap key first ∙ sym e))) xs d.0)
    | inr there ↦
        let found' : find p xs ≡ some r = rw (find, there) at found in
        (inr (find-All (λ y. key x ≢ key y) p xs r d.0 found'), find-Distinct key p xs r d.1 found')
  ]

  pub Distinct-append :
      {K : Type 0} (key : A → K) (xs : List A) (y : A)
      → Distinct key xs
      → All (λ x. key x ≢ key y) xs
      → Distinct key (xs ++ y ∷ [])
  Distinct-append key [] y d h = (tt, tt)
  Distinct-append key (x ∷ xs) y d h =
      (All-append _ xs (y ∷ []) d.0 (h.0, tt), Distinct-append key xs y d.1 h.1)

  -- a change that leaves the keys
  pub Distinct-update :
      {K : Type 0} (key : A → K) (p : A → Bool) (f : A → A)
      → ((x : A) → key (f x) ≡ key x)
      → (xs : List A) → Distinct key xs
      → Distinct key (update p f xs)
  Distinct-update key p f same [] d = tt
  Distinct-update key p f same (x ∷ xs) d = (
    rw (key_of_update (p x)) (All-update (λ y. key x ≢ key y) p f (λ y h. rw (same y) h) xs d.0),
    Distinct-update key p f same xs d.1,
  )
    where
      key_of_update : (b : Bool) → key (elim b [ true ↦ f x | false ↦ x ]) ≡ key x
      key_of_update true = same x
      key_of_update false = refl

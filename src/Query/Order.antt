-- ===== src/Query/Order.antt =====
-- The orders that `ORDER BY` sorts by and a cursor's `WHERE` compares with: the order of numbers,
-- of texts, its reverse (`DESC`), and two columns one after the other.
use capital_os.Base.{
  ◌≡◌, refl, inl, inr, Bool, true, false, not, ◌&&◌, ◌||◌, [], ◌∷◌, arith, Bool-cases, ◌⊎◌, ◌∙◌,
}
use capital_os.Text.{Text, text_leb, text_eq}

-- the operations of a sort key
pub record Order (K : Type 0) : Type 0 where
  pub lt : K → K → Bool
  pub eq : K → K → Bool

-- and their laws
pub record OrderLaws {K : Type 0} (o : Order K) : Type 0 where
  pub lt_irrefl : (a : K) → o.lt a a ≡ false
  pub lt_trans : (a b c : K) → o.lt a b ≡ true → o.lt b c ≡ true → o.lt a c ≡ true
  pub lt_connected : (a b : K) → o.lt a b ≡ false → o.lt b a ≡ false → a ≡ b
  pub eq_refl : (a : K) → o.eq a a ≡ true
  pub eq_sound : (a b : K) → o.eq a b ≡ true → a ≡ b

-- `a < b` on texts
unfoldable pub text_ltb : Text → Text → Bool
text_ltb a b = not (text_leb b a)

pub text_leb_refl : (a : Text) → text_leb a a ≡ true
unfolding text_leb
text_leb_refl [] = refl
text_leb_refl (x ∷ xs) = ground (arith, text_leb_refl xs)

pub text_leb_total : (a b : Text) → text_leb a b ≡ false → text_leb b a ≡ true
unfolding text_leb
text_leb_total [] b h = cc
text_leb_total (x ∷ xs) [] h = refl
text_leb_total (x ∷ xs) (y ∷ ys) h = ground (arith, text_leb_total xs ys)

text_leb_antisym : (a b : Text) → text_leb a b ≡ true → text_leb b a ≡ true → a ≡ b
unfolding text_leb
text_leb_antisym [] [] h k = refl
text_leb_antisym [] (y ∷ ys) h k = cc
text_leb_antisym (x ∷ xs) [] h k = cc
text_leb_antisym (x ∷ xs) (y ∷ ys) h k = ground (arith, text_leb_antisym xs ys)

text_ltb_trans : (a b c : Text) → text_leb b a ≡ false → text_leb c b ≡ false → text_leb c a ≡ false
unfolding text_leb
text_ltb_trans a [] c h k = cc
text_ltb_trans a (y ∷ ys) [] h k = cc
text_ltb_trans [] (y ∷ ys) (z ∷ zs) h k = refl
text_ltb_trans (x ∷ xs) (y ∷ ys) (z ∷ zs) h k = ground (arith, text_ltb_trans xs ys zs)

text_eq_refl : (a : Text) → text_eq a a ≡ true
unfolding text_eq
text_eq_refl [] = refl
text_eq_refl (x ∷ xs) = ground (arith, text_eq_refl xs)

text_eq_sound : (a b : Text) → text_eq a b ≡ true → a ≡ b
unfolding text_eq
text_eq_sound [] [] h = refl
text_eq_sound [] (y ∷ ys) h = cc
text_eq_sound (x ∷ xs) [] h = cc
text_eq_sound (x ∷ xs) (y ∷ ys) h = ground (arith, text_eq_sound xs ys)

unfoldable pub text_order : Order Text
text_order = record { lt = text_ltb; eq = text_eq }

pub text_order-OrderLaws : OrderLaws text_order
unfolding text_order text_ltb
text_order-OrderLaws = record {
  lt_irrefl = λ a. rw (text_leb_refl a) refl;
  lt_trans = λ a b c h k. ground (arith, text_ltb_trans a b c);
  lt_connected = λ a b h k. ground (arith, text_leb_antisym a b);
  eq_refl = text_eq_refl;
  eq_sound = text_eq_sound;
}

-- `ORDER BY ... DESC`
abbrev pub descending : {K : Type 0} → Order K → Order K
descending o = record { lt = λ a b. o.lt b a; eq = o.eq }

pub descending-OrderLaws : {K : Type 0} (o : Order K) → OrderLaws o → OrderLaws (descending o)
descending-OrderLaws o laws = record {
  lt_irrefl = laws.lt_irrefl;
  lt_trans = λ a b c h k. laws.lt_trans c b a k h;
  lt_connected = λ a b h k. laws.lt_connected a b k h;
  eq_refl = laws.eq_refl;
  eq_sound = laws.eq_sound;
}

pair_eq : {K L : Type 0} (a b : K × L) → a.0 ≡ b.0 → a.1 ≡ b.1 → a ≡ b
pair_eq (x, y) (x', y') e e' = cc

module _ {K L : Type 0} (first : Order K) (second : Order L) where
  -- `a0 < b0 OR (a0 = b0 AND a1 < b1)`
  unfoldable pub before : K × L → K × L → Bool
  before a b = first.lt a.0 b.0 || first.eq a.0 b.0 && second.lt a.1 b.1

  unfoldable pub same : K × L → K × L → Bool
  same a b = first.eq a.0 b.0 && second.eq a.1 b.1

  -- `ORDER BY first, second`
  unfoldable pub two_columns : Order (K × L)
  unfolding before same
  two_columns = record { lt = before; eq = same }

module _ {K L : Type 0} (first : Order K) (second : Order L) (first_laws : OrderLaws first)
    (second_laws : OrderLaws second) where
  -- two columns in the same order: the first may differ, and then decides, or it is the same
  pub before_cases :
      (a b : K × L)
      → before first second a b ≡ true
      → (first.lt a.0 b.0 ≡ true) ⊎ ((a.0 ≡ b.0) × (second.lt a.1 b.1 ≡ true))
  unfolding before
  before_cases a b h = elim (Bool-cases (first.lt a.0 b.0)) [
    | inl e ↦ inl e
    | inr e ↦ elim (Bool-cases (first.eq a.0 b.0)) [
      | inl q ↦
          let k : second.lt a.1 b.1 ≡ true = ground arith in inr (first_laws.eq_sound a.0 b.0 q, k)
      | inr q ↦ absurd (ground arith)
    ]
  ]

  before_first : (a b : K × L) → first.lt a.0 b.0 ≡ true → before first second a b ≡ true
  unfolding before
  before_first a b h = rw h refl

  before_second :
      (a b : K × L) → a.0 ≡ b.0 → second.lt a.1 b.1 ≡ true → before first second a b ≡ true
  unfolding before
  before_second a b e h =
      let q : first.eq a.0 b.0 ≡ true = rw (← e) (first_laws.eq_refl a.0) in ground arith

  before_irrefl : (a : K × L) → before first second a a ≡ false
  unfolding before
  before_irrefl a =
      let h = first_laws.lt_irrefl a.0 in let k = second_laws.lt_irrefl a.1 in ground arith

  before_trans :
      (a b c : K × L)
      → before first second a b ≡ true
      → before first second b c ≡ true
      → before first second a c ≡ true
  before_trans a b c h k = elim (before_cases a b h) [
    | inl e ↦ elim (before_cases b c k) [
      | inl e' ↦ before_first a c (first_laws.lt_trans a.0 b.0 c.0 e e')
      | inr e' ↦ before_first a c (rw (← e'.0) e)
    ]
    | inr e ↦ elim (before_cases b c k) [
      | inl e' ↦ before_first a c (rw e.0 e')
      | inr e' ↦ before_second a c (e.0 ∙ e'.0) (second_laws.lt_trans a.1 b.1 c.1 e.1 e'.1)
    ]
  ]

  before_connected :
      (a b : K × L) → before first second a b ≡ false → before first second b a ≡ false → a ≡ b
  unfolding before
  before_connected a b h k =
      let e : a.0 ≡ b.0 = first_laws.lt_connected a.0 b.0 (ground arith) (ground arith) in
      let q : first.eq a.0 b.0 ≡ true = rw (← e) (first_laws.eq_refl a.0) in
      let q' : first.eq b.0 a.0 ≡ true = rw e (first_laws.eq_refl b.0) in
      let e' : a.1 ≡ b.1 = second_laws.lt_connected a.1 b.1 (ground arith) (ground arith) in
      pair_eq a b e e'

  same_sound : (a b : K × L) → same first second a b ≡ true → a ≡ b
  unfolding same
  same_sound a b h =
      pair_eq a b (first_laws.eq_sound a.0 b.0 (ground arith))
        (second_laws.eq_sound a.1 b.1 (ground arith))

  pub two_columns-OrderLaws : OrderLaws (two_columns first second)
  unfolding two_columns same
  two_columns-OrderLaws = record {
    lt_irrefl = before_irrefl;
    lt_trans = before_trans;
    lt_connected = before_connected;
    eq_refl = λ a. rw (first_laws.eq_refl a.0) (second_laws.eq_refl a.1);
    eq_sound = same_sound;
  }

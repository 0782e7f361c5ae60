-- ===== src/Query/Complete.antt =====
-- Sorting keeps the rows of a list query (src/capital_os/domain/query/service.py), and a page shows
-- them all if each can be shown.
use capital_os.Base.{
  ◌≡◌, ◌≢◌, refl, Bool, true, false, arith, List, [], ◌∷◌, All, insert_by, sort_by,
}
use mathlib.Core.List.{Perm}
use mathlib.Core.List.Perm
use capital_os.Exec.{Result, ok}
use capital_os.Text.{Text, text_leb}
use capital_os.Query.Order.{text_ltb, text_leb_refl, text_leb_total}
use capital_os.Query.Page.{show_rows}
use capital_os.Query.Sorted.{branches}

module _ {A : Type 0} where
  insert_by-perm : (le : A → A → Bool) (x : A) (ys : List A) → Perm (insert_by le x ys) (x ∷ ys)
  insert_by-perm le x [] = Perm.refl (x ∷ [])
  insert_by-perm le x (y ∷ ys) =
      branches (λ zs. Perm zs (x ∷ y ∷ ys)) (le x y) (x ∷ y ∷ ys) (y ∷ insert_by le x ys)
        (λ _. Perm.refl (x ∷ y ∷ ys))
        λ _. Perm.trans (Perm.cons y (insert_by-perm le x ys)) (Perm.swap x y ys)

  pub sort_by-perm : (le : A → A → Bool) (xs : List A) → Perm (sort_by le xs) xs
  unfolding sort_by
  sort_by-perm le [] = Perm.refl []
  sort_by-perm le (x ∷ xs) =
      Perm.trans (insert_by-perm le x (sort_by le xs)) (Perm.cons x (sort_by-perm le xs))

module _ {A B : Type 0} (show : A → Result B) where
  -- The row can be shown.
  abbrev pub CanShow : A → Type 0
  CanShow a = (b : B) × (show a ≡ ok b)

  pub show_rows_total : (xs : List A) → All CanShow xs → (ys : List B) × (show_rows show xs ≡ ok ys)
  unfolding show_rows
  show_rows_total [] h = ([], refl)
  show_rows_total (x ∷ xs) ((b, e), h) =
      let (ys, shown) = show_rows_total xs h in (b ∷ ys, rw (e, shown) refl)

-- A text before another in the order of code points.
abbrev pub TextBefore : Text → Text → Type 0
TextBefore a b = (text_leb a b ≡ true) × (a ≢ b)

pub text_ltb-TextBefore : (a b : Text) → text_ltb a b ≡ true → TextBefore a b
unfolding text_ltb
text_ltb-TextBefore a b h =
    let below : text_leb b a ≡ false = ground arith in
    (
      text_leb_total b a below,
      (λ e.
          let k : text_leb a a ≡ false = rw (← e) at below in
          let r = text_leb_refl a in absurd (cc)),
    )

module _ {A : Type 0} where
  -- Every row of the list is related to every row after it.
  abbrev pub Ordered : (A → A → Type 0) → List A → Type 0
  Ordered R [] = Unit
  Ordered R (x ∷ xs) = All (R x) xs × Ordered R xs

  module _ (P : A → Type 0) (R S : A → A → Type 0) (f : (a b : A) → P a → P b → R a b → S a b) where
    All-of : (x : A) (xs : List A) → P x → All P xs → All (R x) xs → All (S x) xs
    All-of x [] p ps rs = tt
    All-of x (y ∷ ys) p ps rs = (f x y p ps.0 rs.0, All-of x ys p ps.1 rs.1)

    pub Ordered-of : (xs : List A) → All P xs → Ordered R xs → Ordered S xs
    Ordered-of [] ps h = tt
    Ordered-of (x ∷ xs) ps h = (All-of x xs ps.0 ps.1 h.0, Ordered-of xs ps.1 h.1)

-- ===== src/Money/Balance.antt =====
-- The checks on the postings of a bundle against the exact sums of their amounts.
use native.Mathlib.Nat.{pow-succ'}
use capital_os.Base.{
  ℕ, zero, suc, ◌+◌, ◌*◌, ◌/◌, ◌^◌, ◌≤◌, ◌<◌, ◌≡◌, refl, sym, ap, ◌∙◌, Bool, true, false, List, [],
  ◌∷◌, lt→ltb, arith,
}
use capital_os.Int.{ℤ, pos, negsuc, pos_part, ◌+ℤ◌, abs, with_sign, eqb_ℤ, int_laws, zero-add_ℤ}
use capital_os.Exec.{ok, Error, guard}
use capital_os.Money.{
  Decimal, Posting, context_limit, money_scale, div_half_even, quantize_units, nearest_units,
  normalize_amount, round_at, round_context, add_context, sum_amounts, ensure_balanced, sum_sizes,
}
use capital_os.Money.Rounding.{
  div_half_even_nearest, div_half_even-mul, le-div_half_even, div_half_even-le,
}

pub with_sign-abs : (z : ℤ) → with_sign z (abs z) ≡ z
with_sign-abs (pos n) = ground arith
with_sign-abs (negsuc n) = ground arith

pub abs-with_sign : (z : ℤ) (n : ℕ) → abs (with_sign z n) ≡ n
abs-with_sign (pos m) n = omega arith
abs-with_sign (negsuc m) n = ground arith

-- What is within the context passes unchanged.
pub quantize_units_in_context : (z : ℤ) → abs z < context_limit → quantize_units z ≡ ok z
unfolding quantize_units
quantize_units_in_context z h = ground arith

round_at_exact : (f n : ℕ) → n < context_limit → round_at (suc f) 1 n ≡ n
unfolding round_at
round_at_exact f n h = rw (lt→ltb (n / 1) context_limit (omega arith)) (
    omega (
      arith,
      le-div_half_even n n 1 (omega arith) (omega arith),
      div_half_even-le n n 1 (omega arith) (omega arith),
    ))

pub round_context_exact : (n : ℕ) → n < context_limit → round_context n ≡ n
unfolding round_context
round_context_exact n h = round_at_exact 30 n h

pub add_context_exact : (a b : ℤ) → abs (a +ℤ b) < context_limit → add_context a b ≡ a +ℤ b
unfolding add_context
add_context_exact a b h = rw (round_context_exact (abs (a +ℤ b)) h) (with_sign-abs (a +ℤ b))

abs-nearest_units :
    (v : Decimal) → abs (nearest_units v) ≡ div_half_even (abs v.coef * money_scale) (10 ^ v.places)
unfolding nearest_units
abs-nearest_units v = abs-with_sign v.coef _

pub quantize_units-eq_ok : (z w : ℤ) → quantize_units z ≡ ok w → (w ≡ z) × (abs z < context_limit)
unfolding quantize_units
quantize_units-eq_ok z w h = ground arith

pub ten_pow_pos : (p : ℕ) → 0 < 10 ^ p
ten_pow_pos zero = omega arith
ten_pow_pos (suc p) = rw (pow-succ' 10 p) (omega (arith, ten_pow_pos p))

-- An amount is normalized to the nearest ten-thousandth: it keeps its sign, moves by at most half a
-- unit, and is within 28 digits, if it is not refused.
pub normalize_amount_nearest :
    (v : Decimal) (z : ℤ)
    → normalize_amount v ≡ ok z
    → (2 * (abs v.coef * money_scale) ≤ 2 * (abs z * 10 ^ v.places) + 10 ^ v.places)
      × (2 * (abs z * 10 ^ v.places) ≤ 2 * (abs v.coef * money_scale) + 10 ^ v.places)
      × (z ≡ with_sign v.coef (abs z))
      × (abs z < context_limit)
unfolding normalize_amount nearest_units
normalize_amount_nearest v z h =
    let (e, fits) = quantize_units-eq_ok (nearest_units v) z h in
    let size : abs z ≡ div_half_even (abs v.coef * money_scale) (10 ^ v.places) =
      ap abs e ∙ abs-nearest_units v in
    let near =
      div_half_even_nearest (abs v.coef * money_scale) (10 ^ v.places) (ten_pow_pos v.places) in
    rw size (near.0, near.1, e, rw (← abs-nearest_units v) fits)

pub nearest_units_four : (z : ℤ) → nearest_units (record { coef = z; places = 4 }) ≡ z
unfolding nearest_units
nearest_units_four z = rw (div_half_even-mul (abs z) money_scale (omega arith)) (with_sign-abs z)

-- An amount of ten-thousandths is not rounded again: normalizing it only checks its digits.
pub normalize_amount_idem :
    (z : ℤ) → normalize_amount (record { coef = z; places = 4 }) ≡ quantize_units z
unfolding normalize_amount
normalize_amount_idem z = ap quantize_units (nearest_units_four z)

-- The exact sums over the postings: of the amounts, of their sizes, of the positive ones.
abbrev pub total_units : List Posting → ℤ
total_units [] = pos 0
total_units (p ∷ ps) = nearest_units p.amount +ℤ total_units ps

abbrev pub total_size : List Posting → ℕ
total_size [] = 0
total_size (p ∷ ps) = abs (nearest_units p.amount) + total_size ps

abbrev pub credits : List Posting → ℕ
credits [] = 0
credits (p ∷ ps) = pos_part (nearest_units p.amount) + credits ps

abs-add-le : (a b : ℤ) → abs (a +ℤ b) ≤ abs a + abs b
unfolding ◌+ℤ◌
abs-add-le a b = ground arith

pub normalize_fits :
    (v : Decimal)
    → abs (nearest_units v) < context_limit
    → normalize_amount v ≡ ok (nearest_units v)
unfolding normalize_amount
normalize_fits v h = quantize_units_in_context (nearest_units v) h

pub sum_amounts-exact :
    (acc : ℤ) (ps : List Posting)
    → abs acc + total_size ps < context_limit
    → sum_amounts acc ps ≡ ok (acc +ℤ total_units ps)
unfolding sum_amounts
sum_amounts-exact acc [] h = ap ok (omega int_laws)
sum_amounts-exact acc (p ∷ ps) h =
    let x : ℤ = nearest_units p.amount in
    let step = abs-add-le acc x in
    rw (normalize_fits p.amount (omega arith), add_context_exact acc x (omega arith))
      (sum_amounts-exact (acc +ℤ x) ps (omega arith) ∙ ap ok (omega int_laws))

pub sum_sizes-exact :
    (acc : ℕ) (ps : List Posting)
    → acc + total_size ps < context_limit
    → sum_sizes (pos acc) ps ≡ ok (pos (acc + total_size ps))
unfolding sum_sizes
sum_sizes-exact acc [] h = ap (λ (n : ℕ). ok (pos n)) (omega arith)
sum_sizes-exact acc (p ∷ ps) h =
    let n : ℕ = abs (nearest_units p.amount) in
    let plus : pos acc +ℤ pos n ≡ pos (acc + n) = omega int_laws in
    rw
      (
        normalize_fits p.amount (omega arith),
        add_context_exact (pos acc) (pos n) (rw plus (omega arith)),
        plus,
      )
      (sum_sizes-exact (acc + n) ps (omega arith) ∙ ap (λ (k : ℕ). ok (pos k)) (omega arith))

-- Within the digits of the context the check accepts exactly the bundles whose normalized amounts
-- sum to zero, and refuses the others with its error.
pub ensure_balanced_exact :
    (ps : List Posting)
    → total_size ps < context_limit
    → ensure_balanced ps
      ≡ guard
          (eqb_ℤ (total_units ps) (pos 0))
          (Error.invariant "Transaction bundle must balance to zero")
unfolding ensure_balanced
ensure_balanced_exact ps h =
    rw (sum_amounts-exact (pos 0) ps (omega arith), zero-add_ℤ (total_units ps)) refl

eqb_ℤ-zero : (z : ℤ) → eqb_ℤ z (pos 0) ≡ true → z ≡ pos 0
eqb_ℤ-zero z h = ground arith

guard-eq_ok : (b : Bool) (e : Error) → guard b e ≡ ok tt → b ≡ true
guard-eq_ok true e h = refl
guard-eq_ok false e h = cc

pub ensure_balanced-eq_ok :
    (ps : List Posting)
    → total_size ps < context_limit
    → ensure_balanced ps ≡ ok tt
    → total_units ps ≡ pos 0
ensure_balanced-eq_ok ps fits h =
    eqb_ℤ-zero (total_units ps) (guard-eq_ok _ _ (sym (ensure_balanced_exact ps fits) ∙ h))

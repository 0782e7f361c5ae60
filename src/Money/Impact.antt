-- ===== src/Money/Impact.antt =====
-- The impact amount of a balanced bundle is the sum of its positive amounts.
use native.Mathlib.Nat.{pow-succ'}
use capital_os.Base.{
  ℕ, zero, suc, ◌+◌, ◌-◌, ◌*◌, ◌^◌, ◌≤◌, ◌<◌, ◌≡◌, refl, ap, List, [], ◌∷◌, arith,
}
use capital_os.Int.{pos, pos_part, neg_part, abs, int_laws}
use capital_os.Exec.{ok}
use capital_os.Money.{
  Posting, context_limit, money_scale, div_half_even, nearest_units, normalize_amount,
  transaction_impact_amount, quotient_places, div_context,
}
use capital_os.Money.Rounding.{div_half_even-mul}
use capital_os.Money.Balance.{
  quantize_units_in_context, ten_pow_pos, total_units, total_size, credits, sum_sizes-exact,
}

abbrev debits : List Posting → ℕ
debits [] = 0
debits (p ∷ ps) = neg_part (nearest_units p.amount) + debits ps

total_parts :
    (ps : List Posting)
    → pos_part (total_units ps) + debits ps ≡ neg_part (total_units ps) + credits ps
total_parts [] = omega arith
total_parts (p ∷ ps) = omega (int_laws, total_parts ps)

size_parts : (ps : List Posting) → total_size ps ≡ credits ps + debits ps
size_parts [] = omega arith
size_parts (p ∷ ps) = omega (arith, size_parts ps)

ten_pow_add : (j : ℕ) → 10 ^ (4 + j) ≡ money_scale * 10 ^ j
ten_pow_add zero = refl
ten_pow_add (suc j) =
    let next : 4 + suc j ≡ suc (4 + j) = omega arith in
    rw (next, pow-succ' 10 (4 + j), pow-succ' 10 j) (omega (arith, ten_pow_add j))

le-quotient_places : (f p n d : ℕ) → p ≤ quotient_places f p n d
unfolding quotient_places
le-quotient_places zero p n d = omega arith
le-quotient_places (suc f) p n d = ground (arith, le-quotient_places f (p + 1) n d)

four_places :
    (f c : ℕ)
    → c < context_limit
    → (j : ℕ) × (quotient_places (suc (suc (suc (suc f)))) 0 (2 * c) (2 * money_scale) ≡ 4 + j)
unfolding quotient_places
four_places f c h = (
  quotient_places f 4 (2 * c) (2 * money_scale) - 4,
  ground (arith, le-quotient_places f 4 (2 * c) (2 * money_scale)),
)

-- Half of an even number of ten-thousandths is exact, whatever places the quotient keeps.
half_at :
    (j c : ℕ)
    → c < context_limit
    → normalize_amount (record {
      coef = pos (div_half_even (2 * c * 10 ^ (4 + j)) (2 * money_scale));
      places = 4 + j;
    })
      ≡ ok (pos c)
unfolding normalize_amount nearest_units
half_at j c h =
    let up : 2 * c * 10 ^ (4 + j) ≡ c * 10 ^ j * (2 * money_scale) =
      rw (ten_pow_add j) (omega arith) in
    let back : abs (pos (c * 10 ^ j)) * money_scale ≡ c * 10 ^ (4 + j) =
      rw (ten_pow_add j) (omega arith) in
    rw
      (
        up,
        div_half_even-mul (c * 10 ^ j) (2 * money_scale) (omega arith),
        back,
        div_half_even-mul c (10 ^ (4 + j)) (ten_pow_pos (4 + j)),
      )
      (quantize_units_in_context (pos c) (omega arith))

half_exact :
    (c : ℕ)
    → c < context_limit
    → normalize_amount (div_context (pos (2 * c)) (2 * money_scale)) ≡ ok (pos c)
unfolding div_context
half_exact c h =
    let (j, e) = four_places 56 c h in
    let size : abs (pos (2 * c)) ≡ 2 * c = omega arith in rw (size, e) (half_at j c h)

-- Within the digits of the context, the impact amount of a bundle that balances is exactly the sum of
-- its positive amounts.
pub transaction_impact_amount-eq-credits :
    (ps : List Posting)
    → total_size ps < context_limit
    → total_units ps ≡ pos 0
    → transaction_impact_amount ps ≡ ok (pos (credits ps))
unfolding transaction_impact_amount
transaction_impact_amount-eq-credits ps fits balanced =
    let even : total_size ps ≡ 2 * credits ps =
      omega (arith, size_parts ps, total_parts ps, ap pos_part balanced, ap neg_part balanced) in
    let whole : 0 + total_size ps ≡ 2 * credits ps = omega arith in
    rw (sum_sizes-exact 0 ps (omega arith), whole) (half_exact (credits ps) (omega arith))

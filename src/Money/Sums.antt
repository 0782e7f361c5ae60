-- ===== src/Money/Sums.antt =====
-- A sum or a difference of amounts that is not refused is exact: what needs rounding to the digits
-- of the context has too many digits for `quantize`.
use native.Mathlib.Nat.{mul-le-mul_right, le-div_iff_mul-le, div-one}
use native.Mathlib.Decide.{dec_lt}
use capital_os.Base.{
  ℕ, zero, suc, ◌*◌, ◌/◌, ◌≤◌, ◌<◌, ◌≡◌, ◌∙◌, sym, ◌^◌, inl, inr, Bool-cases, arith, ltb, ltb→le,
  ltb→lt,
}
use capital_os.Int.{ℤ, ◌+ℤ◌, ◌-ℤ◌, abs, with_sign}
use capital_os.Exec.{ok}
use capital_os.Money.{
  context_limit, quantize_units, round_at, round_context, add_context, add_amounts, sub_amounts,
}
use capital_os.Money.Rounding.{le-div_half_even}
use capital_os.Money.Balance.{
  round_context_exact, normalize_amount_idem, quantize_units-eq_ok, with_sign-abs, abs-with_sign,
}

round_at_large :
    (fuel t n : ℕ) → 0 < t → context_limit * t ≤ n → context_limit ≤ round_at fuel (10 * t) n
unfolding round_at
round_at_large zero t n h large = omega arith
round_at_large (suc fuel) t n h large =
    let rest = round_at_large fuel (10 * t) n (omega arith) in
    elim (Bool-cases (ltb (n / (10 * t)) context_limit)) [
      | inl e ↦ rw e (
          omega (
            arith,
            mul-le-mul_right (10 * t)
                (le-div_half_even (10 ^ 27) n (10 * t) (omega arith) (omega arith)),
          ))
      | inr e ↦ rw e (rest ((le-div_iff_mul-le (omega arith)).0 (ltb→le _ _ e)))
    ]

round_at_first : (fuel n : ℕ) → context_limit ≤ n → context_limit ≤ round_at (suc fuel) 1 n
unfolding round_at
round_at_first fuel n h =
    let rest = round_at_large fuel 1 n (omega arith) (omega arith) in
    elim (Bool-cases (ltb (n / 1) context_limit)) [
      | inl e ↦ absurd (omega (arith, ltb→lt _ _ e, div-one n))
      | inr e ↦ rw e rest
    ]

round_context_large : (n : ℕ) → context_limit ≤ n → context_limit ≤ round_context n
unfolding round_context
round_context_large n h = round_at_first 30 n h

-- Rounded to the digits of the context and then to an amount, or refused.
rounded-eq_ok :
    (d z : ℤ)
    → quantize_units (with_sign d (round_context (abs d))) ≡ ok z
    → (z ≡ d) × (abs d < context_limit)
rounded-eq_ok d z h =
    let (same, fits) = quantize_units-eq_ok (with_sign d (round_context (abs d))) z h in
    let small : round_context (abs d) < context_limit =
      omega (arith, abs-with_sign d (round_context (abs d))) in
    elim (dec_lt (abs d) context_limit) [
      | yes p ↦ (same ∙ rw (round_context_exact (abs d) p) (with_sign-abs d), p)
      | no p ↦ absurd (omega (arith, round_context_large (abs d)))
    ]

-- A sum of two amounts that is not refused is exact, and has 28 digits at most.
pub add_amounts-eq_ok :
    (a b z : ℤ) → add_amounts a b ≡ ok z → (z ≡ a +ℤ b) × (abs (a +ℤ b) < context_limit)
unfolding add_amounts add_context
add_amounts-eq_ok a b z h = rounded-eq_ok (a +ℤ b) z (sym (normalize_amount_idem _) ∙ h)

pub sub_amounts-eq_ok :
    (a b z : ℤ) → sub_amounts a b ≡ ok z → (z ≡ a -ℤ b) × (abs (a -ℤ b) < context_limit)
unfolding sub_amounts
sub_amounts-eq_ok a b z h = rounded-eq_ok (a -ℤ b) z (sym (normalize_amount_idem _) ∙ h)

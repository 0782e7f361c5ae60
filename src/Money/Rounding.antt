-- ===== src/Money/Rounding.antt =====
-- How far rounding moves an amount, and which amounts it leaves alone.
use native.Mathlib.Nat.{div-add-mod', mod-lt, add-mul, mul-le-mul_right, le_refl}
use native.Mathlib.Decide.{dec_le}
use capital_os.Base.{ℕ, ◌+◌, ◌*◌, ◌/◌, ◌%◌, ◌≤◌, ◌<◌, ◌≡◌, ◌⊎◌, inl, inr, arith}
use capital_os.Money.{div_half_even}

-- The two results, by the side of the tie on which the remainder lies.
div_half_even-cases :
    (n d : ℕ)
    → ((div_half_even n d ≡ n / d) × (2 * (n % d) ≤ d))
      ⊎ ((div_half_even n d ≡ n / d + 1) × (d ≤ 2 * (n % d)))
unfolding div_half_even
div_half_even-cases n d = ground arith

pub div_half_even_nearest :
    (n d : ℕ)
    → 0 < d
    → (2 * n ≤ 2 * (div_half_even n d * d) + d) × (2 * (div_half_even n d * d) ≤ 2 * n + d)
div_half_even_nearest n d h = elim (div_half_even-cases n d) [
  | inl (e, r) ↦ rw e (omega (arith, div-add-mod' n d))
  | inr (e, r) ↦ rw e (omega (arith, div-add-mod' n d, mod-lt n h, add-mul (n / d) 1 d))
]

-- A numerator of at least k denominators gives at least k, and one of at most k at most k.
pub le-div_half_even : (k n d : ℕ) → 0 < d → k * d ≤ n → k ≤ div_half_even n d
le-div_half_even k n d h le = elim (dec_le k (div_half_even n d)) [
  | yes p ↦ p
  | no p ↦
      let more : div_half_even n d + 1 ≤ k = omega arith in
      absurd (omega (arith, div_half_even_nearest n d h, mul-le-mul_right d more))
]

pub div_half_even-le : (k n d : ℕ) → 0 < d → n ≤ k * d → div_half_even n d ≤ k
div_half_even-le k n d h le = elim (dec_le (div_half_even n d) k) [
  | yes p ↦ p
  | no p ↦
      let more : k + 1 ≤ div_half_even n d = omega arith in
      absurd (omega (arith, div_half_even_nearest n d h, mul-le-mul_right d more))
]

-- An exact quotient is not moved.
pub div_half_even-mul : (m d : ℕ) → 0 < d → div_half_even (m * d) d ≡ m
div_half_even-mul m d h =
    omega (
      arith,
      le-div_half_even m (m * d) d h (le_refl _),
      div_half_even-le m (m * d) d h (le_refl _),
    )

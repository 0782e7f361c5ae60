-- ===== src/Posture/Reserve.antt =====
-- What the metrics of a posture say of its reserve.
use native.Mathlib.Nat.{mul-le-mul_right}
use capital_os.Base.{
  ℕ, ◌+◌, ◌*◌, ◌^◌, ◌≤◌, ◌<◌, ◌≡◌, ◌≢◌, ◌⊎◌, zero, suc, refl, sym, ◌∙◌, false, arith,
}
use capital_os.Int.{ℤ, pos, negsuc, ◌+ℤ◌, ◌-ℤ◌, abs, with_sign, ◌≤ℤ◌, eqb_ℤ, int_laws}
use capital_os.Exec.{ok, ok_inj, >>=-eq-ok}
use capital_os.Money.{
  money_scale, quantize_units, quotient_places, div_half_even, nearest_units, normalize_amount,
  div_context, add_amounts, sub_amounts,
}
use capital_os.Money.Rounding.{le-div_half_even, div_half_even-le}
use capital_os.Money.Balance.{ten_pow_pos, abs-with_sign, quantize_units-eq_ok}
use capital_os.Money.Sums.{add_amounts-eq_ok, sub_amounts-eq_ok}
use capital_os.Posture.{
  guarded, stable, PostureComputationInputs, PostureMetrics, derive_risk_band, reserve_ratio,
  compute_posture_metrics,
}

-- A quotient rounded at `p` places and then to an amount keeps a whole bound.
le-rounded :
    (k n d p : ℕ)
    → 0 < d
    → k * d ≤ n
    → k * money_scale ≤ div_half_even (div_half_even (n * 10 ^ p) d * money_scale) (10 ^ p)
le-rounded k n d p h le =
    let q = div_half_even (n * 10 ^ p) d in
    let first : k * 10 ^ p ≤ q =
      le-div_half_even (k * 10 ^ p) (n * 10 ^ p) d h
        (omega (arith, mul-le-mul_right (10 ^ p) le)) in
    le-div_half_even (k * money_scale) (q * money_scale) (10 ^ p) (ten_pow_pos p) (omega arith)

rounded-le :
    (k n d p : ℕ)
    → 0 < d
    → n ≤ k * d
    → div_half_even (div_half_even (n * 10 ^ p) d * money_scale) (10 ^ p) ≤ k * money_scale
rounded-le k n d p h le =
    let q = div_half_even (n * 10 ^ p) d in
    let first : q ≤ k * 10 ^ p =
      div_half_even-le (k * 10 ^ p) (n * 10 ^ p) d h
        (omega (arith, mul-le-mul_right (10 ^ p) le)) in
    div_half_even-le (k * money_scale) (q * money_scale) (10 ^ p) (ten_pow_pos p) (omega arith)

eqb_ℤ-abs : (t : ℤ) → 0 < abs t → eqb_ℤ t (pos 0) ≡ false
eqb_ℤ-abs (pos n) h = ground arith
eqb_ℤ-abs (negsuc n) h = ground arith

-- the two roundings of a quotient
quotient_size : ℕ → ℕ → ℕ → ℕ
quotient_size n d p = div_half_even (div_half_even (n * 10 ^ p) d * money_scale) (10 ^ p)

normalize_quotient :
    (n d : ℕ)
    → normalize_amount (div_context (pos n) d)
      ≡ quantize_units (pos (quotient_size (n + 0) d (quotient_places 60 0 (n + 0) d)))
unfolding normalize_amount nearest_units div_context quotient_size
normalize_quotient n d =
    let q = div_half_even ((n + 0) * 10 ^ quotient_places 60 0 (n + 0) d) d in
    rw (abs-with_sign (pos n) q) refl

-- The ratio of a liquidity that is not negative, by whole multiples of the target.
reserve_ratio-bounds :
    (k n : ℕ) (t r : ℤ)
    → 0 < abs t
    → reserve_ratio (pos n) t ≡ ok r
    → (k * abs t ≤ n → pos (k * money_scale) ≤ℤ r) × (n ≤ k * abs t → r ≤ℤ pos (k * money_scale))
unfolding reserve_ratio quotient_size
reserve_ratio-bounds k n t r h done =
    let p = quotient_places 60 0 (n + 0) (abs t) in
    let divided : normalize_amount (div_context (pos n) (abs t)) ≡ ok r =
      rw (eqb_ℤ-abs t h) at done in
    let same : r ≡ pos (quotient_size (n + 0) (abs t) p) =
      (quantize_units-eq_ok _ r (sym (normalize_quotient n (abs t)) ∙ divided)).0 in
    rw same (
      (λ le. omega (arith, le-rounded k (n + 0) (abs t) p h (omega arith))),
      (λ le. omega (arith, rounded-le k (n + 0) (abs t) p h (omega arith))),
    )

-- A liquidity below zero gives no ratio above zero.
negative_quotient :
    (n d p : ℕ) → nearest_units (record { coef = with_sign (negsuc n) d; places = p }) ≤ℤ pos 0
unfolding nearest_units
negative_quotient n zero p =
    omega (arith, div_half_even-le 0 (0 * money_scale) (10 ^ p) (ten_pow_pos p) (omega arith))
negative_quotient n (suc d) p = ground arith

reserve_ratio_negative :
    (n : ℕ) (t r : ℤ) → 0 < abs t → reserve_ratio (negsuc n) t ≡ ok r → r ≤ℤ pos 0
unfolding reserve_ratio normalize_amount div_context
reserve_ratio_negative n t r h done =
    let divided : normalize_amount (div_context (negsuc n) (abs t)) ≡ ok r =
      rw (eqb_ℤ-abs t h) at done in
    rw (quantize_units-eq_ok _ r divided).0 (negative_quotient n _ _)

-- A liquidity that does not exceed a target has a ratio of at most one.
reserve_ratio-short : (l t r : ℤ) → pos 0 ≤ℤ t → l ≤ℤ t → reserve_ratio l t ≡ ok r → r ≤ℤ pos 10000
unfolding reserve_ratio
reserve_ratio-short l (negsuc k) r some_target short done = absurd (omega arith)
reserve_ratio-short l (pos zero) r some_target short done =
    rw (← ok_inj {a = pos 0} {b = r} done) (omega arith)
reserve_ratio-short (pos n) (pos (suc k)) r some_target short done =
    (reserve_ratio-bounds 1 n (pos (suc k)) r (omega arith) done).1 (omega arith)
reserve_ratio-short (negsuc n) (pos (suc k)) r some_target short done =
    omega (arith, reserve_ratio_negative n (pos (suc k)) r (omega arith) done)

band_covered :
    (r : ℤ) → pos 10000 ≤ℤ r → (derive_risk_band r ≡ guarded) ⊎ (derive_risk_band r ≡ stable)
unfolding derive_risk_band
band_covered r h = ground arith

band_short : (r : ℤ) → r ≤ℤ pos 10000 → derive_risk_band r ≢ stable
unfolding derive_risk_band
band_short r h = ground arith

-- What a computation that returned has computed.
compute_posture_metrics-inv :
    (inputs : PostureComputationInputs) (m : PostureMetrics)
    → compute_posture_metrics inputs ≡ ok m
    → (m.reserve_target ≡ inputs.minimum_reserve +ℤ inputs.volatility_buffer)
      × (m.liquidity_surplus ≡ inputs.liquidity -ℤ m.reserve_target)
      × (reserve_ratio inputs.liquidity m.reserve_target ≡ ok m.reserve_ratio)
      × (m.risk_band ≡ derive_risk_band m.reserve_ratio)
unfolding compute_posture_metrics
compute_posture_metrics-inv inputs m h =
    let (t, e1, h1) = >>=-eq-ok (add_amounts inputs.minimum_reserve inputs.volatility_buffer) _ h in
    let (s, e2, h2) = >>=-eq-ok (sub_amounts inputs.liquidity t) _ h1 in
    let (r, e3, h3) = >>=-eq-ok (reserve_ratio inputs.liquidity t) _ h2 in
    let made : PostureMetrics = record {
      fixed_burn = inputs.fixed_burn;
      variable_burn = inputs.variable_burn;
      volatility_buffer = inputs.volatility_buffer;
      reserve_target = t;
      liquidity = inputs.liquidity;
      liquidity_surplus = s;
      reserve_ratio = r;
      risk_band = derive_risk_band r;
    } in
    let same : made ≡ m = cc in
    rw (← same) ((add_amounts-eq_ok _ _ t e1).0, (sub_amounts-eq_ok _ _ s e2).0, e3, refl)

-- The reserve target is the minimum with the buffer, and the surplus is exactly what the liquidity
-- has over it.
pub compute_posture_metrics_surplus :
    (inputs : PostureComputationInputs) (m : PostureMetrics)
    → compute_posture_metrics inputs ≡ ok m
    → (m.reserve_target ≡ inputs.minimum_reserve +ℤ inputs.volatility_buffer)
      × (m.liquidity_surplus +ℤ m.reserve_target ≡ inputs.liquidity)
compute_posture_metrics_surplus inputs m h =
    let (target, surplus, _, _) = compute_posture_metrics-inv inputs m h in
    (target, rw surplus (omega int_laws))

-- A position that has a target, and whose liquidity covers it, is guarded or stable.
pub compute_posture_metrics_covered :
    (inputs : PostureComputationInputs) (m : PostureMetrics) (n : ℕ)
    → compute_posture_metrics inputs ≡ ok m
    → inputs.liquidity ≡ pos n
    → 0 < abs m.reserve_target
    → abs m.reserve_target ≤ n
    → (m.risk_band ≡ guarded) ⊎ (m.risk_band ≡ stable)
compute_posture_metrics_covered inputs m n h liquid some_target covers =
    let (_, _, ratio, band) = compute_posture_metrics-inv inputs m h in
    rw band (
      band_covered m.reserve_ratio (
        (reserve_ratio-bounds 1 n m.reserve_target m.reserve_ratio some_target
            (rw liquid at ratio)).0
          (omega arith)))

-- A position whose reserve and buffer are not negative, and whose liquidity, which may be negative,
-- does not exceed its target, is not stable, also where the target is zero.
pub compute_posture_metrics_short :
    (inputs : PostureComputationInputs) (m : PostureMetrics)
    → compute_posture_metrics inputs ≡ ok m
    → pos 0 ≤ℤ inputs.minimum_reserve
    → pos 0 ≤ℤ inputs.volatility_buffer
    → inputs.liquidity ≤ℤ m.reserve_target
    → m.risk_band ≢ stable
compute_posture_metrics_short inputs m h reserve buffer short =
    let (target, _, ratio, band) = compute_posture_metrics-inv inputs m h in
    let some_target : pos 0 ≤ℤ m.reserve_target = rw target (omega int_laws) in
    rw band (
      band_short m.reserve_ratio (
        reserve_ratio-short inputs.liquidity m.reserve_target m.reserve_ratio some_target short
          ratio))

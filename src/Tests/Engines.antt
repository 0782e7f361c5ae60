-- ===== src/Tests/Engines.antt =====
-- The theorems on amounts, postures, debts and simulations at concrete inputs.
use capital_os.Base.{
  ◌+◌, ◌*◌, ◌^◌, ◌≤◌, ◌<◌, ◌≡◌, ◌≢◌, ◌⊎◌, refl, none, some, List, [], ◌∷◌, length, arith, sort_by,
}
use capital_os.Int.{ℤ, pos, negsuc, ◌+ℤ◌, ◌-ℤ◌, abs, with_sign, eqb_ℤ}
use capital_os.Exec.{Error, Result, ok, err, guard}
use capital_os.Money.{
  Decimal, context_limit, div_half_even, quantize_units, nearest_units, normalize_amount, round_at,
  round_context, add_context, add_amounts, sub_amounts, mul_context, div_context, quotient_places,
  ensure_balanced, transaction_impact_amount,
}
use capital_os.Money.Balance.{
  normalize_amount_nearest, ensure_balanced_exact, normalize_amount_idem, total_units, credits,
}
use capital_os.Money.Impact.{transaction_impact_amount-eq-credits}
use capital_os.Money.Sums.{add_amounts-eq_ok}
use capital_os.Text.{codes, text_leb}
use capital_os.Calendar.{Date, IsDate, is_leap, days_in_month, date_leb, day_before}
use capital_os.Posture.{
  RiskBand, guarded, stable, PostureComputationInputs, PostureMetrics, derive_risk_band,
  reserve_ratio, compute_posture_metrics,
}
use capital_os.Posture.Reserve.{
  compute_posture_metrics_surplus, compute_posture_metrics_covered, compute_posture_metrics_short,
}
use capital_os.Debt.{
  DebtAnalysisInputs, DebtAnalysisResult, percent, estimated_annual_interest, payoff_readiness,
  score_liability, score_all, scored_leb, apply_payoff, add_totals, rank_liabilities,
  analyze_liabilities,
}
use capital_os.Debt.Payoff.{PaysInOrder, sum_of, analyze_liabilities-PaysInOrder}
use capital_os.Simulation.{
  SimulationSpend, SimulationInputs, SimulationPeriod, one_time, recurring, monthly, weekly,
  clip_day, months_after, add_months, add_days, recurring_dates, schedules, lookup, add_occurrences,
  add_spends, compute_period, compute_periods, compute_simulation_projection,
}
use capital_os.Simulation.Months.{months_after-IsDate, months_after-counts}
use capital_os.Simulation.Projection.{Accounts, compute_simulation_projection-Accounts}
use capital_os.Fixtures.{rent}

abbrev value_or {ℓ} : {A : Type ℓ} → A → Result A → A
value_or d (ok a) = a
value_or d (err _) = d

-- 2.50005
abbrev coin : Decimal
coin = record { coef = pos 250005; places = 5 }

normalize_amount_nearest_example :
    (2 * (250005 * 10000) ≤ 2 * (25000 * 10 ^ 5) + 10 ^ 5)
    × (2 * (25000 * 10 ^ 5) ≤ 2 * (250005 * 10000) + 10 ^ 5)
    × (pos 25000 ≡ with_sign (pos 250005) 25000)
    × (25000 < context_limit)
unfolding normalize_amount nearest_units quantize_units div_half_even
normalize_amount_nearest_example = normalize_amount_nearest coin (pos 25000) refl

normalize_amount_idem_example :
    normalize_amount (record { coef = negsuc 7; places = 4 }) ≡ quantize_units (negsuc 7)
normalize_amount_idem_example = normalize_amount_idem (negsuc 7)

ensure_balanced_exact_example :
    ensure_balanced rent.postings
    ≡ guard
        (eqb_ℤ (total_units rent.postings) (pos 0))
        (Error.invariant "Transaction bundle must balance to zero")
unfolding nearest_units div_half_even
ensure_balanced_exact_example = ensure_balanced_exact rent.postings (omega arith)

transaction_impact_amount-eq-credits_example :
    transaction_impact_amount rent.postings ≡ ok (pos (credits rent.postings))
unfolding nearest_units div_half_even ◌+ℤ◌
transaction_impact_amount-eq-credits_example =
    transaction_impact_amount-eq-credits rent.postings (omega arith) refl

add_amounts-eq_ok_example :
    (pos 5 ≡ pos 12 +ℤ negsuc 6) × (abs (pos 12 +ℤ negsuc 6) < context_limit)
unfolding add_amounts add_context normalize_amount nearest_units quantize_units div_half_even
    round_context round_at ◌+ℤ◌
add_amounts-eq_ok_example = add_amounts-eq_ok (pos 12) (negsuc 6) (pos 5) refl

-- 1200 over a target of 1000
abbrev position : PostureComputationInputs
position = record {
  liquidity = pos 12000000;
  fixed_burn = pos 0;
  variable_burn = pos 0;
  minimum_reserve = pos 9000000;
  volatility_buffer = pos 1000000;
}

-- 900 over the same
abbrev low_position : PostureComputationInputs
low_position = record position { liquidity = pos 9000000 }

abbrev metrics : PostureMetrics
metrics = record {
  fixed_burn = pos 0;
  variable_burn = pos 0;
  volatility_buffer = pos 1000000;
  reserve_target = pos 10000000;
  liquidity = pos 12000000;
  liquidity_surplus = pos 2000000;
  reserve_ratio = pos 12000;
  risk_band = guarded;
}

abbrev low_metrics : PostureMetrics
low_metrics = record metrics {
  liquidity = pos 9000000;
  liquidity_surplus = negsuc 999999;
  reserve_ratio = pos 9000;
  risk_band = RiskBand.elevated;
}

metrics_of_position : compute_posture_metrics position ≡ ok metrics
unfolding compute_posture_metrics reserve_ratio derive_risk_band add_amounts sub_amounts add_context
    normalize_amount nearest_units quantize_units div_half_even div_context quotient_places
    round_context round_at ◌+ℤ◌ ◌-ℤ◌
metrics_of_position = refl

metrics_of_low_position : compute_posture_metrics low_position ≡ ok low_metrics
unfolding compute_posture_metrics reserve_ratio derive_risk_band add_amounts sub_amounts add_context
    normalize_amount nearest_units quantize_units div_half_even div_context quotient_places
    round_context round_at ◌+ℤ◌ ◌-ℤ◌
metrics_of_low_position = refl

compute_posture_metrics_surplus_example :
    (pos 10000000 ≡ pos 9000000 +ℤ pos 1000000) × (pos 2000000 +ℤ pos 10000000 ≡ pos 12000000)
compute_posture_metrics_surplus_example =
    compute_posture_metrics_surplus position metrics metrics_of_position

compute_posture_metrics_covered_example :
    (metrics.risk_band ≡ guarded) ⊎ (metrics.risk_band ≡ stable)
compute_posture_metrics_covered_example =
    compute_posture_metrics_covered position metrics 12000000 metrics_of_position refl (omega arith)
      (omega arith)

compute_posture_metrics_short_example : low_metrics.risk_band ≢ stable
compute_posture_metrics_short_example =
    compute_posture_metrics_short low_position low_metrics metrics_of_low_position (omega arith)
      (omega arith) (omega arith)

-- the 31st of January
abbrev new_year : Date
new_year = record { year = 2026; month = 1; day = 31 }

new_year-IsDate : IsDate new_year
unfolding days_in_month
new_year-IsDate = record {
  first_month = omega arith;
  last_month = omega arith;
  first_day = omega arith;
  last_day = omega arith;
}

months_after-IsDate_example : IsDate (months_after new_year 1)
months_after-IsDate_example = months_after-IsDate new_year 1 new_year-IsDate

months_after-counts_example :
    (12 * (months_after new_year 13).year + (months_after new_year 13).month ≡ 12 * 2026 + 1 + 13)
    × (1 ≤ (months_after new_year 13).month)
    × ((months_after new_year 13).month ≤ 12)
    × ((months_after new_year 13).day ≡ 28)
unfolding months_after days_in_month is_leap
months_after-counts_example = months_after-counts new_year 13 new_year-IsDate

abbrev debts : DebtAnalysisInputs
debts = record {
  liabilities =
      record {
        liability_id = "card";
        current_balance = pos 5000000;
        apr = pos 200000;
        minimum_payment = pos 250000;
      }
      ∷ record {
        liability_id = "loan";
        current_balance = pos 9000000;
        apr = pos 50000;
        minimum_payment = pos 100000;
      }
      ∷ [];
  optional_payoff_amount = some (pos 6000000);
  reserve_floor = pos 0;
}

abbrev no_result : DebtAnalysisResult
no_result = record {
  optional_payoff_amount = none;
  reserve_floor = pos 0;
  total_interest_saved = pos 0;
  total_cashflow_freed = pos 0;
  total_reserve_impact = pos 0;
  ranked_liabilities = [];
}

abbrev debt_result : DebtAnalysisResult
debt_result = value_or no_result (analyze_liabilities debts)

debt_result_of_debts : analyze_liabilities debts ≡ ok debt_result
unfolding analyze_liabilities score_all score_liability estimated_annual_interest percent
    payoff_readiness sort_by scored_leb rank_liabilities apply_payoff add_totals mul_context codes
    text_leb add_amounts sub_amounts add_context normalize_amount nearest_units quantize_units
    div_half_even div_context quotient_places round_context round_at ◌+ℤ◌ ◌-ℤ◌
debt_result_of_debts = refl

analyze_liabilities-PaysInOrder_example :
    PaysInOrder 1 (pos 6000000) debt_result.ranked_liabilities
    × (debt_result.total_interest_saved
        ≡ sum_of (λ r. r.interest_saved) debt_result.ranked_liabilities)
    × (debt_result.total_cashflow_freed
        ≡ sum_of (λ r. r.cashflow_freed) debt_result.ranked_liabilities)
    × (debt_result.total_reserve_impact
          +ℤ sum_of (λ r. r.payoff_applied) debt_result.ranked_liabilities
        ≡ pos 0)
analyze_liabilities-PaysInOrder_example =
    analyze_liabilities-PaysInOrder debts debt_result debt_result_of_debts

-- a rent each month, and a repair in the second one
abbrev plan : SimulationInputs
plan = record {
  starting_liquidity = pos 50000000;
  start_date = new_year;
  horizon_periods = 3;
  spends =
      record {
        spend_id = "rent";
        amount = pos 10000000;
        type = recurring;
        spend_date = none;
        start_date = some (record new_year { day = 31 });
        cadence = monthly;
        occurrences = 3;
      }
      ∷ record {
        spend_id = "repair";
        amount = pos 2500000;
        type = one_time;
        spend_date = some (record { year = 2026; month = 3; day = 10 });
        start_date = none;
        cadence = monthly;
        occurrences = 1;
      }
      ∷ [];
}

abbrev plan_periods : List SimulationPeriod
plan_periods = value_or [] (compute_simulation_projection plan)

plan_periods_of_plan : compute_simulation_projection plan ≡ ok plan_periods
unfolding compute_simulation_projection schedules recurring_dates
    capital_os.Simulation.recurring_from sort_by codes text_leb compute_periods compute_period
    add_months add_days months_after clip_day is_leap add_spends add_occurrences lookup date_leb
    day_before days_in_month add_amounts sub_amounts add_context normalize_amount nearest_units
    quantize_units div_half_even round_context round_at ◌+ℤ◌ ◌-ℤ◌
plan_periods_of_plan = refl

compute_simulation_projection-Accounts_example :
    (length plan_periods ≡ 3) × Accounts (pos 50000000) plan_periods
compute_simulation_projection-Accounts_example =
    compute_simulation_projection-Accounts plan plan_periods plan_periods_of_plan

-- Under a start on the 31st, the 29th of March is in no period.
abbrev gap : SimulationInputs
gap = record plan {
  spends =
      record {
        spend_id = "trip";
        amount = pos 2500000;
        type = one_time;
        spend_date = some (record { year = 2026; month = 3; day = 29 });
        start_date = none;
        cadence = monthly;
        occurrences = 1;
      }
      ∷ [];
}

spent : List SimulationPeriod → ℤ
spent [] = pos 0
spent (p ∷ ps) = p.total_spend +ℤ spent ps

spent_of_gap : spent (value_or [] (compute_simulation_projection gap)) ≡ pos 0
unfolding spent compute_simulation_projection schedules recurring_dates
    capital_os.Simulation.recurring_from sort_by codes text_leb compute_periods compute_period
    add_months add_days months_after clip_day is_leap add_spends add_occurrences lookup date_leb
    day_before days_in_month add_amounts sub_amounts add_context normalize_amount nearest_units
    quantize_units div_half_even round_context round_at ◌+ℤ◌ ◌-ℤ◌
spent_of_gap = refl

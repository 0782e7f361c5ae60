-- ===== src/Simulation/Projection.antt =====
-- The projected liquidity accounts for every spend.
use capital_os.Base.{ℕ, zero, suc, ◌+◌, ◌≡◌, refl, ap, String, List, [], ◌∷◌, length}
use capital_os.Int.{ℤ, pos, ◌+ℤ◌, ◌-ℤ◌}
use capital_os.Exec.{ok, >>=-eq-ok}
use capital_os.Money.{add_amounts, sub_amounts}
use capital_os.Money.Sums.{add_amounts-eq_ok, sub_amounts-eq_ok}
use capital_os.Calendar.{Date, day_before}
use capital_os.Simulation.{
  SimulationSpend, SimulationInputs, SimulationPeriod, add_months, add_spends, compute_period,
  compute_periods, compute_simulation_projection, schedules,
}

-- Each period spends its two totals, and ends with what the one before it left less that.
abbrev pub Accounts : ℤ → List SimulationPeriod → Type 0
Accounts liquidity [] = Unit
Accounts liquidity (p ∷ ps) =
    (p.total_spend ≡ p.one_time_total +ℤ p.recurring_total)
    × (p.ending_liquidity ≡ liquidity -ℤ p.total_spend)
    × Accounts p.ending_liquidity ps

compute_period-Accounts :
    (start : Date) (dates : List (String × List Date)) (spends : List SimulationSpend) (index : ℕ)
    (liquidity : ℤ) (p : SimulationPeriod)
    → compute_period start dates spends index liquidity ≡ ok p
    → (p.total_spend ≡ p.one_time_total +ℤ p.recurring_total)
      × (p.ending_liquidity ≡ liquidity -ℤ p.total_spend)
unfolding compute_period
compute_period-Accounts start dates spends index liquidity p h =
    let (first, e1, h1) = >>=-eq-ok (add_months start index) _ h in
    let (next, e2, h2) = >>=-eq-ok (add_months first 1) _ h1 in
    let ((one, rec), e3, h3) =
      >>=-eq-ok (add_spends first (day_before next) dates spends (pos 0, pos 0)) _ h2 in
    let (total, e4, h4) = >>=-eq-ok (add_amounts one rec) _ h3 in
    let (ending, e5, h5) = >>=-eq-ok (sub_amounts liquidity total) _ h4 in
    let made : SimulationPeriod = record {
      period_index = index;
      period_start = first;
      period_end = day_before next;
      one_time_total = one;
      recurring_total = rec;
      total_spend = total;
      ending_liquidity = ending;
    } in
    let same : made ≡ p = cc in
    rw (← same)
      ((add_amounts-eq_ok one rec total e4).0, (sub_amounts-eq_ok liquidity total ending e5).0)

compute_periods-Accounts :
    (start : Date) (dates : List (String × List Date)) (spends : List SimulationSpend) (n index : ℕ)
    (liquidity : ℤ) (ps : List SimulationPeriod)
    → compute_periods start dates spends n index liquidity ≡ ok ps
    → (length ps ≡ n) × Accounts liquidity ps
unfolding compute_periods
compute_periods-Accounts start dates spends zero index liquidity ps h =
    let e : [] ≡ ps = cc in rw (← e) (refl, tt)
compute_periods-Accounts start dates spends (suc n) index liquidity ps h =
    let (p, made, h1) = >>=-eq-ok (compute_period start dates spends index liquidity) _ h in
    let (rest, after, h2) =
      >>=-eq-ok (compute_periods start dates spends n (index + 1) p.ending_liquidity) _ h1 in
    let e : p ∷ rest ≡ ps = cc in
    let ih =
      compute_periods-Accounts start dates spends n (index + 1) p.ending_liquidity rest after in
    let (total, ending) = compute_period-Accounts start dates spends index liquidity p made in
    rw (← e) (ap suc ih.0, (total, ending, ih.1))

-- A projection has a period for each of the horizon, and its liquidity loses nothing: each period
-- spends the sum of its two totals, and ends with exactly what the one before it left less that.
pub compute_simulation_projection-Accounts :
    (inputs : SimulationInputs) (ps : List SimulationPeriod)
    → compute_simulation_projection inputs ≡ ok ps
    → (length ps ≡ inputs.horizon_periods) × Accounts inputs.starting_liquidity ps
unfolding compute_simulation_projection
compute_simulation_projection-Accounts inputs ps h =
    let (dates, e, h1) = >>=-eq-ok (schedules _) _ h in compute_periods-Accounts _ _ _ _ _ _ ps h1

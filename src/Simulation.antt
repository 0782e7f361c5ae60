-- ===== src/Simulation.antt =====
-- src/capital_os/domain/simulation/engine.py: the projection of the liquidity over periods of a
-- month, under one-time and recurring spends.
pub mod Months
pub mod Projection
use capital_os.Base.{
  ℕ, zero, suc, ◌+◌, ◌-◌, ◌*◌, ◌/◌, ◌%◌, String, str_eq, Option, none, some, Bool, true, false,
  ◌&&◌, ◌||◌, List, [], ◌∷◌, leb, ltb, ◌==◌, sort_by, any, is_some, if◌then◌else◌,
}
use capital_os.Int.{ℤ, pos, ltb_ℤ}
use capital_os.Exec.{Error, Result, ok, err, ◌>>=◌, ◌>>◌, guard}
use capital_os.Money.{Decimal, normalize_amount, add_amounts, sub_amounts}
use capital_os.Calendar.{Date, is_leap, date_leb, day_before, day_after}
use capital_os.Text.{codes, text_leb}

-- `date(year, month, day)` refuses a year after 9999.
abbrev make_date : ℕ → ℕ → ℕ → Result Date
make_date year month day =
    if leb year 9999
    then ok (record { year = year; month = month; day = day })
    else err (Error.value "year is out of range")

-- the last of a shorter month for a day that it lacks
unfoldable pub clip_day : ℕ → ℕ → ℕ → ℕ
unfolding is_leap
clip_day year month day =
    if month == 2 && ltb 28 day
    then (if is_leap year then 29 else 28)
    else if (month == 4 || month == 6 || month == 9 || month == 11) && ltb 30 day
    then 30
    else day

-- `_add_months` before the constructor
unfoldable pub months_after : Date → ℕ → Date
months_after source months =
    let year = source.year + (source.month - 1 + months) / 12 in
    let month = (source.month - 1 + months) % 12 + 1 in
    record { year = year; month = month; day = clip_day year month source.day }

unfoldable pub add_months : Date → ℕ → Result Date
add_months source months = let d = months_after source months in make_date d.year d.month d.day

-- `start + timedelta(days=n)`
unfoldable pub add_days : Date → ℕ → Result Date
add_days d zero = make_date d.year d.month d.day
add_days d (suc n) = add_days (day_after d) n

pub data SpendType : Type 0 where
  one_time recurring : SpendType

pub data Cadence : Type 0 where
  monthly weekly : Cadence

pub record SimulationSpend : Type 0 where
  pub spend_id : String
  pub amount : ℤ
  pub type : SpendType
  pub spend_date : Option Date
  pub start_date : Option Date
  pub cadence : Cadence
  pub occurrences : ℕ

pub record SimulationInputs : Type 0 where
  pub starting_liquidity : ℤ
  pub start_date : Date
  pub horizon_periods : ℕ
  pub spends : List SimulationSpend

pub record SimulationPeriod : Type 0 where
  pub period_index : ℕ
  pub period_start : Date
  pub period_end : Date
  pub one_time_total : ℤ
  pub recurring_total : ℤ
  pub total_spend : ℤ
  pub ending_liquidity : ℤ

-- the `_enforce_branch_fields` of a spend
unfoldable pub enforce_branch_fields : SimulationSpend → Result SimulationSpend
enforce_branch_fields s = elim s.type [
  | one_time ↦ do
    guard (is_some s.spend_date) (Error.value "spend_date is required for one_time spends")
    guard (is_absent s.start_date) (Error.value "start_date is not allowed for one_time spends")
    guard (s.occurrences == 1) (Error.value "occurrences must be 1 for one_time spends")
    ok s
  | recurring ↦ do
    guard (is_some s.start_date) (Error.value "start_date is required for recurring spends")
    guard (is_absent s.spend_date) (Error.value "spend_date is not allowed for recurring spends")
    ok s
]
  where
    is_absent : Option Date → Bool
    is_absent none = true
    is_absent (some _) = false

-- the dates from the one of index `idx` on
unfoldable pub recurring_from : Cadence → Date → ℕ → ℕ → Result (List Date)
unfolding add_months add_days
recurring_from cadence start idx zero = ok []
recurring_from cadence start idx (suc n) = do
  d ← elim cadence [ monthly ↦ add_months start idx | weekly ↦ add_days start (7 * idx) ]
  rest ← recurring_from cadence start (idx + 1) n
  ok (d ∷ rest)

unfoldable pub recurring_dates : SimulationSpend → Result (List Date)
unfolding recurring_from
recurring_dates s = elim s.type [
  | one_time ↦ ok []
  | recurring ↦ elim s.start_date [
    | none ↦ ok []
    | some start ↦ recurring_from s.cadence start 0 s.occurrences
  ]
]

-- `recurring_schedules`, a dict by the id of the spend
unfoldable pub schedules : List SimulationSpend → Result (List (String × List Date))
schedules [] = ok []
schedules (s ∷ ss) = do
  dates ← recurring_dates s
  rest ← schedules ss
  ok ((s.spend_id, dates) ∷ rest)

-- the last entry of an id
unfoldable pub lookup : String → List (String × List Date) → Option (List Date)
lookup id [] = none
lookup id ((key, dates) ∷ rest) = elim (lookup id rest) [
  | some d ↦ some d
  | none ↦ if str_eq key id then some dates else none
]

abbrev in_period : Date → Date → Date → Bool
in_period period_start period_end d = date_leb period_start d && date_leb d period_end

-- `amount` once more for each date of the period
unfoldable pub add_occurrences : Date → Date → ℤ → List Date → ℤ → Result ℤ
add_occurrences first last amount [] total = ok total
add_occurrences first last amount (d ∷ ds) total =
    (if in_period first last d then add_amounts total amount else ok total)
    >>= add_occurrences first last amount ds

-- the two totals of a period, one-time and recurring, with the spends left to add
unfoldable pub add_spends :
    Date → Date → List (String × List Date) → List SimulationSpend → ℤ × ℤ → Result (ℤ × ℤ)
unfolding add_occurrences lookup
add_spends first last dates [] totals = ok totals
add_spends first last dates (s ∷ ss) (one, rec) = do
  totals ← elim s.type [
    | one_time ↦ elim s.spend_date [
      | none ↦ ok (one, rec)
      | some d ↦
          if in_period first last d
          then (add_amounts one s.amount >>= λ t. ok (t, rec))
          else ok (one, rec)
    ]
    | recurring ↦ elim (lookup s.spend_id dates) [
      | none ↦ err (Error.key s.spend_id)
      | some ds ↦ add_occurrences first last s.amount ds rec >>= λ t. ok (one, t)
    ]
  ]
  add_spends first last dates ss totals

-- one turn of the loop over the periods
unfoldable pub compute_period :
    Date → List (String × List Date) → List SimulationSpend → ℕ → ℤ → Result SimulationPeriod
compute_period start dates spends index liquidity = do
  period_start ← add_months start index
  next_start ← add_months period_start 1
  (one, rec) ← add_spends period_start (day_before next_start) dates spends (pos 0, pos 0)
  total_spend ← add_amounts one rec
  ending ← sub_amounts liquidity total_spend
  ok (record {
    period_index = index;
    period_start = period_start;
    period_end = day_before next_start;
    one_time_total = one;
    recurring_total = rec;
    total_spend = total_spend;
    ending_liquidity = ending;
  })

-- the periods from the one of `index` on
unfoldable pub compute_periods :
    Date
    → List (String × List Date)
    → List SimulationSpend
    → ℕ
    → ℕ
    → ℤ
    → Result (List SimulationPeriod)
compute_periods start dates spends zero index liquidity = ok []
compute_periods start dates spends (suc n) index liquidity = do
  p ← compute_period start dates spends index liquidity
  rest ← compute_periods start dates spends n (index + 1) p.ending_liquidity
  ok (p ∷ rest)

abbrev type_leb : SpendType → SpendType → Bool
type_leb recurring one_time = false
type_leb _ _ = true

-- the order of `(spend.spend_id, spend.type)`
abbrev spend_leb : SimulationSpend → SimulationSpend → Bool
spend_leb a b =
    if str_eq a.spend_id b.spend_id
    then type_leb a.type b.type
    else text_leb (codes a.spend_id) (codes b.spend_id)

unfoldable pub compute_simulation_projection : SimulationInputs → Result (List SimulationPeriod)
compute_simulation_projection inputs =
    let spends = sort_by spend_leb inputs.spends in
    schedules spends >>= λ dates.
    compute_periods inputs.start_date dates spends inputs.horizon_periods 0
      inputs.starting_liquidity

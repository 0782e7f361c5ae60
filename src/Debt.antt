-- ===== src/Debt.antt =====
-- src/capital_os/domain/debt/engine.py: the liabilities by their score, and a payoff applied to them
-- in that order.
pub mod Payoff
use capital_os.Base.{
  ℕ, ◌+◌, ◌*◌, ◌^◌, String, str_eq, Option, none, some, Bool, true, false, ◌&&◌, ◌||◌, not, List,
  [], ◌∷◌, any, or_default, sort_by, ltb, if◌then◌else◌,
}
use capital_os.Int.{ℤ, pos, negsuc, abs, ltb_ℤ, eqb_ℤ}
use capital_os.Exec.{Error, Result, ok, ◌>>=◌, ◌>>◌, guard}
use capital_os.Money.{
  Decimal, normalize_amount, non_negative, add_context, add_amounts, sub_amounts, mul_context,
  div_context,
}
use capital_os.Text.{codes, text_leb}

-- Amounts that are not negative.
pub record DebtLiability : Type 0 where
  pub liability_id : String
  pub current_balance : ℤ
  pub apr : ℤ
  pub minimum_payment : ℤ

pub record DebtAnalysisInputs : Type 0 where
  pub liabilities : List DebtLiability
  pub optional_payoff_amount : Option ℤ
  pub reserve_floor : ℤ

pub record DebtScoreExplanation : Type 0 where
  pub annual_interest_cost : ℤ
  pub cashflow_pressure : ℤ
  pub payoff_readiness : ℤ

pub record RankedLiability : Type 0 where
  pub rank : ℕ
  pub liability_id : String
  pub current_balance : ℤ
  pub apr : ℤ
  pub minimum_payment : ℤ
  pub score : ℤ
  pub estimated_annual_interest : ℤ
  pub payoff_applied : ℤ
  pub post_payoff_balance : ℤ
  pub interest_saved : ℤ
  pub cashflow_freed : ℤ
  pub reserve_impact : ℤ
  pub explanation : DebtScoreExplanation

pub record DebtAnalysisResult : Type 0 where
  pub optional_payoff_amount : Option ℤ
  pub reserve_floor : ℤ
  pub total_interest_saved : ℤ
  pub total_cashflow_freed : ℤ
  pub total_reserve_impact : ℤ
  pub ranked_liabilities : List RankedLiability

-- the three amounts of a liability, normalized and not negative
unfoldable pub validate_liability : String → Decimal → Decimal → Decimal → Result DebtLiability
validate_liability liability_id current_balance apr minimum_payment = do
  let message : String = "value must be non-negative"
  balance ← non_negative message current_balance
  rate ← non_negative message apr
  payment ← non_negative message minimum_payment
  ok (record {
    liability_id = liability_id;
    current_balance = balance;
    apr = rate;
    minimum_payment = payment;
  })

-- `normalize_amount(a * rate / Decimal("100.0000"))`: the product has units of 10 ** -8
unfoldable pub percent : ℤ → ℤ → Result ℤ
percent a rate = normalize_amount (div_context (mul_context a rate) (100 * 10 ^ 8))

unfoldable pub estimated_annual_interest : DebtLiability → Result ℤ
unfolding percent
estimated_annual_interest l = percent l.current_balance l.apr

-- a ratio of at most 1
abbrev at_most_one : Decimal → Decimal
at_most_one v =
    if ltb_ℤ (pos (10 ^ v.places)) v.coef then record { coef = pos 10000; places = 4 } else v

unfoldable pub payoff_readiness : DebtLiability → Option ℤ → Result ℤ
payoff_readiness l none = ok (pos 0)
payoff_readiness l (some payoff) =
    if eqb_ℤ payoff (pos 0)
    then ok (pos 0)
    else if eqb_ℤ l.current_balance (pos 0)
    then ok (pos 10000)
    else normalize_amount (at_most_one (div_context payoff (abs l.current_balance)))

-- `readiness * Decimal("100.0000")`, for a readiness of at most 1
abbrev hundred_times : ℤ → ℤ
hundred_times (pos n) = pos (n * 100)
hundred_times (negsuc n) = negsuc (n * 100 + 99)

unfoldable pub score_liability : DebtLiability → Option ℤ → Result (ℤ × DebtScoreExplanation)
unfolding estimated_annual_interest payoff_readiness
score_liability l payoff = do
  annual ← estimated_annual_interest l
  readiness ← payoff_readiness l payoff
  score ← add_amounts (add_context annual l.minimum_payment) (hundred_times readiness)
  let explanation : DebtScoreExplanation = record {
    annual_interest_cost = annual;
    cashflow_pressure = l.minimum_payment;
    payoff_readiness = readiness;
  }
  ok (score, explanation)

-- an entry of `scored`
pub record Scored : Type 0 where
  pub liability : DebtLiability
  pub score : ℤ
  pub explanation : DebtScoreExplanation

unfoldable pub score_all : Option ℤ → List DebtLiability → Result (List Scored)
score_all payoff [] = ok []
score_all payoff (l ∷ ls) = do
  (score, explanation) ← score_liability l payoff
  rest ← score_all payoff ls
  let row : Scored = record { liability = l; score = score; explanation = explanation }
  ok (row ∷ rest)

-- the sort key: score, rate and payment downwards, then the id
unfoldable pub scored_leb : Scored → Scored → Bool
scored_leb a b =
    ltb_ℤ b.score a.score
    || eqb_ℤ a.score b.score
      && (ltb_ℤ b.liability.apr a.liability.apr
          || eqb_ℤ a.liability.apr b.liability.apr
            && (ltb_ℤ b.liability.minimum_payment a.liability.minimum_payment
                || eqb_ℤ a.liability.minimum_payment b.liability.minimum_payment
                  && text_leb (codes a.liability.liability_id) (codes b.liability.liability_id)))

-- `min(a, b)`
abbrev pub min_ℤ : ℤ → ℤ → ℤ
min_ℤ a b = if ltb_ℤ b a then b else a

-- one turn of the loop: the ranked liability, and what is left of the payoff
unfoldable pub apply_payoff : ℕ → ℤ → Scored → Result (RankedLiability × ℤ)
apply_payoff rank remaining s = do
  let l : DebtLiability = s.liability
  let applied : ℤ = min_ℤ remaining l.current_balance
  post ← sub_amounts l.current_balance applied
  saved ← percent applied l.apr
  let freed : ℤ = (if eqb_ℤ post (pos 0) then l.minimum_payment else pos 0)
  impact ← sub_amounts (pos 0) applied
  left ← sub_amounts remaining applied
  interest ← estimated_annual_interest l
  let ranked : RankedLiability = record {
    rank = rank;
    liability_id = l.liability_id;
    current_balance = l.current_balance;
    apr = l.apr;
    minimum_payment = l.minimum_payment;
    score = s.score;
    estimated_annual_interest = interest;
    payoff_applied = applied;
    post_payoff_balance = post;
    interest_saved = saved;
    cashflow_freed = freed;
    reserve_impact = impact;
    explanation = s.explanation;
  }
  ok (ranked, left)

-- the three totals: interest saved, cash flow freed, impact on the reserve
pub record Totals : Type 0 where
  pub interest_saved : ℤ
  pub cashflow_freed : ℤ
  pub reserve_impact : ℤ

unfoldable pub add_totals : Totals → RankedLiability → Result Totals
add_totals t r = do
  interest ← add_amounts t.interest_saved r.interest_saved
  cashflow ← add_amounts t.cashflow_freed r.cashflow_freed
  impact ← add_amounts t.reserve_impact r.reserve_impact
  ok (record { interest_saved = interest; cashflow_freed = cashflow; reserve_impact = impact })

-- the loop from `rank` on
unfoldable pub rank_liabilities :
    ℕ → ℤ → Totals → List Scored → Result (Totals × List RankedLiability)
rank_liabilities rank remaining totals [] = ok (totals, [])
rank_liabilities rank remaining totals (s ∷ ss) = do
  (ranked, left) ← apply_payoff rank remaining s
  totals' ← add_totals totals ranked
  (final, rest) ← rank_liabilities (rank + 1) left totals' ss
  ok (final, ranked ∷ rest)

abbrev no_totals : Totals
no_totals = record { interest_saved = pos 0; cashflow_freed = pos 0; reserve_impact = pos 0 }

unfoldable pub analyze_liabilities : DebtAnalysisInputs → Result DebtAnalysisResult
analyze_liabilities inputs = do
  scored ← score_all inputs.optional_payoff_amount inputs.liabilities
  (totals, ranked) ←
      rank_liabilities 1 (or_default inputs.optional_payoff_amount (pos 0)) no_totals
        (sort_by scored_leb scored)
  ok (record {
    optional_payoff_amount = inputs.optional_payoff_amount;
    reserve_floor = inputs.reserve_floor;
    total_interest_saved = totals.interest_saved;
    total_cashflow_freed = totals.cashflow_freed;
    total_reserve_impact = totals.reserve_impact;
    ranked_liabilities = ranked;
  })

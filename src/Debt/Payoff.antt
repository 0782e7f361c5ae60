-- ===== src/Debt/Payoff.antt =====
-- How a payoff is spent on the ranked liabilities.
use capital_os.Base.{
  ℕ, ◌+◌, ◌≡◌, ◌⊎◌, inl, inr, refl, ap, sym, ◌∙◌, List, [], ◌∷◌, Bool-cases, or_default, ltb→lt,
  ltb→le, sort_by, if◌then◌else◌, arith,
}
use capital_os.Int.{
  ℤ, pos, ◌+ℤ◌, ◌-ℤ◌, ◌≤ℤ◌, ltb_ℤ, eqb_ℤ, int_laws, +ℤ_assoc, add-zero_ℤ, zero-add_ℤ,
}
use capital_os.Exec.{ok, >>=-eq-ok}
use capital_os.Money.{add_amounts, sub_amounts}
use capital_os.Money.Sums.{add_amounts-eq_ok, sub_amounts-eq_ok}
use capital_os.Debt.{
  DebtAnalysisInputs, DebtAnalysisResult, RankedLiability, Scored, Totals, min_ℤ, percent,
  estimated_annual_interest, apply_payoff, add_totals, rank_liabilities, score_all, scored_leb,
  analyze_liabilities,
}

-- The sum of an amount of the liabilities.
abbrev pub sum_of : (RankedLiability → ℤ) → List RankedLiability → ℤ
sum_of f [] = pos 0
sum_of f (r ∷ rs) = f r +ℤ sum_of f rs

-- What a payoff pays of one liability: no more than its balance and no more than what is left, all of
-- the one or all of the other.
abbrev Pays : ℤ → RankedLiability → Type 0
Pays left r =
    (r.payoff_applied ≤ℤ r.current_balance)
    × (r.payoff_applied ≤ℤ left)
    × (r.post_payoff_balance +ℤ r.payoff_applied ≡ r.current_balance)
    × ((r.post_payoff_balance ≡ pos 0) ⊎ (r.payoff_applied ≡ left))

-- The liabilities are paid in their order, the first of rank `rank`.
abbrev pub PaysInOrder : ℕ → ℤ → List RankedLiability → Type 0
PaysInOrder rank left [] = Unit
PaysInOrder rank left (r ∷ rs) =
    (r.rank ≡ rank) × Pays left r × PaysInOrder (rank + 1) (left -ℤ r.payoff_applied) rs

min_ℤ-le : (a b : ℤ) → (min_ℤ a b ≤ℤ a) × (min_ℤ a b ≤ℤ b) × ((min_ℤ a b ≡ a) ⊎ (min_ℤ a b ≡ b))
min_ℤ-le a b = elim (Bool-cases (ltb_ℤ b a)) [
  | inl e ↦ rw e (omega (arith, ltb→lt _ _ e), omega arith, inr refl)
  | inr e ↦ rw e (omega arith, omega (arith, ltb→le _ _ e), inl refl)
]

minus_self : (a : ℤ) → a -ℤ a ≡ pos 0
minus_self a = omega int_laws

minus_add : (a b : ℤ) → a -ℤ b +ℤ b ≡ a
minus_add a b = omega int_laws

-- One turn: what it pays, its impact on the reserve, and what it leaves of the payoff.
abbrev Turn : ℕ → ℤ → RankedLiability × ℤ → Type 0
Turn rank left (r, rest) =
    (r.rank ≡ rank)
    × Pays left r
    × (r.reserve_impact ≡ pos 0 -ℤ r.payoff_applied)
    × (rest ≡ left -ℤ r.payoff_applied)

apply_payoff-Turn :
    (rank : ℕ) (left : ℤ) (s : Scored) (out : RankedLiability × ℤ)
    → apply_payoff rank left s ≡ ok out
    → Turn rank left out
unfolding apply_payoff
apply_payoff-Turn rank left s out h =
    let l = s.liability in
    let applied = min_ℤ left l.current_balance in
    let (post, e1, h1) = >>=-eq-ok (sub_amounts l.current_balance applied) _ h in
    let (saved, e2, h2) = >>=-eq-ok (percent applied l.apr) _ h1 in
    let (impact, e3, h3) = >>=-eq-ok (sub_amounts (pos 0) applied) _ h2 in
    let (after, e4, h4) = >>=-eq-ok (sub_amounts left applied) _ h3 in
    let (interest, e5, h5) = >>=-eq-ok (estimated_annual_interest l) _ h4 in
    let made : RankedLiability × ℤ = (
      record {
        rank = rank;
        liability_id = l.liability_id;
        current_balance = l.current_balance;
        apr = l.apr;
        minimum_payment = l.minimum_payment;
        score = s.score;
        estimated_annual_interest = interest;
        payoff_applied = applied;
        post_payoff_balance = post;
        interest_saved = saved;
        cashflow_freed = if eqb_ℤ post (pos 0) then l.minimum_payment else pos 0;
        reserve_impact = impact;
        explanation = s.explanation;
      },
      after,
    ) in
    let same : made ≡ out = cc in
    let (under_left, under_balance, which) = min_ℤ-le left l.current_balance in
    let rest_of : post ≡ l.current_balance -ℤ applied = (sub_amounts-eq_ok _ _ post e1).0 in
    let all_of : (post ≡ pos 0) ⊎ (applied ≡ left) = elim which [
      | inl e ↦ inr e
      | inr e ↦
          inl (rest_of ∙ ap (λ (z : ℤ). l.current_balance -ℤ z) e ∙ minus_self l.current_balance)
    ] in
    rw (← same) (
      refl,
      (
        under_balance,
        under_left,
        ap (λ (z : ℤ). z +ℤ applied) rest_of ∙ minus_add l.current_balance applied,
        all_of,
      ),
      (sub_amounts-eq_ok _ _ impact e3).0,
      (sub_amounts-eq_ok _ _ after e4).0,
    )

add_totals-eq_ok :
    (t u : Totals) (r : RankedLiability)
    → add_totals t r ≡ ok u
    → (u.interest_saved ≡ t.interest_saved +ℤ r.interest_saved)
      × (u.cashflow_freed ≡ t.cashflow_freed +ℤ r.cashflow_freed)
      × (u.reserve_impact ≡ t.reserve_impact +ℤ r.reserve_impact)
unfolding add_totals
add_totals-eq_ok t u r h =
    let (i, e1, h1) = >>=-eq-ok (add_amounts t.interest_saved r.interest_saved) _ h in
    let (c, e2, h2) = >>=-eq-ok (add_amounts t.cashflow_freed r.cashflow_freed) _ h1 in
    let (m, e3, h3) = >>=-eq-ok (add_amounts t.reserve_impact r.reserve_impact) _ h2 in
    let made : Totals = record { interest_saved = i; cashflow_freed = c; reserve_impact = m } in
    let same : made ≡ u = cc in
    rw (← same) (
      (add_amounts-eq_ok _ _ i e1).0,
      (add_amounts-eq_ok _ _ c e2).0,
      (add_amounts-eq_ok _ _ m e3).0,
    )

-- The loop: the order, and the totals as sums.
abbrev Ranked : ℕ → ℤ → Totals → Totals × List RankedLiability → Type 0
Ranked rank left t (u, rs) =
    PaysInOrder rank left rs
    × (u.interest_saved ≡ t.interest_saved +ℤ sum_of (λ r. r.interest_saved) rs)
    × (u.cashflow_freed ≡ t.cashflow_freed +ℤ sum_of (λ r. r.cashflow_freed) rs)
    × (u.reserve_impact +ℤ sum_of (λ r. r.payoff_applied) rs ≡ t.reserve_impact)

three : (a b c d e : ℤ) → a ≡ b +ℤ c → d ≡ a +ℤ e → d ≡ b +ℤ (c +ℤ e)
three a b c d e h k = k ∙ ap (λ (z : ℤ). z +ℤ e) h ∙ +ℤ_assoc b c e

impact_step :
    (t u f impact applied rest : ℤ)
    → u ≡ t +ℤ impact
    → impact ≡ pos 0 -ℤ applied
    → f +ℤ rest ≡ u
    → f +ℤ (applied +ℤ rest) ≡ t
impact_step t u f impact applied rest e1 e2 e3 =
    let back : f +ℤ rest ≡ t +ℤ (pos 0 -ℤ applied) = e3 ∙ e1 ∙ ap (λ (z : ℤ). t +ℤ z) e2 in
    let moved : f +ℤ (applied +ℤ rest) ≡ f +ℤ rest +ℤ applied = omega int_laws in
    let gone : t +ℤ (pos 0 -ℤ applied) +ℤ applied ≡ t = omega int_laws in
    moved ∙ ap (λ (z : ℤ). z +ℤ applied) back ∙ gone

rank_liabilities-Ranked :
    (rank : ℕ) (left : ℤ) (t : Totals) (ss : List Scored) (out : Totals × List RankedLiability)
    → rank_liabilities rank left t ss ≡ ok out
    → Ranked rank left t out
unfolding rank_liabilities
rank_liabilities-Ranked rank left t [] out h =
    let made : Totals × List RankedLiability = (t, []) in
    let same : made ≡ out = cc in
    rw (← same) (tt, sym (add-zero_ℤ _), sym (add-zero_ℤ _), add-zero_ℤ _)
rank_liabilities-Ranked rank left t (s ∷ ss) out h =
    let ((r, rest), e1, h1) = >>=-eq-ok (apply_payoff rank left s) _ h in
    let (u, e2, h2) = >>=-eq-ok (add_totals t r) _ h1 in
    let ((v, rs), e3, h3) = >>=-eq-ok (rank_liabilities (rank + 1) rest u ss) _ h2 in
    let made : Totals × List RankedLiability = (v, r ∷ rs) in
    let same : made ≡ out = cc in
    let (ranked, pays, impact, rest_is) = apply_payoff-Turn rank left s (r, rest) e1 in
    let (i, c, m) = add_totals-eq_ok t u r e2 in
    let (order, is, cs, ms) = rank_liabilities-Ranked (rank + 1) rest u ss (v, rs) e3 in
    let order' : PaysInOrder (rank + 1) (left -ℤ r.payoff_applied) rs = rw (← rest_is) order in
    rw (← same) (
      (ranked, pays, order'),
      three _ _ _ _ _ i is,
      three _ _ _ _ _ c cs,
      impact_step _ _ _ _ _ _ m impact ms,
    )

-- The payoff is spent down the ranking: each liability gets its whole balance or all that is left,
-- its balance goes down by exactly that, and the totals are the sums over the liabilities, where the
-- reserve loses what was paid.
pub analyze_liabilities-PaysInOrder :
    (inputs : DebtAnalysisInputs) (result : DebtAnalysisResult)
    → analyze_liabilities inputs ≡ ok result
    → PaysInOrder 1 (or_default inputs.optional_payoff_amount (pos 0)) result.ranked_liabilities
      × (result.total_interest_saved ≡ sum_of (λ r. r.interest_saved) result.ranked_liabilities)
      × (result.total_cashflow_freed ≡ sum_of (λ r. r.cashflow_freed) result.ranked_liabilities)
      × (result.total_reserve_impact +ℤ sum_of (λ r. r.payoff_applied) result.ranked_liabilities
          ≡ pos 0)
unfolding analyze_liabilities
analyze_liabilities-PaysInOrder inputs result h =
    let payoff = or_default inputs.optional_payoff_amount (pos 0) in
    let (scored, e1, h1) =
      >>=-eq-ok (score_all inputs.optional_payoff_amount inputs.liabilities) _ h in
    let ((t, rs), e2, h2) =
      >>=-eq-ok (rank_liabilities 1 payoff _ (sort_by scored_leb scored)) _ h1 in
    let made : DebtAnalysisResult = record {
      optional_payoff_amount = inputs.optional_payoff_amount;
      reserve_floor = inputs.reserve_floor;
      total_interest_saved = t.interest_saved;
      total_cashflow_freed = t.cashflow_freed;
      total_reserve_impact = t.reserve_impact;
      ranked_liabilities = rs;
    } in
    let same : made ≡ result = cc in
    let (order, i, c, m) = rank_liabilities-Ranked 1 payoff _ _ (t, rs) e2 in
    rw (← same) (order, i ∙ zero-add_ℤ _, c ∙ zero-add_ℤ _, m)

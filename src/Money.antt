-- ===== src/Money.antt =====
-- src/capital_os/domain/ledger/invariants.py and src/capital_os/domain/approval/policy.py:
-- decimal amounts, their normal form, and the two sums over the postings of a bundle.
-- A `Decimal` is finite; an amount that has been normalized is an integer number of
-- ten-thousandths. The context is Python's default: 28 digits, ROUND_HALF_EVEN.
pub mod Rounding
pub mod Balance
pub mod Impact
pub mod Sums
use capital_os.Base.{
  ℕ, zero, suc, ◌+◌, ◌*◌, ◌/◌, ◌%◌, ◌^◌, String, Option, List, [], ◌∷◌, ltb, ◌==◌, not,
  if◌then◌else◌,
}
use capital_os.Int.{ℤ, pos, negsuc, ◌+ℤ◌, ◌-ℤ◌, abs, with_sign, eqb_ℤ, ltb_ℤ}
use capital_os.Exec.{Result, ok, err, Error, ◌>>=◌, ◌>>◌, guard}

-- coef * 10 ** -places
pub record Decimal : Type 0 where
  pub coef : ℤ
  pub places : ℕ

abbrev pub context_limit : ℕ
context_limit = 10 ^ 28

-- `MONEY_QUANT` is 10 ** -4: the units of 1 that an amount of 1 has
abbrev pub money_scale : ℕ
money_scale = 10 ^ 4

-- n / d to the nearest integer, a tie to the even one
unfoldable pub div_half_even : ℕ → ℕ → ℕ
div_half_even n d =
    let q = n / d in
    let r = n % d in
    if ltb (2 * r) d then q else if ltb d (2 * r) then q + 1 else if q % 2 == 0 then q else q + 1

-- `quantize` refuses a result with more digits than the context has.
unfoldable pub quantize_units : ℤ → Result ℤ
quantize_units z = if ltb (abs z) context_limit then ok z else err Error.decimal

-- The nearest ten-thousandths of a value.
unfoldable pub nearest_units : Decimal → ℤ
nearest_units v = with_sign v.coef (div_half_even (abs v.coef * money_scale) (10 ^ v.places))

unfoldable pub normalize_amount : Decimal → Result ℤ
normalize_amount v = quantize_units (nearest_units v)

-- A value of ten-thousandths rounded to the digits of the context: the smallest power of ten that
-- leaves at most 28 digits is the place that it is rounded at.
unfoldable pub round_at : ℕ → ℕ → ℕ → ℕ
round_at zero scale n = n
round_at (suc fuel) scale n =
    let rest = round_at fuel (10 * scale) n in
    if ltb (n / scale) context_limit then div_half_even n scale * scale else rest

-- Thirty places beyond the 28 are enough for any sum of fewer than 10 ** 30 amounts.
unfoldable pub round_context : ℕ → ℕ
unfolding round_at
round_context n = round_at 31 1 n

-- `a + b` on decimals of four places
unfoldable pub add_context : ℤ → ℤ → ℤ
add_context a b = let s = a +ℤ b in with_sign s (round_context (abs s))

-- `normalize_amount(a + b)` and `normalize_amount(a - b)` on amounts
unfoldable pub add_amounts : ℤ → ℤ → Result ℤ
add_amounts a b = normalize_amount (record { coef = add_context a b; places = 4 })

unfoldable pub sub_amounts : ℤ → ℤ → Result ℤ
sub_amounts a b =
    let d = a -ℤ b in
    normalize_amount (record { coef = with_sign d (round_context (abs d)); places = 4 })

-- The places of a quotient: as many as leave at most 28 digits.
unfoldable pub quotient_places : ℕ → ℕ → ℕ → ℕ → ℕ
quotient_places zero p n d = p
quotient_places (suc fuel) p n d =
    let rest = quotient_places fuel (p + 1) n d in
    if ltb (n * 10 ^ (p + 1) / d) context_limit then rest else p

-- `a / b` on decimals, for a numerator and a positive denominator in the same units. A quotient of
-- 10 ** 28 or more keeps no places here, and `normalize_amount` refuses it as the source does.
-- A quotient that is not zero has at most 56 places, since both operands have at most 28 digits.
unfoldable pub div_context : ℤ → ℕ → Decimal
unfolding quotient_places
div_context a d =
    let p = quotient_places 60 0 (abs a) d in
    record { coef = with_sign a (div_half_even (abs a * 10 ^ p) d); places = p }

-- `normalize_amount(v)`, refused where it is negative
unfoldable pub non_negative : String → Decimal → Result ℤ
non_negative message v = do
  amount ← normalize_amount v
  guard (not (ltb_ℤ amount (pos 0))) (Error.value message)
  ok amount

-- `a * b` on amounts: the product in units of 10 ** -8
unfoldable pub mul_context : ℤ → ℤ → ℤ
mul_context a b =
    let size = round_context (abs a * abs b) in
    elim a [ pos _ ↦ with_sign b size | negsuc _ ↦ with_sign (pos 0 -ℤ b) size ]

pub record Posting : Type 0 where
  pub account_id : String
  pub amount : Decimal
  pub currency : String
  pub memo : Option String

-- `sum((normalize_amount(p["amount"]) for p in postings), Decimal("0.0000"))`
unfoldable pub sum_amounts : ℤ → List Posting → Result ℤ
sum_amounts total [] = ok total
sum_amounts total (p ∷ ps) = do
  amount ← normalize_amount p.amount
  sum_amounts (add_context total amount) ps

unfoldable pub ensure_balanced : List Posting → Result (Unit {0})
unfolding sum_amounts
ensure_balanced postings = do
  total ← sum_amounts (pos 0) postings
  guard (eqb_ℤ total (pos 0)) (Error.invariant "Transaction bundle must balance to zero")

-- `sum((abs(normalize_amount(...)) for posting in postings), Decimal("0.0000"))`
unfoldable pub sum_sizes : ℤ → List Posting → Result ℤ
sum_sizes total [] = ok total
sum_sizes total (p ∷ ps) = do
  amount ← normalize_amount p.amount
  sum_sizes (add_context total (pos (abs amount))) ps

unfoldable pub transaction_impact_amount : List Posting → Result ℤ
unfolding sum_sizes
transaction_impact_amount postings = do
  absolute_total ← sum_sizes (pos 0) postings
  normalize_amount (div_context absolute_total (2 * money_scale))

-- ===== src/Posture.antt =====
-- src/capital_os/domain/posture/engine.py: the reserve that a position needs, what is left of its
-- liquidity, and the band of risk.
pub mod Reserve
pub mod Consolidation
pub mod Transfers
pub mod Consolidated
use capital_os.Base.{ℕ, String, Bool, ◌*◌, if◌then◌else◌}
use capital_os.Int.{ℤ, pos, abs, ltb_ℤ, eqb_ℤ}
use capital_os.Exec.{Error, Result, ok, ◌>>=◌}
use capital_os.Money.{
  Decimal, normalize_amount, non_negative, add_amounts, sub_amounts, div_context,
}

pub data RiskBand : Type 0 where
  critical elevated guarded stable : RiskBand

-- the fields before their validators
pub record PosturePayload : Type 0 where
  pub liquidity : Decimal
  pub fixed_burn : Decimal
  pub variable_burn : Decimal
  pub minimum_reserve : Decimal
  pub volatility_buffer : Decimal

-- Amounts. All but the liquidity are not negative.
pub record PostureComputationInputs : Type 0 where
  pub liquidity : ℤ
  pub fixed_burn : ℤ
  pub variable_burn : ℤ
  pub minimum_reserve : ℤ
  pub volatility_buffer : ℤ

pub record PostureMetrics : Type 0 where
  pub fixed_burn : ℤ
  pub variable_burn : ℤ
  pub volatility_buffer : ℤ
  pub reserve_target : ℤ
  pub liquidity : ℤ
  pub liquidity_surplus : ℤ
  pub reserve_ratio : ℤ
  pub risk_band : RiskBand

unfoldable pub validate_inputs : PosturePayload → Result PostureComputationInputs
validate_inputs p = do
  let message : String = "burn and reserve inputs must be non-negative"
  liquidity ← normalize_amount p.liquidity
  fixed_burn ← non_negative message p.fixed_burn
  variable_burn ← non_negative message p.variable_burn
  minimum_reserve ← non_negative message p.minimum_reserve
  volatility_buffer ← non_negative message p.volatility_buffer
  ok (record {
    liquidity = liquidity;
    fixed_burn = fixed_burn;
    variable_burn = variable_burn;
    minimum_reserve = minimum_reserve;
    volatility_buffer = volatility_buffer;
  })

unfoldable pub derive_risk_band : ℤ → RiskBand
derive_risk_band reserve_ratio =
    if ltb_ℤ reserve_ratio (pos 5000)
    then critical
    else if ltb_ℤ reserve_ratio (pos 10000)
    then elevated
    else if ltb_ℤ reserve_ratio (pos 15000)
    then guarded
    else stable

unfoldable pub reserve_ratio : ℤ → ℤ → Result ℤ
reserve_ratio liquidity reserve_target =
    if eqb_ℤ reserve_target (pos 0)
    then ok (pos 0)
    else normalize_amount (div_context liquidity (abs reserve_target))

unfoldable pub compute_posture_metrics : PostureComputationInputs → Result PostureMetrics
compute_posture_metrics inputs = do
  reserve_target ← add_amounts inputs.minimum_reserve inputs.volatility_buffer
  liquidity_surplus ← sub_amounts inputs.liquidity reserve_target
  ratio ← reserve_ratio inputs.liquidity reserve_target
  ok (record {
    fixed_burn = inputs.fixed_burn;
    variable_burn = inputs.variable_burn;
    volatility_buffer = inputs.volatility_buffer;
    reserve_target = reserve_target;
    liquidity = inputs.liquidity;
    liquidity_surplus = liquidity_surplus;
    reserve_ratio = ratio;
    risk_band = derive_risk_band ratio;
  })

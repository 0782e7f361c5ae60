-- ===== src/Tests/Entities.antt =====
-- The theorems on reconciliation and on consolidated postures at concrete inputs.
use capital_os.Base.{◌≡◌, refl, String, [], ◌∷◌, sort_by}
use capital_os.Int.{ℤ, pos, negsuc, ◌+ℤ◌, ◌-ℤ◌}
use capital_os.Money.{
  normalize_amount, quantize_units, nearest_units, div_half_even, add_amounts, sub_amounts,
  add_context, round_context, round_at,
}
use capital_os.Text.{codes, text_leb}
use capital_os.Posture.{
  PostureMetrics, critical, compute_posture_metrics, reserve_ratio, derive_risk_band,
}
use capital_os.Posture.Consolidation.{
  EntityPosture, inbound, outbound, ConsolidatedPayload, ConsolidatedPosture, EntityResult, add_leg,
  sorted_groups, unique, check_legs, check_groups, check_entities, validate_selection, get_net,
  set_net, move_net, lookup_net, apply_leg, apply_legs, pair_of, apply_groups, input_of,
  item_result, entity_result, add_entity, add_entities, sorted_ids, compute_consolidated_posture,
}
use capital_os.Posture.Consolidated.{sum_over, liquidity_of, compute_consolidated_posture-liquidity}

abbrev entity : String → ℤ → EntityPosture
entity key liquidity = record {
  entity_id = key;
  liquidity = liquidity;
  fixed_burn = pos 0;
  variable_burn = pos 0;
  minimum_reserve = pos 0;
  volatility_buffer = pos 0;
}

-- 30 dollars from one entity to the other
abbrev household : ConsolidatedPayload
household = record {
  entity_ids = "home" ∷ "firm" ∷ [];
  entities = entity "home" (pos 1000000) ∷ entity "firm" (pos 2000000) ∷ [];
  inter_entity_transfers =
      record {
        transfer_id = "x";
        entity_id = "firm";
        counterparty_entity_id = "home";
        direction = outbound;
        amount = pos 300000;
      }
      ∷ record {
        transfer_id = "x";
        entity_id = "home";
        counterparty_entity_id = "firm";
        direction = inbound;
        amount = pos 300000;
      }
      ∷ [];
}

abbrev metrics : ℤ → PostureMetrics
metrics liquidity = record {
  fixed_burn = pos 0;
  variable_burn = pos 0;
  volatility_buffer = pos 0;
  reserve_target = pos 0;
  liquidity = liquidity;
  liquidity_surplus = liquidity;
  reserve_ratio = pos 0;
  risk_band = critical;
}

abbrev result : String → ℤ → ℤ → ℤ → EntityResult
result key liquidity net neutral = record {
  entity_id = key;
  liquidity = liquidity;
  transfer_net = net;
  minimum_reserve = pos 0;
  metrics = metrics neutral;
}

abbrev together : ConsolidatedPosture
together = record {
  entity_ids = "firm" ∷ "home" ∷ [];
  entities =
      result "firm" (pos 2000000) (negsuc 299999) (pos 2300000)
      ∷ result "home" (pos 1000000) (pos 300000) (pos 700000)
      ∷ [];
  transfer_pairs =
      record { transfer_id = "x"; entity_a_id = "firm"; entity_b_id = "home"; amount = pos 300000 }
      ∷ [];
  metrics = metrics (pos 3000000);
}

compute_consolidated_posture-liquidity_example :
    pos 3000000 ≡ sum_over (liquidity_of household.entities) household.entity_ids
unfolding normalize_amount quantize_units nearest_units div_half_even add_amounts sub_amounts
    add_context round_context round_at ◌+ℤ◌ ◌-ℤ◌ sort_by codes text_leb compute_posture_metrics
    reserve_ratio derive_risk_band add_leg sorted_groups unique check_legs check_groups
    check_entities validate_selection get_net set_net move_net lookup_net apply_leg apply_legs
    pair_of apply_groups input_of item_result entity_result add_entity add_entities sorted_ids
    compute_consolidated_posture
compute_consolidated_posture-liquidity_example =
    compute_consolidated_posture-liquidity household together refl refl

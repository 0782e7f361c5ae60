-- ===== src/Posture/Consolidation.antt =====
-- src/capital_os/domain/posture/consolidation.py, with the validator of its payload in
-- src/capital_os/schemas/tools.py: the posture of several entities together, where what they
-- transfer to one another is taken out. Amounts are those that the field validators leave; the
-- response shows them as texts of four places.
use capital_os.Base.{
  String, str_eq, Bool, true, false, ◌&&◌, not, Option, none, some, List, [], ◌∷◌, ◌++◌, reverse,
  or_default, any, all, map, find, sort_by, foldl, if◌then◌else◌,
}
use capital_os.Int.{ℤ, pos, eqb_ℤ}
use capital_os.Exec.{Error, Result, ok, err, guard, ◌>>=◌, ◌>>◌}
use capital_os.Money.{normalize_amount, add_amounts, sub_amounts}
use capital_os.Text.{codes, text_leb}
use capital_os.Posture.{PostureMetrics, compute_posture_metrics}

pub data Direction : Type 0 where
  inbound outbound : Direction

pub record TransferLeg : Type 0 where
  pub transfer_id : String
  pub entity_id : String
  pub counterparty_entity_id : String
  pub direction : Direction
  pub amount : ℤ

pub record EntityPosture : Type 0 where
  pub entity_id : String
  pub liquidity : ℤ
  pub fixed_burn : ℤ
  pub variable_burn : ℤ
  pub minimum_reserve : ℤ
  pub volatility_buffer : ℤ

pub record ConsolidatedPayload : Type 0 where
  pub entity_ids : List String
  pub entities : List EntityPosture
  pub inter_entity_transfers : List TransferLeg

pub record TransferPair : Type 0 where
  pub transfer_id : String
  pub entity_a_id : String
  pub entity_b_id : String
  pub amount : ℤ

pub record EntityResult : Type 0 where
  pub entity_id : String
  pub liquidity : ℤ
  pub transfer_net : ℤ
  pub minimum_reserve : ℤ
  pub metrics : PostureMetrics

pub record ConsolidatedPosture : Type 0 where
  pub entity_ids : List String
  pub entities : List EntityResult
  pub transfer_pairs : List TransferPair
  pub metrics : PostureMetrics

-- the legs of each transfer, in the order of their first legs
abbrev pub Groups : Type 0
Groups = List (String × List TransferLeg)

-- `transfer_groups.setdefault(leg["transfer_id"], []).append(leg)`
unfoldable pub add_leg : TransferLeg → Groups → Groups
add_leg leg [] = (leg.transfer_id, leg ∷ []) ∷ []
add_leg leg (g ∷ gs) =
    let rest = add_leg leg gs in
    if str_eq g.0 leg.transfer_id then (g.0, g.1 ++ leg ∷ []) ∷ gs else g ∷ rest

-- `sorted(transfer_groups)`
unfoldable pub sorted_groups : List TransferLeg → Groups
unfolding add_leg
sorted_groups legs =
    sort_by (λ (a b : String × List TransferLeg). text_leb (codes a.0) (codes b.0))
      (foldl (λ (gs : Groups) leg. add_leg leg gs) [] legs)

abbrev pub is_in : String → List String → Bool
is_in x xs = any (str_eq x) xs

-- `len(set(xs)) == len(xs)`
unfoldable pub unique : List String → Bool
unique [] = true
unique (x ∷ xs) = not (is_in x xs) && unique xs

abbrev pub same_direction : Direction → Direction → Bool
same_direction inbound inbound = true
same_direction outbound outbound = true
same_direction _ _ = false

-- the two legs of one transfer
unfoldable pub check_legs : List TransferLeg → Result (Unit {0})
check_legs (first ∷ second ∷ []) = do
  guard (not (same_direction first.direction second.direction))
      (Error.value "transfer must have one inbound and one outbound leg")
  guard
      (str_eq first.entity_id second.counterparty_entity_id
        && str_eq second.entity_id first.counterparty_entity_id)
      (Error.value "transfer legs must mirror entity/counterparty IDs")
  guard (eqb_ℤ first.amount second.amount) (Error.value "transfer legs must use identical amounts")
check_legs _ = err (Error.value "transfer must include exactly two legs")

unfoldable pub check_groups : Groups → Result (Unit {0})
check_groups [] = ok tt
check_groups (g ∷ gs) = check_legs g.1 >> check_groups gs

unfoldable pub check_entities : List String → List TransferLeg → Result (Unit {0})
check_entities selected [] = ok tt
check_entities selected (leg ∷ legs) = do
  guard (not (str_eq leg.entity_id leg.counterparty_entity_id))
      (Error.value "transfer must reference two distinct entities")
  guard (is_in leg.entity_id selected && is_in leg.counterparty_entity_id selected)
      (Error.value "transfer references entity outside selected entity_ids")
  check_entities selected legs

unfoldable pub validate_selection : ConsolidatedPayload → Result (Unit {0})
validate_selection payload = do
  let given = map (λ (e : EntityPosture). e.entity_id) payload.entities
  guard (unique payload.entity_ids) (Error.value "entity_ids must be unique")
  guard (unique given) (Error.value "entities must contain unique entity_id values")
  guard (all (λ x. is_in x payload.entity_ids) given && all (λ x. is_in x given) payload.entity_ids)
      (Error.value "entities must exactly match entity_ids")
  check_entities payload.entity_ids payload.inter_entity_transfers
  check_groups (sorted_groups payload.inter_entity_transfers)

-- `transfer_net_by_entity`
abbrev pub Nets : Type 0
Nets = List (String × ℤ)

unfoldable pub get_net : String → Nets → Option ℤ
get_net e [] = none
get_net e (n ∷ ns) = let rest = get_net e ns in if str_eq n.0 e then some n.1 else rest

unfoldable pub set_net : String → ℤ → Nets → Nets
set_net e v [] = []
set_net e v (n ∷ ns) = let rest = set_net e v ns in if str_eq n.0 e then (n.0, v) ∷ ns else n ∷ rest

-- an amount normalized once more
abbrev pub money : ℤ → Result ℤ
money z = normalize_amount (record { coef = z; places = 4 })

unfoldable pub move_net : Direction → ℤ → ℤ → Result ℤ
move_net inbound net amount = add_amounts net amount
move_net outbound net amount = sub_amounts net amount

unfoldable pub lookup_net : String → Nets → Result ℤ
lookup_net e nets = elim (get_net e nets) [ none ↦ err (Error.key e) | some net ↦ ok net ]

unfoldable pub apply_leg : TransferLeg → Nets → Result Nets
apply_leg leg nets = do
  amount ← money leg.amount
  net ← lookup_net leg.entity_id nets
  moved ← move_net leg.direction net amount
  ok (set_net leg.entity_id moved nets)

unfoldable pub apply_legs : List TransferLeg → Nets → Result Nets
apply_legs [] nets = ok nets
apply_legs (leg ∷ legs) nets = do next ← apply_leg leg nets; apply_legs legs next

-- `sorted({legs[0]["entity_id"], legs[0]["counterparty_entity_id"]})`, of which both are read
unfoldable pub pair_of : String → List TransferLeg → Result TransferPair
pair_of id [] = err (Error.key "list index out of range")
pair_of id (leg ∷ legs) = do
  guard (not (str_eq leg.entity_id leg.counterparty_entity_id))
      (Error.key "list index out of range")
  amount ← money leg.amount
  let in_order = text_leb (codes leg.entity_id) (codes leg.counterparty_entity_id)
  ok (record {
    transfer_id = id;
    entity_a_id = if in_order then leg.entity_id else leg.counterparty_entity_id;
    entity_b_id = if in_order then leg.counterparty_entity_id else leg.entity_id;
    amount = amount;
  })

unfoldable pub apply_groups : Groups → Nets → Result (Nets × List TransferPair)
apply_groups [] nets = ok (nets, [])
apply_groups (g ∷ gs) nets = do
  next ← apply_legs g.1 nets
  pair ← pair_of g.0 g.1
  rest ← apply_groups gs next
  ok (rest.0, pair ∷ rest.1)

-- `entity_inputs[entity_id]`, where a later entity of the same key counts
unfoldable pub input_of : List EntityPosture → String → Result EntityPosture
input_of entities id = elim (find (λ e. str_eq e.entity_id id) (reverse entities)) [
  | none ↦ err (Error.key id)
  | some e ↦ ok e
]

-- the metrics of one entity without what it was transferred
unfoldable pub item_result : Nets → String → EntityPosture → Result EntityResult
item_result nets id item = do
  liquidity ← money item.liquidity
  fixed_burn ← money item.fixed_burn
  variable_burn ← money item.variable_burn
  minimum_reserve ← money item.minimum_reserve
  volatility_buffer ← money item.volatility_buffer
  transfer_net ← money (or_default (get_net id nets) (pos 0))
  neutral ← sub_amounts liquidity transfer_net
  metrics ← compute_posture_metrics (record {
    liquidity = neutral;
    fixed_burn = fixed_burn;
    variable_burn = variable_burn;
    minimum_reserve = minimum_reserve;
    volatility_buffer = volatility_buffer;
  })
  ok (record {
    entity_id = id;
    liquidity = liquidity;
    transfer_net = transfer_net;
    minimum_reserve = minimum_reserve;
    metrics = metrics;
  })

unfoldable pub entity_result : List EntityPosture → Nets → String → Result EntityResult
entity_result entities nets id = do item ← input_of entities id; item_result nets id item

-- the five running totals
pub record Totals : Type 0 where
  pub liquidity : ℤ
  pub fixed_burn : ℤ
  pub variable_burn : ℤ
  pub minimum_reserve : ℤ
  pub volatility_buffer : ℤ

unfoldable pub add_entity : Totals → EntityResult → Result Totals
add_entity t e = do
  liquidity ← add_amounts t.liquidity e.metrics.liquidity
  fixed_burn ← add_amounts t.fixed_burn e.metrics.fixed_burn
  variable_burn ← add_amounts t.variable_burn e.metrics.variable_burn
  minimum_reserve ← add_amounts t.minimum_reserve e.minimum_reserve
  volatility_buffer ← add_amounts t.volatility_buffer e.metrics.volatility_buffer
  ok (record {
    liquidity = liquidity;
    fixed_burn = fixed_burn;
    variable_burn = variable_burn;
    minimum_reserve = minimum_reserve;
    volatility_buffer = volatility_buffer;
  })

unfoldable pub add_entities :
    List EntityPosture → Nets → List String → Totals → Result (Totals × List EntityResult)
add_entities entities nets [] totals = ok (totals, [])
add_entities entities nets (id ∷ ids) totals = do
  e ← entity_result entities nets id
  next ← add_entity totals e
  rest ← add_entities entities nets ids next
  ok (rest.0, e ∷ rest.1)

abbrev pub no_totals : Totals
no_totals = record {
  liquidity = pos 0;
  fixed_burn = pos 0;
  variable_burn = pos 0;
  minimum_reserve = pos 0;
  volatility_buffer = pos 0;
}

unfoldable pub sorted_ids : ConsolidatedPayload → List String
sorted_ids payload = sort_by (λ a b. text_leb (codes a) (codes b)) payload.entity_ids

abbrev pub start_nets : List String → Nets
start_nets ids = map (λ (id : String). (id, pos 0)) ids

unfoldable pub compute_consolidated_posture : ConsolidatedPayload → Result ConsolidatedPosture
compute_consolidated_posture payload = do
  let ids = sorted_ids payload
  let groups = sorted_groups payload.inter_entity_transfers
  nets ← apply_groups groups (start_nets ids)
  sums ← add_entities payload.entities nets.0 ids no_totals
  metrics ← compute_posture_metrics (record {
    liquidity = sums.0.liquidity;
    fixed_burn = sums.0.fixed_burn;
    variable_burn = sums.0.variable_burn;
    minimum_reserve = sums.0.minimum_reserve;
    volatility_buffer = sums.0.volatility_buffer;
  })
  ok (record { entity_ids = ids; entities = sums.1; transfer_pairs = nets.1; metrics = metrics })

-- ===== src/Posture/Consolidated.antt =====
-- The consolidated liquidity is the sum of what the entities hold.
use capital_os.Base.{
  ◌≡◌, ◌≢◌, refl, sym, ap, ◌∙◌, inl, inr, String, str_eq, eq_iff, eq_refl, Bool, true, false, ◌&&◌,
  List, [], ◌∷◌, map, arith, or_default, Bool-cases, All, Distinct, sort_by, insert_by, all,
}
use capital_os.Int.{ℤ, pos, ◌+ℤ◌, ◌-ℤ◌, int_laws, -ℤ_parts, +ℤ_left_comm, add-zero_ℤ, zero-add_ℤ}
use capital_os.Exec.{Error, Result, ok, err, guard, >>=-eq-ok, ok_inj}
use capital_os.Money.{add_amounts, sub_amounts}
use capital_os.Money.Sums.{add_amounts-eq_ok, sub_amounts-eq_ok}
use capital_os.Posture.{
  PostureComputationInputs, PostureMetrics, compute_posture_metrics, reserve_ratio,
}
use capital_os.Posture.Consolidation.{
  EntityPosture, ConsolidatedPayload, EntityResult, ConsolidatedPosture, Nets, get_net, money,
  input_of, item_result, entity_result, Totals, no_totals, add_entity, add_entities, apply_groups,
  sorted_groups, sorted_ids, start_nets, unique, is_in, check_entities, check_groups,
  validate_selection, compute_consolidated_posture,
}
use capital_os.Posture.Transfers.{total, keys, money-eq_ok, apply_groups-cancel}

module _ {A : Type 0} where
  abbrev pub sum_over : (A → ℤ) → List A → ℤ
  sum_over f [] = pos 0
  sum_over f (x ∷ xs) = f x +ℤ sum_over f xs

  sum_over-insert_by :
      (f : A → ℤ) (le : A → A → Bool) (x : A) (ys : List A)
      → sum_over f (insert_by le x ys) ≡ f x +ℤ sum_over f ys
  sum_over-insert_by f le x [] = refl
  sum_over-insert_by f le x (y ∷ ys) =
      let rest = sum_over-insert_by f le x ys in
      elim (Bool-cases (le x y)) [
        | inl e ↦ rw (insert_by, e) refl
        | inr e ↦
            rw (insert_by, e) (ap (λ z. f y +ℤ z) rest ∙ +ℤ_left_comm (f y) (f x) (sum_over f ys))
      ]

  -- the order does not matter to a sum
  sum_over-sort_by :
      (f : A → ℤ) (le : A → A → Bool) (xs : List A) → sum_over f (sort_by le xs) ≡ sum_over f xs
  unfolding sort_by
  sum_over-sort_by f le [] = refl
  sum_over-sort_by f le (x ∷ xs) =
      sum_over-insert_by f le x (sort_by le xs) ∙ ap (λ z. f x +ℤ z) (sum_over-sort_by f le xs)

abbrev pub liquidity_in : Result EntityPosture → ℤ
liquidity_in (ok e) = e.liquidity
liquidity_in (err _) = pos 0

-- the liquidity that an entity was given with
abbrev pub liquidity_of : List EntityPosture → String → ℤ
liquidity_of entities id = liquidity_in (input_of entities id)

abbrev net_in : Nets → String → ℤ
net_in nets id = or_default (get_net id nets) (pos 0)

metrics-liquidity :
    (i : PostureComputationInputs) (m : PostureMetrics)
    → compute_posture_metrics i ≡ ok m
    → m.liquidity ≡ i.liquidity
unfolding compute_posture_metrics
metrics-liquidity i m h =
    let (target, e1, h1) = >>=-eq-ok (add_amounts i.minimum_reserve i.volatility_buffer) _ h in
    let (surplus, e2, h2) = >>=-eq-ok (sub_amounts i.liquidity target) _ h1 in
    let (ratio, e3, h3) = >>=-eq-ok (reserve_ratio i.liquidity target) _ h2 in rw (← ok_inj h3) refl

item_result-liquidity :
    (nets : Nets) (id : String) (item : EntityPosture) (e : EntityResult)
    → item_result nets id item ≡ ok e
    → e.metrics.liquidity ≡ item.liquidity -ℤ net_in nets id
unfolding item_result
item_result-liquidity nets id item e h0 =
    let (liquidity, e1, h1) = >>=-eq-ok (money item.liquidity) _ h0 in
    let (fixed, e2, h2) = >>=-eq-ok (money item.fixed_burn) _ h1 in
    let (variable, e3, h3) = >>=-eq-ok (money item.variable_burn) _ h2 in
    let (minimum, e4, h4) = >>=-eq-ok (money item.minimum_reserve) _ h3 in
    let (buffer, e5, h5) = >>=-eq-ok (money item.volatility_buffer) _ h4 in
    let (net, e6, h6) = >>=-eq-ok (money (net_in nets id)) _ h5 in
    let (neutral, e7, h7) = >>=-eq-ok (sub_amounts liquidity net) _ h6 in
    let (m, e8, h8) = >>=-eq-ok (compute_posture_metrics _) _ h7 in
    let a = metrics-liquidity _ m e8 in
    let b = (sub_amounts-eq_ok liquidity net neutral e7).0 in
    let c = money-eq_ok item.liquidity liquidity e1 in
    let d = money-eq_ok (net_in nets id) net e6 in
    ap (λ (x : EntityResult). x.metrics.liquidity) (sym (ok_inj h8))
    ∙ a
    ∙ b
    ∙ ap (λ z. z -ℤ net) c
    ∙ ap (λ z. item.liquidity -ℤ z) d

entity_result-liquidity :
    (entities : List EntityPosture) (nets : Nets) (id : String) (e : EntityResult)
    → entity_result entities nets id ≡ ok e
    → e.metrics.liquidity ≡ liquidity_of entities id -ℤ net_in nets id
unfolding entity_result
entity_result-liquidity entities nets id e h =
    let (item, q, h0) = >>=-eq-ok (input_of entities id) _ h in
    item_result-liquidity nets id item e h0
    ∙ ap (λ z. z -ℤ net_in nets id) (sym (ap liquidity_in q))

add_entity-liquidity :
    (t next : Totals) (e : EntityResult)
    → add_entity t e ≡ ok next
    → next.liquidity ≡ t.liquidity +ℤ e.metrics.liquidity
unfolding add_entity
add_entity-liquidity t next e h =
    let (a, e1, h1) = >>=-eq-ok (add_amounts t.liquidity e.metrics.liquidity) _ h in
    let (b, e2, h2) = >>=-eq-ok (add_amounts t.fixed_burn e.metrics.fixed_burn) _ h1 in
    let (c, e3, h3) = >>=-eq-ok (add_amounts t.variable_burn e.metrics.variable_burn) _ h2 in
    let (d, e4, h4) = >>=-eq-ok (add_amounts t.minimum_reserve e.minimum_reserve) _ h3 in
    let (f, e5, h5) =
      >>=-eq-ok (add_amounts t.volatility_buffer e.metrics.volatility_buffer) _ h4 in
    ap (λ (x : Totals). x.liquidity) (sym (ok_inj h5))
    ∙ (add_amounts-eq_ok t.liquidity e.metrics.liquidity a e1).0

regroup : (t l n s m : ℤ) → t +ℤ (l -ℤ n) +ℤ (s -ℤ m) ≡ t +ℤ (l +ℤ s -ℤ (n +ℤ m))
regroup t l n s m = omega (int_laws, -ℤ_parts)

-- What the loop adds up: the given liquidity less the nets.
add_entities-liquidity :
    (entities : List EntityPosture) (nets : Nets) (ids : List String) (t : Totals)
    (out : Totals × List EntityResult)
    → add_entities entities nets ids t ≡ ok out
    → out.0.liquidity
      ≡ t.liquidity +ℤ (sum_over (liquidity_of entities) ids -ℤ sum_over (net_in nets) ids)
unfolding add_entities
add_entities-liquidity entities nets [] t out h =
    ap (λ (o : Totals × List EntityResult). o.0.liquidity) (sym (ok_inj h)) ∙ omega int_laws
add_entities-liquidity entities nets (id ∷ ids) t out h =
    let (e, e1, h1) = >>=-eq-ok (entity_result entities nets id) _ h in
    let (next, e2, h2) = >>=-eq-ok (add_entity t e) _ h1 in
    let (rest, e3, h3) = >>=-eq-ok (add_entities entities nets ids next) _ h2 in
    let a = entity_result-liquidity entities nets id e e1 in
    let b = add_entity-liquidity t next e e2 in
    let c = add_entities-liquidity entities nets ids next rest e3 in
    ap (λ (o : Totals × List EntityResult). o.0.liquidity) (sym (ok_inj h3))
    ∙ c
    ∙ ap (λ z. z +ℤ (sum_over (liquidity_of entities) ids -ℤ sum_over (net_in nets) ids))
        (b ∙ ap (λ z. t.liquidity +ℤ z) a)
    ∙ regroup t.liquidity (liquidity_of entities id) (net_in nets id)
        (sum_over (liquidity_of entities) ids) (sum_over (net_in nets) ids)

-- entities that are not the first of the nets
sum_over-skip :
    (k : String) (v : ℤ) (ns : Nets) (ids : List String)
    → All (λ id. k ≢ id) ids
    → sum_over (net_in ((k, v) ∷ ns)) ids ≡ sum_over (net_in ns) ids
unfolding get_net
sum_over-skip k v ns [] h = refl
sum_over-skip k v ns (id ∷ ids) h = elim (Bool-cases (str_eq k id)) [
  | inl e ↦ absurd (h.0 ((eq_iff k id).0 e))
  | inr e ↦ rw e (ap (λ z. net_in ns id +ℤ z) (sum_over-skip k v ns ids h.1))
]

-- the nets of all entities
sum_over-nets :
    (nets : Nets) → Distinct (λ s. s) (keys nets) → sum_over (net_in nets) (keys nets) ≡ total nets
unfolding get_net
sum_over-nets [] d = refl
sum_over-nets (n ∷ ns) d =
    rw (eq_refl n.0)
      (ap (λ z. n.1 +ℤ z) (sum_over-skip n.0 n.1 ns (keys ns) d.0 ∙ sum_over-nets ns d.1))

unique-Distinct : (xs : List String) → unique xs ≡ true → Distinct (λ s. s) xs
unfolding unique
unique-Distinct [] h = tt
unique-Distinct (x ∷ xs) h =
    let absent : is_in x xs ≡ false = ground arith in
    let rest : unique xs ≡ true = ground arith in (not_in xs absent, unique-Distinct xs rest)
  where
    not_in : (ys : List String) → is_in x ys ≡ false → All (λ y. x ≢ y) ys
    not_in [] k = tt
    not_in (y ∷ ys) k =
        let differs : str_eq x y ≡ false = ground arith in
        let rest : is_in x ys ≡ false = ground arith in
        ((λ e. let same = (eq_iff x y).1 e in cc), not_in ys rest)

All-insert_by :
    (P : String → Type 0) (le : String → String → Bool) (x : String) (ys : List String)
    → P x
    → All P ys
    → All P (insert_by le x ys)
All-insert_by P le x [] h k = (h, tt)
All-insert_by P le x (y ∷ ys) h k =
    let rest = All-insert_by P le x ys h k.1 in
    elim (Bool-cases (le x y)) [
      | inl e ↦ rw (insert_by, e) (h, k)
      | inr e ↦ rw (insert_by, e) (k.0, rest)
    ]

Distinct-insert_by :
    (le : String → String → Bool) (x : String) (ys : List String)
    → All (λ y. x ≢ y) ys
    → Distinct (λ s. s) ys
    → Distinct (λ s. s) (insert_by le x ys)
Distinct-insert_by le x [] h d = (tt, tt)
Distinct-insert_by le x (y ∷ ys) h d =
    let rest = Distinct-insert_by le x ys h.1 d.1 in
    elim (Bool-cases (le x y)) [
      | inl e ↦ rw (insert_by, e) (h, d)
      | inr e ↦ rw (insert_by, e) (All-insert_by (λ z. y ≢ z) le x ys (λ q. h.0 (sym q)) d.0, rest)
    ]

All-sort_by :
    (P : String → Type 0) (le : String → String → Bool) (xs : List String)
    → All P xs
    → All P (sort_by le xs)
unfolding sort_by
All-sort_by P le [] h = tt
All-sort_by P le (x ∷ xs) h = All-insert_by P le x (sort_by le xs) h.0 (All-sort_by P le xs h.1)

Distinct-sort_by :
    (le : String → String → Bool) (xs : List String)
    → Distinct (λ s. s) xs
    → Distinct (λ s. s) (sort_by le xs)
unfolding sort_by
Distinct-sort_by le [] d = tt
Distinct-sort_by le (x ∷ xs) d =
    Distinct-insert_by le x (sort_by le xs) (All-sort_by _ le xs d.0) (Distinct-sort_by le xs d.1)

keys-start_nets : (ids : List String) → keys (start_nets ids) ≡ ids
keys-start_nets [] = refl
keys-start_nets (id ∷ ids) = ap (λ ks. id ∷ ks) (keys-start_nets ids)

total-start_nets : (ids : List String) → total (start_nets ids) ≡ pos 0
total-start_nets [] = refl
total-start_nets (id ∷ ids) = zero-add_ℤ (total (start_nets ids)) ∙ total-start_nets ids

guard-eq_ok : (b : Bool) (e : Error) {u : Unit {0}} → guard b e ≡ ok u → b ≡ true
guard-eq_ok true e h = refl
guard-eq_ok false e h = cc

-- what the validator establishes
validate_selection-eq_ok :
    (payload : ConsolidatedPayload)
    → validate_selection payload ≡ ok tt
    → Distinct (λ s. s) payload.entity_ids
      × (check_groups (sorted_groups payload.inter_entity_transfers) ≡ ok tt)
unfolding validate_selection
validate_selection-eq_ok payload h =
    let (u1, once, h1) = >>=-eq-ok (guard (unique payload.entity_ids) _) _ h in
    let given = map (λ (e : EntityPosture). e.entity_id) payload.entities in
    let (u2, e2, h2) =
      >>=-eq-ok (guard (unique given) (Error.value "entities must contain unique entity_id values"))
        _ h1 in
    let (u3, e3, h3) =
      >>=-eq-ok
        (guard
          (all (λ x. is_in x payload.entity_ids) given
            && all (λ x. is_in x given) payload.entity_ids)
          (Error.value "entities must exactly match entity_ids"))
        _ h2 in
    let (u4, e4, h4) =
      >>=-eq-ok (check_entities payload.entity_ids payload.inter_entity_transfers) _ h3 in
    (unique-Distinct payload.entity_ids (guard-eq_ok _ _ once), h4)

-- The liquidity of a consolidated posture is exactly the sum of the liquidities that the selected
-- entities were given with, whatever they transfer to one another, if the payload is valid.
pub compute_consolidated_posture-liquidity :
    (payload : ConsolidatedPayload) (c : ConsolidatedPosture)
    → validate_selection payload ≡ ok tt
    → compute_consolidated_posture payload ≡ ok c
    → c.metrics.liquidity ≡ sum_over (liquidity_of payload.entities) payload.entity_ids
unfolding compute_consolidated_posture sorted_ids
compute_consolidated_posture-liquidity payload c valid h =
    let ids = sorted_ids payload in
    let (distinct, checked) = validate_selection-eq_ok payload valid in
    let (nets, e1, h1) =
      >>=-eq-ok (apply_groups (sorted_groups payload.inter_entity_transfers) (start_nets ids)) _
        h in
    let (sums, e2, h2) = >>=-eq-ok (add_entities payload.entities nets.0 ids no_totals) _ h1 in
    let (m, e3, h3) = >>=-eq-ok (compute_posture_metrics _) _ h2 in
    let moves =
      apply_groups-cancel (sorted_groups payload.inter_entity_transfers) (start_nets ids) nets
        checked e1 in
    let same_keys : keys nets.0 ≡ ids = moves.1 ∙ keys-start_nets ids in
    let none_left : total nets.0 ≡ pos 0 =
      moves.0 ∙ add-zero_ℤ (total (start_nets ids)) ∙ total-start_nets ids in
    let all_nets =
      sum_over-nets nets.0 (rw same_keys (Distinct-sort_by _ payload.entity_ids distinct)) in
    let nothing : sum_over (net_in nets.0) ids ≡ pos 0 =
      ap (sum_over (net_in nets.0)) (sym same_keys) ∙ all_nets ∙ none_left in
    ap (λ (x : ConsolidatedPosture). x.metrics.liquidity) (sym (ok_inj h3))
    ∙ metrics-liquidity _ m e3
    ∙ add_entities-liquidity payload.entities nets.0 ids no_totals sums e2
    ∙ ap (λ z. pos 0 +ℤ (sum_over (liquidity_of payload.entities) ids -ℤ z)) nothing
    ∙ plain (sum_over (liquidity_of payload.entities) ids)
    ∙ sum_over-sort_by (liquidity_of payload.entities) _ payload.entity_ids
  where
    plain : (z : ℤ) → pos 0 +ℤ (z -ℤ pos 0) ≡ z
    plain z = omega (int_laws, -ℤ_parts)

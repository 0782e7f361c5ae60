-- ===== src/Posture/Transfers.antt =====
-- Transfers between the selected entities cancel in the consolidated posture.
use capital_os.Base.{
  ◌≡◌, refl, sym, ap, ◌∙◌, inl, inr, String, str_eq, Bool, true, false, not, ◌&&◌, Option, none,
  some, List, [], ◌∷◌, map, arith, Bool-cases,
}
use capital_os.Int.{ℤ, pos, ◌+ℤ◌, ◌-ℤ◌, eqb_ℤ, int_laws, +ℤ_cancel, +ℤ_shift, +ℤ_assoc, add-zero_ℤ}
use capital_os.Exec.{Error, Result, ok, err, guard, >>=-eq-ok, ok_inj}
use capital_os.Money.Balance.{normalize_amount_idem, quantize_units-eq_ok}
use capital_os.Money.Sums.{add_amounts-eq_ok, sub_amounts-eq_ok}
use capital_os.Posture.Consolidation.{
  Direction, inbound, outbound, TransferLeg, TransferPair, Groups, check_legs, check_groups,
  same_direction, Nets, get_net, set_net, money, move_net, lookup_net, apply_leg, apply_legs,
  apply_groups, pair_of,
}

abbrev pub total : Nets → ℤ
total [] = pos 0
total (n ∷ ns) = n.1 +ℤ total ns

abbrev pub keys : Nets → List String
keys nets = map (λ (n : String × ℤ). n.0) nets

-- what a leg adds to the net of its entity
abbrev pub signed : TransferLeg → ℤ
signed leg = elim leg.direction [ inbound ↦ leg.amount | outbound ↦ pos 0 -ℤ leg.amount ]

pub money-eq_ok : (z w : ℤ) → money z ≡ ok w → w ≡ z
money-eq_ok z w h = (quantize_units-eq_ok z w (sym (normalize_amount_idem z) ∙ h)).0

total-set_net :
    (e : String) (v old : ℤ) (nets : Nets)
    → get_net e nets ≡ some old
    → total (set_net e v nets) +ℤ old ≡ total nets +ℤ v
unfolding get_net set_net
total-set_net e v old [] h = absurd (cc)
total-set_net e v old (n ∷ ns) h = elim (Bool-cases (str_eq n.0 e)) [
  | inl here ↦
      let taken : some n.1 ≡ some old = rw (get_net, here) at h in
      let same : n.1 ≡ old = cc in rw (here, same) (omega int_laws)
  | inr there ↦
      let rest = total-set_net e v old ns (rw (get_net, there) at h) in
      rw there (+ℤ_shift n.1 (total (set_net e v ns)) old (total ns) v rest)
]

keys-set_net : (e : String) (v : ℤ) (nets : Nets) → keys (set_net e v nets) ≡ keys nets
unfolding set_net
keys-set_net e v [] = refl
keys-set_net e v (n ∷ ns) = elim (Bool-cases (str_eq n.0 e)) [
  | inl here ↦ rw here refl
  | inr there ↦ rw there (ap (λ ks. n.0 ∷ ks) (keys-set_net e v ns))
]

-- a change of the nets that adds `d` in all and keeps the entities
abbrev Moves : Nets → ℤ → Nets → Type 0
Moves nets d next = (total next ≡ total nets +ℤ d) × (keys next ≡ keys nets)

move_net-eq_ok :
    (leg : TransferLeg) (net moved : ℤ)
    → move_net leg.direction net leg.amount ≡ ok moved
    → moved ≡ net +ℤ signed leg
unfolding move_net
move_net-eq_ok leg net moved h = go leg.direction h
  where
    go :
        (d : Direction)
        → move_net d net leg.amount ≡ ok moved
        → moved ≡ net +ℤ (elim d [ inbound ↦ leg.amount | outbound ↦ pos 0 -ℤ leg.amount ])
    go inbound k = (add_amounts-eq_ok net leg.amount moved k).0
    go outbound k = let e = (sub_amounts-eq_ok net leg.amount moved k).0 in e ∙ omega int_laws

apply_leg-Moves :
    (leg : TransferLeg) (nets next : Nets)
    → apply_leg leg nets ≡ ok next
    → Moves nets (signed leg) next
unfolding apply_leg lookup_net
apply_leg-Moves leg nets next h =
    let (amount, e1, h1) = >>=-eq-ok (money leg.amount) _ h in
    let (net, e2, h2) = >>=-eq-ok (lookup_net leg.entity_id nets) _ h1 in
    let (moved, e3, h3) = >>=-eq-ok (move_net leg.direction net amount) _ h2 in
    let same = money-eq_ok leg.amount amount e1 in
    let change = move_net-eq_ok leg net moved (rw same at e3) in
    let there : get_net leg.entity_id nets ≡ some net = found (get_net leg.entity_id nets) e2 in
    let balance = total-set_net leg.entity_id moved net nets there in
    let balance' : total (set_net leg.entity_id moved nets) +ℤ net
        ≡ total nets +ℤ (net +ℤ signed leg) =
      balance ∙ ap (λ m. total nets +ℤ m) change in
    rw (← ok_inj h3) (
      +ℤ_cancel (total (set_net leg.entity_id moved nets)) net (total nets) (signed leg) balance',
      keys-set_net leg.entity_id moved nets,
    )
  where
    found :
        (o : Option ℤ) {net : ℤ}
        → (let r : Result ℤ = elim o [ none ↦ err (Error.key leg.entity_id) | some v ↦ ok v ] in r)
          ≡ ok net
        → o ≡ some net
    found none k = absurd (cc)
    found (some v) k = ap (λ (x : ℤ). some x) (ok_inj k)

guard-eq_ok : (b : Bool) (e : Error) {u : Unit {0}} → guard b e ≡ ok u → b ≡ true
guard-eq_ok true e h = refl
guard-eq_ok false e h = cc

cancel :
    (x y : TransferLeg)
    → not (same_direction x.direction y.direction) ≡ true
    → eqb_ℤ x.amount y.amount ≡ true
    → signed x +ℤ signed y ≡ pos 0
cancel x y opposed amounts = go x.direction y.direction opposed
  where
    equal : x.amount ≡ y.amount
    equal = ground arith

    go :
        (d e : Direction)
        → not (same_direction d e) ≡ true
        → (elim d [ inbound ↦ x.amount | outbound ↦ pos 0 -ℤ x.amount ])
            +ℤ (elim e [ inbound ↦ y.amount | outbound ↦ pos 0 -ℤ y.amount ])
          ≡ pos 0
    go inbound inbound h = absurd (cc)
    go inbound outbound h = rw equal (omega int_laws)
    go outbound inbound h = rw equal (omega int_laws)
    go outbound outbound h = absurd (cc)

cancelled : (t x y t' t'' : ℤ) → t' ≡ t +ℤ x → t'' ≡ t' +ℤ y → x +ℤ y ≡ pos 0 → t'' ≡ t +ℤ pos 0
cancelled t x y t' t'' a b c = b ∙ ap (λ z. z +ℤ y) a ∙ +ℤ_assoc t x y ∙ ap (λ z. t +ℤ z) c

-- the legs of a transfer that passes the check cancel
check_legs-cancel :
    (legs : List TransferLeg) (nets next : Nets)
    → check_legs legs ≡ ok tt
    → apply_legs legs nets ≡ ok next
    → Moves nets (pos 0) next
unfolding check_legs apply_legs
check_legs-cancel [] nets next h k = absurd (cc)
check_legs-cancel (x ∷ []) nets next h k = absurd (cc)
check_legs-cancel (x ∷ y ∷ z ∷ zs) nets next h k = absurd (cc)
check_legs-cancel (x ∷ y ∷ []) nets next h k =
    let (u, opposed, h1) = >>=-eq-ok (guard (not (same_direction x.direction y.direction)) _) _ h in
    let (u', mirrored, amounts) =
      >>=-eq-ok
        (guard
          (str_eq x.entity_id y.counterparty_entity_id
            && str_eq y.entity_id x.counterparty_entity_id)
          _)
        _ h1 in
    let (n1, e1, k1) = >>=-eq-ok (apply_leg x nets) _ k in
    let (n2, e2, k2) = >>=-eq-ok (apply_leg y n1) _ k1 in
    let last : n2 ≡ next = ok_inj k2 in
    let a = apply_leg-Moves x nets n1 e1 in
    let b = apply_leg-Moves y n1 n2 e2 in
    let c = cancel x y (guard-eq_ok _ _ opposed) (guard-eq_ok _ _ amounts) in
    rw (← last)
      (cancelled (total nets) (signed x) (signed y) (total n1) (total n2) a.0 b.0 c, b.1 ∙ a.1)

pub apply_groups-cancel :
    (gs : Groups) (nets : Nets) (out : Nets × List TransferPair)
    → check_groups gs ≡ ok tt
    → apply_groups gs nets ≡ ok out
    → Moves nets (pos 0) out.0
unfolding check_groups apply_groups
apply_groups-cancel [] nets out h k =
    let same : nets ≡ out.0 = ap (λ (o : Nets × List TransferPair). o.0) (ok_inj k) in
    rw (← same) (sym (add-zero_ℤ (total nets)), refl)
apply_groups-cancel (g ∷ gs) nets out h k =
    let (u, first, h1) = >>=-eq-ok (check_legs g.1) _ h in
    let (next, e1, k1) = >>=-eq-ok (apply_legs g.1 nets) _ k in
    let (pair, e2, k2) = >>=-eq-ok (pair_of g.0 g.1) _ k1 in
    let (rest, e3, k3) = >>=-eq-ok (apply_groups gs next) _ k2 in
    let a = check_legs-cancel g.1 nets next first e1 in
    let b = apply_groups-cancel gs next rest h1 e3 in
    let same : rest.0 ≡ out.0 = ap (λ (o : Nets × List TransferPair). o.0) (ok_inj k3) in
    rw (← same) (
      cancelled (total nets) (pos 0) (pos 0) (total next) (total rest.0) a.0 b.0
          (add-zero_ℤ (pos 0)),
      b.1 ∙ a.1,
    )

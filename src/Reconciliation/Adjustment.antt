-- ===== src/Reconciliation/Adjustment.antt =====
-- The bundle that a reconciliation suggests.
use capital_os.Base.{
  ◌≡◌, ◌<◌, refl, sym, ap, ◌∙◌, inl, inr, true, false, not, ◌&&◌, Option, none, some, [], ◌∷◌,
  arith, Bool-cases, Option-cases, String,
}
use capital_os.Int.{ℤ, pos, ◌+ℤ◌, ◌-ℤ◌, abs, eqb_ℤ, int_laws}
use capital_os.Exec.{ok, ◌>>=◌, >>=-eq-ok, ok_inj}
use capital_os.Calendar.{Date}
use capital_os.Money.{
  Posting, context_limit, normalize_amount, sub_amounts, ensure_balanced, sum_amounts,
}
use capital_os.Money.Balance.{
  normalize_amount_idem, quantize_units-eq_ok, quantize_units_in_context, add_context_exact,
}
use capital_os.Money.Sums.{sub_amounts-eq_ok}
use capital_os.Store.{Database}
use capital_os.Query.Lists.{Outside, column_amount}
use capital_os.Balances.{
  SourcePolicy, BalanceContext, optional_amount, fetch_account_balance_context,
}
use capital_os.Reconciliation.{
  ReconcilePayload, AdjustmentBundle, Reconciled, suggested_adjustment_bundle, may_suggest, suggest,
  delta_of, reconcile_context, reconcile_account,
}

-- The bundle moves `delta` to the account, and takes it from one other posting.
pub record Moves (account_id : String) (delta : ℤ) (b : AdjustmentBundle) : Type 0 where
  pub first : Posting
  pub second : Posting
  pub both : b.postings ≡ first ∷ second ∷ []
  pub account : first.account_id ≡ account_id
  pub gives : first.amount ≡ record { coef = delta; places = 4 }
  pub takes : second.amount ≡ record { coef = pos 0 -ℤ delta; places = 4 }

-- What the suggestion `b` of a response is: the ledger with the difference is the snapshot, the
-- first posting gives the account the difference, which is not zero, the second takes it back, and
-- the bundle passes the check that recording it makes.
pub record Closes (payload : ReconcilePayload) (r : Reconciled) (b : AdjustmentBundle)
    : Type 0 where
  pub ledger : ℤ
  pub snapshot : ℤ
  pub delta : ℤ
  pub has_ledger : r.ledger_balance ≡ some ledger
  pub has_snapshot : r.snapshot_balance ≡ some snapshot
  pub has_delta : r.delta ≡ some delta
  pub closes : ledger +ℤ delta ≡ snapshot
  pub differs : eqb_ℤ delta (pos 0) ≡ false
  pub moves : Moves payload.account_id delta b
  pub balanced : ensure_balanced b.postings ≡ ok tt
  pub never_committed : b.auto_commit ≡ false
  pub asked_for : may_suggest payload.method ≡ true

column_amount-eq_ok : (z w : ℤ) → column_amount z ≡ ok w → (w ≡ z) × (abs z < context_limit)
column_amount-eq_ok z w h = quantize_units-eq_ok z w (sym (normalize_amount_idem z) ∙ h)

column_amount_fits : (z : ℤ) → abs z < context_limit → column_amount z ≡ ok z
column_amount_fits z h = normalize_amount_idem z ∙ quantize_units_in_context z h

abs-neg : (d : ℤ) → abs (pos 0 -ℤ d) ≡ abs d
unfolding ◌-ℤ◌
abs-neg d = ground arith

some_inj : {A : Type 0} {a b : A} → some a ≡ some b → a ≡ b
some_inj h = cc

-- A posting and its opposite pass the check, whatever their size.
ensure_balanced_opposite :
    (p q : Posting) (d : ℤ)
    → abs d < context_limit
    → p.amount ≡ record { coef = d; places = 4 }
    → q.amount ≡ record { coef = pos 0 -ℤ d; places = 4 }
    → ensure_balanced (p ∷ q ∷ []) ≡ ok tt
unfolding ensure_balanced sum_amounts
ensure_balanced_opposite p q d fits a b =
    let first : pos 0 +ℤ d ≡ d = omega int_laws in
    let both : d +ℤ (pos 0 -ℤ d) ≡ pos 0 = omega int_laws in
    let fits' : abs (pos 0 -ℤ d) < context_limit = rw (abs-neg d) fits in
    rw
      (
        a,
        b,
        column_amount_fits d fits,
        column_amount_fits (pos 0 -ℤ d) fits',
        add_context_exact (pos 0) d (rw first fits),
        first,
        add_context_exact d (pos 0 -ℤ d) (rw both (omega arith)),
        both,
      )
      refl

delta_of-eq_ok :
    (s : Option ℤ) (l : ℤ) (delta : Option ℤ) (d : ℤ)
    → delta_of s l ≡ ok delta
    → delta ≡ some d
    → (b : ℤ) × (s ≡ some b) × (l +ℤ d ≡ b)
unfolding delta_of
delta_of-eq_ok none l delta d h has = absurd (let gone : none ≡ some d = ok_inj h ∙ has in cc)
delta_of-eq_ok (some b) l delta d h has =
    let (z, e, made) = >>=-eq-ok (sub_amounts b l) _ h in
    let same : z ≡ d = some_inj (ok_inj made ∙ has) in
    let exact : z ≡ b -ℤ l = (sub_amounts-eq_ok b l z e).0 in
    let difference : d ≡ b -ℤ l = sym same ∙ exact in (b, refl, rw difference (omega int_laws))

module _ (outside : Outside) where
  suggested_adjustment_bundle-eq_ok :
      (account_id : String) (as_of : Date) (method : SourcePolicy) (d : ℤ) (b : AdjustmentBundle)
      → suggested_adjustment_bundle outside account_id as_of method d ≡ ok b
      → Moves account_id d b × (ensure_balanced b.postings ≡ ok tt) × (b.auto_commit ≡ false)
  unfolding suggested_adjustment_bundle
  suggested_adjustment_bundle-eq_ok account_id as_of method d b h =
      let (n, e1, h1) = >>=-eq-ok (column_amount d) _ h in
      let (amount, e2, h2) = >>=-eq-ok (column_amount n) _ h1 in
      let (offset, e3, h3) = >>=-eq-ok (column_amount (pos 0 -ℤ n)) _ h2 in
      let (same, fits) = column_amount-eq_ok n amount e2 in
      let (same', fits') = column_amount-eq_ok (pos 0 -ℤ n) offset e3 in
      let normal : n ≡ d = (column_amount-eq_ok d n e1).0 in
      rw (← ok_inj h3) (
        record {
          first = _;
          second = _;
          both = refl;
          account = refl;
          gives = rw (same, normal) refl;
          takes = rw (same', normal) refl;
        },
        ensure_balanced_opposite _ _ n fits (rw same refl) (rw same' refl),
        refl,
      )

  suggest-eq_ok :
      (payload : ReconcilePayload) (delta : Option ℤ) (b : AdjustmentBundle)
      → suggest outside payload delta ≡ ok (some b)
      → (d : ℤ) × (delta ≡ some d)
        × (eqb_ℤ d (pos 0) ≡ false)
        × (may_suggest payload.method ≡ true)
        × Moves payload.account_id d b
        × (ensure_balanced b.postings ≡ ok tt)
        × (b.auto_commit ≡ false)
  unfolding suggest
  suggest-eq_ok payload none b h = absurd (cc)
  suggest-eq_ok payload (some d) b h =
      elim (Bool-cases (may_suggest payload.method && not (eqb_ℤ d (pos 0)))) [
        | inr off ↦ absurd (let gone : none ≡ some b = ok_inj (rw off at h) in cc)
        | inl on ↦
            let k : (suggested_adjustment_bundle outside payload.account_id payload.as_of_date
                    payload.method d
                  >>= λ made. ok (some made))
                ≡ ok (some b) =
              rw on at h in
            let (made, e, h1) =
              >>=-eq-ok
                (suggested_adjustment_bundle outside payload.account_id payload.as_of_date
                  payload.method d)
                _ k in
            let same : made ≡ b = some_inj (ok_inj h1) in
            let (moves, balanced, quiet) =
              suggested_adjustment_bundle-eq_ok payload.account_id payload.as_of_date payload.method
                d made e in
            (
              d,
              refl,
              ground arith,
              ground arith,
              rw (← same) moves,
              rw (← same) balanced,
              rw (← same) quiet,
            )
      ]

  reconcile_context-Closes :
      (payload : ReconcilePayload) (context : BalanceContext) (r : Reconciled)
      (b : AdjustmentBundle)
      → reconcile_context outside payload context ≡ ok r
      → r.suggested_adjustment_bundle ≡ some b
      → Closes payload r b
  unfolding reconcile_context delta_of
  reconcile_context-Closes payload context r b h suggested =
      let (l, e1, h1) = >>=-eq-ok (normalize_amount context.ledger_balance) _ h in
      let (s, e2, h2) = >>=-eq-ok (optional_amount context.snapshot_balance) _ h1 in
      let (delta, e3, h3) = >>=-eq-ok (delta_of s l) _ h2 in
      let (suggestion, e4, h4) = >>=-eq-ok (suggest outside payload delta) _ h3 in
      let same = ok_inj h4 in
      let is_some : suggestion ≡ some b =
        ap (λ (x : Reconciled). x.suggested_adjustment_bundle) same ∙ suggested in
      let (d, has, nonzero, asked, moves, balanced, quiet) =
        suggest-eq_ok payload delta b (e4 ∙ ap ok is_some) in
      let (snapshot, has_snapshot, closes) = delta_of-eq_ok s l delta d e3 has in
      record {
        ledger = l;
        snapshot = snapshot;
        delta = d;
        has_ledger = ap (λ (x : Reconciled). x.ledger_balance) (sym same);
        has_snapshot = ap (λ (x : Reconciled). x.snapshot_balance) (sym same) ∙ has_snapshot;
        has_delta = ap (λ (x : Reconciled). x.delta) (sym same) ∙ has;
        closes = closes;
        differs = nonzero;
        moves = moves;
        balanced = balanced;
        never_committed = quiet;
        asked_for = asked;
      }

  -- Where the reconciliation of an account suggests a bundle, the method takes snapshots into
  -- account, the balance of the ledger with the difference is that of the snapshot, exactly, and the
  -- difference is not zero; the bundle has two postings, of which the first gives the account exactly
  -- the difference and the second its opposite; it is not committed, and it passes the check of a
  -- balanced bundle.
  pub reconcile_account-Closes :
      (payload : ReconcilePayload) (db : Database) (r : Reconciled) (b : AdjustmentBundle)
      → reconcile_account outside payload db ≡ ok r
      → r.suggested_adjustment_bundle ≡ some b
      → Closes payload r b
  unfolding reconcile_account
  reconcile_account-Closes payload db r b h suggested =
      elim (Option-cases
        (fetch_account_balance_context outside payload.account_id payload.as_of_date db)) [
          | inl absent ↦ absurd (
              let same = ok_inj (rw (reconcile_account, absent) at h) in
              let gone : none ≡ some b =
                ap (λ (x : Reconciled). x.suggested_adjustment_bundle) same ∙ suggested in
              cc)
          | inr (context, there) ↦
              reconcile_context-Closes payload context r b (rw (reconcile_account, there) at h)
                suggested
        ]

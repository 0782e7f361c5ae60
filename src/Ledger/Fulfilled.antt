-- ===== src/Ledger/Fulfilled.antt =====
-- An obligation is fulfilled once.
use capital_os.Base.{
  ℕ, ◌≡◌, refl, inl, inr, false, Option, some, ◌∙◌, ap, sym, ◌==◌, find, find-update, eqb_refl,
  Bool-cases,
}
use capital_os.EventLog.{log_event}
use capital_os.Store.{Database, Env, Obligation, FulfillPayload, FulfillResponse}
use capital_os.Store.Keeps.{Returns, Returns-bind, Returns-at, Returns-transaction}
use capital_os.Ledger.Obligations.{
  has_id, mark_fulfilled, fulfill_row, report_fulfillment, fulfill_block, fulfill_obligation,
}

-- The obligation is there, inactive, and fulfilled as the response says.
abbrev DoneAs : ℕ → FulfillResponse → Database → Type 0
DoneAs id r d =
    (o : Obligation) × (find (has_id id) d.obligations ≡ some o)
    × (o.active ≡ false)
    × (o.fulfilled_by_transaction_id ≡ r.fulfilled_by_transaction_id)
    × (o.fulfilled_at ≡ r.fulfilled_at)

-- The row of an obligation.
abbrev pub row_of : ℕ → Database → Option Obligation
row_of id d = find (λ (o : Obligation). o.obligation_id == id) d.obligations

-- The response repeats an earlier one, and no obligation changed.
abbrev pub Repeats : FulfillResponse → Database → FulfillResponse → Database → Type 0
Repeats r d r' d' =
    (r'.status ≡ "already_fulfilled")
    × (r'.fulfilled_by_transaction_id ≡ r.fulfilled_by_transaction_id)
    × (r'.fulfilled_at ≡ r.fulfilled_at)
    × (d'.obligations ≡ d.obligations)

module _ (env : Env) (payload : FulfillPayload) (row : Obligation) where
  fulfill_row-DoneAs :
      (db : Database)
      → find (has_id payload.obligation_id) db.obligations ≡ some row
      → Returns (λ r d. DoneAs payload.obligation_id r d) (fulfill_row env payload row db)
  unfolding fulfill_row mark_fulfilled
  fulfill_row-DoneAs db found = elim (Bool-cases row.active) [
    | inl waits ↦ rw waits (
      _,
      find-update (has_id payload.obligation_id) (has_id row.obligation_id) _ db.obligations row
          (λ o. refl) found (eqb_refl row.obligation_id),
      refl,
      refl,
      refl,
    )
    | inr done ↦ rw done (row, found, done, refl, refl)
  ]

  fulfill_block-DoneAs :
      (db : Database)
      → find (has_id payload.obligation_id) db.obligations ≡ some row
      → Returns (λ r d. DoneAs payload.obligation_id r d) (fulfill_block env payload db)
  unfolding fulfill_block report_fulfillment log_event
  fulfill_block-DoneAs db found = rw found (
      Returns-bind (λ r d. DoneAs payload.obligation_id r d)
        (λ r d. DoneAs payload.obligation_id r d) (fulfill_row env payload row)
        (report_fulfillment env payload) db (fulfill_row-DoneAs db found) λ r d h. h)

-- what is done is reported as done
fulfill_block-Repeats :
    (env : Env) (again : FulfillPayload) (r : FulfillResponse) (d : Database)
    → DoneAs again.obligation_id r d
    → Returns (λ r' d'. Repeats r d r' d') (fulfill_block env again d)
unfolding fulfill_block fulfill_row report_fulfillment log_event
fulfill_block-Repeats env again r d h =
    let (o, found, done, by, at) = h in rw (found, done) (refl, by, at, refl)

-- Fulfilling an obligation that is there returns. In every later state of the database whose row for
-- the obligation is the one that this left, and so until the obligation is written again, a request
-- to fulfill it, whatever transaction and time it names, returns the transaction and the time that
-- the first response gave, as already fulfilled, and changes no obligation.
pub fulfill_obligation-once :
    (env later : Env) (payload again : FulfillPayload) (row : Obligation) (db now : Database)
    → again.obligation_id ≡ payload.obligation_id
    → row_of payload.obligation_id db ≡ some row
    → row_of payload.obligation_id now
      ≡ row_of payload.obligation_id (fulfill_obligation env payload db).1
    → Returns
        (λ r _. Returns (λ r' d'. Repeats r now r' d') (fulfill_obligation later again now))
        (fulfill_obligation env payload db)
unfolding fulfill_obligation
fulfill_obligation-once env later payload again row db now same found unwritten =
    Returns-at (fulfill_obligation env payload db)
      (Returns-transaction _ (fulfill_block env payload) db
        (fulfill_block-DoneAs env payload row db found))
      λ r d is h.
        let left = unwritten ∙ ap (row_of payload.obligation_id) (sym is) ∙ h.1 in
        Returns-transaction _ (fulfill_block later again) now
          (fulfill_block-Repeats later again r now (rw same (h.0, left, h.2, h.3, h.4)))

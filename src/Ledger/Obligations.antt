-- ===== src/Ledger/Obligations.antt =====
-- src/capital_os/domain/ledger/repository.py and service.py: obligations, which are found by their
-- source, name and account, and are fulfilled once.
use capital_os.Base.{
  ℕ, String, str_eq, Bool, false, Option, none, some, ◌&&◌, ◌||◌, not, [], ◌∷◌, ◌++◌, ◌==◌, find,
  update, or_default, if◌then◌else◌,
}
use capital_os.Exec.{Error}
use capital_os.Money.{normalize_amount}
use capital_os.Store.{
  Database, Env, Obligation, ObligationPayload, ObligationResponse, FulfillPayload, FulfillResponse,
  Hashed,
}
use capital_os.Store.Action.{
  Action, pure, raise, raise_if, lift, gets, modify, fresh_id, transaction, match_option, ◌>>=◌,
  ◌>>◌,
}
use capital_os.Ledger.Repository.{entity_exists, account_exists}
use capital_os.EventLog.{log_event, ok_event}

abbrev pub is_obligation_of : ObligationPayload → Obligation → Bool
is_obligation_of payload o =
    str_eq o.source_system payload.source_system
    && (str_eq o.name payload.name && str_eq o.account_id payload.account_id)

unfoldable pub fetch_obligation : ObligationPayload → Database → Option Obligation
fetch_obligation payload db = find (is_obligation_of payload) db.obligations

abbrev is_cadence : String → Bool
is_cadence c = str_eq c "monthly" || (str_eq c "annual" || str_eq c "custom")

-- the constraints of the columns that both statements write
unfoldable pub check_obligation : ObligationPayload → Action (Unit {0})
check_obligation payload = do
  raise_if (not (is_cadence payload.cadence)) (Error.integrity "CHECK constraint failed")
  known ← gets (entity_exists payload.entity_id)
  raise_if (not known) (Error.integrity "FOREIGN KEY constraint failed")

-- what was fulfilled stays recorded, also where the obligation becomes active again
unfoldable pub update_obligation : ObligationPayload → Obligation → Action (ℕ × String × Bool)
update_obligation payload row = do
  expected_amount ← lift (normalize_amount payload.expected_amount)
  check_obligation payload
  modify (λ db. record db {
    obligations =
        update (λ o. o.obligation_id == row.obligation_id)
          (λ o. record o {
            cadence = payload.cadence;
            expected_amount = expected_amount;
            variability_flag = payload.variability_flag;
            next_due_date = payload.next_due_date;
            metadata = payload.metadata;
            entity_id = payload.entity_id;
            active = payload.active;
          })
          db.obligations;
  })
  pure (row.obligation_id, "updated", payload.active)

unfoldable pub insert_obligation : ObligationPayload → Action (ℕ × String × Bool)
insert_obligation payload = do
  obligation_id ← fresh_id
  expected_amount ← lift (normalize_amount payload.expected_amount)
  check_obligation payload
  known ← gets (account_exists payload.account_id)
  raise_if (not known) (Error.integrity "FOREIGN KEY constraint failed")
  modify (λ db. record db {
    obligations =
        db.obligations
        ++ record {
          obligation_id = obligation_id;
          source_system = payload.source_system;
          name = payload.name;
          account_id = payload.account_id;
          cadence = payload.cadence;
          expected_amount = expected_amount;
          variability_flag = payload.variability_flag;
          next_due_date = payload.next_due_date;
          metadata = payload.metadata;
          active = payload.active;
          entity_id = payload.entity_id;
          fulfilled_by_transaction_id = none;
          fulfilled_at = none;
        }
          ∷ [];
  })
  pure (obligation_id, "created", payload.active)

unfoldable pub upsert_obligation : ObligationPayload → Action (ℕ × String × Bool)
upsert_obligation payload = do
  existing ← gets (fetch_obligation payload)
  match_option existing (insert_obligation payload) (update_obligation payload)

abbrev pub has_id : ℕ → Obligation → Bool
has_id n o = o.obligation_id == n

-- what `fulfill_obligation` of the repository returns
abbrev pub fulfillment : String → String → ℕ → Option String → Option String → FulfillResponse
fulfillment correlation_id status obligation_id by at = record {
  status = status;
  obligation_id = obligation_id;
  fulfilled_by_transaction_id = by;
  fulfilled_at = at;
  correlation_id = correlation_id;
  output_hash = none;
}

module _ (env : Env) where
  unfoldable pub report_obligation :
      ObligationPayload → ℕ × String × Bool → Action ObligationResponse
  report_obligation payload (obligation_id, status, active) = do
    let body : ObligationResponse = record {
      status = status;
      obligation_id = obligation_id;
      active = active;
      correlation_id = payload.correlation_id;
      output_hash = none;
    }
    let output_hash = env.payload_hash (Hashed.obligation_response body)
    log_event env (
        ok_event "create_or_update_obligation" payload.correlation_id
          (env.payload_hash (Hashed.obligation payload)) output_hash)
    pure (record body { output_hash = some output_hash })

  unfoldable pub create_or_update_obligation : ObligationPayload → Action ObligationResponse
  create_or_update_obligation payload =
      transaction (do written ← upsert_obligation payload; report_obligation payload written)

  unfoldable pub mark_fulfilled : FulfillPayload → Obligation → Action FulfillResponse
  mark_fulfilled payload row = do
    let at = or_default payload.fulfilled_at env.now
    modify (λ db. record db {
      obligations =
          update (has_id row.obligation_id)
            (λ o. record o {
              active = false;
              fulfilled_by_transaction_id = payload.fulfilled_by_transaction_id;
              fulfilled_at = some at;
            })
            db.obligations;
    })
    pure (
        fulfillment payload.correlation_id "fulfilled" row.obligation_id
          payload.fulfilled_by_transaction_id (some at))

  unfoldable pub fulfill_row : FulfillPayload → Obligation → Action FulfillResponse
  fulfill_row payload row =
      if not row.active
      then pure (
          fulfillment payload.correlation_id "already_fulfilled" row.obligation_id
            row.fulfilled_by_transaction_id row.fulfilled_at)
      else mark_fulfilled payload row

  unfoldable pub report_fulfillment : FulfillPayload → FulfillResponse → Action FulfillResponse
  report_fulfillment payload body = do
    let output_hash = env.payload_hash (Hashed.fulfill_response body)
    log_event env (
        ok_event "fulfill_obligation" payload.correlation_id
          (env.payload_hash (Hashed.fulfill payload)) output_hash)
    pure (record body { output_hash = some output_hash })

  unfoldable pub fulfill_block : FulfillPayload → Action FulfillResponse
  fulfill_block payload = do
    existing ← gets (λ db. find (has_id payload.obligation_id) db.obligations)
    result ←
        match_option existing (raise (Error.value "obligation not found")) (fulfill_row payload)
    report_fulfillment payload result

  unfoldable pub fulfill_obligation : FulfillPayload → Action FulfillResponse
  fulfill_obligation payload = transaction (fulfill_block payload)

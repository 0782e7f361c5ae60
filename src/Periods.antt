-- ===== src/Periods.antt =====
-- src/capital_os/domain/periods/service.py: closing and locking an accounting period, and what a
-- transaction in one may do. A period key is the year and the month.
pub mod Lock
use capital_os.Base.{
  ℕ, String, str_eq, Option, none, some, Bool, true, false, ◌&&◌, not, [], ◌∷◌, ◌++◌, ◌==◌,
  or_default, any, find, update, if◌then◌else◌,
}
use capital_os.Exec.{Error}
use capital_os.Calendar.{Instant}
use capital_os.Store.{
  Database, Env, BundlePayload, Period, PeriodStatus, opened, closed, locked, PeriodPayload,
  PeriodResponse, Hashed, default_entity_id,
}
use capital_os.Store.Action.{
  Action, pure, raise, raise_if, gets, modify, fresh_id, match_option, ◌>>=◌, ◌>>◌,
}
use capital_os.EventLog.{log_event, ok_event}

abbrev pub entity_of : Option String → String
entity_of e = or_default e default_entity_id

-- `%Y-%m` of the UTC date
abbrev pub period_key_for_tx_date : Instant → ℕ × ℕ
period_key_for_tx_date t = (t.date.year, t.date.month)

abbrev pub same_period : ℕ × ℕ → String → Period → Bool
same_period key entity_id p =
    p.period_key.0 == key.0 && p.period_key.1 == key.1 && str_eq p.entity_id entity_id

unfoldable pub fetch_period : ℕ × ℕ → String → Database → Option Period
fetch_period key entity_id db = find (same_period key entity_id) db.periods

-- What the period of a transaction says of it: `true` forces an approval.
unfoldable pub status_constraint : PeriodStatus → BundlePayload → Action Bool
status_constraint opened payload = pure false
status_constraint closed payload =
    if payload.is_adjusting_entry
    then pure true
    else raise (Error.invariant "period_closed_requires_adjusting_entry")
status_constraint locked payload =
    if payload.override_period_lock then pure true else raise (Error.invariant "period_locked")

unfoldable pub period_constraint : Option Period → BundlePayload → Action Bool
period_constraint none payload = pure false
period_constraint (some p) payload = status_constraint p.status payload

unfoldable pub enforce_period_write_constraints : BundlePayload → Action Bool
enforce_period_write_constraints payload = do
  row ← gets (fetch_period (period_key_for_tx_date payload.date) (entity_of payload.entity_id))
  period_constraint row payload

-- `status in {"closed", "locked"}` and `status == "locked"` of the insertion
abbrev pub stamp : Bool → String → Option String
stamp b now = if b then some now else none

abbrev pub is_locked : PeriodStatus → Bool
is_locked locked = true
is_locked _ = false

abbrev pub is_closed : PeriodStatus → Bool
is_closed closed = true
is_closed _ = false

abbrev pub is_open : PeriodStatus → Bool
is_open opened = true
is_open _ = false

abbrev pub status_text : PeriodStatus → String
status_text opened = "open"
status_text closed = "closed"
status_text locked = "locked"

-- the entity that a foreign key names
abbrev pub entity_exists : String → Database → Bool
entity_exists entity_id db = any (str_eq entity_id) db.entities

module _ (env : Env) where
  unfoldable pub insert_period :
      ℕ × ℕ → String → PeriodStatus → Option String → String → Action (Unit {0})
  insert_period key entity_id status actor_id correlation_id = do
    period_id ← fresh_id
    known ← gets (entity_exists entity_id)
    raise_if (not known) (Error.integrity "FOREIGN KEY constraint failed")
    modify (λ db. record db {
      periods =
          db.periods
          ++ record {
            period_id = period_id;
            period_key = key;
            entity_id = entity_id;
            status = status;
            actor_id = actor_id;
            correlation_id = correlation_id;
            closed_at = stamp (not (is_open status)) env.now;
            locked_at = stamp (is_locked status) env.now;
          }
            ∷ [];
    })

  unfoldable pub update_period : Period → PeriodStatus → Option String → String → Action (Unit {0})
  update_period row status actor_id correlation_id = modify (λ db. record db {
    periods =
        update (λ p. p.period_id == row.period_id)
          (λ p. record p {
            status = status;
            actor_id = actor_id;
            correlation_id = correlation_id;
            closed_at = some (or_default row.closed_at env.now);
            locked_at = if is_locked status then some env.now else row.locked_at;
          })
          db.periods;
  })

  -- the row read back, with the result that the response reports
  unfoldable pub refetch : ℕ × ℕ → String → String → String → Action (Period × String)
  refetch key entity_id result message = do
    row ← gets (fetch_period key entity_id)
    match_option row (raise (Error.invariant message)) λ p. pure (p, result)

  unfoldable pub upsert_row :
      Option Period
      → ℕ × ℕ
      → String
      → PeriodStatus
      → Option String
      → String
      → Action (Period × String)
  upsert_row none key entity_id status actor_id correlation_id = do
    insert_period key entity_id status actor_id correlation_id
    refetch key entity_id (status_text status) "failed to persist accounting period"
  upsert_row (some row) key entity_id status actor_id correlation_id =
      if is_locked row.status
      then pure (row, "already_locked")
      else if is_closed status && is_closed row.status
      then pure (row, "already_closed")
      else (do
        update_period row status actor_id correlation_id
        refetch key entity_id (status_text status) "failed to update accounting period")

  unfoldable pub upsert_period_status :
      ℕ × ℕ → String → PeriodStatus → Option String → String → Action (Period × String)
  upsert_period_status key entity_id status actor_id correlation_id = do
    row ← gets (fetch_period key entity_id)
    upsert_row row key entity_id status actor_id correlation_id

  -- the response, logged
  unfoldable pub report_period : String → PeriodPayload → Period × String → Action PeriodResponse
  report_period tool payload (row, result) = do
    let body : PeriodResponse = record {
      status = result;
      period_key = row.period_key;
      entity_id = row.entity_id;
      state = row.status;
      closed_at = row.closed_at;
      locked_at = row.locked_at;
      correlation_id = payload.correlation_id;
      output_hash = none;
    }
    let output_hash = env.payload_hash (Hashed.period_response body)
    log_event env (
        ok_event tool payload.correlation_id (env.payload_hash (Hashed.period payload)) output_hash)
    pure (record body { output_hash = some output_hash })

  -- `close_period` and `lock_period` differ in the status and in the name of the tool.
  unfoldable pub set_period : String → PeriodStatus → PeriodPayload → Action PeriodResponse
  set_period tool status payload = do
    written ←
        upsert_period_status payload.period_key (entity_of payload.entity_id) status
          payload.actor_id payload.correlation_id
    report_period tool payload written

  unfoldable pub close_period : PeriodPayload → Action PeriodResponse
  close_period = set_period "close_period" closed

  unfoldable pub lock_period : PeriodPayload → Action PeriodResponse
  lock_period = set_period "lock_period" locked

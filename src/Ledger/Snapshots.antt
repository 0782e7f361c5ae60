-- ===== src/Ledger/Snapshots.antt =====
-- src/capital_os/domain/ledger/repository.py and service.py: the balance of an account on a date,
-- as a statement says it. A row is found by the account and the date.
use capital_os.Base.{
  ℕ, String, str_eq, Bool, Option, none, some, ◌&&◌, not, [], ◌∷◌, ◌++◌, ◌==◌, find, update,
}
use capital_os.Exec.{Error}
use capital_os.Calendar.{Date, same_date}
use capital_os.Money.{normalize_amount}
use capital_os.Store.{Database, Env, Snapshot, SnapshotPayload, SnapshotResponse, Hashed}
use capital_os.Store.Action.{
  Action, pure, raise_if, lift, gets, modify, fresh_id, transaction, match_option, ◌>>=◌, ◌>>◌,
}
use capital_os.Ledger.Repository.{entity_exists, account_exists}
use capital_os.EventLog.{log_event, ok_event}

abbrev pub is_snapshot_of : String → Date → Snapshot → Bool
is_snapshot_of account_id date s = str_eq s.account_id account_id && same_date s.snapshot_date date

unfoldable pub fetch_snapshot : String → Date → Database → Option Snapshot
fetch_snapshot account_id date db = find (is_snapshot_of account_id date) db.snapshots

-- the constraints of the columns that both statements write
unfoldable pub check_snapshot : SnapshotPayload → Action (Unit {0})
check_snapshot payload = do
  raise_if (not (str_eq payload.currency "USD")) (Error.integrity "CHECK constraint failed")
  known ← gets (entity_exists payload.entity_id)
  raise_if (not known) (Error.integrity "FOREIGN KEY constraint failed")

unfoldable pub update_snapshot : SnapshotPayload → Snapshot → Action (ℕ × String)
update_snapshot payload row = do
  balance ← lift (normalize_amount payload.balance)
  check_snapshot payload
  modify (λ db. record db {
    snapshots =
        update (λ s. s.snapshot_id == row.snapshot_id)
          (λ s. record s {
            balance = balance;
            currency = payload.currency;
            source_artifact_id = payload.source_artifact_id;
            source_system = payload.source_system;
            entity_id = payload.entity_id;
          })
          db.snapshots;
  })
  pure (row.snapshot_id, "updated")

unfoldable pub insert_snapshot : SnapshotPayload → Action (ℕ × String)
insert_snapshot payload = do
  snapshot_id ← fresh_id
  balance ← lift (normalize_amount payload.balance)
  check_snapshot payload
  known ← gets (account_exists payload.account_id)
  raise_if (not known) (Error.integrity "FOREIGN KEY constraint failed")
  modify (λ db. record db {
    snapshots =
        db.snapshots
        ++ record {
          snapshot_id = snapshot_id;
          source_system = payload.source_system;
          account_id = payload.account_id;
          snapshot_date = payload.snapshot_date;
          balance = balance;
          currency = payload.currency;
          source_artifact_id = payload.source_artifact_id;
          entity_id = payload.entity_id;
        }
          ∷ [];
  })
  pure (snapshot_id, "recorded")

unfoldable pub upsert_balance_snapshot : SnapshotPayload → Action (ℕ × String)
upsert_balance_snapshot payload = do
  existing ← gets (fetch_snapshot payload.account_id payload.snapshot_date)
  match_option existing (insert_snapshot payload) (update_snapshot payload)

module _ (env : Env) where
  -- the response, logged
  unfoldable pub report_snapshot : SnapshotPayload → ℕ × String → Action SnapshotResponse
  report_snapshot payload (snapshot_id, status) = do
    let body : SnapshotResponse = record {
      status = status;
      snapshot_id = snapshot_id;
      account_id = payload.account_id;
      snapshot_date = payload.snapshot_date;
      correlation_id = payload.correlation_id;
      output_hash = none;
    }
    let output_hash = env.payload_hash (Hashed.snapshot_response body)
    log_event env (
        ok_event "record_balance_snapshot" payload.correlation_id
          (env.payload_hash (Hashed.snapshot payload)) output_hash)
    pure (record body { output_hash = some output_hash })

  unfoldable pub record_balance_snapshot : SnapshotPayload → Action SnapshotResponse
  record_balance_snapshot payload =
      transaction (do written ← upsert_balance_snapshot payload; report_snapshot payload written)

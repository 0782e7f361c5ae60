-- ===== src/Ledger/Statements.antt =====
-- The snapshots as a map: what is recorded for an account and a date is the balance of that
-- account on that date, and every other balance stays.
mod Lookup
use capital_os.Base.{
  ℕ, suc, ◌≡◌, ◌≢◌, ◌<◌, refl, sym, ap, ◌∙◌, inl, inr, ◌⊎◌, String, str_eq, eq_iff, eq_refl, Bool,
  true, false, ◌&&◌, Option, none, some, List, [], ◌∷◌, ◌++◌, ◌==◌, arith, find, update, All,
  Distinct, find-true, find-update, find-update_other, find-append_none, find-append_other,
  find-Distinct, find-All, Distinct-append, Distinct-update, All-append, All-update, All-map,
  eqb_refl, if◌then◌else◌, Bool-cases, Option-cases,
}
use capital_os.Int.{ℤ}
use capital_os.Exec.{Error, ok}
use capital_os.Calendar.{Date, same_date}
use capital_os.Money.{normalize_amount}
use capital_os.EventLog.{log_event}
use capital_os.Store.{Database, Env, Snapshot, SnapshotPayload}
use capital_os.Store.Action.{match_option}
use capital_os.Store.Keeps.{Returns, Returns-bind, Returns-transaction}
use capital_os.Ledger.Repository.{entity_exists, account_exists}
use capital_os.Ledger.Snapshots.{
  is_snapshot_of, fetch_snapshot, check_snapshot, update_snapshot, insert_snapshot,
  upsert_balance_snapshot, report_snapshot, record_balance_snapshot,
}
use capital_os.Ledger.Statements.Lookup.{balance_of, balance_in-append, balance_in-update, same_key}

-- The balance of an account on a date.
abbrev pub balance_on : String → Date → Database → Option ℤ
balance_on account_id date db = balance_of (fetch_snapshot account_id date db)

-- No two snapshots have the same key, and a new key is that of none.
pub record Keyed (db : Database) : Type 0 where
  pub below : All (λ s. s.snapshot_id < db.next_id) db.snapshots
  pub distinct : Distinct (λ s. s.snapshot_id) db.snapshots

-- What the tables ask of a payload.
pub record Accepted (payload : SnapshotPayload) (balance : ℤ) (db : Database) : Type 0 where
  pub amount : normalize_amount payload.balance ≡ ok balance
  pub currency : str_eq payload.currency "USD" ≡ true
  pub entity : entity_exists payload.entity_id db ≡ true
  pub account : account_exists payload.account_id db ≡ true

-- The table after the call holds `balance` for the payload's key and is as before for every other.
abbrev Recorded : SnapshotPayload → ℤ → String → Date → Database → Database → Type 0
Recorded payload balance account_id date db d =
    Keyed d
    × (balance_on account_id date d ≡ (
        if same_key payload account_id date then some balance else balance_on account_id date db))

module _ (payload : SnapshotPayload) (balance : ℤ) (account_id : String) (date : Date) where
  insert_snapshot-Recorded :
      (db : Database)
      → Keyed db
      → Accepted payload balance db
      → fetch_snapshot payload.account_id payload.snapshot_date db ≡ none
      → Returns (λ _ d. Recorded payload balance account_id date db d) (insert_snapshot payload db)
  unfolding insert_snapshot check_snapshot fetch_snapshot
  insert_snapshot-Recorded db keyed ok_payload absent =
      rw (ok_payload.amount, ok_payload.currency, ok_payload.entity, ok_payload.account)
        (
          record {
            below =
                All-append _ db.snapshots _
                  (All-map _ _ (λ s h. omega arith) db.snapshots keyed.below) (omega arith, tt);
            distinct =
                Distinct-append _ db.snapshots _ keyed.distinct
                  (All-map _ _ (λ s h e. omega arith) db.snapshots keyed.below);
          },
          balance_in-append payload account_id date db.snapshots _ refl refl absent,
        )

  update_snapshot-Recorded :
      (db : Database) (row : Snapshot)
      → Keyed db
      → Accepted payload balance db
      → fetch_snapshot payload.account_id payload.snapshot_date db ≡ some row
      → Returns
          (λ _ d. Recorded payload balance account_id date db d)
          (update_snapshot payload row db)
  unfolding update_snapshot check_snapshot fetch_snapshot
  update_snapshot-Recorded db row keyed ok_payload present =
      rw (ok_payload.amount, ok_payload.currency, ok_payload.entity)
        (
          record {
            below = All-update _ _ _ (λ s h. h) db.snapshots keyed.below;
            distinct = Distinct-update _ _ _ (λ s. refl) db.snapshots keyed.distinct;
          },
          balance_in-update payload account_id date db.snapshots row _ balance keyed.distinct
              present (λ s. refl) (λ s. refl) (λ s. refl),
        )

  report_snapshot-Recorded :
      (env : Env) (written : ℕ × String) (db d : Database)
      → Recorded payload balance account_id date db d
      → Returns
          (λ _ d'. Recorded payload balance account_id date db d')
          (report_snapshot env payload written d)
  unfolding report_snapshot log_event fetch_snapshot
  report_snapshot-Recorded env (snapshot_id, status) db d h = (
    record {
      below = All-map _ _ (λ s k. omega arith) d.snapshots h.0.below;
      distinct = h.0.distinct;
    },
    h.1,
  )

  -- Recording a snapshot that the tables accept returns. Then the account has that balance on that
  -- date, the balance of every account on every other date is as it was, and the keys of the
  -- snapshots are still distinct and used up.
  pub record_balance_snapshot-Recorded :
      (env : Env) (db : Database)
      → Keyed db
      → Accepted payload balance db
      → Returns
          (λ _ d.
            Keyed d
            × (balance_on account_id date d ≡ (
                if str_eq payload.account_id account_id && same_date payload.snapshot_date date
                then some balance
                else balance_on account_id date db)))
          (record_balance_snapshot env payload db)
  unfolding record_balance_snapshot upsert_balance_snapshot
  record_balance_snapshot-Recorded env db keyed ok_payload = Returns-transaction _ _ db (
      Returns-bind (λ _ d. Recorded payload balance account_id date db d)
        (λ _ d. Recorded payload balance account_id date db d) (upsert_balance_snapshot payload)
        (report_snapshot env payload) db
        (upserted (fetch_snapshot payload.account_id payload.snapshot_date db) refl)
        λ written d h. report_snapshot-Recorded env written db d h)
    where
      upserted :
          (existing : Option Snapshot)
          → fetch_snapshot payload.account_id payload.snapshot_date db ≡ existing
          → Returns
              (λ _ d. Recorded payload balance account_id date db d)
              (match_option existing (insert_snapshot payload) (update_snapshot payload) db)
      upserted none e = insert_snapshot-Recorded db keyed ok_payload e
      upserted (some row) e = update_snapshot-Recorded db row keyed ok_payload e

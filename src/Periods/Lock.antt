-- ===== src/Periods/Lock.antt =====
-- A period that was locked refuses bundles.
use capital_os.Base.{ℕ, ◌≡◌, String, Option, some}
use capital_os.Store.{Database, Env, Period, locked}
use capital_os.Periods.{fetch_period}

-- The period is there, and locked.
abbrev LockedIn : ℕ × ℕ → String → Database → Type 0
LockedIn key entity db = (p : Period) × (fetch_period key entity db ≡ some p) × (p.status ≡ locked)

module _ (env : Env) (key : ℕ × ℕ) (entity : String) where
  -- the row that locking a period without a row makes
  abbrev made : Option String → String → ℕ → Period
  made actor c id = record {
    period_id = id;
    period_key = key;
    entity_id = entity;
    status = locked;
    actor_id = actor;
    correlation_id = c;
    closed_at = some env.now;
    locked_at = some env.now;
  }

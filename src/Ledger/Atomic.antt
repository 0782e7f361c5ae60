-- ===== src/Ledger/Atomic.antt =====
-- A refused bundle leaves no trace.
use capital_os.Base.{◌≡◌, String}
use capital_os.Exec.{Error, err}
use capital_os.Money.{ensure_balanced, transaction_impact_amount}
use capital_os.Store.{Database, Env, BundlePayload}
use capital_os.Store.Atomic.{Atomic, Atomic-transaction, Atomic-on_integrity_error, Atomic-lift}
use capital_os.Ledger.Service.{record_checked, record_transaction_bundle}

record_checked-Atomic :
    (env : Env) (payload : BundlePayload) (h : String) → Atomic (record_checked env payload h)
unfolding record_checked
record_checked-Atomic env payload h =
    Atomic-lift (transaction_impact_amount payload.postings) _
      λ impact. Atomic-on_integrity_error _ _ (Atomic-transaction _) (λ e. Atomic-transaction _)

-- A bundle that is refused, by whatever check or constraint, leaves every table as it was.
pub record_transaction_bundle-Atomic :
    (env : Env) (payload : BundlePayload) (db : Database) (e : Error)
    → (record_transaction_bundle env payload db).0 ≡ err e
    → (record_transaction_bundle env payload db).1 ≡ db
unfolding record_transaction_bundle
record_transaction_bundle-Atomic env payload db e h =
    let whole : Atomic (record_transaction_bundle env payload) = Atomic-lift _ _ λ _.
      Atomic-lift (ensure_balanced payload.postings) _ λ _. record_checked-Atomic env payload _ in
    whole.at db e h

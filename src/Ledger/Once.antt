-- ===== src/Ledger/Once.antt =====
-- A bundle that was recorded is answered again as it was answered first.
use capital_os.Base.{String, ◌≡◌, refl, some}
use capital_os.Exec.{Error, Result, ok, err}
use capital_os.Store.{Database, Env, BundlePayload, Response, Hashed, idempotent_replay}
use capital_os.Store.Action.{Action, transaction, on_integrity_error}
use capital_os.Store.Keeps.{Post, Returns, Returns-transaction}
use capital_os.EventLog.{log_event}
use capital_os.Ledger.Repository.{resolve_transaction_idempotency}
use capital_os.Ledger.Service.{
  replay_bundle, record_block, record_checked, record_transaction_bundle,
}
use capital_os.Ledger.Resolved.{Answers}
use capital_os.Ledger.Told.{Told, record_checked-Told, Passed, record_transaction_bundle-Passed}

Returns-on_integrity_error :
    {A : Type 0} (Q : A → Database → Type 0) (m : Action A) (handler : Error → Action A)
    (db : Database)
    → Returns Q (m db)
    → Returns Q (on_integrity_error m handler db)
unfolding on_integrity_error
Returns-on_integrity_error {A} Q m handler db q = go (m db).0 (m db).1 q
  where
    go :
        (r : Result A) (d : Database)
        → Returns Q (r, d)
        → Returns Q (on_integrity_error (λ _. (r, d)) handler db)
    go (ok a) d q = q
    go (err e) d q = absurd q

Post-at :
    {A : Type 0} (Q : A → Database → Type 0) (x : Result A × Database) (a : A)
    → Post Q x
    → x.0 ≡ ok a
    → Q a x.1
Post-at Q (ok b, d) a q h = let same : b ≡ a = cc in rw (← same) q
Post-at Q (err e, d) a q h = absurd (cc)

-- The response is the first one again, as a replay, and nothing was written but the log.
abbrev pub Repeated : Response → Database → Response → Database → Type 0
Repeated r now r' d =
    (r'.status ≡ idempotent_replay)
    × (r'.transaction_id ≡ r.transaction_id)
    × (r'.posting_ids ≡ r.posting_ids)
    × (r'.output_hash ≡ r.output_hash)
    × (d.transactions ≡ now.transactions)
    × (d.postings ≡ now.postings)
    × (d.proposals ≡ now.proposals)
    × (d.decisions ≡ now.decisions)

module _ (later : Env) (payload : BundlePayload) (now : Database) (r a : Response) where
  replay_bundle-Repeated :
      (h : String)
      → Answers payload.source_system payload.external_id later.payload_hash r a
      → Returns (Repeated r now) (replay_bundle later payload h a now)
  unfolding replay_bundle log_event
  replay_bundle-Repeated h (replays, tx, postings, hash) =
      (replays, tx, postings, hash, refl, refl, refl, refl)

  record_transaction_bundle-Repeated :
      Passed payload
      → resolve_transaction_idempotency payload.source_system payload.external_id now ≡ some a
      → Answers payload.source_system payload.external_id later.payload_hash r a
      → Returns (Repeated r now) (record_transaction_bundle later payload now)
  unfolding record_transaction_bundle record_checked record_block
  record_transaction_bundle-Repeated passed found answers =
      let h = later.payload_hash (Hashed.bundle payload) in
      rw (passed.dollars, passed.balanced, passed.fits)
        (Returns-on_integrity_error (Repeated r now)
          (transaction (record_block later payload h passed.impact)) _ now
          (Returns-transaction (Repeated r now) (record_block later payload h passed.impact) now
            (rw found (replay_bundle-Repeated h answers))))

record_transaction_bundle-Told :
    (env : Env) (payload : BundlePayload) (db : Database) (r : Response)
    → (record_transaction_bundle env payload db).0 ≡ ok r
    → Told env payload
        (env.payload_hash (Hashed.bundle payload))
        r
        (record_transaction_bundle env payload db).1
unfolding record_transaction_bundle
record_transaction_bundle-Told env payload db r answered =
    let h = env.payload_hash (Hashed.bundle payload) in
    let passed = record_transaction_bundle-Passed env payload db r answered in
    let told : Post (Told env payload h) (record_transaction_bundle env payload db) =
      rw (passed.dollars, passed.balanced) (record_checked-Told env payload h db) in
    Post-at (Told env payload h) (record_transaction_bundle env payload db) r told answered

-- Where recording a bundle answered `r` and its key resolves to a stored response afterwards, then in
-- every state in which the key resolves to that response, recording the bundle again returns: it
-- answers the transaction, the postings and the hash of `r` as a replay, and writes no transaction,
-- posting, proposal or decision. The hash of a payload is the same function at both times.
pub record_transaction_bundle-once :
    (env later : Env) (payload : BundlePayload) (db now : Database) (r a : Response)
    → later.payload_hash ≡ env.payload_hash
    → (record_transaction_bundle env payload db).0 ≡ ok r
    → resolve_transaction_idempotency payload.source_system payload.external_id
        (record_transaction_bundle env payload db).1
      ≡ some a
    → resolve_transaction_idempotency payload.source_system payload.external_id now ≡ some a
    → Returns (Repeated r now) (record_transaction_bundle later payload now)
record_transaction_bundle-once env later payload db now r a same answered stored found =
    let passed = record_transaction_bundle-Passed env payload db r answered in
    let answers = record_transaction_bundle-Told env payload db r answered a stored in
    record_transaction_bundle-Repeated later payload now r a passed found (rw same answers)

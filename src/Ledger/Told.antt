-- ===== src/Ledger/Told.antt =====
-- What the answer of `record_transaction_bundle` (src/capital_os/domain/ledger/service.py) has to do with
-- the transaction that its key resolves to afterwards.
use capital_os.Base.{
  ℕ, ◌≡◌, refl, ap, ◌∙◌, String, Option, none, some, false, Bool-cases, Option-cases, inl, inr, any,
  not, str_eq, List,
}
use capital_os.Int.{ℤ}
use capital_os.Exec.{Error, ok, Result-cases}
use capital_os.Money.{ensure_balanced, transaction_impact_amount}
use capital_os.Store.{
  Database, Env, BundlePayload, MatchedTransaction, Response, Status, Proposal, Hashed, committed,
  idempotent_replay,
}
use capital_os.Store.Action.{Action, pure, transaction, ◌>>=◌}
use capital_os.Store.Keeps.{
  Post, Post-on_integrity_error, Post-bind, Post-of, Post-transaction, Keeps, keeps_rules,
}
use capital_os.Store.Steady.{Steady, Keeps-of-Steady}
use capital_os.EventLog.{log_event, ok_event}
use capital_os.Policy.{PolicyDecision}
use capital_os.Policy.Reads.{
  enforce_period_write_constraints-Steady, evaluate_transaction_policy-Steady,
}
use capital_os.Ledger.Repository.{insert_transaction_bundle, save_transaction_response}
use capital_os.Ledger.Service.{
  bundle_tool, hashed, with_entity, replay_bundle, respond_proposed, find_or_propose, commit_bundle,
  decide_bundle, record_block, recover_proposal, recover_block, record_checked,
  record_transaction_bundle,
}
use capital_os.Ledger.Untouched.{Of, respond_proposed-Of, find_or_propose-Of, recover_proposal-Of}
use capital_os.Ledger.Inserted.{
  Fetched, insert_transaction_bundle-Fetched, save_transaction_response-resolves,
}
use capital_os.Ledger.Resolved.{
  Yields, Yields-bind, Yields-if, resolved, Tells, resolved-status, resolved_same, some_eq, Absent,
  Absent-Tells,
}

module _ (env : Env) (payload : BundlePayload) (h : String) where
  abbrev pub Told : Response → Database → Type 0
  Told = Tells payload.source_system payload.external_id env.payload_hash

  abbrev pub key_resolved : Database → Option Response
  key_resolved = resolved payload.source_system payload.external_id

  replay_bundle-Told :
      (r : Response) (db : Database)
      → key_resolved db ≡ some r
      → Post Told (replay_bundle env payload h r db)
  unfolding replay_bundle log_event
  replay_bundle-Told r db found a again =
      let same : a ≡ r =
        some_eq payload.source_system payload.external_id (key_resolved db) a r
          (resolved_same payload.source_system payload.external_id db _ refl ∙ again) found in
      rw same
        (resolved-status payload.source_system payload.external_id db r found, refl, refl, refl)

  -- the response of a commit, and the steps after the insertion
  abbrev unhashed : ℕ × List ℕ → Response
  unhashed (tx, ids) = record {
    status = committed;
    transaction_id = some tx;
    posting_ids = ids;
    proposal_id = none;
    approval_threshold_amount = none;
    impact_amount = none;
    matched_rule_id = none;
    required_approvals = none;
    approvals_received = none;
    duplicate_context = none;
    reason = none;
    correlation_id = payload.correlation_id;
    output_hash = none;
  }

  abbrev output_hash_of : ℕ × List ℕ → String
  output_hash_of r = env.payload_hash (Hashed.response (unhashed r))

  abbrev log_commit : ℕ × List ℕ → Action Response
  log_commit r =
      log_event env (ok_event bundle_tool payload.correlation_id h (output_hash_of r)) >>= λ _.
      pure (hashed env (unhashed r))

  log_commit-Told :
      (r : ℕ × List ℕ) (d : Database)
      → key_resolved d ≡ some (record (hashed env (unhashed r)) { status = idempotent_replay })
      → Post Told (log_commit r d)
  unfolding log_event
  log_commit-Told r d stored a again =
      let same : a ≡ record (hashed env (unhashed r)) { status = idempotent_replay } =
        some_eq payload.source_system payload.external_id (key_resolved d) a _
          (resolved_same payload.source_system payload.external_id d _ refl ∙ again) stored in
      rw same (refl, refl, refl, refl)

  commit_bundle-Told : (db : Database) → Post Told (commit_bundle env payload h db)
  unfolding commit_bundle
  commit_bundle-Told db =
      Post-bind (λ r d. Fetched payload.source_system payload.external_id r.0 d.transactions) Told
        (insert_transaction_bundle (with_entity payload) h)
        (λ r. save_transaction_response r.0 (hashed env (unhashed r)) (output_hash_of r) >>= λ _.
          log_commit r)
        db (insert_transaction_bundle-Fetched (with_entity payload) h db)
        λ r d there.
          Post-bind
            (λ _ d'.
              key_resolved d'
              ≡ some (record (hashed env (unhashed r)) { status = idempotent_replay }))
            Told (save_transaction_response r.0 (hashed env (unhashed r)) (output_hash_of r))
            (λ _. log_commit r) d
            (save_transaction_response-resolves payload.source_system payload.external_id r.0
              (hashed env (unhashed r)) (output_hash_of r) d there)
            λ _ d' stored. log_commit-Told r d' stored

  module _ (base : Database) where
    abbrev Missing : Database → Type 0
    Missing = Of (Absent payload.source_system payload.external_id base)

    -- an action that writes no transaction tells nothing
    Yields-of-Keeps : (m : Action Response) → Steady Missing m → Yields Missing Told m
    Yields-of-Keeps m km = record {
      at = λ db p. Post-of (m db) ((Keeps-of-Steady m km).at db p) (λ r d q.
          Absent-Tells payload.source_system payload.external_id env.payload_hash base r d q);
    }

    respond_proposed-Yields :
        (ms : List MatchedTransaction) (p : Proposal)
        → Yields Missing Told (respond_proposed env payload h ms p)
    respond_proposed-Yields ms p = Yields-of-Keeps (respond_proposed env payload h ms p) (
        respond_proposed-Of (Absent payload.source_system payload.external_id base) env payload h ms
          p)

    find_or_propose-Keeps :
        (d : PolicyDecision) (impact : ℤ) → Keeps Missing (find_or_propose env payload h d impact)
    find_or_propose-Keeps d impact = Keeps-of-Steady (find_or_propose env payload h d impact) (
        find_or_propose-Of (Absent payload.source_system payload.external_id base) env payload h d
          impact)

    commit_bundle-Yields : Yields Missing Told (commit_bundle env payload h)
    commit_bundle-Yields = record { at = λ db _. commit_bundle-Told db }

    decide_bundle-Yields : (impact : ℤ) → Yields Missing Told (decide_bundle env payload h impact)
    unfolding decide_bundle
    decide_bundle-Yields impact =
        search
          (
            Yields-bind, Yields-if, keeps_rules, Keeps-of-Steady,
            enforce_period_write_constraints-Steady, evaluate_transaction_policy-Steady,
            find_or_propose-Keeps, respond_proposed-Yields, commit_bundle-Yields,
          )
          depth 14

  record_block-Told :
      (impact : ℤ) (db : Database) → Post Told (record_block env payload h impact db)
  unfolding record_block
  record_block-Told impact db = elim (Option-cases (key_resolved db)) [
    | inr (r, e) ↦ rw e (replay_bundle-Told r db e)
    | inl e ↦ rw e (
        (decide_bundle-Yields db impact).at db
          (resolved_same payload.source_system payload.external_id _ db refl ∙ e))
  ]

  recover_block-Told : (e : Error) (db : Database) → Post Told (recover_block env payload h e db)
  unfolding recover_block
  recover_block-Told error db = elim (Option-cases (key_resolved db)) [
    | inr (r, e) ↦
        let is = resolved-status payload.source_system payload.external_id db r e in
        let same : r ≡ record r { status = idempotent_replay } =
          ap (λ (s : Status). record r { status = s }) is in
        rw e (replay_bundle-Told (record r { status = idempotent_replay }) db (e ∙ ap some same))
    | inl e ↦ rw e (
        (Yields-of-Keeps db (recover_proposal env payload h error) (
            recover_proposal-Of (Absent payload.source_system payload.external_id db) env payload h
              error)).at
          db (resolved_same payload.source_system payload.external_id _ db refl ∙ e))
  ]

  pub record_checked-Told : (db : Database) → Post Told (record_checked env payload h db)
  unfolding record_checked
  record_checked-Told db = elim (Result-cases (transaction_impact_amount payload.postings)) [
    | inr (e, failed) ↦ rw failed tt
    | inl (impact, fits) ↦ rw fits (
        Post-on_integrity_error Told (λ _. Unit {0})
          (transaction (record_block env payload h impact))
          (λ e. transaction (recover_block env payload h e)) db
          (Post-transaction Told (record_block env payload h impact) db
            (record_block-Told impact db))
          tt
          λ e d _. Post-transaction Told (recover_block env payload h e) d (recover_block-Told e d))
  ]

-- The checks that a bundle passed that was answered.
pub record Passed (payload : BundlePayload) : Type 0 where
  pub dollars : any (λ p. not (str_eq p.currency "USD")) payload.postings ≡ false
  pub balanced : ensure_balanced payload.postings ≡ ok tt
  pub impact : ℤ
  pub fits : transaction_impact_amount payload.postings ≡ ok impact

module _ (env : Env) (payload : BundlePayload) (db : Database) (r : Response) where
  pub record_transaction_bundle-Passed :
      (record_transaction_bundle env payload db).0 ≡ ok r → Passed payload
  unfolding record_transaction_bundle record_checked
  record_transaction_bundle-Passed h =
      elim (Bool-cases (any (λ p. not (str_eq p.currency "USD")) payload.postings)) [
        | inl e ↦ absurd (let k = rw (record_transaction_bundle, e) at h in cc)
        | inr e ↦ elim (Result-cases (ensure_balanced payload.postings)) [
          | inr (x, failed) ↦ absurd (let k = rw (record_transaction_bundle, e, failed) at h in cc)
          | inl (one, balanced) ↦ elim (Result-cases (transaction_impact_amount payload.postings)) [
            | inr (x, failed) ↦ absurd (
                let k = rw (record_transaction_bundle, e, balanced, record_checked, failed) at h in
                cc)
            | inl (impact, fits) ↦ record {
              dollars = e;
              balanced = balanced;
              impact = impact;
              fits = fits;
            }
          ]
        ]
      ]

-- ===== src/Ledger/Inserted.antt =====
-- The row of a committed bundle, in src/capital_os/domain/ledger/repository.py: it is found by its key,
-- and then holds the response.
use capital_os.Base.{
  ℕ, ◌+◌, ◌&&◌, sort_by, ◌≡◌, ◌++◌, ◌==◌, ◌∙◌, refl, String, none, some, Bool, true, false,
  Bool-cases, inl, inr, List, [], ◌∷◌, any, find, find-append_none, find-update, eqb_refl, eq_refl,
  is_some, arith,
}
use capital_os.Exec.{Error, ok, err}
use capital_os.Store.{Database, BundlePayload, TransactionRow, Response, idempotent_replay}
use capital_os.Store.Keeps.{Post, Post-bind}
use capital_os.Store.Steady.{Keeps-of-Steady}
use capital_os.Periods.{entity_of}
use capital_os.Ledger.Repository.{
  has_key, entity_exists, fetch_transaction_by_external_id, resolve_transaction_idempotency,
  posting_leb, insert_postings, insert_transaction_row, insert_sorted, insert_transaction_bundle,
  save_transaction_response,
}
use capital_os.Ledger.Untouched.{insert_postings-Of}
use capital_os.Store.Action.{pure}
use capital_os.Text.{decimal_text}

any-find {ℓ} : {A : Type ℓ} (p : A → Bool) (xs : List A) → any p xs ≡ false → find p xs ≡ none
any-find p [] h = refl
any-find p (x ∷ xs) h =
    let first : p x ≡ false = ground arith in
    let rest : any p xs ≡ false = ground arith in rw (find, first) (any-find p xs rest)

-- The first transaction with the key is `tx`.
abbrev pub Fetched : String → String → ℕ → List TransactionRow → Type 0
Fetched source_system external_id tx ts =
    (t : TransactionRow) × (find (has_key source_system external_id) ts ≡ some t)
    × (t.transaction_id ≡ tx)

module _ (payload : BundlePayload) (h : String) (tx : ℕ) (d : Database) where
  abbrev row_of : TransactionRow
  row_of = record {
    transaction_id = tx;
    source_system = payload.source_system;
    external_id = payload.external_id;
    transaction_date = payload.date;
    description = payload.description;
    correlation_id = payload.correlation_id;
    input_hash = h;
    entity_id = entity_of payload.entity_id;
    is_adjusting_entry = payload.is_adjusting_entry;
    adjusting_reason_code = payload.adjusting_reason_code;
    response_payload = none;
    output_hash = none;
  }

  abbrev taken : Bool
  taken = any (has_key payload.source_system payload.external_id) d.transactions

  insert_transaction_row-taken :
      taken ≡ true
      → insert_transaction_row payload h tx d
        ≡ (err (Error.integrity "UNIQUE constraint failed"), d)
  unfolding insert_transaction_row
  insert_transaction_row-taken e = simp e

  insert_transaction_row_stray :
      taken ≡ false
      → entity_exists (entity_of payload.entity_id) d ≡ false
      → insert_transaction_row payload h tx d
        ≡ (err (Error.integrity "FOREIGN KEY constraint failed"), d)
  unfolding insert_transaction_row
  insert_transaction_row_stray e k = simp (e, k)

  insert_transaction_row_new :
      taken ≡ false
      → entity_exists (entity_of payload.entity_id) d ≡ true
      → insert_transaction_row payload h tx d
        ≡ (ok tt, record d { transactions = d.transactions ++ row_of ∷ [] })
  unfolding insert_transaction_row
  insert_transaction_row_new e k = simp (e, k)

  insert_transaction_row-Fetched :
      Post
        (λ _ d'. Fetched payload.source_system payload.external_id tx d'.transactions)
        (insert_transaction_row payload h tx d)
  insert_transaction_row-Fetched = elim (Bool-cases taken) [
    | inl e ↦ rw (insert_transaction_row-taken e) tt
    | inr e ↦ elim (Bool-cases (entity_exists (entity_of payload.entity_id) d)) [
      | inr k ↦ rw (insert_transaction_row_stray e k) tt
      | inl k ↦
          let key = has_key payload.source_system payload.external_id in
          let is_it : find key (row_of ∷ []) ≡ some row_of =
            rw (find, eq_refl payload.source_system, eq_refl payload.external_id) refl in
          rw (insert_transaction_row_new e k) (
            row_of,
            find-append_none key d.transactions (row_of ∷ []) (any-find key d.transactions e)
                ∙ is_it,
            refl,
          )
    ]
  ]

insert_sorted-Fetched :
    (payload : BundlePayload) (tx : ℕ) (d : Database)
    → Fetched payload.source_system payload.external_id tx d.transactions
    → Post
        (λ r d'. Fetched payload.source_system payload.external_id r.0 d'.transactions)
        (insert_sorted payload tx d)
unfolding insert_sorted
insert_sorted-Fetched payload tx d there =
    let R = Fetched payload.source_system payload.external_id tx in
    let ps = sort_by (posting_leb (λ p. decimal_text p.amount)) payload.postings in
    Post-bind (λ _ d'. R d'.transactions)
      (λ r d'. Fetched payload.source_system payload.external_id r.0 d'.transactions)
      (insert_postings tx ps) (λ ids. pure (tx, ids)) d
      ((Keeps-of-Steady (insert_postings tx ps) (insert_postings-Of R tx ps)).at d there)
      λ ids d' kept. kept

-- What was inserted is found by its key.
pub insert_transaction_bundle-Fetched :
    (payload : BundlePayload) (h : String) (db : Database)
    → Post
        (λ r d. Fetched payload.source_system payload.external_id r.0 d.transactions)
        (insert_transaction_bundle payload h db)
unfolding insert_transaction_bundle
insert_transaction_bundle-Fetched payload h db =
    let F = λ (tx : ℕ). Fetched payload.source_system payload.external_id tx in
    let tx = db.next_id in
    let start : Database = record db { next_id = db.next_id + 1 } in
    Post-bind (λ _ d. F tx d.transactions) (λ r d. F r.0 d.transactions)
      (insert_transaction_row payload h tx) (λ _. insert_sorted payload tx) start
      (insert_transaction_row-Fetched payload h tx start)
      λ _ d there. insert_sorted-Fetched payload tx d there

-- The response that is stored with it is the one that its key resolves to.
pub save_transaction_response-resolves :
    (source_system external_id : String) (tx : ℕ) (r : Response) (h : String) (d : Database)
    → Fetched source_system external_id tx d.transactions
    → Post
        (λ _ d'.
          resolve_transaction_idempotency source_system external_id d'
          ≡ some (record r { status = idempotent_replay }))
        (save_transaction_response tx r h d)
unfolding save_transaction_response resolve_transaction_idempotency fetch_transaction_by_external_id
save_transaction_response-resolves source_system external_id tx r h d (t, found, is_tx) =
    let key = has_key source_system external_id in
    elim (Bool-cases (
      any (λ (x : TransactionRow). x.transaction_id == tx && is_some x.response_payload)
        d.transactions)) [
          | inl e ↦ rw e tt
          | inr e ↦
              let is_row : (t.transaction_id == tx) ≡ true = rw is_tx (eqb_refl tx) in
              let row =
                find-update key (λ (x : TransactionRow). x.transaction_id == tx)
                  (λ (x : TransactionRow). record x {
                    response_payload = some r;
                    output_hash = some h;
                  })
                  d.transactions t (λ x. refl) found is_row in
              rw (e, row) refl
        ]

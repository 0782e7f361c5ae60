-- ===== src/Ledger/Resolved.antt =====
-- What a key resolves to, in src/capital_os/domain/ledger/idempotency.py, and the answers that agree with
-- it.
use capital_os.Base.{
  ◌≡◌, refl, sym, ap, ◌∙◌, String, Option, none, some, Bool, true, false, Option-cases, inl, inr,
  or_default, if◌then◌else◌, List,
}
use capital_os.Store.{Database, TransactionRow, Response, Hashed, idempotent_replay}
use capital_os.Store.Action.{Action, ◌>>=◌}
use capital_os.Store.Keeps.{Post, Post-bind, Keeps}
use capital_os.Ledger.Repository.{fetch_transaction_by_external_id, resolve_transaction_idempotency}
use capital_os.Ledger.Untouched.{Of}

-- An action that starts where `P` holds returns with `Q`.
pub record Yields {A : Type 0} (P : Database → Type 0) (Q : A → Database → Type 0) (m : Action A)
    : Type 0 where
  pub at : (db : Database) → P db → Post Q (m db)

pub Yields-bind :
    {A B : Type 0} {P : Database → Type 0} {Q : B → Database → Type 0} (m : Action A)
    (f : A → Action B)
    → Keeps P m
    → ((a : A) → Yields P Q (f a))
    → Yields P Q (m >>= f)
Yields-bind {P = P} {Q = Q} m f km yf = record {
  at = λ db p. Post-bind (λ _ d. P d) Q m f db (km.at db p) (λ a d q. (yf a).at d q);
}

pub Yields-if :
    {A : Type 0} {P : Database → Type 0} {Q : A → Database → Type 0} (b : Bool) (m n : Action A)
    → Yields P Q m
    → Yields P Q n
    → Yields P Q (if b then m else n)
Yields-if true m n ym yn = ym
Yields-if false m n ym yn = yn

module _ (source_system external_id : String) where
  -- What the key resolves to.
  abbrev pub resolved : Database → Option Response
  resolved = resolve_transaction_idempotency source_system external_id

  abbrev pub in_table : List TransactionRow → Database → Option Response
  in_table ts base = resolved (record base { transactions = ts })

  -- `r` is an answer from the transaction whose replay is `a`.
  abbrev pub Answers : (Hashed → String) → Response → Response → Type 0
  Answers payload_hash r a =
      (a.status ≡ idempotent_replay)
      × (a.transaction_id ≡ r.transaction_id)
      × (a.posting_ids ≡ r.posting_ids)
      × (some (or_default a.output_hash (payload_hash (Hashed.response a))) ≡ r.output_hash)

  -- Where the key resolves, `r` is an answer from it.
  abbrev pub Tells : (Hashed → String) → Response → Database → Type 0
  Tells payload_hash r d = (a : Response) → resolved d ≡ some a → Answers payload_hash r a

  pub resolved-status :
      (d : Database) (a : Response) → resolved d ≡ some a → a.status ≡ idempotent_replay
  unfolding resolve_transaction_idempotency
  resolved-status d a h =
      elim (Option-cases (fetch_transaction_by_external_id source_system external_id d)) [
        | inl e ↦
            absurd (let gone : none ≡ some a = rw (resolve_transaction_idempotency, e) at h in cc)
        | inr (t, e) ↦ elim (Option-cases t.response_payload) [
          | inl k ↦
              absurd
                (let gone : none ≡ some a = rw (resolve_transaction_idempotency, e, k) at h in cc)
          | inr (r, k) ↦
              let made : some (record r { status = idempotent_replay }) ≡ some a =
                rw (resolve_transaction_idempotency, e, k) at h in
              let same : record r { status = idempotent_replay } ≡ a = cc in
              ap (λ (x : Response). x.status) (sym same)
        ]
      ]

  pub resolved_same :
      (d d' : Database) → d.transactions ≡ d'.transactions → resolved d ≡ resolved d'
  unfolding resolve_transaction_idempotency fetch_transaction_by_external_id
  resolved_same d d' h = rw h refl

  pub some_eq : (o : Option Response) (a b : Response) → o ≡ some a → o ≡ some b → a ≡ b
  some_eq o a b h k = cc

  -- The key resolves to nothing, as far as the transactions say.
  abbrev pub Absent : Database → List TransactionRow → Type 0
  Absent base ts = in_table ts base ≡ none

  pub Absent-Tells :
      (payload_hash : Hashed → String) (base : Database) (r : Response) (d : Database)
      → Of (Absent base) d
      → Tells payload_hash r d
  Absent-Tells payload_hash base r d absent a h = absurd (
      let gone : none ≡ some a =
        sym absent ∙ resolved_same (record base { transactions = d.transactions }) d refl ∙ h in
      cc)

-- ===== src/Ledger/Balance.antt =====
-- Every transaction in the books balances: the invariant, and the steps that keep it.
use capital_os.Base.{
  ℕ, ◌≡◌, refl, ap, sym, ◌∙◌, String, str_eq, Bool, Bool-cases, inl, inr, List, [], ◌∷◌, ◌++◌, ◌==◌,
  All, sort_by, insert_by, if◌then◌else◌,
}
use capital_os.Int.{ℤ, pos, ◌+ℤ◌, int_laws, +ℤ_assoc, +ℤ_left_comm, add-zero_ℤ}
use capital_os.Exec.{ok, Result-cases}
use capital_os.Money.{Decimal, Posting, nearest_units, normalize_amount}
use capital_os.Money.Balance.{total_units, quantize_units-eq_ok}
use capital_os.Store.{Database, BundlePayload, PostingRow, Proposal, Request}
use capital_os.Store.Action.{pure, modify, fresh_id, ◌>>=◌}
use capital_os.Store.Keeps.{Post, Post-bind, Post-of, Keeps, keeps_rules}
use capital_os.Ledger.Repository.{
  account_exists, insert_posting, insert_postings, insert_transaction_row, insert_sorted,
  insert_transaction_bundle,
}

-- the sum of the postings of one transaction
abbrev pub balance : ℕ → List PostingRow → ℤ
balance n [] = pos 0
balance n (r ∷ rs) = (if r.transaction_id == n then r.amount else pos 0) +ℤ balance n rs

abbrev pub RequestBalances : Request → Type 0
RequestBalances Request.other = Unit
RequestBalances (Request.bundle b) = total_units b.postings ≡ pos 0

-- Every transaction sums to zero, and so does every bundle that waits for approval.
pub record IsBalanced (db : Database) : Type 0 where
  pub books : (n : ℕ) → balance n db.postings ≡ pos 0
  pub requests : All (λ (p : Proposal). RequestBalances p.request_payload) db.proposals

balance-append :
    (n : ℕ) (rs : List PostingRow) (r : PostingRow)
    → balance n (rs ++ r ∷ []) ≡ balance n rs +ℤ (if r.transaction_id == n then r.amount else pos 0)
balance-append n [] r = omega int_laws
balance-append n (q ∷ rs) r = rw (balance-append n rs r) (sym (+ℤ_assoc _ _ _))

pub normalize_amount-eq_ok : (v : Decimal) (z : ℤ) → normalize_amount v ≡ ok z → z ≡ nearest_units v
unfolding normalize_amount
normalize_amount-eq_ok v z h = (quantize_units-eq_ok (nearest_units v) z h).0

-- the amount that a bundle adds to the balance of `n`
abbrev share : ℕ → ℕ → ℤ → ℤ
share tx n z = if tx == n then z else pos 0

-- what a step that adds `z` to the transaction `tx` leaves
abbrev Adds : ℕ → ℤ → Database → Database → Type 0
Adds tx z db db' =
    ((n : ℕ) → balance n db'.postings ≡ balance n db.postings +ℤ share tx n z)
    × (db'.proposals ≡ db.proposals)

insert_posting-Adds :
    (tx : ℕ) (p : Posting) (db : Database)
    → Post (λ _ db'. Adds tx (nearest_units p.amount) db db') (insert_posting tx p db)
unfolding insert_posting
insert_posting-Adds tx p db = elim (Result-cases (normalize_amount p.amount)) [
  | inr (e, h) ↦ rw h tt
  | inl (z, h) ↦ elim (Bool-cases (str_eq p.currency "USD")) [
    | inr other ↦ rw (h, other) tt
    | inl usd ↦ elim (Bool-cases (account_exists p.account_id db)) [
      | inr missing ↦ rw (h, usd, missing) tt
      | inl known ↦
          rw (h, usd, known, ← normalize_amount-eq_ok p.amount z h)
            ((λ n. balance-append n db.postings _), refl)
    ]
  ]
]

share-add : (tx n : ℕ) (a b : ℤ) → share tx n a +ℤ share tx n b ≡ share tx n (a +ℤ b)
share-add tx n a b = elim (Bool-cases (tx == n)) [
  | inl e ↦ rw e refl
  | inr e ↦ rw e (omega int_laws)
]

share_none : (tx n : ℕ) (a : ℤ) → a ≡ a +ℤ share tx n (pos 0)
share_none tx n a = elim (Bool-cases (tx == n)) [
  | inl e ↦ rw e (sym (add-zero_ℤ a))
  | inr e ↦ rw e (sym (add-zero_ℤ a))
]

insert_postings-Adds :
    (tx : ℕ) (ps : List Posting) (db : Database)
    → Post (λ _ db'. Adds tx (total_units ps) db db') (insert_postings tx ps db)
unfolding insert_postings
insert_postings-Adds tx [] db = ((λ n. share_none tx n (balance n db.postings)), refl)
insert_postings-Adds tx (p ∷ ps) db =
    let Done : List ℕ → Database → Type 0 = λ _ d. Adds tx (total_units (p ∷ ps)) db d in
    Post-bind (λ _ d. Adds tx (nearest_units p.amount) db d) Done (insert_posting tx p)
      (λ id. insert_postings tx ps >>= λ ids. pure (id ∷ ids)) db (insert_posting-Adds tx p db)
      λ id d q.
        Post-bind (λ _ e. Adds tx (total_units ps) d e) Done (insert_postings tx ps)
          (λ ids. pure (id ∷ ids)) d (insert_postings-Adds tx ps d)
          λ ids e r. (
            (λ n.
                rw (r.0 n, q.0 n)
                  (+ℤ_assoc _ _ _
                    ∙ ap (λ (z : ℤ). balance n db.postings +ℤ z) (share-add tx n _ _))),
            r.1 ∙ q.1,
          )

-- Sorting the postings does not change their sum.
total_units-insert_by :
    (le : Posting → Posting → Bool) (p : Posting) (ps : List Posting)
    → total_units (insert_by le p ps) ≡ nearest_units p.amount +ℤ total_units ps
total_units-insert_by le p [] = refl
total_units-insert_by le p (q ∷ ps) = elim (Bool-cases (le p q)) [
  | inl e ↦ rw (e, total_units) refl
  | inr e ↦ rw (e, total_units, total_units-insert_by le p ps) (+ℤ_left_comm _ _ _)
]

pub total_units-sort_by :
    (le : Posting → Posting → Bool) (ps : List Posting)
    → total_units (sort_by le ps) ≡ total_units ps
unfolding sort_by
total_units-sort_by le [] = refl
total_units-sort_by le (p ∷ ps) =
    total_units-insert_by le p (sort_by le ps)
    ∙ ap (λ (z : ℤ). nearest_units p.amount +ℤ z) (total_units-sort_by le ps)

-- A write that leaves the postings and the proposals alone.
pub modify-IsBalanced :
    (f : Database → Database)
    → ((db : Database) → (f db).postings ≡ db.postings)
    → ((db : Database) → (f db).proposals ≡ db.proposals)
    → Keeps IsBalanced (modify f)
modify-IsBalanced f same_postings same_proposals = record {
  at = λ db h. record {
    books = λ n. rw (same_postings db) (h.books n);
    requests = rw (same_proposals db) h.requests;
  };
}

pub fresh_id-IsBalanced : Keeps IsBalanced fresh_id
fresh_id-IsBalanced = record { at = λ db h. record { books = h.books; requests = h.requests } }

insert_transaction_row-IsBalanced :
    (payload : BundlePayload) (h : String) (tx : ℕ)
    → Keeps IsBalanced (insert_transaction_row payload h tx)
unfolding insert_transaction_row
insert_transaction_row-IsBalanced payload h tx = search (keeps_rules, modify-IsBalanced) depth 12

insert_postings-IsBalanced :
    (tx : ℕ) (ps : List Posting) → total_units ps ≡ pos 0 → Keeps IsBalanced (insert_postings tx ps)
insert_postings-IsBalanced tx ps zero_sum = record {
  at = λ db h. Post-of (insert_postings tx ps db) (insert_postings-Adds tx ps db) (λ ids d q.
      record {
        books =
            λ n. rw (q.0 n, zero_sum) (sym (share_none tx n (balance n db.postings)) ∙ h.books n);
        requests = rw q.1 h.requests;
      });
}

insert_sorted-IsBalanced :
    (payload : BundlePayload) (tx : ℕ)
    → total_units payload.postings ≡ pos 0
    → Keeps IsBalanced (insert_sorted payload tx)
unfolding insert_sorted
insert_sorted-IsBalanced payload tx zero_sum =
    search (keeps_rules, insert_postings-IsBalanced, total_units-sort_by) depth 10

pub insert_transaction_bundle-IsBalanced :
    (payload : BundlePayload) (h : String)
    → total_units payload.postings ≡ pos 0
    → Keeps IsBalanced (insert_transaction_bundle payload h)
unfolding insert_transaction_bundle
insert_transaction_bundle-IsBalanced payload h zero_sum =
    search
      (
        keeps_rules, fresh_id-IsBalanced, insert_transaction_row-IsBalanced,
        insert_sorted-IsBalanced,
      )
      depth 10

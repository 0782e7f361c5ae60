-- ===== src/Ledger/Duplicates.antt =====
-- The duplicate check: `find_duplicate_risk_matches` of
-- src/capital_os/domain/ledger/repository.py, and the part of a response that reports it in
-- src/capital_os/domain/ledger/service.py.
use capital_os.Base.{
  String, str_eq, Bool, ◌&&◌, ◌||◌, List, [], ◌∷◌, ◌==◌, or_default, any, all, select, map, sort_by,
  ltb, leb, if◌then◌else◌,
}
use capital_os.Int.{ℤ, eqb_ℤ}
use capital_os.Exec.{Result, ok, ◌>>=◌}
use capital_os.Money.{Posting, normalize_amount}
use capital_os.Calendar.{Instant, timestamp, same_date}
use capital_os.Text.{codes, text_leb, text_eq, amount_text}
use capital_os.Store.{
  Database, BundlePayload, TransactionRow, PostingRow, ProposedPosting, ProposedTransaction,
  MatchedTransaction, DuplicateContext,
}
use capital_os.Periods.{entity_of}

-- a posting with its amount normalized
abbrev proposed_posting : Posting → ℤ → ProposedPosting
proposed_posting p amount = record {
  account_id = p.account_id;
  amount = amount;
  currency = p.currency;
  memo = p.memo;
}

unfoldable pub normalize_postings : List Posting → Result (List ProposedPosting)
normalize_postings [] = ok []
normalize_postings (p ∷ ps) = do
  amount ← normalize_amount p.amount
  rest ← normalize_postings ps
  ok (proposed_posting p amount ∷ rest)

-- the transaction has a posting on the account of the key, with its amount
abbrev has_posting : List PostingRow → TransactionRow → ProposedPosting → Bool
has_posting rows t key =
    any
      (λ r.
        r.transaction_id == t.transaction_id
        && str_eq r.account_id key.account_id
        && eqb_ℤ r.amount key.amount)
      rows

abbrev pub is_duplicate : Instant → List ProposedPosting → List PostingRow → TransactionRow → Bool
is_duplicate date keys rows t =
    same_date t.transaction_date.date date.date && all (has_posting rows t) keys

abbrev matched : List PostingRow → TransactionRow → MatchedTransaction
matched rows t = record {
  transaction_id = t.transaction_id;
  source_system = t.source_system;
  external_id = t.external_id;
  date = t.transaction_date;
  description = t.description;
  correlation_id = t.correlation_id;
  entity_id = t.entity_id;
  postings = select (λ r. r.transaction_id == t.transaction_id) rows;
}

-- no keys, no matches
abbrev matches_for : Instant → List ProposedPosting → Database → List MatchedTransaction
matches_for date [] db = []
matches_for date (key ∷ keys) db =
    map (matched db.postings) (select (is_duplicate date (key ∷ keys) db.postings) db.transactions)

-- The transactions of the day that have, for every posting, one on the same account with the same
-- normalized amount. The order of the queries is left to `duplicate_risk_context`, which sorts.
unfoldable pub find_duplicate_risk_matches :
    Instant → List Posting → Database → Result (List MatchedTransaction)
unfolding normalize_postings
find_duplicate_risk_matches date postings db = do
  keys ← normalize_postings postings
  ok (matches_for date keys db)

-- lexicographic order of (account_id, amount, then)
abbrev by_account : String → ℤ → String → ℤ → Bool → Bool
by_account account_a amount_a account_b amount_b then_leb =
    if str_eq account_a account_b
    then (if text_eq (amount_text amount_a) (amount_text amount_b)
        then then_leb
        else text_leb (amount_text amount_a) (amount_text amount_b))
    else text_leb (codes account_a) (codes account_b)

abbrev row_leb : PostingRow → PostingRow → Bool
row_leb a b = by_account a.account_id a.amount b.account_id b.amount (leb a.posting_id b.posting_id)

abbrev proposed_leb : ProposedPosting → ProposedPosting → Bool
proposed_leb a b =
    by_account a.account_id a.amount b.account_id b.amount
      (text_leb (codes (or_default a.memo "")) (codes (or_default b.memo "")))

unfoldable pub proposal_transaction_payload : BundlePayload → Result ProposedTransaction
unfolding normalize_postings sort_by
proposal_transaction_payload payload = do
  postings ← normalize_postings payload.postings
  ok (record {
    source_system = payload.source_system;
    external_id = payload.external_id;
    date = payload.date;
    description = payload.description;
    entity_id = entity_of payload.entity_id;
    postings = sort_by proposed_leb postings;
  })

abbrev match_leb : MatchedTransaction → MatchedTransaction → Bool
match_leb a b =
    ltb (timestamp a.date) (timestamp b.date)
    || (timestamp a.date == timestamp b.date && leb a.transaction_id b.transaction_id)

abbrev sort_postings : MatchedTransaction → MatchedTransaction
sort_postings m = record m { postings = sort_by row_leb m.postings }

unfoldable pub duplicate_risk_context :
    BundlePayload → List MatchedTransaction → Result DuplicateContext
unfolding proposal_transaction_payload sort_by
duplicate_risk_context payload matches = do
  proposed ← proposal_transaction_payload payload
  ok (record {
    proposed_transaction = proposed;
    matched_transactions = sort_by match_leb (map sort_postings matches);
  })

-- ===== src/Ledger/Canonical.antt =====
-- `_normalize` of src/capital_os/observability/hashing.py on the postings of a request: canonical
-- JSON keeps every amount with four places.
use capital_os.Base.{List, [], ◌∷◌}
use capital_os.Int.{ℤ}
use capital_os.Exec.{Result, ok, ◌>>=◌}
use capital_os.Money.{Posting, normalize_amount}

abbrev pub stored_posting : Posting → ℤ → Posting
stored_posting p z = record p { amount = record { coef = z; places = 4 } }

unfoldable pub stored_postings : List Posting → Result (List Posting)
stored_postings [] = ok []
stored_postings (p ∷ ps) = do
  z ← normalize_amount p.amount
  rest ← stored_postings ps
  ok (stored_posting p z ∷ rest)

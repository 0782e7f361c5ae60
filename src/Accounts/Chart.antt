-- ===== src/Accounts/Chart.antt =====
-- The chart of accounts: no two accounts have the same code or key, and every parent is there.
use capital_os.Base.{
  ℕ, ◌≡◌, ◌≢◌, refl, String, str_eq, eq_iff, Bool, true, false, not, Option, none, some, List, [],
  ◌∷◌, ◌++◌, arith, any, All, Distinct, All-append, All-map, Distinct-append,
}
use capital_os.Exec.{Error}
use capital_os.Store.{Database, Env, Account, AccountPayload}
use capital_os.Store.Action.{raise_if, pure, fresh_id, transaction, ◌>>◌}
use capital_os.Store.Keeps.{Post, Keeps, Keeps-bind, Keeps-pure, keeps_rules}
use capital_os.Store.Steady.{Steady, Steady-on_integrity_error, Steady-transaction}
use capital_os.EventLog.{log_event}
use capital_os.Ledger.Repository.{account_exists, entity_exists}
use capital_os.Accounts.{
  parent_exists, check_account, add_account, insert_account, create_account, report_account,
  create_block, account_error, create_account_entry,
}

-- the parent of `a` is one of the accounts
abbrev pub has_parent : List Account → Option String → Bool
has_parent accounts none = true
has_parent accounts (some p) = any (λ a. str_eq a.account_id p) accounts

pub record IsChart (accounts : List Account) : Type 0 where
  pub codes : Distinct (λ a. a.code) accounts
  pub keys : Distinct (λ a. a.account_id) accounts
  pub parents : All (λ a. has_parent accounts a.parent_account_id ≡ true) accounts

any-append : (p : Account → Bool) (xs ys : List Account) → any p xs ≡ true → any p (xs ++ ys) ≡ true
any-append p [] ys h = absurd (cc)
any-append p (x ∷ xs) ys h = ground (arith, any-append p xs ys)

has_parent-append :
    (xs ys : List Account) (p : Option String)
    → has_parent xs p ≡ true
    → has_parent (xs ++ ys) p ≡ true
has_parent-append xs ys none h = refl
has_parent-append xs ys (some p) h = any-append (λ a. str_eq a.account_id p) xs ys h

-- a text that no account has is different from all that they have
unused :
    (f : Account → String) (s : String) (xs : List Account)
    → any (λ a. str_eq (f a) s) xs ≡ false
    → All (λ a. f a ≢ s) xs
unused f s [] h = tt
unused f s (x ∷ xs) h =
    let first : str_eq (f x) s ≡ false = ground arith in
    let rest : any (λ a. str_eq (f a) s) xs ≡ false = ground arith in
    ((λ e. let same = (eq_iff (f x) s).1 e in cc), unused f s xs rest)

IsChart-append :
    (accounts : List Account) (a : Account)
    → IsChart accounts
    → any (λ b. str_eq b.account_id a.account_id) accounts ≡ false
    → any (λ b. str_eq b.code a.code) accounts ≡ false
    → has_parent accounts a.parent_account_id ≡ true
    → IsChart (accounts ++ a ∷ [])
IsChart-append accounts a chart key code parent = record {
  codes = Distinct-append _ accounts a chart.codes (unused (λ b. b.code) a.code accounts code);
  keys =
      Distinct-append _ accounts a chart.keys
        (unused (λ b. b.account_id) a.account_id accounts key);
  parents =
      All-append _ accounts (a ∷ [])
        (All-map _ _ (λ b h. has_parent-append accounts (a ∷ []) b.parent_account_id h) accounts
          chart.parents)
        (has_parent-append accounts (a ∷ []) a.parent_account_id parent, tt);
}

parent_exists-has_parent :
    (p : Option String) (db : Database)
    → parent_exists p db ≡ true
    → has_parent db.accounts p ≡ true
parent_exists-has_parent none db h = refl
parent_exists-has_parent (some p) db h = h

insert_account-IsChart :
    (id : String) (payload : AccountPayload)
    → Keeps (λ db. IsChart db.accounts) (insert_account id payload)
unfolding insert_account check_account add_account
insert_account-IsChart id payload = record {
  at = λ db chart.
      go db chart _ (account_exists id db) (any (λ a. str_eq a.code payload.code) db.accounts)
        (parent_exists payload.parent_account_id db) (entity_exists payload.entity_id db) refl refl
        refl;
}
  where
    go :
        (db : Database)
        → IsChart db.accounts
        → (bad taken used parent known : Bool) → account_exists id db ≡ taken
        → any (λ a. str_eq a.code payload.code) db.accounts ≡ used
        → parent_exists payload.parent_account_id db ≡ parent
        → Post
            (λ _ d. IsChart d.accounts)
            ((raise_if bad (Error.integrity "CHECK constraint failed")
                >> (raise_if taken (Error.integrity "UNIQUE constraint failed: accounts.account_id")
                    >> (raise_if used (Error.integrity "UNIQUE constraint failed: accounts.code")
                        >> (raise_if (not parent) (Error.integrity "FOREIGN KEY constraint failed")
                            >> raise_if
                                (not known)
                                (Error.integrity "FOREIGN KEY constraint failed"))))
                >> add_account id payload)
              db)
    go db chart true taken used parent known t u p = tt
    go db chart false true used parent known t u p = tt
    go db chart false false true parent known t u p = tt
    go db chart false false false false known t u p = tt
    go db chart false false false true false t u p = tt
    go db chart false false false true true t u p =
        IsChart-append db.accounts _ chart t u
          (parent_exists-has_parent payload.parent_account_id db p)

module _ (env : Env) (uuid : ℕ → String) where
  create_account-IsChart :
      (payload : AccountPayload)
      → Keeps (λ db. IsChart db.accounts) (create_account env uuid payload)
  unfolding create_account
  create_account-IsChart payload =
      Keeps-bind fresh_id (λ n. insert_account (uuid n) payload >> pure (uuid n))
        (record { at = λ db h. h })
        λ n.
          Keeps-bind (insert_account (uuid n) payload) (λ _. pure (uuid n))
            (insert_account-IsChart (uuid n) payload) λ _. Keeps-pure (uuid n)

  report_account-IsChart :
      (payload : AccountPayload) (id : String)
      → Keeps (λ db. IsChart db.accounts) (report_account env uuid payload id)
  unfolding report_account log_event
  report_account-IsChart payload id = record { at = λ db h. h }

  create_block-IsChart :
      (payload : AccountPayload) → Keeps (λ db. IsChart db.accounts) (create_block env uuid payload)
  unfolding create_block
  create_block-IsChart payload =
      search (keeps_rules, create_account-IsChart, report_account-IsChart) depth 12

  account_error-IsChart : (e : Error) → Steady (λ db. IsChart db.accounts) (account_error e)
  unfolding account_error
  account_error-IsChart (Error.integrity m) = record { at = λ db h. h }
  account_error-IsChart (Error.invariant m) = record { at = λ db h. h }
  account_error-IsChart (Error.value m) = record { at = λ db h. h }
  account_error-IsChart (Error.key m) = record { at = λ db h. h }
  account_error-IsChart Error.decimal = record { at = λ db h. h }
  account_error-IsChart Error.overflow = record { at = λ db h. h }

  -- Creating an account, whether it returns or raises, leaves a chart in which no two accounts have
  -- the same code or the same key and every parent is an account, if it was one before, also where
  -- the generated key is taken.
  pub create_account_entry-IsChart :
      (payload : AccountPayload) (db : Database)
      → IsChart db.accounts
      → IsChart (create_account_entry env uuid payload db).1.accounts
  unfolding create_account_entry
  create_account_entry-IsChart payload db chart =
      let block =
        Steady-transaction (create_block env uuid payload) (create_block-IsChart payload) in
      let whole =
        Steady-on_integrity_error (transaction (create_block env uuid payload)) account_error block
          account_error-IsChart in
      whole.at db chart

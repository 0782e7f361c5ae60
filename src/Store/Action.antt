-- ===== src/Store/Action.antt =====
-- A handler's steps over the database. What was written stays written when a step raises, until
-- `transaction` (src/capital_os/db/session.py) rolls it back.
use capital_os.Base.{ℕ, ◌+◌, Option, none, some, Bool, if◌then◌else◌}
use capital_os.Exec.{Error, Result, ok, err}
use capital_os.Store.{Database}

abbrev pub Action : Type 0 → Type 0
Action A = Database → Result A × Database

module _ {A : Type 0} where
  abbrev pub pure : A → Action A
  pure a db = (ok a, db)

  abbrev pub raise : Error → Action A
  raise e db = (err e, db)

  abbrev pub lift : Result A → Action A
  lift r db = (r, db)

  abbrev pub gets : (Database → A) → Action A
  gets f db = (ok (f db), db)

infixl 5 ◌>>=◌ ◌>>◌
abbrev pub ◌>>=◌ : {A B : Type 0} → Action A → (A → Action B) → Action B
◌>>=◌ m f db = let (r, db') = m db in elim r [ ok a ↦ f a db' | err e ↦ raise e db' ]

abbrev pub ◌>>◌ : {A B : Type 0} → Action A → Action B → Action B
m >> k = m >>= λ _. k

-- `if c: raise e`
abbrev pub raise_if : Bool → Error → Action (Unit {0})
raise_if c e db = (if c then err e else ok tt, db)

abbrev pub modify : (Database → Database) → Action (Unit {0})
modify f db = (ok tt, f db)

-- a step for None and a step for a value
abbrev pub match_option : {A B : Type 0} → Option A → Action B → (A → Action B) → Action B
match_option none m f = m
match_option (some a) m f = f a

-- `uuid4()`
abbrev pub fresh_id : Action ℕ
fresh_id db = (ok db.next_id, record db { next_id = db.next_id + 1 })

module _ {A : Type 0} where
  -- `with transaction() as conn:` commits what the block wrote if it returns, and nothing if it
  -- raises.
  unfoldable pub transaction : Action A → Action A
  transaction block db =
      let (r, db') = block db in elim r [ ok a ↦ (ok a, db') | err e ↦ (err e, db) ]

  -- `except sqlite3.IntegrityError:`, with the database that the failed statements left
  unfoldable pub on_integrity_error : Action A → (Error → Action A) → Action A
  on_integrity_error block handler db =
      let (r, db') = block db in
      elim r [
        | ok a ↦ (ok a, db')
        | err e ↦ elim e [
          | Error.integrity message ↦ handler (Error.integrity message) db'
          | other ↦ (err other, db')
        ]
      ]

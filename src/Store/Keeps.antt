-- ===== src/Store/Keeps.antt =====
-- What holds when an action ends, and the rules by which an action that returns keeps a property
-- of the database. A raised error is no concern here: `transaction` rolls it back.
use capital_os.Base.{◌≡◌, refl, Option, none, some, Bool, true, false, if◌then◌else◌}
use capital_os.Exec.{Error, Result, ok, err}
use capital_os.Store.{Database}
use capital_os.Store.Action.{
  Action, pure, raise, raise_if, lift, gets, transaction, on_integrity_error, match_option, ◌>>=◌,
}

-- `Q` of the value and the database that a call returned
abbrev pub Post : {A : Type 0} → (A → Database → Type 0) → Result A × Database → Type 0
Post Q (ok a, db) = Q a db
Post Q (err e, db) = Unit

pub Post-bind :
    {A B : Type 0} (Q : A → Database → Type 0) (R : B → Database → Type 0) (m : Action A)
    (f : A → Action B) (db : Database)
    → Post Q (m db)
    → ((a : A) (db' : Database) → Q a db' → Post R (f a db'))
    → Post R ((m >>= f) db)
Post-bind Q R m f db h k = go (m db).0 (m db).1 h
  where
    go :
        (r : Result _) (db' : Database)
        → Post Q (r, db')
        → Post R (elim r [ ok a ↦ f a db' | err e ↦ raise e db' ])
    go (ok a) db' q = k a db' q
    go (err e) db' q = tt

pub Post-of :
    {A : Type 0} {Q R : A → Database → Type 0} (r : Result A × Database)
    → Post Q r
    → ((a : A) (db : Database) → Q a db → R a db)
    → Post R r
Post-of (ok a, db) q k = k a db q
Post-of (err e, db) q k = tt

-- `m` keeps `P` where it returns
pub record Keeps {A : Type 0} (P : Database → Type 0) (m : Action A) : Type 0 where
  pub at : (db : Database) → P db → Post (λ _ db'. P db') (m db)

module _ {A : Type 0} {P : Database → Type 0} where
  pub Keeps-pure : (a : A) → Keeps P (pure a)
  Keeps-pure a = record { at = λ db h. h }

  pub Keeps-raise : (e : Error) → Keeps P (raise {A = A} e)
  Keeps-raise e = record { at = λ db h. tt }

  pub Keeps-lift : (r : Result A) → Keeps P (lift r)
  Keeps-lift (ok a) = record { at = λ db h. h }
  Keeps-lift (err e) = record { at = λ db h. tt }

  pub Keeps-gets : (f : Database → A) → Keeps P (gets f)
  Keeps-gets f = record { at = λ db h. h }

  pub Keeps-if : (b : Bool) (m n : Action A) → Keeps P m → Keeps P n → Keeps P (if b then m else n)
  Keeps-if true m n km kn = km
  Keeps-if false m n km kn = kn

  pub Keeps-transaction : (m : Action A) → Keeps P m → Keeps P (transaction m)
  unfolding transaction
  Keeps-transaction m km = record { at = λ db h. go (m db).0 (m db).1 db h (km.at db h) }
    where
      go :
          (r : Result A) (db' db : Database)
          → P db
          → Post (λ _ d. P d) (r, db')
          → Post
              (λ _ d. P d)
              (let out : Result A × Database = elim r [
                | ok a ↦ (ok a, db')
                | err e ↦ (err e, db)
              ] in
                out)
      go (ok a) db' db h q = q
      go (err e) db' db h q = tt

pub Keeps-raise_if : {P : Database → Type 0} (b : Bool) (e : Error) → Keeps P (raise_if b e)
Keeps-raise_if true e = record { at = λ db h. tt }
Keeps-raise_if false e = record { at = λ db h. h }

module _ {A B : Type 0} {P : Database → Type 0} where
  pub Keeps-bind :
      (m : Action A) (f : A → Action B) → Keeps P m → ((a : A) → Keeps P (f a)) → Keeps P (m >>= f)
  Keeps-bind m f km kf = record {
    at = λ db h. Post-bind (λ _ db'. P db') (λ _ db'. P db') m f db (km.at db h) (λ a. (kf a).at);
  }

  pub Keeps-option :
      (o : Option A) (m : Action B) (f : A → Action B)
      → Keeps P m
      → ((a : A) → Keeps P (f a))
      → Keeps P (match_option o m f)
  Keeps-option none m f km kf = km
  Keeps-option (some a) m f km kf = kf a

  -- the rest may use what the first step says of its value
  pub Keeps-bind_with :
      (Q : A → Type 0) (m : Action A) (f : A → Action B)
      → ((db : Database) → P db → Post (λ a d. P d × Q a) (m db))
      → ((a : A) → Q a → Keeps P (f a))
      → Keeps P (m >>= f)
  Keeps-bind_with Q m f km kf = record {
    at = λ db h.
        Post-bind (λ a d. P d × Q a) (λ _ d. P d) m f db (km db h) (λ a d q. (kf a q.1).at d q.0);
  }

module _ {A : Type 0} {P : Database → Type 0} where
  -- a handler that starts again from the database before the block
  pub Keeps-on_integrity_error :
      (m : Action A) (h : Error → Action A)
      → Keeps P m
      → ((e : Error) → Keeps P (h e))
      → Keeps P (on_integrity_error (transaction m) h)
  unfolding on_integrity_error transaction
  Keeps-on_integrity_error m h km kh = record {
    at = λ db p. go (m db).0 (m db).1 db p (km.at db p);
  }
    where
      go :
          (r : Result A) (db' db : Database)
          → P db
          → Post (λ _ d. P d) (r, db')
          → Post (λ _ d. P d) (on_integrity_error (transaction (λ _. (r, db'))) h db)
      go (ok a) db' db p q = q
      go (err (Error.integrity message)) db' db p q = (kh (Error.integrity message)).at db p
      go (err (Error.invariant _)) db' db p q = tt
      go (err (Error.value _)) db' db p q = tt
      go (err (Error.key _)) db' db p q = tt
      go (err Error.decimal) db' db p q = tt
      go (err Error.overflow) db' db p q = tt

module _ {A : Type 0} where
  -- a handler that goes on with what the failed block left
  pub Post-on_integrity_error :
      (Q : A → Database → Type 0) (R : Database → Type 0) (m : Action A) (h : Error → Action A)
      (db : Database)
      → Post Q (m db)
      → R (m db).1
      → ((e : Error) (d : Database) → R d → Post Q (h e d))
      → Post Q (on_integrity_error m h db)
  unfolding on_integrity_error
  Post-on_integrity_error Q R m h db q r k = go (m db).0 (m db).1 q r
    where
      go :
          (r : Result A) (d : Database)
          → Post Q (r, d)
          → R d
          → Post Q (on_integrity_error (λ _. (r, d)) h d)
      go (ok a) d q r = q
      go (err (Error.integrity message)) d q r = k (Error.integrity message) d r
      go (err (Error.invariant _)) d q r = tt
      go (err (Error.value _)) d q r = tt
      go (err (Error.key _)) d q r = tt
      go (err Error.decimal) d q r = tt
      go (err Error.overflow) d q r = tt

pub ruleset keeps_rules = (
  Keeps-pure, Keeps-raise, Keeps-raise_if, Keeps-lift, Keeps-gets, Keeps-if, Keeps-option,
  Keeps-transaction, Keeps-on_integrity_error, Keeps-bind,
)

-- What an action says of every value that it returns, and of the database it returns it with
pub record Says {A : Type 0} (Q : A → Database → Type 0) (m : Action A) : Type 0 where
  pub at : (db : Database) → Post Q (m db)

module _ {A : Type 0} {Q : A → Database → Type 0} where
  pub Says-pure : (a : A) → ((d : Database) → Q a d) → Says Q (pure a)
  Says-pure a q = record { at = q }

  pub Says-raise : (e : Error) → Says Q (raise e)
  Says-raise e = record { at = λ db. tt }

  pub Says-if : (b : Bool) (m n : Action A) → Says Q m → Says Q n → Says Q (if b then m else n)
  Says-if true m n sm sn = sm
  Says-if false m n sm sn = sn

module _ {A B : Type 0} {Q : B → Database → Type 0} where
  -- the last step decides
  pub Says-bind : (m : Action A) (f : A → Action B) → ((a : A) → Says Q (f a)) → Says Q (m >>= f)
  Says-bind m f sf = record {
    at = λ db. Post-bind (λ _ _. Unit {0}) Q m f db (anything (m db)) λ a d _. (sf a).at d;
  }
    where
      anything : (r : Result A × Database) → Post (λ _ _. Unit {0}) r
      anything (ok a, d) = tt
      anything (err e, d) = tt

pub ruleset says_rules = (Says-pure, Says-raise, Says-if, Says-bind)

pub Post-transaction :
    {A : Type 0} (Q : A → Database → Type 0) (m : Action A) (db : Database)
    → Post Q (m db)
    → Post Q (transaction m db)
unfolding transaction
Post-transaction {A} Q m db q = go (m db).0 (m db).1 q
  where
    go : (r : Result A) (d : Database) → Post Q (r, d) → Post Q (transaction (λ _. (r, d)) db)
    go (ok a) d q = q
    go (err e) d q = tt

-- The call returned, with `Q` of the value and the database.
abbrev pub Returns : {A : Type 0} → (A → Database → Type 0) → Result A × Database → Type 0
Returns Q (ok a, db) = Q a db
Returns Q (err e, db) = ⊥

pub Returns-bind :
    {A B : Type 0} (Q : A → Database → Type 0) (R : B → Database → Type 0) (m : Action A)
    (f : A → Action B) (db : Database)
    → Returns Q (m db)
    → ((a : A) (d : Database) → Q a d → Returns R (f a d))
    → Returns R ((m >>= f) db)
Returns-bind {A} {B} Q R m f db h k = go (m db).0 (m db).1 h
  where
    go :
        (r : Result A) (d : Database)
        → Returns Q (r, d)
        → Returns R
            (let out : Result B × Database = elim r [ ok a ↦ f a d | err e ↦ raise e d ] in out)
    go (ok a) d q = k a d q
    go (err e) d q = absurd q

pub Returns-of :
    {A : Type 0} {Q R : A → Database → Type 0} (r : Result A × Database)
    → Returns Q r
    → ((a : A) (d : Database) → Q a d → R a d)
    → Returns R r
Returns-of (ok a, d) q k = k a d q
Returns-of (err e, d) q k = absurd q

-- what follows of a return may use what it returned
pub Returns-at :
    {A : Type 0} {Q R : A → Database → Type 0} (r : Result A × Database)
    → Returns Q r
    → ((a : A) (d : Database) → d ≡ r.1 → Q a d → R a d)
    → Returns R r
Returns-at (ok a, d) q k = k a d refl q
Returns-at (err e, d) q k = absurd q

-- a block that returns is committed
pub Returns-transaction :
    {A : Type 0} (Q : A → Database → Type 0) (m : Action A) (db : Database)
    → Returns Q (m db)
    → Returns Q (transaction m db)
unfolding transaction
Returns-transaction {A} Q m db q = go (m db).0 (m db).1 q
  where
    go : (r : Result A) (d : Database) → Returns Q (r, d) → Returns Q (transaction (λ _. (r, d)) db)
    go (ok a) d q = q
    go (err e) d q = absurd q

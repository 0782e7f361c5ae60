-- ===== src/Store/Steady.antt =====
-- Properties of the database that an action keeps whether it returns or raises.
use capital_os.Base.{◌≡◌, refl, Option, none, some, Bool, true, false, if◌then◌else◌}
use capital_os.Exec.{Error, Result, ok, err}
use capital_os.Store.{Database}
use capital_os.Store.Action.{
  Action, pure, raise, raise_if, lift, gets, modify, transaction, on_integrity_error, match_option,
  ◌>>=◌,
}
use capital_os.Store.Keeps.{Post, Keeps}

pub record Steady {A : Type 0} (P : Database → Type 0) (m : Action A) : Type 0 where
  pub at : (db : Database) → P db → P (m db).1

module _ {A : Type 0} {P : Database → Type 0} where
  pub Steady-pure : (a : A) → Steady P (pure a)
  Steady-pure a = record { at = λ db h. h }

  pub Steady-raise : (e : Error) → Steady P (raise {A = A} e)
  Steady-raise e = record { at = λ db h. h }

  pub Steady-lift : (r : Result A) → Steady P (lift r)
  Steady-lift r = record { at = λ db h. h }

  pub Steady-gets : (f : Database → A) → Steady P (gets f)
  Steady-gets f = record { at = λ db h. h }

  pub Steady-if :
      (b : Bool) (m n : Action A) → Steady P m → Steady P n → Steady P (if b then m else n)
  Steady-if true m n km kn = km
  Steady-if false m n km kn = kn

  pub Steady-on_integrity_error :
      (m : Action A) (h : Error → Action A)
      → Steady P m
      → ((e : Error) → Steady P (h e))
      → Steady P (on_integrity_error m h)
  unfolding on_integrity_error
  Steady-on_integrity_error m h km kh = record { at = λ db p. go (m db).0 (m db).1 (km.at db p) }
    where
      go :
          (r : Result A) (db' : Database)
          → P db'
          → P
              (let out : Result A × Database = elim r [
                | ok a ↦ (ok a, db')
                | err e ↦ elim e [
                  | Error.integrity message ↦ h (Error.integrity message) db'
                  | other ↦ (err other, db')
                ]
              ] in
                out).1
      go (ok a) db' p = p
      go (err (Error.integrity message)) db' p = (kh (Error.integrity message)).at db' p
      go (err (Error.invariant _)) db' p = p
      go (err (Error.value _)) db' p = p
      go (err (Error.key _)) db' p = p
      go (err Error.decimal) db' p = p
      go (err Error.overflow) db' p = p

  -- a rollback keeps everything
  pub Steady-transaction : (m : Action A) → Keeps P m → Steady P (transaction m)
  unfolding transaction
  Steady-transaction m km = record { at = λ db h. go (m db).0 (m db).1 db h (km.at db h) }
    where
      go :
          (r : Result A) (db' db : Database)
          → P db
          → Post (λ _ d. P d) (r, db')
          → P (transaction (λ _. (r, db')) db).1
      go (ok a) db' db h q = q
      go (err e) db' db h q = h

  -- what is kept in every case is kept by a return
  pub Keeps-of-Steady : (m : Action A) → Steady P m → Keeps P m
  Keeps-of-Steady m km = record { at = λ db h. go (m db).0 (m db).1 (km.at db h) }
    where
      go : (r : Result A) (db' : Database) → P db' → Post (λ _ d. P d) (r, db')
      go (ok a) db' p = p
      go (err e) db' p = tt

-- A write does not raise, so it keeps in every case what it keeps.
pub Steady-modify :
    {P : Database → Type 0} (f : Database → Database) → Keeps P (modify f) → Steady P (modify f)
Steady-modify f k = record { at = k.at }

-- `Q` where a call returned, `R` where it raised
abbrev pub Both :
    {A : Type 0} → (A → Database → Type 0) → (Database → Type 0) → Result A × Database → Type 0
Both Q R (ok a, d) = Q a d
Both Q R (err e, d) = R d

pub Both-bind :
    {A B : Type 0} (Q : A → Database → Type 0) (R : Database → Type 0) (m : Action A)
    (f : A → Action B) (db : Database)
    → Both Q R (m db)
    → ((a : A) (d : Database) → Q a d → R (f a d).1)
    → R ((m >>= f) db).1
Both-bind {A} {B} Q R m f db h k = go (m db).0 (m db).1 h
  where
    go :
        (r : Result A) (d : Database)
        → Both Q R (r, d)
        → R (let out : Result B × Database = elim r [ ok a ↦ f a d | err e ↦ raise e d ] in out).1
    go (ok a) d q = k a d q
    go (err e) d q = q

-- Both outcomes from a kept property and one that every outcome has.
pub Both-of :
    {A : Type 0} (Q : A → Database → Type 0) (R : Database → Type 0) (r : Result A × Database)
    → Post Q r
    → R r.1
    → Both (λ a d. Q a d × R d) R r
Both-of Q R (ok a, d) q r = (q, r)
Both-of Q R (err e, d) q r = r

pub Steady-raise_if : {P : Database → Type 0} (b : Bool) (e : Error) → Steady P (raise_if b e)
Steady-raise_if b e = record { at = λ db h. h }

module _ {A B : Type 0} {P : Database → Type 0} where
  pub Steady-bind :
      (m : Action A) (f : A → Action B)
      → Steady P m
      → ((a : A) → Steady P (f a))
      → Steady P (m >>= f)
  Steady-bind m f km kf = record { at = λ db h. go (m db).0 (m db).1 (km.at db h) }
    where
      go :
          (r : Result A) (db' : Database)
          → P db'
          → P
              (let out : Result B × Database = elim r [ ok a ↦ f a db' | err e ↦ raise e db' ] in
                out).1
      go (ok a) db' p = (kf a).at db' p
      go (err e) db' p = p

  -- the rest may use that the first step did not raise
  pub Steady-bind_lift :
      (r : Result A) (f : A → Action B)
      → ((a : A) → r ≡ ok a → Steady P (f a))
      → Steady P (lift r >>= f)
  Steady-bind_lift (ok a) f kf = kf a refl
  Steady-bind_lift (err e) f kf = record { at = λ db h. h }

  pub Steady-option :
      (o : Option A) (m : Action B) (f : A → Action B)
      → Steady P m
      → ((a : A) → Steady P (f a))
      → Steady P (match_option o m f)
  Steady-option none m f km kf = km
  Steady-option (some a) m f km kf = kf a

-- the same at one database
pub Steady-transaction-at :
    {A : Type 0} (P : Database → Type 0) (m : Action A) (db : Database)
    → P db
    → Post (λ _ d. P d) (m db)
    → P (transaction m db).1
unfolding transaction
Steady-transaction-at {A} P m db h q = go (m db).0 (m db).1 q
  where
    go :
        (r : Result A) (d : Database)
        → Post (λ _ d. P d) (r, d)
        → P (transaction (λ _. (r, d)) db).1
    go (ok a) d q = q
    go (err e) d q = h

pub ruleset steady_rules = (
  Steady-pure, Steady-raise, Steady-raise_if, Steady-lift, Steady-gets, Steady-if, Steady-option,
  Steady-on_integrity_error, Steady-bind,
)

-- ===== src/Store/Atomic.antt =====
-- Actions that leave the database as it was where they raise.
use capital_os.Base.{◌≡◌, refl}
use capital_os.Exec.{Error, Result, ok, err}
use capital_os.Store.{Database}
use capital_os.Store.Action.{Action, transaction, on_integrity_error, lift, ◌>>=◌}

pub record Atomic {A : Type 0} (m : Action A) : Type 0 where
  pub at : (db : Database) (e : Error) → (m db).0 ≡ err e → (m db).1 ≡ db

module _ {A : Type 0} where
  pub Atomic-transaction : (m : Action A) → Atomic (transaction m)
  unfolding transaction
  Atomic-transaction m = record { at = λ db e. go (m db).0 (m db).1 db e }
    where
      go :
          (r : Result A) (d db : Database) (e : Error)
          → (transaction (λ _. (r, d)) db).0 ≡ err e
          → (transaction (λ _. (r, d)) db).1 ≡ db
      go (ok a) d db e h = absurd (cc)
      go (err _) d db e h = refl

  pub Atomic-on_integrity_error :
      (m : Action A) (h : Error → Action A)
      → Atomic m
      → ((e : Error) → Atomic (h e))
      → Atomic (on_integrity_error m h)
  unfolding on_integrity_error
  Atomic-on_integrity_error m h am ah = record { at = λ db e. go (m db).0 (m db).1 db e (am.at db) }
    where
      go :
          (r : Result A) (d db : Database) (e : Error)
          → ((e' : Error) → r ≡ err e' → d ≡ db)
          → (on_integrity_error (λ _. (r, d)) h db).0 ≡ err e
          → (on_integrity_error (λ _. (r, d)) h db).1 ≡ db
      go (ok a) d db e same failed = absurd (cc)
      go (err (Error.integrity message)) d db e same failed =
          let back : d ≡ db = same (Error.integrity message) refl in
          let failed' : (h (Error.integrity message) db).0 ≡ err e = rw (← back) failed in
          rw back ((ah (Error.integrity message)).at db e failed')
      go (err (Error.invariant w)) d db e same failed = same (Error.invariant w) refl
      go (err (Error.value w)) d db e same failed = same (Error.value w) refl
      go (err (Error.key w)) d db e same failed = same (Error.key w) refl
      go (err Error.decimal) d db e same failed = same Error.decimal refl
      go (err Error.overflow) d db e same failed = same Error.overflow refl

module _ {A B : Type 0} where
  pub Atomic-lift :
      (r : Result A) (f : A → Action B) → ((a : A) → Atomic (f a)) → Atomic (lift r >>= f)
  Atomic-lift (ok a) f af = af a
  Atomic-lift (err e) f af = record { at = λ db _ _. refl }

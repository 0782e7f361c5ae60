-- ===== src/Exec.antt =====
-- The exceptions that the modelled code raises, results, and handlers over a state.
use capital_os.Base.{◌≡◌, refl, ◌⊎◌, inl, inr, String, Bool, true, false}

-- `invariant` is InvariantError, `value` ValueError, `integrity` sqlite3.IntegrityError,
-- `key` KeyError and `decimal` decimal.InvalidOperation.
pub data Error : Type 0 where
  invariant value integrity key : String → Error
  decimal overflow : Error

pub data Result {ℓ} (A : Type ℓ) : Type ℓ where
  ok : A → Result A
  err : Error → Result A

-- `if not c: raise e`
abbrev pub guard : Bool → Error → Result (Unit {0})
guard c e = elim c [ true ↦ ok tt | false ↦ err e ]

infixl 10 ◌>>=◌ ◌>>◌
-- an exception ends the block
abbrev pub ◌>>=◌ {ℓ κ} : {A : Type ℓ} {B : Type κ} → Result A → (A → Result B) → Result B
err raised >>= next = err raised
ok v >>= next = next v

pub Result-cases {ℓ} :
    {A : Type ℓ} (r : Result A) → ((a : A) × (r ≡ ok a)) ⊎ ((e : Error) × (r ≡ err e))
Result-cases (ok a) = inl (a, refl)
Result-cases (err e) = inr (e, refl)

abbrev pub ◌>>◌ {κ} : {B : Type κ} → Result (Unit {0}) → Result B → Result B
first >> second = first >>= λ done. second

-- Inversion of a chain that returned: the first step did, and the rest returned from its value.
pub >>=-eq-ok {ℓ κ} :
    {A : Type ℓ} {B : Type κ} (r : Result A) (next : A → Result B) {out : B}
    → (r >>= next) ≡ ok out
    → (v : A) × (r ≡ ok v) × (next v ≡ ok out)
>>=-eq-ok (err raised) next h = cc
>>=-eq-ok (ok v) next h = (v, refl, h)

pub ok_inj {ℓ} : {A : Type ℓ} {a b : A} → ok a ≡ ok b → a ≡ b
ok_inj h = cc

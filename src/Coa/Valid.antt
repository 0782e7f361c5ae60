-- ===== src/Coa/Valid.antt =====
-- What a chart of accounts that `validate_coa_payload` accepts is.
use capital_os.Base.{
  ◌≡◌, refl, sym, ap, ◌∙◌, inl, inr, String, Bool, true, false, ◌||◌, All-map, List, [], ◌∷◌, All,
  Distinct,
}
use capital_os.Exec.Error.{value}
use capital_os.Exec.{ok, guard, >>=-eq-ok, ok_inj}
use capital_os.Coa.{ParentRef, contains, assert_acyclic}
use capital_os.Coa.Acyclic.{Rooted, assert_acyclic-Rooted}
use capital_os.Coa.Validation.{
  Nodes, Entries, Yaml, sequence, node, get_value, Seen, read_accounts, check_version,
  check_accounts, check_parents, settle,
}
use capital_os.Coa.Payload.{nothing_seen, check_seen, validate_coa_payload}
use capital_os.Coa.Listed.{
  guard-ok, Entry, Lists, ids_of, refs_of, Remembered, check_accounts-eq_ok,
}

check_parents-All :
    (ids : List String) (refs : List ParentRef)
    → check_parents ids refs ≡ ok tt
    → All (λ r. contains r.parent_id ids ≡ true) refs
unfolding check_parents
check_parents-All ids [] h = tt
check_parents-All ids (r ∷ rest) h =
    let unknown = value "account_id has unknown parent_id" in
    let (done, guarded, others) = >>=-eq-ok (guard (contains r.parent_id ids) unknown) _ h in
    (guard-ok _ unknown guarded, check_parents-All ids rest others)

settle-Rooted :
    (refs : List ParentRef) → settle (assert_acyclic refs) ≡ ok tt → (a : String) → Rooted refs a
unfolding settle
settle-Rooted refs h = elim (assert_acyclic-Rooted refs) [
  | inl (m, returned, rooted) ↦ rooted
  | inr (refused, cycle) ↦ let bad = ap settle (sym refused) ∙ h in absurd (cc)
]

-- The accounts of a chart: each key once, every parent among them, and every line of parents ends.
pub record IsTree (es : List Entry) : Type 0 where
  pub once : Distinct (λ e. e.0) es
  pub known : All (λ r. contains r.parent_id (ids_of es) ≡ true) (refs_of es)
  pub rooted : (a : String) → Rooted (refs_of es) a

check_seen-IsTree :
    (payload : Entries) (seen : Seen) (es : List Entry)
    → Remembered nothing_seen seen es
    → check_seen payload seen ≡ ok tt
    → IsTree es
unfolding check_seen
check_seen-IsTree payload seen es r h =
    let (one, known, rest) = >>=-eq-ok (check_parents seen.account_ids seen.parent_refs) _ h in
    let (two, acyclic, others) = >>=-eq-ok (settle (assert_acyclic seen.parent_refs)) _ rest in
    record {
      once = r.once;
      known = rw (← r.refs) (
          All-map _ _
            (λ f k. sym (or-false (contains f.parent_id (ids_of es))) ∙ sym (r.ids f.parent_id) ∙ k)
            seen.parent_refs (check_parents-All seen.account_ids seen.parent_refs known));
      rooted = rw (← r.refs) (settle-Rooted seen.parent_refs acyclic);
    }
  where
    or-false : (b : Bool) → (b || false) ≡ b
    or-false true = refl
    or-false false = refl

read_accounts-sequence :
    (v : Yaml) (accounts : Nodes) → read_accounts v ≡ ok accounts → v ≡ sequence accounts
unfolding read_accounts
read_accounts-sequence (sequence (node v rest)) accounts h = ap sequence (ok_inj h)
read_accounts-sequence _ accounts h = cc

-- A payload that is accepted has a list of accounts, each an object with a text for its key and a text
-- or nothing for its parent; no two of them have the same key, the parent of each is one of them, and
-- every line of parents ends.
pub validate_coa_payload-IsTree :
    (spaced : String → Bool) (payload : Entries)
    → validate_coa_payload spaced payload ≡ ok tt
    → (accounts : Nodes) × (get_value "accounts" payload ≡ sequence accounts)
      × (es : List Entry) × Lists accounts es
      × IsTree es
unfolding validate_coa_payload
validate_coa_payload-IsTree spaced payload h =
    let (version, versioned, rest) = >>=-eq-ok (check_version (get_value "version" payload)) _ h in
    let (accounts, read, later) = >>=-eq-ok (read_accounts (get_value "accounts" payload)) _ rest in
    let (seen, checked, last) = >>=-eq-ok (check_accounts spaced nothing_seen accounts) _ later in
    let (es, lists, r) = check_accounts-eq_ok spaced nothing_seen seen accounts checked in
    (
      accounts,
      read_accounts-sequence (get_value "accounts" payload) accounts read,
      es,
      lists,
      check_seen-IsTree payload seen es r last,
    )

-- ===== src/Coa/Listed.antt =====
-- What the loop of `validate_coa_payload` (src/capital_os/db/coa_importer.py) has read of the accounts
-- when it ends.
use capital_os.Base.{
  ◌≡◌, ◌≢◌, refl, sym, ap, ◌∙◌, String, str_eq, eq_iff, Bool, true, false, not, ◌&&◌, ◌||◌, ◌++◌,
  All-map, Option, none, some, List, [], ◌∷◌, All, Distinct, arith,
}
use mathlib.Core.Path.{subst}
use mathlib.Core.List.{append_assoc, append-nil}
use capital_os.Exec.Error.{value}
use capital_os.Exec.{Error, ok, guard, >>=-eq-ok, ok_inj}
use capital_os.Coa.{ParentRef, contains}
use capital_os.Coa.Validation.{
  Nodes, Entries, Yaml, mapping, no_node, node, get_value, Seen, null, string, check_text,
  check_type, check_parent, check_optional, check_id, check_fields, add_seen, check_entry,
  check_account_item, check_accounts,
}

pub guard-ok : (c : Bool) (e : Error) → guard c e ≡ ok tt → c ≡ true
guard-ok true e h = refl
guard-ok false e h = cc

-- A key and the key of the parent, where there is one.
abbrev pub Entry : Type 0
Entry = String × Option String

abbrev parent_value : Option String → Yaml
parent_value none = null
parent_value (some p) = string p

-- The value is an object with this key and this parent.
abbrev pub IsAccount : Yaml → Entry → Type 0
IsAccount v e =
    (account : Entries) × (v ≡ mapping account)
    × (get_value "account_id" account ≡ string e.0)
    × (get_value "parent_id" account ≡ parent_value e.1)

-- The items of a list are accounts, one for each entry and in their order.
abbrev pub Lists : Nodes → List Entry → Type 0
Lists no_node [] = Unit
Lists no_node (e ∷ es) = ⊥
Lists (node v rest) [] = ⊥
Lists (node v rest) (e ∷ es) = IsAccount v e × Lists rest es

abbrev pub ids_of : List Entry → List String
ids_of [] = []
ids_of ((a, p) ∷ es) = a ∷ ids_of es

-- The accounts that have a parent.
abbrev pub refs_of : List Entry → List ParentRef
refs_of [] = []
refs_of ((a, none) ∷ es) = refs_of es
refs_of ((a, some p) ∷ es) = record { account_id = a; parent_id = p } ∷ refs_of es

check_parent-eq_ok : (v : Yaml) (p : Option String) → check_parent v ≡ ok p → v ≡ parent_value p
unfolding check_parent
check_parent-eq_ok null p h = ap parent_value (ok_inj h)
check_parent-eq_ok (string q) p h = ap parent_value (ok_inj h)
check_parent-eq_ok _ p h = cc

check_id-eq_ok :
    (spaced : String → Bool) (v : Yaml) (s : String) → check_id spaced v ≡ ok s → v ≡ string s
unfolding check_id
check_id-eq_ok spaced (string t) s h =
    let refused = value "account_id must be a non-empty string without spaces" in
    let (done, guarded, rest) =
      >>=-eq-ok (guard (not (str_eq t "") && not (spaced t)) refused) _ h in
    ap string (ok_inj rest)
check_id-eq_ok spaced _ s h = cc

check_fields-eq_ok :
    (account : Entries) (p : Option String)
    → check_fields account ≡ ok p
    → get_value "parent_id" account ≡ parent_value p
unfolding check_fields
check_fields-eq_ok account p h =
    let unnamed = value "name is required and must be a non-empty string" in
    let (name, named, h1) = >>=-eq-ok (check_text unnamed (get_value "name" account)) _ h in
    let (typed, of_type, h2) = >>=-eq-ok (check_type (get_value "type" account)) _ h1 in
    let (parent, found, h3) = >>=-eq-ok (check_parent (get_value "parent_id" account)) _ h2 in
    let (done, optional, h4) = >>=-eq-ok (check_optional account) _ h3 in
    check_parent-eq_ok (get_value "parent_id" account) p (found ∙ ap ok (ok_inj h4))

not-true : (b : Bool) → not b ≡ true → b ≡ false
not-true true h = cc
not-true false h = refl

-- What the loop read of an item, and what it remembers of it.
check_account_item-eq_ok :
    (spaced : String → Bool) (seen after : Seen) (v : Yaml)
    → check_account_item spaced seen v ≡ ok after
    → (e : Entry) × IsAccount v e
      × (contains e.0 seen.account_ids ≡ false)
      × (add_seen e.0 e.1 seen ≡ after)
unfolding check_account_item check_entry
check_account_item-eq_ok spaced seen after (mapping account) h =
    let (account_id, is_id, h1) =
      >>=-eq-ok (check_id spaced (get_value "account_id" account)) _ h in
    let duplicate = value "duplicate account_id" in
    let (done, guarded, h2) =
      >>=-eq-ok (guard (not (contains account_id seen.account_ids)) duplicate) _ h1 in
    let (parent, checked, added) = >>=-eq-ok (check_fields account) _ h2 in
    (
      (account_id, parent),
      (
        account,
        refl,
        check_id-eq_ok spaced (get_value "account_id" account) account_id is_id,
        check_fields-eq_ok account parent checked,
      ),
      not-true _ (guard-ok _ duplicate guarded),
      ok_inj added,
    )
check_account_item-eq_ok spaced seen after _ h = cc

add_seen-account_ids :
    (a : String) (p : Option String) (seen : Seen)
    → (add_seen a p seen).account_ids ≡ a ∷ seen.account_ids
unfolding add_seen
add_seen-account_ids a none seen = refl
add_seen-account_ids a (some p) seen = refl

add_seen-parent_refs :
    (a : String) (p : Option String) (seen : Seen) (es : List Entry)
    → (add_seen a p seen).parent_refs ++ refs_of es ≡ seen.parent_refs ++ refs_of ((a, p) ∷ es)
unfolding add_seen
add_seen-parent_refs a none seen es = refl
add_seen-parent_refs a (some p) seen es =
    append_assoc seen.parent_refs (record { account_id = a; parent_id = p } ∷ []) (refs_of es)

-- The entries are new beside the keys `ids`, and the loop ends with them remembered.
pub record Remembered (seen after : Seen) (es : List Entry) : Type 0 where
  pub once : Distinct (λ e. e.0) es
  pub fresh : All (λ e. contains e.0 seen.account_ids ≡ false) es
  pub ids :
      (x : String)
      → contains x after.account_ids ≡ contains x (ids_of es) || contains x seen.account_ids
  pub refs : after.parent_refs ≡ seen.parent_refs ++ refs_of es

Remembered-cons :
    (seen after : Seen) (e : Entry) (es : List Entry)
    → contains e.0 seen.account_ids ≡ false
    → Remembered (add_seen e.0 e.1 seen) after es
    → Remembered seen after (e ∷ es)
Remembered-cons seen after (a, p) es new r =
    let known = add_seen-account_ids a p seen in
    let fresh' : All (λ e. contains e.0 (a ∷ seen.account_ids) ≡ false) es = rw known at r.fresh in
    record {
      once = (All-map _ _ (λ e. apart a e.0) es fresh', r.once);
      fresh = (new, All-map _ _ (λ e. older a e.0) es fresh');
      ids = λ x. r.ids x ∙ rw known (ids_swap x a es);
      refs = r.refs ∙ add_seen-parent_refs a p seen es;
    }
  where
    apart : (a x : String) → contains x (a ∷ seen.account_ids) ≡ false → a ≢ x
    apart a x h e = let same = (eq_iff a x).1 e in cc

    older :
        (a x : String)
        → contains x (a ∷ seen.account_ids) ≡ false
        → contains x seen.account_ids ≡ false
    older a x h = ground arith

    ids_swap :
        (x a : String) (es : List Entry)
        → (contains x (ids_of es) || (str_eq a x || contains x seen.account_ids))
          ≡ ((str_eq a x || contains x (ids_of es)) || contains x seen.account_ids)
    ids_swap x a es = ground arith

pub check_accounts-eq_ok :
    (spaced : String → Bool) (seen after : Seen) (accounts : Nodes)
    → check_accounts spaced seen accounts ≡ ok after
    → (es : List Entry) × Lists accounts es × Remembered seen after es
unfolding check_accounts
check_accounts-eq_ok spaced seen after no_node h =
    let same = ok_inj h in
    (
      [],
      tt,
      record {
        once = tt;
        fresh = tt;
        ids = λ x. ap (λ (s : Seen). contains x s.account_ids) (sym same);
        refs = ap (λ (s : Seen). s.parent_refs) (sym same) ∙ sym (append-nil seen.parent_refs);
      },
    )
check_accounts-eq_ok spaced seen after (node v rest) h =
    let (later, first, others) = >>=-eq-ok (check_account_item spaced seen v) _ h in
    let (e, is, new, added) = check_account_item-eq_ok spaced seen later v first in
    let (es, lists, r) = check_accounts-eq_ok spaced later after rest others in
    (
      e ∷ es,
      (is, lists),
      Remembered-cons seen after e es new
          (subst (λ (s : Seen). Remembered s after es) (sym added) r),
    )

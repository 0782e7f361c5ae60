-- ===== src/Coa/Validation.antt =====
-- `validate_coa_payload` of src/capital_os/db/coa_importer.py. A value is what the YAML reader makes
-- of a file; `spaced` says whether a text has a space in it, as `str.isspace` does.
use capital_os.Base.{
  String, str_eq, Bool, true, false, ◌&&◌, not, Option, none, some, List, [], ◌∷◌, ◌++◌,
}
use capital_os.Exec.{Error, Result, ok, err, guard, ◌>>=◌, ◌>>◌}
use capital_os.Exec.Error.{value, overflow}
use capital_os.Int.{ℤ, pos, eqb_ℤ}
use capital_os.Coa.{ParentRef, contains, Search, finished, raised, out_of_fuel}

mutual
  -- `scalar` is a value that no check reads: a number with a point, a date
  pub data Yaml : Type 0 where
    null : Yaml
    scalar : Yaml
    bool : Bool → Yaml
    integer : ℤ → Yaml
    string : String → Yaml
    sequence : Nodes → Yaml
    mapping : Entries → Yaml

  pub data Nodes : Type 0 where
    no_node : Nodes
    node : Yaml → Nodes → Nodes

  pub data Entries : Type 0 where
    no_entry : Entries
    entry : String → Yaml → Entries → Entries

-- `payload.get(key)`
unfoldable pub get_value : String → Entries → Yaml
get_value key no_entry = null
get_value key (entry k v rest) =
    let later = get_value key rest in elim (str_eq k key) [ true ↦ v | false ↦ later ]

-- `key in payload`
unfoldable pub has : String → Entries → Bool
has key no_entry = false
has key (entry k v rest) =
    let later = has key rest in elim (str_eq k key) [ true ↦ true | false ↦ later ]

-- What the loop over the accounts collects.
pub record Seen : Type 0 where
  pub account_ids : List String
  pub parent_refs : List ParentRef

abbrev valid_account_types : List String
valid_account_types = "ASSET" ∷ "LIABILITY" ∷ "EQUITY" ∷ "INCOME" ∷ "EXPENSE" ∷ []

unfoldable is_string : Yaml → Bool
is_string (string s) = true
is_string _ = false

unfoldable is_bool : Yaml → Bool
is_bool (bool b) = true
is_bool _ = false

unfoldable is_mapping : Yaml → Bool
is_mapping (mapping m) = true
is_mapping _ = false

unfoldable all_strings : Nodes → Bool
unfolding is_string
all_strings no_node = true
all_strings (node v rest) = is_string v && all_strings rest

unfoldable is_string_list : Yaml → Bool
unfolding all_strings
is_string_list (sequence items) = all_strings items
is_string_list _ = false

-- `True` is the integer 1
unfoldable pub check_version : Yaml → Result (Unit {0})
check_version (integer v) = guard (eqb_ℤ v (pos 1)) (value "version must be 1")
check_version (bool b) = guard b (value "version must be 1")
check_version _ = err (value "version is required and must be an integer")

unfoldable pub read_accounts : Yaml → Result Nodes
read_accounts (sequence (node v rest)) = ok (node v rest)
read_accounts _ = err (value "accounts is required and must be a non-empty list")

unfoldable pub check_id : (String → Bool) → Yaml → Result String
check_id spaced (string s) =
    guard (not (str_eq s "") && not (spaced s))
      (value "account_id must be a non-empty string without spaces")
    >> ok s
check_id spaced _ = err (value "account_id must be a non-empty string without spaces")

unfoldable pub check_text : Error → Yaml → Result String
check_text refused (string s) = guard (not (str_eq s "")) refused >> ok s
check_text refused _ = err refused

unfoldable pub check_type : Yaml → Result (Unit {0})
check_type (string s) =
    guard (contains s valid_account_types) (value "type must be one of the types")
check_type _ = err (value "type must be one of the types")

unfoldable pub check_parent : Yaml → Result (Option String)
check_parent null = ok none
check_parent (string p) = ok (some p)
check_parent _ = err (value "parent_id must be string or null")

-- a key that may be missing
unfoldable check_present : (Yaml → Bool) → Error → String → Entries → Result (Unit {0})
unfolding get_value has
check_present test refused key account = elim (has key account) [
  | true ↦ guard (test (get_value key account)) refused
  | false ↦ ok tt
]

unfoldable check_refs : Nodes → Result (Unit {0})
unfolding get_value is_string
check_refs no_node = ok tt
check_refs (node (mapping ext) rest) =
    guard (is_string (get_value "system" ext) && is_string (get_value "ref" ext))
      (value "external_refs must contain string system/ref")
    >> check_refs rest
check_refs (node _ rest) = err (value "external_refs must be an object")

unfoldable check_external_refs : Entries → Result (Unit {0})
unfolding get_value has check_refs
check_external_refs account = elim (has "external_refs" account) [
  | false ↦ ok tt
  | true ↦ elim (get_value "external_refs" account) [
    | sequence refs ↦ check_refs refs
    | _ ↦ err (value "external_refs must be a list when present")
  ]
]

unfoldable pub check_optional : Entries → Result (Unit {0})
unfolding check_present check_external_refs is_string is_bool is_mapping is_string_list
check_optional account =
    check_present is_bool (value "is_active must be boolean when present") "is_active" account
    >> check_present is_string (value "currency must be string when present") "currency" account
    >> check_present is_string (value "description must be string when present") "description"
        account
    >> check_present is_mapping (value "metadata must be object/map when present") "metadata"
        account
    >> check_present is_string_list (value "tags must be list[str] when present") "tags" account
    >> check_external_refs account

unfoldable pub add_seen : String → Option String → Seen → Seen
add_seen account_id none seen = record {
  account_ids = account_id ∷ seen.account_ids;
  parent_refs = seen.parent_refs;
}
add_seen account_id (some p) seen = record {
  account_ids = account_id ∷ seen.account_ids;
  parent_refs = seen.parent_refs ++ record { account_id = account_id; parent_id = p } ∷ [];
}

-- what follows the test that the key is new
unfoldable pub check_fields : Entries → Result (Option String)
unfolding get_value check_text check_type check_parent check_optional
check_fields account =
    check_text (value "name is required and must be a non-empty string") (get_value "name" account)
    >>= λ name.
        check_type (get_value "type" account)
        >> (check_parent (get_value "parent_id" account) >>= λ parent.
            check_optional account >> ok parent)

unfoldable pub check_entry : Seen → String → Entries → Result Seen
unfolding check_fields add_seen
check_entry seen account_id account =
    guard (not (contains account_id seen.account_ids)) (value "duplicate account_id")
    >> (check_fields account >>= λ parent. ok (add_seen account_id parent seen))

unfoldable pub check_account_item : (String → Bool) → Seen → Yaml → Result Seen
unfolding get_value check_id check_entry
check_account_item spaced seen (mapping account) =
    check_id spaced (get_value "account_id" account) >>= λ account_id.
    check_entry seen account_id account
check_account_item spaced seen _ = err (value "accounts must be an object")

unfoldable pub check_accounts : (String → Bool) → Seen → Nodes → Result Seen
unfolding check_account_item
check_accounts spaced seen no_node = ok seen
check_accounts spaced seen (node v rest) =
    check_account_item spaced seen v >>= λ later. check_accounts spaced later rest

unfoldable pub check_parents : List String → List ParentRef → Result (Unit {0})
check_parents ids [] = ok tt
check_parents ids (r ∷ rest) =
    guard (contains r.parent_id ids) (value "account_id has unknown parent_id")
    >> check_parents ids rest

-- the fuel of the search is enough, so the last clause is not reached
unfoldable pub settle : Search → Result (Unit {0})
settle (finished m) = ok tt
settle (raised e) = err e
settle out_of_fuel = err overflow

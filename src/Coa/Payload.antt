-- ===== src/Coa/Payload.antt =====
-- The groups and aliases of a chart of accounts, and the whole of `validate_coa_payload`, in
-- src/capital_os/db/coa_importer.py.
use capital_os.Base.{String, Bool, false, not, List, [], ◌∷◌, if◌then◌else◌}
use capital_os.Exec.{Result, ok, err, guard, ◌>>=◌, ◌>>◌}
use capital_os.Exec.Error.{value}
use capital_os.Coa.{contains, assert_acyclic}
use capital_os.Coa.Validation.{
  Yaml, Nodes, Entries, null, string, sequence, mapping, no_node, node, get_value, has, Seen,
  check_version, check_text, read_accounts, check_accounts, check_parents, settle,
}

unfoldable is_known : List String → Yaml → Bool
is_known ids (string s) = contains s ids
is_known ids _ = false

unfoldable check_members : List String → Nodes → Result (Unit {0})
unfolding is_known
check_members ids no_node = ok tt
check_members ids (node v rest) =
    guard (is_known ids v) (value "groups references unknown account_id") >> check_members ids rest

unfoldable check_member_list : List String → Yaml → Result (Unit {0})
unfolding check_members
check_member_list ids (sequence refs) = check_members ids refs
check_member_list ids _ = err (value "account_ids must be a list when present")

-- `group.get("account_ids", [])`
unfoldable member_list : Entries → Yaml
unfolding get_value has
member_list group =
    if has "account_ids" group then get_value "account_ids" group else sequence no_node

unfoldable check_group : List String → List String → Yaml → Result (List String)
unfolding get_value check_text check_member_list member_list
check_group ids groups (mapping group) =
    check_text (value "group_id must be a non-empty string") (get_value "group_id" group)
    >>= λ group_id.
        guard (not (contains group_id groups)) (value "duplicate group_id")
        >> check_member_list ids (member_list group)
        >> ok (group_id ∷ groups)
check_group ids groups _ = err (value "groups must be an object")

unfoldable check_group_list : List String → List String → Nodes → Result (Unit {0})
unfolding check_group
check_group_list ids groups no_node = ok tt
check_group_list ids groups (node v rest) =
    check_group ids groups v >>= λ later. check_group_list ids later rest

unfoldable check_group_section : List String → Yaml → Result (Unit {0})
unfolding check_group_list
check_group_section ids null = ok tt
check_group_section ids (sequence groups) = check_group_list ids [] groups
check_group_section ids _ = err (value "groups must be a list when present")

unfoldable check_alias : List String → List String → Yaml → Result (List String)
unfolding get_value check_text is_known
check_alias ids aliases (mapping item) =
    check_text (value "alias must be a non-empty string") (get_value "alias" item) >>= λ alias.
    guard (not (contains alias aliases)) (value "duplicate alias")
    >> guard (is_known ids (get_value "account_id" item))
        (value "aliases references unknown account_id")
    >> ok (alias ∷ aliases)
check_alias ids aliases _ = err (value "aliases must be an object")

unfoldable check_alias_list : List String → List String → Nodes → Result (Unit {0})
unfolding check_alias
check_alias_list ids aliases no_node = ok tt
check_alias_list ids aliases (node v rest) =
    check_alias ids aliases v >>= λ later. check_alias_list ids later rest

unfoldable check_alias_section : List String → Yaml → Result (Unit {0})
unfolding check_alias_list
check_alias_section ids null = ok tt
check_alias_section ids (sequence aliases) = check_alias_list ids [] aliases
check_alias_section ids _ = err (value "aliases must be a list when present")

abbrev pub nothing_seen : Seen
nothing_seen = record { account_ids = []; parent_refs = [] }

-- what follows the loop over the accounts
unfoldable pub check_seen : Entries → Seen → Result (Unit {0})
unfolding get_value check_parents settle assert_acyclic check_group_section check_alias_section
check_seen payload seen =
    check_parents seen.account_ids seen.parent_refs
    >> (settle (assert_acyclic seen.parent_refs)
        >> (check_group_section seen.account_ids (get_value "groups" payload)
            >> check_alias_section seen.account_ids (get_value "aliases" payload)))

unfoldable pub validate_coa_payload : (String → Bool) → Entries → Result (Unit {0})
unfolding get_value check_version read_accounts check_accounts check_seen
validate_coa_payload spaced payload =
    check_version (get_value "version" payload)
    >> (read_accounts (get_value "accounts" payload) >>= λ accounts.
        check_accounts spaced nothing_seen accounts >>= λ seen. check_seen payload seen)

-- ===== src/Tests/Coa.antt =====
-- The theorems on the chart of accounts at a concrete chart.
use capital_os.Base.{◌≡◌, ◌⊎◌, refl, String, Bool, str_eq, List, [], ◌∷◌}
use capital_os.Coa.{ParentRef, Marks, finished, raised, cyclic, assert_acyclic}
use capital_os.Exec.{ok}
use capital_os.Int.{pos}
use capital_os.Coa.Validation.{
  Nodes, Entries, integer, string, sequence, no_node, node, mapping, no_entry, entry, get_value,
}
use capital_os.Coa.Payload.{validate_coa_payload}
use capital_os.Coa.Listed.{Entry, Lists}
use capital_os.Coa.Valid.{IsTree, validate_coa_payload-IsTree}
use capital_os.Coa.Acyclic.{Rooted, Ancestor, assert_acyclic-Rooted}

abbrev ref : String → String → ParentRef
ref a p = record { account_id = a; parent_id = p }

-- two accounts under one, in the order of a file that names a child first
abbrev tree : List ParentRef
tree = ref "checking" "bank" ∷ ref "bank" "assets" ∷ ref "savings" "bank" ∷ []

abbrev ring : List ParentRef
ring = ref "assets" "bank" ∷ ref "bank" "assets" ∷ []

tree_accepted :
    assert_acyclic tree
    ≡ finished (record { visited = "savings" ∷ "assets" ∷ "bank" ∷ "checking" ∷ []; in_stack = [] })
unfolding assert_acyclic
tree_accepted = refl

ring_refused : assert_acyclic ring ≡ raised cyclic
unfolding assert_acyclic
ring_refused = refl

assert_acyclic-Rooted_example :
    ((m : Marks) × (assert_acyclic tree ≡ finished m) × ((a : String) → Rooted tree a))
    ⊎ ((assert_acyclic tree ≡ raised cyclic) × ((a : String) × Ancestor tree a a))
assert_acyclic-Rooted_example = assert_acyclic-Rooted tree

-- the only text with a space is a blank
abbrev spaced : String → Bool
spaced s = str_eq s " "

abbrev top : Entries
top =
    entry "account_id" (string "assets")
      (entry "name" (string "Assets") (entry "type" (string "ASSET") no_entry))

abbrev below : Entries
below = entry "account_id" (string "bank") (
    entry "name" (string "Bank")
      (entry "type" (string "ASSET") (entry "parent_id" (string "assets") no_entry)))

abbrev cash : Entries
cash = entry "alias" (string "cash") (entry "account_id" (string "bank") no_entry)

abbrev chart : Entries
chart = entry "version" (integer (pos 1)) (
    entry "accounts" (sequence (node (mapping below) (node (mapping top) no_node)))
      (entry "aliases" (sequence (node (mapping cash) no_node)) no_entry))

chart_accepted : validate_coa_payload spaced chart ≡ ok tt
unfolding validate_coa_payload
chart_accepted = refl

validate_coa_payload-IsTree_example :
    (accounts : Nodes) × (get_value "accounts" chart ≡ sequence accounts)
    × (es : List Entry) × Lists accounts es
    × IsTree es
validate_coa_payload-IsTree_example = validate_coa_payload-IsTree spaced chart chart_accepted

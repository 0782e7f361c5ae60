-- ===== src/Coa.antt =====
-- The check that the parents in a chart of accounts have no cycle
-- (src/capital_os/db/coa_importer.py).
pub mod Sets
pub mod Acyclic
pub mod Validation
pub mod Payload
pub mod Listed
pub mod Valid
use capital_os.Base.{
  ℕ, zero, suc, String, str_eq, Bool, true, false, not, Option, none, some, List, [], ◌∷◌, any,
  find, select, length,
}
use capital_os.Exec.{Error}
use capital_os.Exec.Error.{value}

-- An entry of the dict `parent_refs`.
pub record ParentRef : Type 0 where
  pub account_id : String
  pub parent_id : String

-- `node in nodes`
abbrev pub contains : String → List String → Bool
contains node nodes = any (λ n. str_eq n node) nodes

-- `nodes.remove(node)`
abbrev pub remove : String → List String → List String
remove node nodes = select (λ n. not (str_eq n node)) nodes

-- The two sets that the search shares.
pub record Marks : Type 0 where
  pub visited : List String
  pub in_stack : List String

-- A search that returned with these sets, one that raised, and one that used up its fuel.
pub data Search : Type 0 where
  finished : Marks → Search
  raised : Error → Search
  out_of_fuel : Search

abbrev pub cyclic : Error
cyclic = value "account parent graph must be acyclic"

-- an empty parent counts as none
unfoldable pub truthy_parent : Option ParentRef → Option String
truthy_parent none = none
truthy_parent (some r) = elim (str_eq r.parent_id "") [ true ↦ none | false ↦ some r.parent_id ]

-- `parent_refs.get(node)`, and the test that follows it
unfoldable pub parent_of : List ParentRef → String → Option String
unfolding truthy_parent
parent_of refs node = truthy_parent (find (λ r. str_eq r.account_id node) refs)

unfoldable pub enter : String → Marks → Marks
enter node marks = record { visited = node ∷ marks.visited; in_stack = node ∷ marks.in_stack }

unfoldable pub leave : String → Search → Search
leave node (finished marks) =
    finished (record { visited = marks.visited; in_stack = remove node marks.in_stack })
leave node (raised e) = raised e
leave node out_of_fuel = out_of_fuel

unfoldable pub dfs : ℕ → List ParentRef → String → Marks → Search
unfolding parent_of enter leave
dfs zero refs node marks = out_of_fuel
dfs (suc n) refs node marks = elim (contains node marks.in_stack) [
  | true ↦ raised cyclic
  | false ↦ elim (contains node marks.visited) [
    | true ↦ finished marks
    | false ↦ elim (parent_of refs node) [
      | none ↦ leave node (finished (enter node marks))
      | some parent ↦ leave node (dfs n refs parent (enter node marks))
    ]
  ]
]

unfoldable pub search_next : (Marks → Search) → Search → Search
search_next next (finished marks) = next marks
search_next next (raised e) = raised e
search_next next out_of_fuel = out_of_fuel

-- `for node in parent_refs: dfs(node)`, each search with the given fuel
unfoldable pub search_all : ℕ → List ParentRef → List ParentRef → Marks → Search
unfolding dfs search_next
search_all n refs [] marks = finished marks
search_all n refs (r ∷ rest) marks =
    search_next (λ (m : Marks). search_all n refs rest m) (dfs n refs r.account_id marks)

unfoldable pub assert_acyclic : List ParentRef → Search
unfolding search_all
assert_acyclic refs =
    search_all (suc (length refs)) refs refs (record { visited = []; in_stack = [] })

-- ===== src/Tests/Runtime.antt =====
-- The theorems on the tool runtime at concrete inputs.
use capital_os.Base.{refl, inr, String, Option, none, some}
use capital_os.Exec.{Error}
use capital_os.Text.{Text, codes}
use capital_os.Json.{Members, no_member, member, string, get, as_string}
use capital_os.Store.{Database}
use capital_os.Runtime.{
  Handler, Caller, raised, is_write_tool, extract_correlation_id, execute_tool,
}
use capital_os.Runtime.FailClosed.{IsLogged, OnlyLogs, execute_tool-IsLogged, execute_tool-OnlyLogs}
use capital_os.Fixtures.{env, empty_books}

abbrev storage : Database → Option Error
storage _ = none

abbrev text_of : Text → String
text_of _ = "call-1"

-- every tool raises
abbrev broken : String → Option Handler
broken _ = some (λ e payload db. (raised (codes "out of reach"), db))

abbrev caller : Caller
caller = record {
  actor_id = "ann";
  authn_method = "header_token";
  authorization_result = "allowed";
}

abbrev call : Members
call = member (codes "correlation_id") (string (codes "call-1")) no_member

execute_tool-IsLogged_example :
    IsLogged "lock_period"
      (execute_tool env storage text_of broken "lock_period" caller call empty_books)
unfolding is_write_tool
execute_tool-IsLogged_example =
    execute_tool-IsLogged env storage text_of broken "lock_period" caller call empty_books refl

execute_tool-OnlyLogs_example :
    OnlyLogs empty_books
      (execute_tool env storage text_of broken "lock_period" caller no_member empty_books).1
unfolding extract_correlation_id get as_string
execute_tool-OnlyLogs_example =
    execute_tool-OnlyLogs env storage text_of broken "lock_period" caller no_member empty_books
      (inr refl)

-- ===== src/Runtime.antt =====
-- src/capital_os/runtime/execute_tool.py and src/capital_os/security/auth.py: who may call a tool,
-- and how a call is checked, run and answered. What a handler does is a parameter: it returns a
-- payload, refuses its input as pydantic does, or raises; `storage` says what the database raises
-- when an event is written.
pub mod FailClosed
use capital_os.Base.{
  ℕ, ◌+◌, suc, zero, String, str_eq, Bool, true, false, ◌&&◌, ◌||◌, not, Option, none, some, List,
  [], ◌∷◌, any, ltb, leb, ◌==◌, if◌then◌else◌, or_default, truthy,
}
use capital_os.Exec.{Error, Result, err}
use capital_os.Text.{Text, codes, text_eq}
use capital_os.Json.{
  Json, Values, no_value, value, Members, no_member, member, string, array, object, get, as_string,
}
use capital_os.Store.{Database, Env, Hashed}
use capital_os.Store.Action.{Action, raise, pure, transaction, ◌>>=◌, ◌>>◌}
use capital_os.EventLog.{EventFields, log_event}

pub record AuthContext : Type 0 where
  pub actor_id : String
  pub authn_method : String
  pub capabilities : List String

-- an identity of the configuration
pub record Identity : Type 0 where
  pub actor_id : String
  pub capabilities : List String

unfoldable pub authenticate_token : (String → Option Identity) → Option String → Option AuthContext
authenticate_token identities none = none
authenticate_token identities (some token) =
    if str_eq token "" then none else elim (identities token) [
      | none ↦ none
      | some identity ↦ some (record {
        actor_id = identity.actor_id;
        authn_method = "header_token";
        capabilities = identity.capabilities;
      })
    ]

unfoldable pub authorize_tool : (String → Option String) → AuthContext → String → Bool
authorize_tool required context tool_name = elim (required tool_name) [
  | none ↦ false
  | some capability ↦ any (str_eq capability) context.capabilities
]

abbrev pub write_tools : List String
write_tools =
    "create_account" ∷ "update_account_metadata" ∷ "update_account_profile"
    ∷ "record_transaction_bundle" ∷ "record_balance_snapshot" ∷ "create_or_update_obligation"
    ∷ "fulfill_obligation" ∷ "approve_proposed_transaction" ∷ "reject_proposed_transaction"
    ∷ "propose_config_change" ∷ "approve_config_change" ∷ "close_period" ∷ "lock_period" ∷ []

unfoldable pub is_write_tool : String → Bool
is_write_tool tool_name = any (str_eq tool_name) write_tools

-- [A-Za-z0-9._:-]
abbrev is_id_char : ℕ → Bool
is_id_char c =
    leb 65 c && leb c 90
    || (leb 97 c && leb c 122
        || (leb 48 c && leb c 57 || (c == 46 || (c == 95 || (c == 58 || c == 45)))))

-- `$` also matches before a newline that ends the text
abbrev is_last_newline : ℕ → Text → Bool
is_last_newline c [] = c == 10
is_last_newline c (_ ∷ _) = false

-- at most `n` more such characters
unfoldable pub matches_rest : ℕ → Text → Bool
matches_rest n [] = true
matches_rest zero (c ∷ cs) = is_last_newline c cs
matches_rest (suc n) (c ∷ cs) =
    let rest = matches_rest n cs in is_last_newline c cs || is_id_char c && rest

-- `CORRELATION_ID_PATTERN.match`
unfoldable pub matches_correlation_id : Text → Bool
unfolding matches_rest
matches_correlation_id [] = false
matches_correlation_id (c ∷ cs) = is_id_char c && matches_rest 127 cs

unfoldable pub extract_correlation_id : Members → Option Text
extract_correlation_id payload = elim (as_string (get (codes "correlation_id") payload)) [
  | none ↦ none
  | some t ↦ if matches_correlation_id t then some t else none
]

pub data ToolStatus : Type 0 where
  ok unknown_tool validation_error error event_log_failure : ToolStatus

pub record ToolResult : Type 0 where
  pub success : Bool
  pub payload : Members
  pub status : ToolStatus

-- how a handler ends: with a payload, with the errors of its validation, or with a message
pub data Outcome : Type 0 where
  returned : Members → Outcome
  invalid : Values → Outcome
  raised : Text → Outcome

abbrev pub Handler : Type 0
Handler = Env → Members → Database → Outcome × Database

abbrev pub entry : String → Json → Members → Members
entry key v rest = member (codes key) v rest

abbrev pub correlation_error : Members
correlation_error = entry "error" (string (codes "validation_error")) (
    entry "details"
      (array (
        value
          (object (
            entry "type" (string (codes "value_error")) (
              entry "loc"
                (array (
                  value (string (codes "body")) (value (string (codes "correlation_id")) no_value)))
                (entry "msg"
                  (string
                    (codes "correlation_id is required and must match ^[A-Za-z0-9._:-]{1,128}$"))
                  no_member))))
          no_value))
      no_member)

abbrev pub status_name : ToolStatus → String
status_name ToolStatus.ok = "ok"
status_name unknown_tool = "unknown_tool"
status_name validation_error = "validation_error"
status_name error = "error"
status_name event_log_failure = "event_log_failure"

abbrev pub unlogged : ToolResult
unlogged = record {
  success = false;
  payload = entry "error" (string (codes "event_log_failure")) no_member;
  status = event_log_failure;
}

-- who calls, as the adapters say it
pub record Caller : Type 0 where
  pub actor_id : String
  pub authn_method : String
  pub authorization_result : String

module _ (env : Env) (storage : Database → Option Error) (text_of : Text → String) where
  unfoldable pub write_event : Option Error → EventFields → Action (Unit {0})
  write_event none fields = log_event env fields
  write_event (some e) fields = raise e

  unfoldable pub log_block : EventFields → Action (Unit {0})
  unfolding write_event
  log_block fields db = write_event (storage db) fields db

  -- `False` where the event must be written and is not
  unfoldable pub was_logged : Bool → Result (Unit {0}) × Database → Bool × Database
  was_logged fail_closed (Result.ok _, d) = (true, d)
  was_logged fail_closed (err _, d) = (not fail_closed, d)

  unfoldable pub try_log_event : Bool → EventFields → Database → Bool × Database
  try_log_event fail_closed fields db = was_logged fail_closed (transaction (log_block fields) db)

  -- the error is logged, and then answered
  unfoldable pub or_unlogged : ToolResult → Bool × Database → ToolResult × Database
  or_unlogged result (true, d) = (result, d)
  or_unlogged result (false, d) = (unlogged, d)

  unfoldable pub answer_error :
      String → EventFields → Members → ToolStatus → Database → ToolResult × Database
  answer_error tool_name fields payload status db =
      or_unlogged (record { success = false; payload = payload; status = status })
        (try_log_event (is_write_tool tool_name) fields db)

  unfoldable pub error_fields :
      String → Caller → String → String → Members → Members → ToolStatus → String → EventFields
  error_fields tool_name caller authorization correlation_id payload error_payload status code =
      record {
        tool_name = tool_name;
        correlation_id = correlation_id;
        input_hash = env.payload_hash (Hashed.json payload);
        output_hash = env.payload_hash (Hashed.json error_payload);
        status = status_name status;
        error_code = some code;
        actor_id = some caller.actor_id;
        authn_method = some caller.authn_method;
        authorization_result = some authorization;
      }

  -- the answer to what the handler did
  unfoldable pub answer :
      String → Caller → Members → String → Outcome × Database → ToolResult × Database
  answer tool_name caller payload correlation_id (returned out, db) =
      (record { success = true; payload = out; status = ToolStatus.ok }, db)
  answer tool_name caller payload correlation_id (invalid details, db) =
      let body =
        entry "error" (string (codes "validation_error"))
          (entry "details" (array details) no_member) in
      answer_error tool_name
        (error_fields tool_name caller caller.authorization_result correlation_id payload body
          validation_error "validation_error")
        body validation_error db
  answer tool_name caller payload correlation_id (raised message, db) =
      let body =
        entry "error" (string (codes "tool_execution_error"))
          (entry "message" (string message) no_member) in
      answer_error tool_name
        (error_fields tool_name caller caller.authorization_result correlation_id payload body error
          "tool_execution_error")
        body error db

  -- the handler runs under the security context of the caller
  unfoldable pub run_handler :
      Handler → String → Caller → Members → Database → ToolResult × Database
  run_handler handler tool_name caller payload db = elim (extract_correlation_id payload) [
    | none ↦
        answer_error tool_name
          (error_fields tool_name caller "denied" "unknown" payload correlation_error
            validation_error "validation_error")
          correlation_error validation_error db
    | some t ↦ answer tool_name caller payload (text_of t) (
        handler
          (record env {
            context = some (record {
              actor_id = caller.actor_id;
              authn_method = caller.authn_method;
              authorization_result = caller.authorization_result;
            });
          })
          payload db)
  ]

  unfoldable pub execute_tool :
      (String → Option Handler) → String → Caller → Members → Database → ToolResult × Database
  execute_tool handlers tool_name caller payload db = elim (handlers tool_name) [
    | none ↦ (
      record {
        success = false;
        payload =
            entry "error" (string (codes "unknown_tool"))
              (entry "tool" (string (codes tool_name)) no_member);
        status = unknown_tool;
      },
      db,
    )
    | some handler ↦ run_handler handler tool_name caller payload db
  ]

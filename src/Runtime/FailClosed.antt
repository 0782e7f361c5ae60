-- ===== src/Runtime/FailClosed.antt =====
-- A write tool does not answer an error that the event log lacks, and a call that is not run writes
-- nothing but the log.
use capital_os.Base.{
  ◌≡◌, refl, sym, ap, ◌∙◌, ◌+◌, not, ◌⊎◌, inl, inr, String, Bool, true, false, Option, none, some,
  List, [], ◌∷◌, ◌++◌, Option-cases,
}
use capital_os.Exec.{Error}
use capital_os.Text.{Text}
use capital_os.Json.{Members}
use capital_os.Store.{Database, Env, Event}
use capital_os.Store.Action.{transaction}
use capital_os.EventLog.{EventFields, event_of, log_event}
use capital_os.Runtime.{
  ToolStatus, unknown_tool, validation_error, error, event_log_failure, ToolResult, Outcome,
  returned, invalid, raised, Handler, Caller, status_name, is_write_tool, extract_correlation_id,
  write_event, was_logged, or_unlogged, log_block, try_log_event, answer_error, error_fields,
  answer, run_handler, execute_tool,
}

-- The last event of the log is one of the tool with the status of the answer.
pub record LastEvent (tool_name : String) (status : ToolStatus) (db : Database) : Type 0 where
  pub before : List Event
  pub event : Event
  pub at_the_end : db.event_log ≡ before ++ event ∷ []
  pub of_the_tool : event.tool_name ≡ tool_name
  pub same_status : event.status ≡ status_name status

-- The call went well, no tool of the name exists, the event could not be written and the answer
-- says so, or the answer is in the log.
abbrev pub IsLogged : String → ToolResult × Database → Type 0
IsLogged tool_name (r, db) =
    (r.status ≡ ToolStatus.ok)
    ⊎ ((r.status ≡ unknown_tool)
        ⊎ ((r.status ≡ event_log_failure) ⊎ LastEvent tool_name r.status db))

-- Only the log and the counter of keys differ.
abbrev pub OnlyLogs : Database → Database → Type 0
OnlyLogs db d = d ≡ record db { event_log = d.event_log; next_id = d.next_id }

module _ (env : Env) (storage : Database → Option Error) (text_of : Text → String) where
  -- the log has the event, or it cannot be written and nothing is
  try_log_event-logged :
      (b : Bool) (fields : EventFields) (db : Database)
      → storage db ≡ none
      → try_log_event env storage text_of b fields db ≡ (
        true,
        record db {
          event_log = db.event_log ++ event_of env fields db.next_id ∷ [];
          next_id = db.next_id + 1;
        },
      )
  unfolding try_log_event log_block write_event was_logged transaction log_event
  try_log_event-logged b fields db works =
      ap
        (λ (o : Option Error).
          was_logged env storage text_of b
            (transaction (λ d. write_event env storage text_of o fields d) db))
        works

  try_log_event-failed :
      (b : Bool) (fields : EventFields) (db : Database) (e : Error)
      → storage db ≡ some e
      → try_log_event env storage text_of b fields db ≡ (not b, db)
  unfolding try_log_event log_block write_event was_logged transaction
  try_log_event-failed b fields db e fails =
      ap
        (λ (o : Option Error).
          was_logged env storage text_of b
            (transaction (λ d. write_event env storage text_of o fields d) db))
        fails

  answer_error-IsLogged :
      (tool_name : String) (fields : EventFields) (payload : Members) (status : ToolStatus)
      (db : Database)
      → is_write_tool tool_name ≡ true
      → fields.tool_name ≡ tool_name
      → fields.status ≡ status_name status
      → IsLogged tool_name (answer_error env storage text_of tool_name fields payload status db)
  unfolding answer_error or_unlogged event_of
  answer_error-IsLogged tool_name fields payload status db write named marked =
      elim (Option-cases (storage db)) [
        | inl works ↦ rw (try_log_event-logged (is_write_tool tool_name) fields db works) (
            inr (
              inr (
                inr (record {
                  before = db.event_log;
                  event = event_of env fields db.next_id;
                  at_the_end = refl;
                  of_the_tool = named;
                  same_status = marked;
                }))))
        | inr (e, fails) ↦
            rw (try_log_event-failed (is_write_tool tool_name) fields db e fails, write)
              (inr (inr (inl refl)))
      ]

  answer_error-OnlyLogs :
      (tool_name : String) (fields : EventFields) (payload : Members) (status : ToolStatus)
      (db : Database)
      → OnlyLogs db (answer_error env storage text_of tool_name fields payload status db).1
  unfolding answer_error or_unlogged
  answer_error-OnlyLogs tool_name fields payload status db = elim (Option-cases (storage db)) [
    | inl works ↦ rw (try_log_event-logged (is_write_tool tool_name) fields db works) refl
    | inr (e, fails) ↦
        rw (try_log_event-failed (is_write_tool tool_name) fields db e fails)
          (either (not (is_write_tool tool_name)))
  ]
    where
      either :
          (b : Bool)
          → OnlyLogs db
              (or_unlogged env storage text_of
                (record { success = false; payload = payload; status = status })
                (b, db)).1
      either true = refl
      either false = refl

  answer-IsLogged :
      (tool_name : String) (caller : Caller) (payload : Members) (id : String)
      (ended : Outcome × Database)
      → is_write_tool tool_name ≡ true
      → IsLogged tool_name (answer env storage text_of tool_name caller payload id ended)
  unfolding answer error_fields
  answer-IsLogged tool_name caller payload id (returned out, db) write = inl refl
  answer-IsLogged tool_name caller payload id (invalid details, db) write =
      answer_error-IsLogged tool_name _ _ validation_error db write refl refl
  answer-IsLogged tool_name caller payload id (raised message, db) write =
      answer_error-IsLogged tool_name _ _ error db write refl refl

  -- A call of a tool that writes goes well, names no tool, or answers an error that is the last
  -- event of the log, whatever the handler does; where the event cannot be written, it answers that
  -- and not the error.
  pub execute_tool-IsLogged :
      (handlers : String → Option Handler) (tool_name : String) (caller : Caller)
      (payload : Members) (db : Database)
      → is_write_tool tool_name ≡ true
      → IsLogged tool_name (execute_tool env storage text_of handlers tool_name caller payload db)
  unfolding execute_tool run_handler error_fields
  execute_tool-IsLogged handlers tool_name caller payload db write =
      elim (Option-cases (handlers tool_name)) [
        | inl none_such ↦ rw (execute_tool, none_such) (inr (inl refl))
        | inr (handler, found) ↦ elim (Option-cases (extract_correlation_id payload)) [
          | inl bad ↦
              rw (execute_tool, found, run_handler, bad)
                (answer_error-IsLogged tool_name _ _ validation_error db write refl refl)
          | inr (t, good) ↦
              rw (execute_tool, found, run_handler, good)
                (answer-IsLogged tool_name caller payload _ _ write)
        ]
      ]

  -- A call of a tool that does not exist, or without a correlation id of the pattern, changes
  -- nothing but the event log, whatever the handlers do.
  pub execute_tool-OnlyLogs :
      (handlers : String → Option Handler) (tool_name : String) (caller : Caller)
      (payload : Members) (db : Database)
      → (handlers tool_name ≡ none) ⊎ (extract_correlation_id payload ≡ none)
      → OnlyLogs db (execute_tool env storage text_of handlers tool_name caller payload db).1
  unfolding execute_tool run_handler
  execute_tool-OnlyLogs handlers tool_name caller payload db refused =
      elim (Option-cases (handlers tool_name)) [
        | inl none_such ↦ rw (execute_tool, none_such) refl
        | inr (handler, found) ↦ elim refused [
          | inl none_such ↦ absurd (let clash : none ≡ some handler = sym none_such ∙ found in cc)
          | inr bad ↦
              rw (execute_tool, found, run_handler, bad) (answer_error-OnlyLogs tool_name _ _ _ db)
        ]
      ]

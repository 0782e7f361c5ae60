-- ===== src/EventLog.antt =====
-- src/capital_os/observability/event_log.py. The timestamp and the duration of an event are not
-- modelled.
use capital_os.Base.{ℕ, String, Option, none, some, [], ◌∷◌, ◌++◌}
use capital_os.Store.{Event, Env, SecurityContext}
use capital_os.Store.Action.{Action, ◌>>=◌, modify, fresh_id}

-- the keyword arguments of `log_event` that are not None by default
pub record EventFields : Type 0 where
  pub tool_name : String
  pub correlation_id : String
  pub input_hash : String
  pub output_hash : String
  pub status : String
  pub error_code : Option String
  pub actor_id : Option String
  pub authn_method : Option String
  pub authorization_result : Option String

-- the argument, else the field of the security context, else None
effective : Option String → Option SecurityContext → (SecurityContext → String) → Option String
effective (some v) c f = some v
effective none none f = none
effective none (some c) f = some (f c)

module _ (env : Env) where
  unfoldable pub event_of : EventFields → ℕ → Event
  unfolding effective
  event_of e n = record {
    event_id = n;
    tool_name = e.tool_name;
    correlation_id = e.correlation_id;
    input_hash = e.input_hash;
    output_hash = e.output_hash;
    status = e.status;
    error_code = e.error_code;
    actor_id = effective e.actor_id env.context (λ c. c.actor_id);
    authn_method = effective e.authn_method env.context (λ c. c.authn_method);
    authorization_result =
        effective e.authorization_result env.context (λ c. c.authorization_result);
  }

  unfoldable pub log_event : EventFields → Action (Unit {0})
  unfolding event_of
  log_event e = do
    n ← fresh_id
    modify (λ db. record db { event_log = db.event_log ++ event_of e n ∷ [] })

-- the event of a call that went well
unfoldable pub ok_event : String → String → String → String → EventFields
ok_event tool correlation_id input_hash output_hash = record {
  tool_name = tool;
  correlation_id = correlation_id;
  input_hash = input_hash;
  output_hash = output_hash;
  status = "ok";
  error_code = none;
  actor_id = none;
  authn_method = none;
  authorization_result = none;
}

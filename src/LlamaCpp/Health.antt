-- ===== src/LlamaCpp/Health.antt =====
-- The health probe of app/backends/llama_cpp.py, with the last state that the adapter remembers.
pub mod Answers
use syn.Common.{
  Bool, true, false, not, Option, none, some, List, [], ◌∷◌, ◌++◌, ◌==◌, str_eq, if◌then◌else◌,
}
use syn.Common.Text.{Text}
use syn.Common.Json.{
  Json, Items, Fields, null, bool, num, decimal, str, arr, obj, nil, cons, end, field, get_field,
}
use syn.Errors.{Exn, other, Result, ok, err, ◌>>=◌}
use syn.Backend.{BackendHealthState, unknown, reachable, unreachable, timeout, invalid}
use syn.LlamaCpp.{
  Reply, TransportError, transport_failed, crashed, answered, is_timeout, get_or, runtime_model,
  runtime_model_info,
}

unfoldable pub same_state : BackendHealthState → BackendHealthState → Bool
same_state unknown unknown = true
same_state reachable reachable = true
same_state unreachable unreachable = true
same_state timeout timeout = true
same_state invalid invalid = true
same_state _ _ = false

-- The lines that `_record_health` logs.
pub data HealthLog : Type 0 where
  recovered : HealthLog
  degraded : BackendHealthState → HealthLog

pub record HealthReport : Type 0 where
  pub state : BackendHealthState
  pub is_reachable : Bool
  pub configured : Bool
  pub server_version : Json
  pub model : Option Text

-- What a change to a state logs.
unfoldable pub log_of : BackendHealthState → List HealthLog
log_of reachable = recovered ∷ []
log_of s = degraded s ∷ []

-- What is logged where a state is remembered: only changes.
unfoldable pub logged : Option BackendHealthState → BackendHealthState → List HealthLog
logged none s = []
logged (some prev) s = if same_state prev s then [] else log_of s

-- A report, what is logged of it, and `_last_state` afterwards.
pub record Recorded : Type 0 where
  pub report : HealthReport
  pub logs : List HealthLog
  pub last_state : Option BackendHealthState

-- if prev is not state: self._last_state = state
unfoldable pub remembered :
    Option BackendHealthState → BackendHealthState → Option BackendHealthState
remembered none s = some s
remembered (some prev) s = if same_state prev s then some prev else some s

-- LlamaCppBackend._record_health
unfoldable pub record_health :
    Option BackendHealthState → BackendHealthState → Json → Option Text → Recorded
unfolding logged same_state remembered
record_health prev state version model = record {
  report = record {
    state = state;
    is_reachable = same_state state reachable;
    configured = true;
    server_version = version;
    model = model;
  };
  logs = logged prev state;
  last_state = remembered prev state;
}

-- v == "ok", of an entry that may be missing
unfoldable pub is_ok : Option Json → Bool
is_ok (some (str s)) = str_eq s "ok"
is_ok (some null) = false
is_ok (some (bool b)) = false
is_ok (some (num n)) = false
is_ok (some (decimal s)) = false
is_ok (some (arr items)) = false
is_ok (some (obj d)) = false
is_ok none = false

module _ (text : Json → Text) where
  -- What is found out, in the order of the code's returns: the state, the version and the model. The
  -- second reply is that of the model discovery.
  unfoldable pub probe_body : Option Json → Reply → BackendHealthState × Json × Option Text
  unfolding is_ok
  probe_body none discovery = (invalid, null, none)
  probe_body (some (obj d)) discovery =
      if is_ok (get_field d "status")
      then (reachable, get_or d "version" null, runtime_model (runtime_model_info text discovery))
      else (invalid, null, none)
  probe_body (some _) discovery = (invalid, null, none)

  unfoldable pub probe : Reply → Reply → Result (BackendHealthState × Json × Option Text)
  unfolding probe_body
  probe (transport_failed e) discovery =
      ok (if is_timeout e then timeout else unreachable, null, none)
  probe crashed discovery = err other
  probe (answered status body) discovery =
      if status == 503
      then ok (unreachable, null, none)
      else if not (status == 200)
      then ok (unreachable, null, none)
      else ok (probe_body body discovery)

  -- LlamaCppBackend.health, from the remembered state
  unfoldable pub health : Reply → Reply → Option BackendHealthState → Result Recorded
  unfolding probe
  health reply discovery prev = do
    found ← probe reply discovery
    ok (record_health prev found.0 found.1 found.2)

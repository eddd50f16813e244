-- ===== src/Server/Routes.antt =====
-- The routes of src/server.py that stand behind a tier.
use unison_capabilities.Base.{String, ◌<>◌, Option, none, some}
use unison_capabilities.Value.{
  Value, Fields, end, obj, get, get_default, Python, text_or_empty, to_text,
}
use unison_capabilities.Error
use unison_capabilities.Error.{
  Error, Result, ok, err, manifest_error, install_error, python_error, message, raise_if,
}
use unison_capabilities.Audit.{AuditEvent}
use unison_capabilities.Security.{Tier, read, run, admin_install, admin_remove}
use unison_capabilities.Server.{Call}

-- The routes, with what the framework reads of the path, the query and the body.
pub data Route : Type 0 where
  search_route : (payload : Fields) → Route
  resolve_route : (payload : Fields) → Route
  install_route : (payload : Fields) → Route
  run_route : (payload : Fields) → Route
  list_route : Route
  get_route : (capability_id : String) (version : Option String) → Route
  remove_route : (capability_id version : String) → Route
  oauth_start_route : (payload : Fields) → Route
  oauth_complete_route : (payload : Fields) → Route
  factory_reset_route : Route

-- The dependency of each route.
unfoldable pub tier_of : Route → Tier
tier_of (search_route payload) = read
tier_of (resolve_route payload) = read
tier_of (install_route payload) = admin_install
tier_of (run_route payload) = run
tier_of list_route = read
tier_of (get_route capability_id version) = read
tier_of (remove_route capability_id version) = admin_remove
tier_of (oauth_start_route payload) = admin_install
tier_of (oauth_complete_route payload) = admin_install
tier_of factory_reset_route = admin_remove

-- The name under which `_metric` counts a route.
abbrev pub path_of : Route → String
path_of (search_route payload) = "/capability/search"
path_of (resolve_route payload) = "/capability/resolve"
path_of (install_route payload) = "/capability/install"
path_of (run_route payload) = "/capability/run"
path_of list_route = "/capability/list"
path_of (get_route capability_id version) = "/capability/get"
path_of (remove_route capability_id version) = "/capability/remove"
path_of (oauth_start_route payload) = "/capability/oauth/start"
path_of (oauth_complete_route payload) = "/capability/oauth/complete"
path_of factory_reset_route = "/capability/factory_reset"

-- an event of a request that is let through
abbrev pub allowed : String → Fields → Call → Option String → Option String → AuditEvent
allowed event user call resource_type resource_id = record {
  event = event;
  principal = obj user;
  request_id = call.request_id;
  resource_type = resource_type;
  resource_id = resource_id;
  classification = "internal";
  outcome = "allow";
  reason = none;
  extra = end;
  severity = "INFO";
}

-- an event of an `except` block
abbrev pub error_event : String → Fields → Call → Option String → Option String → Error → AuditEvent
error_event event user call resource_type resource_id e =
    record (allowed event user call resource_type resource_id) {
      outcome = "error";
      reason = some (message e);
      severity = "ERROR";
    }

-- `candidate.get("manifest", {}).get("id")` in the `except` block: only a dict has `get`
abbrev pub id_in : Value → Result Value
id_in (obj m) = ok (get "id" m)
id_in v = err (python_error "AttributeError")

unfoldable pub failed_id : ⦃py : Python⦄ → Value → Result String
failed_id (obj candidate) =
    Error.◌>>=◌ (id_in (get_default "manifest" (obj end) candidate)) λ v. ok (to_text v)
failed_id v = ok ""

module _ ⦃py : Python⦄ where
  abbrev step_intent : Value → String
  step_intent (obj step) = text_or_empty (get "intent" step)
  step_intent v = ""

  -- The event that the `except` block of a route logs.
  unfoldable pub failure_event : Route → Fields → Call → Error → Result AuditEvent
  failure_event (search_route payload) user call e = ok (
      error_event "capability.search" user call (some "intent")
        (some (text_or_empty (get "intent" payload))) e)
  failure_event (resolve_route payload) user call e = ok (
      error_event "capability.resolve" user call (some "intent")
        (some (step_intent (get "step" payload))) e)
  failure_event (install_route payload) user call e =
      Error.◌>>=◌ (failed_id (get "candidate" payload)) λ id.
        ok (error_event "capability.install_failure" user call (some "capability") (some id) e)
  failure_event (run_route payload) user call e = ok (
      error_event "capability.run_failure" user call (some "capability")
        (some (text_or_empty (get "capability_id" payload))) e)
  failure_event list_route user call e = ok (error_event "capability.list" user call none none e)
  failure_event (get_route capability_id version) user call e =
      ok (error_event "capability.get" user call (some "capability") (some capability_id) e)
  failure_event (remove_route capability_id version) user call e = ok (
      error_event "capability.remove" user call (some "capability")
        (some (capability_id <> "@" <> version)) e)
  failure_event (oauth_start_route payload) user call e =
      ok (error_event "oauth.start" user call none none e)
  failure_event (oauth_complete_route payload) user call e =
      ok (error_event "oauth.complete" user call none none e)
  failure_event factory_reset_route user call e =
      ok (error_event "capability.factory_reset" user call none none e)

-- ===== src/Tests/Requests.antt =====
-- Requests to a concrete service.
use unison_capabilities.Base.{
  ◌+◌, ◌≡◌, ◌≢◌, refl, ◌⊎◌, inl, inr, true, false, none, some, List, [], ◌∷◌, All, member,
}
use unison_capabilities.Base.Dict
use unison_capabilities.Value.{decimal, Fields, end, field, obj, str, null, get, has}
use unison_capabilities.Error.{ok}
use unison_capabilities.Audit.{audit_line}
use unison_capabilities.Store.{absent, merged_catalog}
use unison_capabilities.Security.{
  Response, reply, http_error, service_user, dispatch, authenticate, authorize, admit_tier,
  user_roles, username_of,
}
use unison_capabilities.Resolver.{Setup, get_capability}
use unison_capabilities.Governance.{fresh_guard}
use unison_capabilities.Server.{
  App, Api, Call, guarded, observe, metric, http_error_of, log_line, count_in,
}
use unison_capabilities.Server.Routes.{
  Route, get_route, remove_route, install_route, tier_of, allowed, failure_event,
}
use unison_capabilities.Server.Handlers.{get_body, body_of, handle, admit, serve, serve_all}
use unison_capabilities.Server.Admission.{StoreOutcome, CannotWrite, serve_store, serve_all_store}
use unison_capabilities.Server.Failures.{BodyIsLogged, IsUnlogged, failure-IsLogged}
use unison_capabilities.Server.Counted.{requests_of, admitted_in, serve_all_counts}
use unison_capabilities.Server.Unlogged.{install_unlogged}
use unison_capabilities.Tests.Fixtures.{plain_python, lax_schema, first_letters, base_only, reading}
use unison_capabilities.Tests.Connectors.{google_only, one_secret, manager}

abbrev setup : Setup
setup = record {
  policy = record { trust_allow = "local" ∷ [] };
  registries = [];
  egress = none;
  http_client = λ url. ok null;
  disk = record { fault = λ step. none; residue = λ dir. none };
  sources = λ path. none;
}

-- No authentication: every caller is a service that may read and run; only operators write.
abbrev api : Api (Unit {0})
api = record {
  unsafe_allow_nonlocal = false;
  tokens = none;
  environment = none;
  auth = record { mode = "disabled"; static_bearer_token = none; unsafe_allow_no_auth = true };
  authz = record {
    read_roles = "service" ∷ [];
    run_roles = "service" ∷ [];
    admin_roles = "operator" ∷ [];
    install_allowed_services = [];
    remove_allowed_services = "unauthenticated" ∷ [];
  };
  setup = setup;
  engine = record {
    run = λ manifest args (store, w). (ok null, (record store { local_catalog = absent }, w));
  };
  allow_legacy = none;
  audit = manager.audit;
  secrets_key = ok tt;
  oauth = manager;
  bind_identity = none;
  add = λ a b. a;
}

-- the same, where a service may install
abbrev open_api : Api (Unit {0})
open_api = record api {
  authz = record api.authz { install_allowed_services = "unauthenticated" ∷ [] };
}

abbrev local_call : Call
local_call = record {
  client = some "127.0.0.1";
  credentials = none;
  request_id = some "r-1";
  now = 0;
  seconds = decimal false 1 3;
  uuid = "u-1";
}

abbrev far_call : Call
far_call = record local_call { client = some "10.0.0.9" }

abbrev pub app : App (Unit {0})
app = record {
  service = record { store = base_only; guard = fresh_guard; world = tt };
  secrets = absent;
  sessions = absent;
  log = [];
  metrics = record { requests = []; latency_sum = []; latency_count = [] };
}

admitting : Unit {0}
unfolding admit tier_of dispatch admit_tier authenticate authorize user_roles username_of member get
    Dict.lookup
admitting = tt

serving : Unit {0}
unfolding admitting reading serve handle body_of guarded observe metric http_error_of log_line
    get_body get_capability merged_catalog Dict.update count_in failure_event
serving = tt

-- One request of this host, and one of another.
abbrev history : List (Call × Route)
history = (local_call, get_route "no.such" none) ∷ (far_call, remove_route "demo.echo" "0.1.0") ∷ []

get_test :
    (serve api local_call (get_route "no.such" none) app).0
    ≡ http_error 404 "capability not found: no.such"
unfolding serving
get_test = refl

serve_store_example :
    StoreOutcome api far_call
      (tier_of (remove_route "demo.echo" "0.1.0"))
      base_only
      (serve api far_call (remove_route "demo.echo" "0.1.0") app).1.service.store
serve_store_example = serve_store api far_call (remove_route "demo.echo" "0.1.0") app

not_local : (r : Response (Unit {0})) → r ≡ http_error 403 "non-local access denied" → r ≢ reply tt
not_local r e h = cc

history-CannotWrite : All (CannotWrite api) history
unfolding tier_of dispatch member
history-CannotWrite = (
  λ writing may. elim writing [
    | inl admin ↦ elim admin [ inl e ↦ absurd (cc (e)) | inr e ↦ absurd (cc (e)) ]
    | inr e ↦ absurd (cc (e))
  ],
  (λ admin may. not_local (dispatch false (some "10.0.0.9")) refl may.local, tt),
)

serve_all_store_example : (serve_all api history app).service.store ≡ base_only
serve_all_store_example = serve_all_store api history app history-CannotWrite

serve_all_counts_example :
    requests_of "/capability/get" (serve_all api history app)
    ≡ admitted_in api "/capability/get" history + requests_of "/capability/get" app
serve_all_counts_example = serve_all_counts api "/capability/get" history app

failure-IsLogged_example :
    BodyIsLogged api local_call
      (service_user "unauthenticated")
      (get_route "no.such" none)
      (metric "/capability/get" app)
      404
      "capability not found: no.such"
      (serve api local_call (get_route "no.such" none) app).1.log
    ⊎ IsUnlogged api local_call (service_user "unauthenticated") (get_route "no.such" none) 404
unfolding serving
failure-IsLogged_example =
    failure-IsLogged api local_call (service_user "unauthenticated") (get_route "no.such" none) app
      404 "capability not found: no.such" refl refl

-- A candidate whose manifest is a text.
abbrev bad_payload : Fields
bad_payload = field "candidate" (obj (field "manifest" (str "demo.echo") end)) end

install_unlogged_example :
    ((serve open_api local_call (install_route bad_payload) app).0
      ≡ http_error 500 "Internal Server Error")
    × ((serve open_api local_call (install_route bad_payload) app).1.log
        ≡ audit_line open_api.audit (
            allowed "capability.install_start"
              (service_user "unauthenticated")
              local_call
              (some "capability")
              (some ""))
          ∷ [])
unfolding admitting has
install_unlogged_example =
    install_unlogged open_api local_call (service_user "unauthenticated") bad_payload
      (field "manifest" (str "demo.echo") end) app refl refl refl refl

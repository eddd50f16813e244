-- ===== src/Tests/Reports.antt =====
-- What the open routes report of a concrete service.
use unison_capabilities.Base.{◌≡◌, refl, Bool, false, [], ◌∷◌}
use unison_capabilities.Value.{decimal, Fields, end, field, obj, str, bool, put}
use unison_capabilities.Error.{ok, err, python_error}
use unison_capabilities.Server.{Metrics}
use unison_capabilities.Server.Open.{Probe, readyz, insert_item, sorted_items, on_port, listen}
use unison_capabilities.Server.Readiness.{IsReport, readyz_lem}
use unison_capabilities.Tests.Fixtures.{plain_python, lax_schema, reading}
use unison_capabilities.Tests.Settings.{loaded}
use unison_capabilities.Tests.Requests.{app}

-- The schema cannot be read; the rest is there.
abbrev no_schema : Probe
no_schema = record {
  store_dir = ok "/var/lib/unison/capabilities";
  schema = err (python_error "no schema");
  base_path = "manifest.base.json";
}

readyz_test :
    (readyz loaded no_schema app).0
    ≡ obj (
        field "ready" (bool false) (
          field "store_dir" (str "/var/lib/unison/capabilities") (
            field "schema_error"
              (str "no schema")
              (field "base_catalog" (str "manifest.base.json") end))))
unfolding readyz reading put
readyz_test = refl

readyz_lem_example :
    (ready : Bool) × (detail : Fields) × ((readyz loaded no_schema app).0
      ≡ obj (field "ready" (bool ready) detail))
    × IsReport no_schema.store_dir no_schema.schema app.service.store.base_catalog (ready, detail)
readyz_lem_example = readyz_lem loaded no_schema app

abbrev counted : Metrics
counted = record {
  requests = ("/ready", 2) ∷ ("/metrics", 1) ∷ [];
  latency_sum = [];
  latency_count = [];
}

sorted_items_test : sorted_items counted.requests ≡ (("/metrics", 1) ∷ ("/ready", 2) ∷ [])
unfolding sorted_items insert_item
sorted_items_test = refl

listen_test : listen loaded ≡ on_port "localhost" (decimal false 9000 0)
unfolding listen
listen_test = refl

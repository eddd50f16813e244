-- ===== src/Server/Open.antt =====
-- src/server.py: the routes that anyone may call, which report on the service, and where it listens.
-- Making the store's directory with its lock, and loading the schema, are parameters.
use unison_capabilities.Base.{
  ℕ, String, ◌<>◌, Bool, true, false, none, some, List, [], ◌∷◌, ◌++◌, ◌==◌, if◌then◌else◌,
}
use unison_capabilities.Base.Dict.{Dict}
use unison_capabilities.Value.{
  Number, num, decimal, Value, Fields, end, field, obj, str, bool, put, Python, to_text,
}
use unison_capabilities.Error.{Result, ok, err, message}
use unison_capabilities.Store.{File, absent, broken, holds, load_catalog_file}
use unison_capabilities.Schema.{Validator}
use unison_capabilities.Config.{ServiceConfig}
use unison_capabilities.Ecosystem.{text_lt}
use unison_capabilities.Server.{App, Metrics, metric}

unfoldable pub healthz : {World : Type 0} → ServiceConfig → App World → Value × App World
healthz config s = (
  obj (field "status" (str "ok") (field "service" (str config.service_name) end)),
  metric "/healthz" s,
)

unfoldable pub version : {World : Type 0} → ServiceConfig → App World → Value × App World
version config s = (
  obj (
      field "service" (str config.service_name) (
        field "version" (str config.version)
          (field "schema_version" (str config.schema_version) end))),
  metric "/version" s,
)

-- What the readiness route tries beside the catalog: the directory of the store with its lock file,
-- whose path is returned, and the schema; and the path of the base catalog.
pub record Probe : Type 0 where
  pub store_dir : Result String
  pub schema : Result (Unit {0})
  pub base_path : String

-- A check adds to the detail and says whether it went well.
abbrev pub Check : Type 0
Check = Bool × Fields

abbrev pub check_store : Result String → Check
check_store (ok path) = (true, field "store_dir" (str path) end)
check_store (err e) = (false, field "store_error" (str (message e)) end)

abbrev pub check_schema : String → Result (Unit {0}) → Check → Check
check_schema schema_version (ok u) (ready, detail) =
    (ready, put "schema" (str schema_version) detail)
check_schema schema_version (err e) (ready, detail) =
    (false, put "schema_error" (str (message e)) detail)

abbrev pub check_loaded : String → Result (Dict Fields) → Check → Check
check_loaded path (ok d) (ready, detail) = (ready, put "base_catalog" (str path) detail)
check_loaded path (err e) (ready, detail) =
    (false, put "base_catalog_error" (str (message e)) detail)

-- `base_path.exists()`
abbrev pub is_there : File → Bool
is_there absent = false
is_there _ = true

module _ ⦃py : Python⦄ ⦃validator : Validator⦄ where
  abbrev pub check_catalog : String → File → Check → Check
  check_catalog path absent (ready, detail) =
      (false, put "base_catalog_error" (str ("missing base catalog: " <> path)) detail)
  check_catalog path broken check = check_loaded path (load_catalog_file broken) check
  check_catalog path (holds v) check = check_loaded path (load_catalog_file (holds v)) check

  abbrev pub readiness : ServiceConfig → Probe → File → Check
  readiness config probe file =
      check_catalog probe.base_path file
        (check_schema config.schema_version probe.schema (check_store probe.store_dir))

  abbrev pub ready_value : Check → Value
  ready_value (ready, detail) = obj (field "ready" (bool ready) detail)

  unfoldable pub readyz : {World : Type 0} → ServiceConfig → Probe → App World → Value × App World
  readyz config probe s =
      (ready_value (readiness config probe s.service.store.base_catalog), metric "/readyz" s)

-- `sorted(d.items())`, of which no two have the same key
unfoldable pub insert_item : {V : Type 0} → String → V → Dict V → Dict V
insert_item k v [] = (k, v) ∷ []
insert_item k v ((j, w) ∷ d) =
    let rest = insert_item k v d in if text_lt k j then (k, v) ∷ (j, w) ∷ d else (j, w) ∷ rest

unfoldable pub sorted_items : {V : Type 0} → Dict V → Dict V
sorted_items [] = []
sorted_items ((k, v) ∷ d) = insert_item k v (sorted_items d)

-- `"\n".join(lines)`
abbrev pub join_lines : List String → String
join_lines [] = ""
join_lines (l ∷ []) = l
join_lines (l ∷ m ∷ ls) = l <> "\n" <> join_lines (m ∷ ls)

module _ ⦃py : Python⦄ where
  -- one line for each entry of a counter, with what stands before and after its name
  abbrev pub counter_lines : {V : Type 0} → (V → Value) → String → Dict V → List String
  counter_lines shown start [] = []
  counter_lines shown start ((k, v) ∷ d) =
      (start <> k <> "\"} " <> to_text (shown v)) ∷ counter_lines shown start d

  abbrev of_count : ℕ → Value
  of_count n = num (decimal false n 0)

  unfoldable pub metrics_text : Metrics → Number → String
  metrics_text m uptime = join_lines (
      ("# HELP unison_capability_requests_total Total number of requests by endpoint"
        ∷ "# TYPE unison_capability_requests_total counter"
        ∷ counter_lines of_count "unison_capability_requests_total{endpoint=\""
            (sorted_items m.requests))
      ++ (""
          ∷ "# HELP unison_capability_latency_seconds_sum Total latency by operation"
          ∷ "# TYPE unison_capability_latency_seconds_sum counter"
          ∷ counter_lines num "unison_capability_latency_seconds_sum{op=\""
              (sorted_items m.latency_sum))
      ++ (""
          ∷ "# HELP unison_capability_latency_seconds_count Total latency samples by operation"
          ∷ "# TYPE unison_capability_latency_seconds_count counter"
          ∷ counter_lines of_count "unison_capability_latency_seconds_count{op=\""
              (sorted_items m.latency_count))
      ++ (""
          ∷ "# HELP unison_capability_uptime_seconds Service uptime in seconds"
          ∷ "# TYPE unison_capability_uptime_seconds gauge"
          ∷ ("unison_capability_uptime_seconds " <> to_text (num uptime))
          ∷ []))

  unfoldable pub metrics : {World : Type 0} → Number → App World → String × App World
  metrics uptime s =
      let counted = metric "/metrics" s in (metrics_text counted.metrics uptime, counted)

-- Where `main` lets the service listen.
pub data Listen : Type 0 where
  on_uds : String → Listen
  on_port : String → Number → Listen

unfoldable pub listen : ServiceConfig → Listen
listen config = elim config.bind.uds_path [
  | none ↦ on_port config.bind.host config.bind.port
  | some path ↦ if path == "" then on_port config.bind.host config.bind.port else on_uds path
]

-- ===== src/Server/Readiness.antt =====
-- What the readiness route of src/server.py reports.
use unison_capabilities.Base.{String, ◌<>◌, ◌≡◌, refl, Bool, not, ◌&&◌}
use unison_capabilities.Base.Dict
use unison_capabilities.Base.Dict.{Dict}
use unison_capabilities.Value.{Fields, field, obj, bool, has, put, Python}
use unison_capabilities.Error.{Result, ok, err, is_ok, python_error}
use unison_capabilities.Schema.{Validator}
use unison_capabilities.Store.{File, absent, broken, holds, load_catalog_file}
use unison_capabilities.Config.{ServiceConfig}
use unison_capabilities.Server.{App}
use unison_capabilities.Server.Open.{
  Probe, Check, check_store, check_schema, check_loaded, is_there, readiness, readyz,
}

module _ ⦃py : Python⦄ ⦃validator : Validator⦄ where
  -- A report that is ready where every check went well and names each check that did not.
  abbrev pub IsReport : Result String → Result (Unit {0}) → File → Check → Type 0
  IsReport store_dir schema file (ready, detail) =
      let loads = is_there file && is_ok (load_catalog_file file) in
      (ready ≡ (is_ok store_dir && is_ok schema && loads))
      × (has "store_error" detail ≡ not (is_ok store_dir))
      × (has "schema_error" detail ≡ not (is_ok schema))
      × (has "base_catalog_error" detail ≡ not loads)

  report_loaded :
      (version path : String) (r : Result String) (t : Result (Unit {0})) (l : Result (Dict Fields))
      → let check = check_loaded path l (check_schema version t (check_store r)) in
        (check.0 ≡ (is_ok r && is_ok t && is_ok l))
        × (has "store_error" check.1 ≡ not (is_ok r))
        × (has "schema_error" check.1 ≡ not (is_ok t))
        × (has "base_catalog_error" check.1 ≡ not (is_ok l))
  unfolding has put Dict.lookup Dict.insert
  report_loaded version path (ok p) (ok u) (ok d) = (refl, refl, refl, refl)
  report_loaded version path (ok p) (ok u) (err e) = (refl, refl, refl, refl)
  report_loaded version path (ok p) (err e) (ok d) = (refl, refl, refl, refl)
  report_loaded version path (ok p) (err e) (err f) = (refl, refl, refl, refl)
  report_loaded version path (err e) (ok u) (ok d) = (refl, refl, refl, refl)
  report_loaded version path (err e) (ok u) (err f) = (refl, refl, refl, refl)
  report_loaded version path (err e) (err f) (ok d) = (refl, refl, refl, refl)
  report_loaded version path (err e) (err f) (err g) = (refl, refl, refl, refl)

  readiness-IsReport :
      (config : ServiceConfig) (probe : Probe) (file : File)
      → IsReport probe.store_dir probe.schema file (readiness config probe file)
  readiness-IsReport config probe absent =
      report_loaded config.schema_version probe.base_path probe.store_dir probe.schema
        (err (python_error ("missing base catalog: " <> probe.base_path)))
  readiness-IsReport config probe broken =
      report_loaded config.schema_version probe.base_path probe.store_dir probe.schema
        (load_catalog_file broken)
  readiness-IsReport config probe (holds v) =
      report_loaded config.schema_version probe.base_path probe.store_dir probe.schema
        (load_catalog_file (holds v))

  -- The readiness is true exactly where the store can be locked, the schema loads, and the base
  -- catalog is there and loads; each of the three errors is in the detail exactly where its check
  -- failed, whatever the others did.
  pub readyz_lem :
      {World : Type 0} (config : ServiceConfig) (probe : Probe) (s : App World)
      → (ready : Bool) × (detail : Fields) × ((readyz config probe s).0
          ≡ obj (field "ready" (bool ready) detail))
        × IsReport probe.store_dir probe.schema s.service.store.base_catalog (ready, detail)
  unfolding readyz
  readyz_lem config probe s =
      let check = readiness config probe s.service.store.base_catalog in
      (check.0, check.1, refl, readiness-IsReport config probe s.service.store.base_catalog)

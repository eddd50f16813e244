-- ===== src/Server/Unlogged.antt =====
-- A failed installation that src/server.py neither logs nor answers with its own error.
use unison_capabilities.Base.{◌≡◌, refl, true, none, some, ◌∷◌, arith}
use unison_capabilities.Value.{
  Value, Fields, obj, Python, get, has, as_dict, dict_or_empty, text_or_empty,
}
use unison_capabilities.Error.{err, install_error, python_error}
use unison_capabilities.Schema.{Validator}
use unison_capabilities.Egress.{Network}
use unison_capabilities.Discovery.{Hashing}
use unison_capabilities.Audit.{audit_line, emit}
use unison_capabilities.Secrets.{Cipher}
use unison_capabilities.Security.{reply, http_error}
use unison_capabilities.Resolver.Accept.{candidate_manifest, accept}
use unison_capabilities.Resolver.Install.{install_candidate}
use unison_capabilities.Server.{App, Api, Call, guarded, log_line, metric, observe}
use unison_capabilities.Server.Routes.{install_route, failure_event, failed_id, allowed}
use unison_capabilities.Server.Handlers.{install_body, body_of, handle, admit, serve}

refused_manifest :
    (candidate : Fields) (v : Value)
    → get "manifest" candidate ≡ v
    → as_dict v ≡ none
    → candidate_manifest candidate ≡ err (install_error "candidate.manifest required")
unfolding candidate_manifest
refused_manifest candidate (obj m) e h = cc
refused_manifest candidate v e h = ground arith

raised_id :
    ⦃py : Python⦄
    → (candidate : Fields) (v : Value) → has "manifest" candidate ≡ true
    → get "manifest" candidate ≡ v
    → as_dict v ≡ none
    → failed_id (obj candidate) ≡ err (python_error "AttributeError")
unfolding failed_id
raised_id candidate (obj m) there e h = cc
raised_id candidate v there e h = ground arith

module _ {World : Type 0} ⦃py : Python⦄ ⦃validator : Validator⦄ ⦃hash : Hashing⦄ ⦃net : Network⦄
    ⦃cipher : Cipher⦄ where
  -- A request to install a candidate whose manifest is no object raises a second time while its
  -- failure is logged: the answer is the framework's, not the error of the installation, and the
  -- log has the start of the installation as its only new line.
  pub install_unlogged :
      (api : Api World) (call : Call) (user payload candidate : Fields) (s : App World)
      → admit api call (install_route payload) ≡ reply user
      → get "candidate" payload ≡ obj candidate
      → has "manifest" candidate ≡ true
      → as_dict (get "manifest" candidate) ≡ none
      → ((serve api call (install_route payload) s).0 ≡ http_error 500 "Internal Server Error")
        × ((serve api call (install_route payload) s).1.log
            ≡ audit_line api.audit (
                allowed "capability.install_start" user call
                  (some "capability")
                  (some (text_or_empty (get "id" (dict_or_empty (get "manifest" candidate))))))
              ∷ s.log)
  unfolding serve handle body_of install_body install_candidate accept guarded failure_event
      log_line emit metric observe
  install_unlogged api call user payload candidate s admitted given there none_there =
      let refused = refused_manifest candidate (get "manifest" candidate) refl none_there in
      let raised = raised_id candidate (get "manifest" candidate) there refl none_there in
      (
        rw (admitted, given, refused, given, raised) refl,
        rw (admitted, given, refused, given, raised) refl,
      )

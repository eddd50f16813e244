-- ===== src/Audit.antt =====
-- src/audit.py: the lines of the audit log, the newest first. The logger of `unison_common`, the
-- clock and the hash are parameters.
use unison_capabilities.Base.{
  String, Bool, Option, none, some, List, [], ◌∷◌, ◌==◌, take_text, upper, if◌then◌else◌,
}
use unison_capabilities.Base.Dict
use unison_capabilities.Value.{Value, Fields, end, field, obj, str, null, get, entries, of_entries}
use unison_capabilities.Policy.{env_or}
use unison_capabilities.Discovery.{Hashing}

pub data Level : Type 0 where
  info warning error : Level

-- A line of `log_json`, or one of the standard logger, which is given the payload alone.
pub data Line : Type 0 where
  log_json : Level → String → Fields → Line
  plain : Fields → Line

-- The service's name, the time as a text, and whether `log_json` could be imported.
pub record AuditEmitter : Type 0 where
  pub service : String
  pub now : String
  pub has_log_json : Bool

-- The arguments of one `emit`.
pub record AuditEvent : Type 0 where
  pub event : String
  pub principal : Value
  pub request_id : Option String
  pub resource_type : Option String
  pub resource_id : Option String
  pub classification : String
  pub outcome : String
  pub reason : Option String
  pub extra : Fields
  pub severity : String

-- `v` or `None`
abbrev pub or_none : Option String → Value
or_none none = null
or_none (some s) = str s

abbrev pub of_principal : String → Value → Value
of_principal key (obj fs) = get key fs
of_principal key v = null

unfoldable pub hash_id : ⦃hash : Hashing⦄ → String → String
hash_id ⦃hash = hash⦄ value = if value == "" then "" else take_text 16 (hash.sha256_text value)

unfoldable pub level_of : String → Level
level_of severity =
    if upper severity == "ERROR" then error else if upper severity == "WARN" then warning else info

module _ ⦃hash : Hashing⦄ where
  unfoldable pub audit_payload : AuditEmitter → AuditEvent → Dict.Dict Value
  audit_payload emitter e =
      ("ts", str emitter.now)
      ∷ ("service", str emitter.service)
      ∷ ("severity", str e.severity)
      ∷ ("request_id", or_none e.request_id)
      ∷ (
        "principal",
        obj (
            field "user_id" (of_principal "username" e.principal)
              (field "role" (of_principal "roles" e.principal) (field "spiffe_id" null end))),
      )
      ∷ (
        "resource",
        obj (
            field "type" (or_none e.resource_type) (
              field "id" (str (hash_id (env_or "" e.resource_id)))
                (field "classification" (str e.classification) end))),
      )
      ∷ (
        "decision",
        obj (
            field "outcome" (str e.outcome)
              (field "policy" null (field "reason" (or_none e.reason) end))),
      )
      ∷ []

  unfoldable pub audit_line : AuditEmitter → AuditEvent → Line
  audit_line emitter e =
      let payload = of_entries (Dict.update (audit_payload emitter e) (entries e.extra)) in
      if emitter.has_log_json then log_json (level_of e.severity) e.event payload else plain payload

  unfoldable pub emit : AuditEmitter → AuditEvent → List Line → List Line
  emit emitter e log = audit_line emitter e ∷ log

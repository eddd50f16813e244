-- ===== src/Tests/Fixtures.antt =====
-- Concrete parameters and data for the tests.
use unison_capabilities.Base.{refl, true, false, none, some, List, [], ◌∷◌, ◌==◌, if◌then◌else◌}
use unison_capabilities.Base.Dict
use unison_capabilities.Base.Dict.{Dict}
use unison_capabilities.Value.{
  decimal, Value, Fields, nil, cons, end, field, obj, arr, null, str, bool, num, get, Python,
}
use unison_capabilities.Error.{ok, err, python_error}
use unison_capabilities.Schema.{Validator, Violation, validate_manifest, sort_by_path}
use unison_capabilities.Egress.{Network}
use unison_capabilities.Discovery.{Hashing}
use unison_capabilities.Store.{
  File, absent, holds, CapabilityStore, id_of, load_items, load_catalog_file,
}
use unison_capabilities.Store.Effects.{Holds}

-- Numbers and containers print alike, and the one instant is 1000.
instance abbrev pub plain_python : Python
plain_python = record {
  repr = λ v. "?";
  float_of = λ s. err (python_error "ValueError");
  int_of = λ s. if s == "9000" then ok (decimal false 9000 0) else err (python_error "ValueError");
  truncate = λ n. err (python_error "OverflowError");
  instant_of = λ s. ok 1000;
}

-- A schema that has no other rule than that there is no governance.
abbrev pub errors_of : Value → List Violation
errors_of null = []
errors_of v = record { path = []; text = "Additional properties are not allowed" } ∷ []

instance abbrev pub lax_schema : Validator
lax_schema = record { iter_errors = λ m. errors_of (get "governance_version" m) }

instance abbrev pub first_letters : Hashing
first_letters = record {
  dumps = λ m. elim (get "id" m) [ str s ↦ s | _ ↦ "" ];
  sha256_text = λ s. s;
}

-- Two URLs are known.
instance abbrev pub two_urls : Network
two_urls = record {
  urlparse = λ url.
      if url == "https://api.example.com/v1"
      then ok (record { scheme = "https"; hostname = "api.example.com" })
      else ok (record { scheme = "http"; hostname = "10.0.0.7" });
  ip_address = λ host.
      if host == "10.0.0.7"
      then some (record { is_loopback = false; is_private = true; is_link_local = false })
      else none;
}

abbrev pub echo : Fields
echo = field "id" (str "demo.echo") (
    field "version" (str "0.1.0")
      (field "trust_level" (str "local") (field "description" (str "Echo input text") end)))

abbrev pub mail : Fields
mail = field "id" (str "connector.mail") (
    field "version" (str "1.0")
      (field "trust_level" (str "community") (field "enabled" (bool true) end)))

abbrev pub catalog_of : Fields → File
catalog_of m = holds (obj (field "capabilities" (arr (cons (obj m) nil)) end))

abbrev pub base_only : CapabilityStore
base_only = record {
  base_catalog = catalog_of echo;
  local_catalog = absent;
  manifests = [];
  payloads = [];
  staging = [];
}

abbrev pub with_mail : CapabilityStore
with_mail = record base_only { local_catalog = catalog_of mail }

abbrev pub echo_entry : Dict Fields
echo_entry = ("demo.echo", echo) ∷ []

abbrev pub mail_entry : Dict Fields
mail_entry = ("connector.mail", mail) ∷ []

-- what reading a catalog runs through
unfoldable pub reading : Unit {0}
unfolding load_catalog_file load_items get Dict.lookup Dict.insert validate_manifest sort_by_path
    id_of
reading = tt

pub base_only-Holds : Holds base_only echo_entry []
unfolding reading
base_only-Holds = record { base_read = refl; local_read = refl }

pub with_mail-Holds : Holds with_mail echo_entry mail_entry
unfolding reading
with_mail-Holds = record { base_read = refl; local_read = refl }

-- A manifest with governance, and an authority for it.
abbrev pub governance : Fields
governance = field "accessibility" (str "none") (
    field "actions" (arr (cons (str "demo.echo") nil)) (
      field "audit" (str "full") (
        field "confirmation" (str "none") (
          field "cost_ceiling" (num (decimal false 1 0)) (
            field "data_read" (arr nil) (
              field "data_write" (arr nil) (
                field "devices" (arr nil) (
                  field "egress" (arr nil) (
                    field "execution_location" (str "device") (
                      field "filesystem" (arr nil) (
                        field "recipient_classes" (arr nil) (
                          field "resource_limits" (obj end) (
                            field "retention" (str "none") (
                              field "reversible" (bool true) (
                                field "revocation_id" (str "rev-1") (
                                  field "risk" (str "low") (
                                    field "signature" (str "ed25519:AA") (
                                      field "timeout_seconds" (num (decimal false 5 0))
                                        end))))))))))))))))))

abbrev pub governed : Fields
governed = field "id" (str "demo.echo") (
    field "governance_version" (str "unison.capability-governance.v1")
      (field "governance" (obj governance) end))

abbrev pub authority : Fields
authority = field "action" (str "demo.echo") (
    field "assistant_id" (str "a") (
      field "decision_id" (str "d") (
        field "expires_at" (str "2026-01-01T00:00:00+00:00") (
          field "grant_id" (str "g") (
            field "nonce" (str "n-1")
              (field "outcome" (str "allow") (field "principal_id" (str "p") end)))))))

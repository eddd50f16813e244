-- ===== src/Tests/Connectors.antt =====
-- The device flow on a concrete connector.
use unison_capabilities.Base.{
  String, refl, true, false, none, some, [], ◌∷◌, ◌==◌, ends_with, strip, lower, has_text, member,
  if◌then◌else◌,
}
use unison_capabilities.Base.Dict
use unison_capabilities.Value.{
  decimal, Value, Fields, end, field, obj, null, str, bool, has, put, to_int, to_float, text_or,
}
use unison_capabilities.Error.{ok}
use unison_capabilities.Egress.{
  Network, request, check_url, check_host, rule_matches, host_matches, url_prefix_matches,
  is_private_or_loopback,
}
use unison_capabilities.Store.{File, absent, holds, CapabilityStore, merged_catalog, upsert_local}
use unison_capabilities.Store
use unison_capabilities.Secrets.{
  Cipher, read_all, put_secret, put_object, get_secret, delete_secret, ensure_handle, objects,
  write_all,
}
use unison_capabilities.Audit.{emit}
use unison_capabilities.Oauth.{
  OauthManager, DeviceCode, Onboarding, require_https, sessions_in, write_sessions,
  provider_for_capability, scopes_for_capability, client_id_of, client_secret_of,
  device_code_endpoint, token_endpoint, int_or, startable, device_code_in,
}
use unison_capabilities.Oauth.Start.{
  check_start, ask_device, open_session, started_reply, device_handle_of, start,
}
use unison_capabilities.Oauth.Complete.{
  live_session, device_code_of, token_form, read_token, refused, token_handle_of, is_other_secret,
  enabled_manifest, manifest_to_enable, ask_token, enable_connector, close_session, on_token,
  complete,
}
use unison_capabilities.Oauth.Enabled.{WasEnabled, complete_enabled}
use unison_capabilities.Oauth.Started.{MayStart, IsStarted, start-Opened}
use unison_capabilities.Tests.Fixtures.{
  plain_python, lax_schema, first_letters, base_only, catalog_of, reading,
}

instance abbrev pub google_only : Network
google_only = record {
  urlparse = λ url. ok (record { scheme = "https"; hostname = "oauth2.googleapis.com" });
  ip_address = λ host. none;
}

-- Every token holds the device code of the session s1.
instance abbrev pub one_secret : Cipher
one_secret = record {
  encrypt = λ t. "token";
  decrypt = λ token. some "plain";
  dumps = λ d. "plain";
  loads = λ t. ok (
      obj (
        field "secret://oauth/session/s1/device_code" (obj (field "device_code" (str "d-1") end))
          end));
}

abbrev email_id : String
email_id = "connector.google.email"

abbrev connector : Fields
connector = field "id" (str email_id) (
    field "version" (str "0.1.0")
      (field "enabled" (bool false) (field "requires_oauth" (bool true) end)))

abbrev answer : Fields
answer = field "device_code" (str "d-1") (
    field "user_code" (str "ABCD") (
      field "verification_url" (str "https://www.google.com/device")
        (field "refresh_token" (str "r-1") end)))

abbrev pub manager : OauthManager
manager = record {
  getenv = λ k. if k == "UNISON_OAUTH_GOOGLE_CLIENT_ID" then some "client" else none;
  egress = record {
    allowlist = "oauth2.googleapis.com" ∷ [];
    denylist = [];
    allow_private_networks = false;
  };
  send =
      λ post. ok (record { status_code = 200; raise_for_status = ok tt; json = ok (obj answer) });
  clock = record {
    time = decimal false 100 0;
    add = λ a b. decimal false 700 0;
    is_after = λ a b. false;
  };
  audit = record { service = "unison-capability"; now = "noon"; has_log_json = true };
}

abbrev ann : Value
ann = obj (field "username" (str "ann") end)

abbrev before : Onboarding
before = record {
  store = record base_only { base_catalog = catalog_of connector };
  secrets = absent;
  sessions = absent;
  log = [];
}

-- what the flow runs through
flowing : Unit {0}
unfolding reading start check_start ask_device open_session complete ask_token on_token
    enable_connector close_session require_https sessions_in write_sessions provider_for_capability
    scopes_for_capability client_id_of client_secret_of device_code_endpoint token_endpoint int_or
    startable device_code_in live_session device_code_of token_form read_token refused
    token_handle_of is_other_secret enabled_manifest manifest_to_enable device_handle_of read_all
    put_secret put_object get_secret delete_secret ensure_handle objects write_all merged_catalog
    upsert_local Store.write_local_catalog Dict.update Dict.erase has put to_int to_float text_or
    request check_url check_host rule_matches host_matches url_prefix_matches is_private_or_loopback
    strip lower has_text member ends_with emit
flowing = tt

abbrev waiting : Onboarding
waiting = (start manager "s1" email_id ann before).1

abbrev device : DeviceCode
device = record {
  device_code = str "d-1";
  user_code = str "ABCD";
  verification_uri = str "https://www.google.com/device";
  expires_in = decimal false 600 0;
  interval = decimal false 5 0;
  message = null;
}

start-Opened_example :
    (provider : String) × MayStart email_id provider before.store
    × IsStarted manager "s1" email_id provider (started_reply "s1" "google" device) waiting
unfolding flowing
start-Opened_example =
    start-Opened manager "s1" email_id ann (started_reply "s1" "google" device) before waiting refl

complete_enabled_example :
    WasEnabled manager "s1" ann email_id waiting (complete manager "s1" ann waiting).1
unfolding flowing
complete_enabled_example =
    complete_enabled manager "s1" ann email_id waiting (complete manager "s1" ann waiting).1 refl

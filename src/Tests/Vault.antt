-- ===== src/Tests/Vault.antt =====
-- The encrypted secrets on a concrete file.
use unison_capabilities.Base.{String, ◌<>◌, ◌≡◌, refl, false, some, [], ◌∷◌, ◌==◌, if◌then◌else◌}
use unison_capabilities.Base.Dict
use unison_capabilities.Base.Dict.{Dict}
use unison_capabilities.Value.{Fields, str, obj, end, field}
use unison_capabilities.Error.{ok}
use unison_capabilities.Store.{File, absent}
use unison_capabilities.Secrets.{Cipher, ensure_handle, read_all, put_secret, get_secret}
use unison_capabilities.Secrets.Roundtrip.{Restores, get-put_secret}
use unison_capabilities.Tests.Fixtures.{plain_python}

abbrev handle : String
handle = "secret://oauth/google/ann/refresh_token"

abbrev refresh : Fields
refresh = field "refresh_token" (str "r-1") end

-- Two plaintexts are known: nothing, and the one secret.
instance abbrev two_texts : Cipher
two_texts = record {
  encrypt = λ t. "token:" <> t;
  decrypt = λ token. if token == "token:one" then some "one" else some "none";
  dumps = λ d. elim d [ [] ↦ "none" | e ∷ rest ↦ "one" ];
  loads = λ t. if t == "one" then ok (obj (field handle (obj refresh) end)) else ok (obj end);
}

abbrev stored : Dict Fields
stored = (handle, refresh) ∷ []

one_restored : Restores stored
one_restored = record { token = refl; nonempty = λ e. cc; json = refl }

get-put_secret_example :
    (f : File) × (put_secret handle (obj refresh) absent ≡ (ok tt, f))
    × (get_secret handle f ≡ (ok refresh, f))
    × ((other : String)
        → (handle == other) ≡ false
        → (get_secret other f).0 ≡ (get_secret other absent).0)
unfolding read_all ensure_handle Dict.insert
get-put_secret_example = get-put_secret absent [] handle refresh refl refl one_restored

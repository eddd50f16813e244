-- ===== src/Ecosystem.antt =====
-- src/ecosystem.py: the review of permissions and revocation. Its signatures and the API range of a
-- capability are in Ecosystem/Signatures.
pub mod Rules
pub mod Signatures
pub mod Signed
use Prim.Native.String.{compare}
use Prim.Native.Nat.{Ordering}
use unison_capabilities.Base.{
  ℕ, String, ◌<>◌, Bool, true, false, not, ◌&&◌, ◌||◌, Option, none, some, List, [], ◌∷◌, ◌++◌,
  ◌==◌, is_empty, member, leb, if◌then◌else◌,
}
use unison_capabilities.Value.{
  Value, Fields, end, arr, null, Python, as_dict, get, has, dict_or_empty, to_text, truthy,
}
use unison_capabilities.Policy.{get_in}
use unison_capabilities.Value.Compare.{iterate, in_set, value_eq}
use unison_capabilities.Error.{Result, ok, err, policy_error, python_error, ◌>>=◌, ◌>>◌, raise_if}

abbrev pub permission_fields : List String
permission_fields =
    "actions" ∷ "data_read" ∷ "data_write" ∷ "recipient_classes" ∷ "egress" ∷ "filesystem"
    ∷ "devices" ∷ []

abbrev pub text_lt : String → String → Bool
text_lt s t = elim (compare s t) [ Ordering.lt ↦ true | _ ↦ false ]

-- a string in its place in a sorted list, once
unfoldable pub insert_text : String → List String → List String
insert_text s [] = s ∷ []
insert_text s (t ∷ ts) =
    let rest = insert_text s ts in
    if s == t then t ∷ ts else if text_lt s t then s ∷ t ∷ ts else t ∷ rest

-- `sorted(new - old)`
unfoldable pub sorted_difference : List String → List String → List String
sorted_difference [] old = []
sorted_difference (s ∷ new) old =
    let rest = sorted_difference new old in if member s old then rest else insert_text s rest

abbrev pub prefixed : String → List String → List String
prefixed name [] = []
prefixed name (s ∷ ss) = (name <> ":" <> s) ∷ prefixed name ss

pub record Diff : Type 0 where
  pub added : List String
  pub removed : List String

abbrev pub governance_dict : Fields → Fields
governance_dict m = dict_or_empty (get "governance" m)

module _ ⦃py : Python⦄ where
  abbrev pub texts_of : List Value → List String
  texts_of [] = []
  texts_of (v ∷ vs) = to_text v ∷ texts_of vs

  -- `{str(value) for value in d.get(name, [])}`
  unfoldable pub values_of : String → Fields → Result (List String)
  values_of name d = if has name d then (iterate (get name d) >>= λ vs. ok (texts_of vs)) else ok []

  -- the lines for a field that is compared as a whole
  abbrev pub changed : String → Fields → Fields → List String
  changed name before after =
      if value_eq (get name before) (get name after)
      then []
      else (name <> ":" <> to_text (get name before) <> "->" <> to_text (get name after)) ∷ []

  unfoldable pub diff_fields : List String → Fields → Fields → Result Diff
  diff_fields [] before after = ok (record { added = []; removed = [] })
  diff_fields (name ∷ names) before after = do
    let later = diff_fields names before after
    old ← values_of name before
    new ← values_of name after
    rest ← later
    ok (record {
      added = prefixed name (sorted_difference new old) ++ rest.added;
      removed = prefixed name (sorted_difference old new) ++ rest.removed;
    })

  unfoldable pub permission_diff : Fields → Fields → Result Diff
  permission_diff previous candidate = do
    let before = governance_dict previous
    let after = governance_dict candidate
    d ← diff_fields permission_fields before after
    ok (record d {
      added = d.added ++ (changed "risk" before after ++ changed "confirmation" before after);
    })

  unfoldable pub require_permission_review : Fields → Fields → Bool → Result (Unit {0})
  require_permission_review previous candidate approved = do
    d ← permission_diff previous candidate
    raise_if (not (is_empty d.added) && not approved)
        (policy_error "capability update expands permissions and requires explicit review")

-- The revoked identities.
pub record RevocationRegistry : Type 0 where
  pub revoked : List String

-- A set is a list of which only membership is read.
unfoldable pub discard : String → List String → List String
discard s [] = []
discard s (t ∷ ts) = let rest = discard s ts in if s == t then rest else t ∷ rest

unfoldable pub revoke : String → RevocationRegistry → Result RevocationRegistry
revoke revocation_id r =
    if revocation_id == ""
    then err (policy_error "revocation identity is required")
    else ok (record { revoked = revocation_id ∷ r.revoked })

unfoldable pub restore : String → RevocationRegistry → RevocationRegistry
restore revocation_id r = record { revoked = discard revocation_id r.revoked }

unfoldable pub require_active : Fields → RevocationRegistry → Result (Unit {0})
require_active manifest r = do
  identity ← get_in "revocation_id" (get "governance" manifest)
  gone ← in_set identity r.revoked
  raise_if gone (policy_error "capability is revoked")

-- ===== src/Schema.antt =====
-- src/schema.py: `validate_manifest`. The validator of the `jsonschema` library, loaded with
-- schemas/capability.manifest.v0.1.schema.json, is a parameter.
use Prim.Native.String.{compare}
use unison_capabilities.Base.{
  ℕ, zero, suc, String, ◌<>◌, ◌≡◌, ◌≢◌, refl, ◌↔◌, Bool, true, false, List, [], ◌∷◌, ltb, arith,
  if◌then◌else◌,
}
use unison_capabilities.Value.{Fields}
use unison_capabilities.Error.{Result, ok, err, manifest_error}

-- A step of an error's path, with the text that `str` gives.
pub data PathPart : Type 0 where
  key : String → PathPart
  index : ℕ → String → PathPart

pub record Violation : Type 0 where
  pub path : List PathPart
  pub text : String

-- `_VALIDATOR`: the errors of a manifest, in the order of `iter_errors`.
pub record Validator : Type 0 where
  pub iter_errors : Fields → List Violation

abbrev part_text : PathPart → String
part_text (key s) = s
part_text (index n s) = s

-- a number and a string do not stand at the same place of two paths of one manifest
abbrev part_lt : PathPart → PathPart → Bool
part_lt (key s) (key t) = elim (compare s t) [ Prim.Native.Nat.Ordering.lt ↦ true | _ ↦ false ]
part_lt (index n s) (index m t) = ltb n m
part_lt _ _ = false

pub path_lt : List PathPart → List PathPart → Bool
path_lt [] [] = false
path_lt [] (q ∷ qs) = true
path_lt (p ∷ ps) [] = false
path_lt (p ∷ ps) (q ∷ qs) =
    let rest = path_lt ps qs in if part_lt p q then true else if part_lt q p then false else rest

unfoldable pub insert_sorted : Violation → List Violation → List Violation
insert_sorted v [] = v ∷ []
insert_sorted v (w ∷ ws) =
    let rest = insert_sorted v ws in if path_lt w.path v.path then w ∷ rest else v ∷ w ∷ ws

-- `sorted(errors, key=lambda e: list(e.path))`: errors at one path keep their order
unfoldable pub sort_by_path : List Violation → List Violation
sort_by_path [] = []
sort_by_path (v ∷ vs) = insert_sorted v (sort_by_path vs)

pub join_parts : String → List String → String
join_parts sep [] = ""
join_parts sep (s ∷ []) = s
join_parts sep (s ∷ ss) = s <> sep <> join_parts sep ss

path_texts : List PathPart → List String
path_texts [] = []
path_texts (p ∷ ps) = part_text p ∷ path_texts ps

describe : Violation → String
describe v = join_parts "/" (path_texts v.path) <> ": " <> v.text

pub describe_first : ℕ → List Violation → List String
describe_first zero vs = []
describe_first (suc n) [] = []
describe_first (suc n) (v ∷ vs) = describe v ∷ describe_first n vs

abbrev raise_violations : List Violation → Fields → Result Fields
raise_violations [] manifest = ok manifest
raise_violations vs manifest = err (
    manifest_error ("manifest schema validation failed: " <> join_parts "; " (describe_first 8 vs)))

insert-ne-nil : (v : Violation) (vs : List Violation) → insert_sorted v vs ≢ []
unfolding insert_sorted
insert-ne-nil v [] = λ h. cc
insert-ne-nil v (w ∷ ws) = λ h. ground arith

sort_nothing : sort_by_path [] ≡ []
unfolding sort_by_path
sort_nothing = refl

sort_nil : (vs : List Violation) → (sort_by_path vs ≡ []) ↔ (vs ≡ [])
unfolding sort_by_path
sort_nil [] = (λ h. refl, λ h. refl)
sort_nil (v ∷ vs) = (λ h. absurd (insert-ne-nil v (sort_by_path vs) h), λ h. cc)

raise_nil : (vs : List Violation) (m : Fields) → raise_violations vs m ≡ ok m → vs ≡ []
raise_nil [] m h = refl
raise_nil (v ∷ vs) m h = cc

module _ ⦃validator : Validator⦄ where
  unfoldable pub validate_manifest : Fields → Result Fields
  validate_manifest manifest =
      raise_violations (sort_by_path (validator.iter_errors manifest)) manifest

  -- A manifest that the schema accepts.
  abbrev pub IsValid : Fields → Type 0
  IsValid m = validate_manifest m ≡ ok m

  -- A manifest is valid exactly when the validator finds no error.
  pub validate_manifest_iff : (m : Fields) → IsValid m ↔ (validator.iter_errors m ≡ [])
  unfolding validate_manifest
  validate_manifest_iff m = (
    λ h. (sort_nil _).0 (raise_nil (sort_by_path (validator.iter_errors m)) m h),
    λ h. rw (h, sort_nothing) refl,
  )

  pub validate_manifest_returns : (m n : Fields) → validate_manifest m ≡ ok n → n ≡ m
  unfolding validate_manifest
  validate_manifest_returns m n h = ground arith

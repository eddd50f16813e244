-- ===== src/Discovery.antt =====
-- src/discovery.py: the candidates, their scores, and the adapters that list them. `json.dumps`
-- with sorted keys and `hashlib.sha256` are parameters, and so is the HTTP client.
pub mod Order
pub mod Mcp
pub mod Untrusted
use unison_capabilities.Base.{
  ℕ, ◌+◌, String, ◌<>◌, Bool, true, false, not, ◌&&◌, Option, none, some, List, [], ◌∷◌, ◌++◌, ◌==◌,
  ltb, has_text, lower, take_text, if◌then◌else◌,
}
use unison_capabilities.Value.{
  Value, Fields, field, obj, arr, str, items, Python, get, text_or_empty, to_text, truthy, as_list,
}
use unison_capabilities.Error.{Result, ok, err, python_error, ◌>>=◌, ◌>>◌, raise_if}
use unison_capabilities.Schema.{Validator, validate_manifest}
use unison_capabilities.Egress.{Network}

-- `json.dumps(v, sort_keys=True, separators=(",", ":"))`, and the hex digest of a string.
pub record Hashing : Type 0 where
  pub dumps : Fields → String
  pub sha256_text : String → String

-- A score in quarters: `gained - lost`. Every score is a multiple of 0.25, which `float` keeps exact.
pub record Score : Type 0 where
  pub gained : ℕ
  pub lost : ℕ

-- `a.score < b.score`
unfoldable pub score_lt : Score → Score → Bool
score_lt a b = ltb (a.gained + b.lost) (b.gained + a.lost)

pub record Candidate : Type 0 where
  pub candidate_id : String
  pub manifest : Fields
  pub source : String
  pub score : Score
  pub manifest_url : Option String

unfoldable pub candidate_id_for : ⦃py : Python⦄ → ⦃hash : Hashing⦄ → Fields → String → String
candidate_id_for ⦃hash = hash⦄ manifest source =
    to_text (get "id" manifest)
    <> "@"
    <> to_text (get "version" manifest)
    <> ":"
    <> source
    <> ":"
    <> take_text 16 (hash.sha256_text (hash.dumps manifest))

unfoldable pub trust_rank : String → ℕ
trust_rank level =
    if level == "verified"
    then 0
    else if level == "local"
    then 1
    else if level == "community"
    then 2
    else if level == "untrusted"
    then 3
    else 9

-- `intent_l and intent_l in text`
abbrev mentions : String → String → Bool
mentions intent text = not (intent == "") && has_text text intent

unfoldable pub score_manifest : ⦃py : Python⦄ → String → Fields → Score
score_manifest intent manifest =
    let desc = lower (text_or_empty (get "description" manifest)) in
    let cap_id = lower (text_or_empty (get "id" manifest)) in
    let intent_l = lower intent in
    record {
      gained =
          (if mentions intent_l cap_id then 20 else 0) + (if mentions intent_l desc then 8 else 0);
      lost = trust_rank (text_or_empty (get "trust_level" manifest));
    }

-- `score - n`, in quarters
abbrev pub less_by : ℕ → Score → Score
less_by n s = record s { lost = s.lost + n }

unfoldable pub insert_by_score : Candidate → List Candidate → List Candidate
insert_by_score c [] = c ∷ []
insert_by_score c (d ∷ ds) =
    let rest = insert_by_score c ds in if score_lt c.score d.score then d ∷ rest else c ∷ d ∷ ds

-- `candidates.sort(key=lambda c: c.score, reverse=True)`, which keeps the order of equal scores
unfoldable pub sort_by_score : List Candidate → List Candidate
sort_by_score [] = []
sort_by_score (c ∷ cs) = insert_by_score c (sort_by_score cs)

-- the loop of `get` over the candidates of an adapter
unfoldable pub find_candidate : String → List Candidate → Result Candidate
find_candidate candidate_id [] = err (python_error "KeyError")
find_candidate candidate_id (c ∷ cs) =
    let rest = find_candidate candidate_id cs in
    if c.candidate_id == candidate_id then ok c else rest

-- What the resolver uses of an adapter: its `list`.
pub record RegistryAdapter : Type 0 where
  pub name : String
  pub list : String → Fields → Result (List Candidate)

module _ ⦃py : Python⦄ ⦃validator : Validator⦄ ⦃hash : Hashing⦄ where
  -- a candidate of the adapter `name`, whose score is lowered by `penalty` quarters
  unfoldable pub candidate_of : String → String → ℕ → Fields → Option String → Candidate
  candidate_of name query penalty manifest manifest_url = record {
    candidate_id = candidate_id_for manifest name;
    manifest = manifest;
    source = name;
    score = less_by penalty (score_manifest query manifest);
    manifest_url = manifest_url;
  }

  -- `c` in front of what the rest of a loop gives, if its manifest is valid
  unfoldable pub listed : Candidate → Result (List Candidate) → Result (List Candidate)
  listed c later = do _ ← validate_manifest c.manifest; cs ← later; ok (c ∷ cs)

  -- The loop of `StaticCatalogAdapter._load` over the items, with that of `list` over the manifests.
  unfoldable pub static_entries : String → String → List Value → Result (List Candidate)
  static_entries name query [] = ok []
  static_entries name query (obj m ∷ vs) =
      listed (candidate_of name query 0 m none) (static_entries name query vs)
  static_entries name query (v ∷ vs) = static_entries name query vs

  -- `raw.get("capabilities") or raw.get("items") or []`, or `raw` itself
  abbrev pub static_items : Value → Value
  static_items (obj raw) =
      if truthy (get "capabilities" raw) then get "capabilities" raw else get "items" raw
  static_items raw = raw

  -- `raw` is what `json.loads` returns for the file or raises.
  unfoldable pub static_list : String → Result Value → String → Result (List Candidate)
  static_list name raw query = do
    v ← raw
    elim (as_list (static_items v)) [
      | none ↦ ok []
      | some vs ↦ static_entries name query vs >>= λ cs. ok (sort_by_score cs)
    ]

  unfoldable pub static_get : String → Result Value → String → Result Candidate
  static_get name raw candidate_id = static_list name raw "" >>= find_candidate candidate_id

  -- One entry of an HTTP catalog with what the later ones give: a manifest, a shell with a URL, or
  -- neither.
  abbrev pub http_shell :
      String → String → Value → Value → Result (List Candidate) → Result (List Candidate)
  http_shell name query (str url) (obj m) later =
      if url == "" then later else listed (candidate_of name query 12 m (some url)) later
  http_shell name query u m later = later

  unfoldable pub http_entry :
      String → String → Fields → Result (List Candidate) → Result (List Candidate)
  http_entry name query entry later = elim (get "manifest" entry) [
    | obj (field k v fs) ↦ listed (candidate_of name query 8 (field k v fs) none) later
    | _ ↦ http_shell name query (get "manifest_url" entry) (get "candidate_manifest" entry) later
  ]

  unfoldable pub http_entries :
      String → String → List Value → Result (List Candidate) → Result (List Candidate)
  http_entries name query [] later = later
  http_entries name query (obj entry ∷ vs) later =
      http_entry name query entry (http_entries name query vs later)
  http_entries name query (v ∷ vs) later = http_entries name query vs later

  -- `data.get("capabilities") if isinstance(data, dict) else data`
  abbrev pub http_items : Value → Value
  http_items (obj root) = get "capabilities" root
  http_items root = root

module _ ⦃py : Python⦄ ⦃validator : Validator⦄ ⦃hash : Hashing⦄ ⦃net : Network⦄ where
  unfoldable pub require_tls : String → Result (Unit {0})
  require_tls url = do
    parsed ← net.urlparse url
    raise_if (not (parsed.scheme == "https")) (python_error "ValueError")

  -- `send` is the request through the egress controller, with the JSON of its response.
  unfoldable pub load_url : (String → Result Value) → String → Result Value
  load_url send url = require_tls url >> send url

  unfoldable pub http_candidates :
      String → (String → Result Value) → String → List String → Result (List Candidate)
  http_candidates name send query [] = ok []
  http_candidates name send query (url ∷ urls) = do
    let later = http_candidates name send query urls
    root ← load_url send url
    elim (as_list (http_items root)) [ none ↦ later | some vs ↦ http_entries name query vs later ]

  unfoldable pub http_list :
      String → (String → Result Value) → List String → String → Result (List Candidate)
  http_list name send urls query =
      http_candidates name send query urls >>= λ cs. ok (sort_by_score cs)

  unfoldable pub http_get :
      String → (String → Result Value) → List String → String → Result Candidate
  http_get name send urls candidate_id = http_list name send urls "" >>= find_candidate candidate_id

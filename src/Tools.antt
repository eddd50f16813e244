-- ===== src/Tools.antt =====
-- src/seed_tools.py: the tools of the base catalog that touch the host. The operating system is a
-- parameter: a path resolves to its parts, and reads and writes act on any world.
pub mod Processes
pub mod Roots
pub mod Bounds
use Prim.Native.Nat.{◌/◌}
use Prim.Native.Char.{code}
use unison_capabilities.Base.{
  ℕ, zero, suc, ◌+◌, ◌-◌, ◌^◌, String, Bool, true, false, not, ◌&&◌, Option, none, some, List, [],
  ◌∷◌, ◌==◌, any, ltb, leb, split_csv, if◌then◌else◌,
}
use unison_capabilities.Value.{
  Number, decimal, Value, Fields, end, field, obj, arr, str, num, bool, nil, of_list, get, has,
  get_default, Python, to_int, truthy,
}
use unison_capabilities.Value.Compare.{iterate}
use unison_capabilities.Error
use unison_capabilities.Error.{Error, Result, ok, err, run_error, raise_if}
use unison_capabilities.Exec.{Exec, pure, raise, lift, ◌>>=◌, ◌>>◌}

-- The parts of an absolute path.
abbrev pub Parts : Type 0
Parts = List String

-- `Path(…).expanduser().resolve()`, the files, and UTF-8, where decoding leaves out what is broken.
pub record Host (World : Type 0) : Type 0 where
  pub getenv : String → Option String
  pub resolve_path : String → Result Parts
  -- `str(Path(…))`
  pub shown : String → String
  pub read_text : String → Exec World String
  pub make_parent : String → Exec World (Unit {0})
  pub write_text : String → String → Exec World (Unit {0})
  pub encode : String → List ℕ
  pub decode : List ℕ → String

abbrev pub length {ℓ} : {A : Type ℓ} → List A → ℕ
length [] = 0
length (x ∷ xs) = suc (length xs)

unfoldable pub take {ℓ} : {A : Type ℓ} → ℕ → List A → List A
take zero xs = []
take (suc n) [] = []
take (suc n) (x ∷ xs) = x ∷ take n xs

-- `rp.relative_to(root)` does not raise
unfoldable pub is_under : Parts → Parts → Bool
is_under path [] = true
is_under [] (r ∷ root) = false
is_under (p ∷ path) (r ∷ root) = let rest = is_under path root in p == r && rest

-- A whole number as Python has it: from 0 on, or below 0.
pub data Whole : Type 0 where
  from_zero : ℕ → Whole
  below_zero : ℕ → Whole

abbrev signed : Bool → ℕ → Whole
signed false n = from_zero n
signed true zero = from_zero 0
signed true (suc n) = below_zero (suc n)

-- the value of a number that `int` gave
unfoldable pub whole : Number → Whole
whole (decimal negative m p) = signed negative (m / 10 ^ p)
whole _ = from_zero 0

-- `bytes[:n]`, which counts from the end for an `n` below 0
unfoldable pub slice_to : {A : Type 0} → Whole → List A → List A
slice_to (from_zero n) bytes = take n bytes
slice_to (below_zero n) bytes = take (length bytes - n) bytes

-- `len(bytes) > n`
abbrev pub is_longer : {A : Type 0} → List A → Whole → Bool
is_longer bytes (from_zero n) = ltb n (length bytes)
is_longer bytes (below_zero n) = true

-- `max(1, min(limit, 200))`
unfoldable pub clamp : Whole → ℕ
clamp (from_zero zero) = 1
clamp (from_zero (suc n)) = if ltb 200 (suc n) then 200 else suc n
clamp (below_zero n) = 1

abbrev limit_or : Result Number → Whole
limit_or (ok n) = whole n
limit_or (err e) = from_zero 25

-- `args.get("limit", 25)`, with 25 where `int` raises
unfoldable pub limit_of : ⦃py : Python⦄ → Fields → ℕ
limit_of args = clamp (limit_or (to_int (get_default "limit" (num (decimal false 25 0)) args)))

abbrev pub secret_status : Value → List Value → List Value
secret_status (obj s) rest =
    obj (field "name" (get "name" s) (field "ref" (get "ref" s) end)) ∷ rest
secret_status v rest = rest

abbrev pub secret_statuses : List Value → List Value
secret_statuses [] = []
secret_statuses (v ∷ vs) = secret_status v (secret_statuses vs)

unfoldable pub connector_status : Fields → Result Value
connector_status manifest =
    let secrets = get "secrets" manifest in
    Error.◌>>=◌ (iterate (if truthy secrets then secrets else arr nil)) λ vs. ok (
      obj (
        field "id" (get "id" manifest) (
          field "enabled" (get_default "enabled" (bool true) manifest) (
            field "requires_oauth" (get_default "requires_oauth" (bool false) manifest) (
              field "secrets" (arr (of_list (secret_statuses vs))) (
                field "note"
                  (str
                    "Connector wrappers are placeholders; execution is expected via MCP/connector services once configured.")
                  end))))))

abbrev path_argument : Value → Result String
path_argument (str p) = if p == "" then err (run_error "path required") else ok p
path_argument v = err (run_error "path required")

abbrev content_argument : Value → Result String
content_argument (str text) = ok text
content_argument v = err (run_error "content must be string")

abbrev env_default : String → Option String → String
env_default fallback none = fallback
env_default fallback (some s) = s

module _ {World : Type 0} (host : Host World) where
  abbrev resolve_all : List String → Result (List Parts)
  resolve_all [] = ok []
  resolve_all (p ∷ ps) =
      let rest = resolve_all ps in
      Error.◌>>=◌ (host.resolve_path p) λ r. Error.◌>>=◌ rest λ rs. ok (r ∷ rs)

  unfoldable pub split_paths : String → Result (List Parts)
  split_paths value = resolve_all (split_csv value)

  unfoldable pub read_roots : Result (List Parts)
  read_roots = split_paths (
      env_default "/etc,/proc,/sys,/var/lib/unison,/tmp"
        (host.getenv "UNISON_CAPABILITY_FS_READ_ALLOW"))

  unfoldable pub write_roots : Result (List Parts)
  write_roots =
      split_paths
        (env_default "/var/lib/unison,/tmp" (host.getenv "UNISON_CAPABILITY_FS_WRITE_ALLOW"))

  unfoldable pub ensure_under_roots : String → List Parts → Result (Unit {0})
  ensure_under_roots path roots =
      Error.◌>>=◌ (host.resolve_path path)
        λ rp. raise_if (not (any (is_under rp) roots)) (run_error "path not permitted by policy")

  unfoldable pub cut : Whole → String → String
  cut limit text =
      if is_longer (host.encode text) limit
      then host.decode (slice_to limit (host.encode text))
      else text

  unfoldable pub fs_read : ⦃py : Python⦄ → Fields → Exec World Value
  fs_read args = do
    path ← lift (path_argument (get "path" args))
    roots ← lift read_roots
    lift (ensure_under_roots path roots)
    text ← host.read_text path
    let given = get "max_bytes" args
    limit ← lift (to_int (if truthy given then given else num (decimal false 65536 0)))
    pure (
        obj (
          field "path" (str (host.shown path))
            (field "content" (str (cut (whole limit) text)) end)))

  unfoldable pub fs_write : Fields → Exec World Value
  fs_write args = do
    path ← lift (path_argument (get "path" args))
    content ← lift (content_argument (get "content" args))
    roots ← lift write_roots
    lift (ensure_under_roots path roots)
    host.make_parent path
    host.write_text path content
    pure (
        obj (
          field "path" (str (host.shown path))
            (field "bytes_written" (num (decimal false (length (host.encode content)) 0)) end)))

-- ===== src/Tests/Hosts.antt =====
-- The host tools, the signatures and the MCP adapter on concrete data.
use mathlib.Core.List.{Memᴰ}
use unison_capabilities.Base.{
  ℕ, String, ◌≡◌, ◌≤◌, refl, false, none, some, List, [], ◌∷◌, ◌++◌, ◌==◌, All, arith, split_csv,
  strip, nul_to_space, words, if◌then◌else◌,
}
use unison_capabilities.Base.Dict
use unison_capabilities.Value.{
  decimal, Value, Fields, nil, cons, end, field, obj, arr, str, num, get, has, to_int,
}
use unison_capabilities.Error.{Result, ok, err, run_error}
use unison_capabilities.Exec.{Exec}
use unison_capabilities.Exec.Within.{Within}
use unison_capabilities.Tools.{
  Parts, Host, is_under, split_paths, read_roots, write_roots, ensure_under_roots, take, length,
  whole, slice_to, cut, fs_read, fs_write, limit_of, clamp,
}
use unison_capabilities.Tools.Processes.{ProcEntry, process_of, collect, process_list}
use unison_capabilities.Tools.Bounds.{fs_read_bounded}
use unison_capabilities.Tests.Fixtures.{plain_python}

-- A host that notes which files it touches: one directory to read, one to write, and a link that
-- leads out of the first.
abbrev parts_of : String → Result Parts
parts_of path =
    if path == "/srv/in"
    then ok ("srv" ∷ "in" ∷ [])
    else if path == "/srv/out"
    then ok ("srv" ∷ "out" ∷ [])
    else if path == "/srv/in/a.txt"
    then ok ("srv" ∷ "in" ∷ "a.txt" ∷ [])
    else if path == "/srv/out/b.txt"
    then ok ("srv" ∷ "out" ∷ "b.txt" ∷ [])
    else ok ("etc" ∷ "shadow" ∷ [])

abbrev codes : String → List ℕ
codes s =
    if s == "hello"
    then 104 ∷ 101 ∷ 108 ∷ 108 ∷ 111 ∷ []
    else if s == "hel"
    then 104 ∷ 101 ∷ 108 ∷ []
    else []

abbrev text_of : List ℕ → String
text_of (a ∷ b ∷ c ∷ []) = "hel"
text_of bytes = ""

-- a call that notes the file, if its path resolves
abbrev note : {A : Type 0} → Result Parts → A → Exec (List Parts) A
note (ok parts) a touched = (ok a, parts ∷ touched)
note (err e) a touched = (err e, touched)

abbrev small_host : Host (List Parts)
small_host = record {
  getenv = λ k.
      if k == "UNISON_CAPABILITY_FS_READ_ALLOW"
      then some "/srv/in"
      else if k == "UNISON_CAPABILITY_FS_WRITE_ALLOW"
      then some "/srv/out"
      else none;
  resolve_path = parts_of;
  shown = λ path. path;
  read_text = λ path. note (parts_of path) "hello";
  make_parent = λ path touched. (ok tt, touched);
  write_text = λ path text. note (parts_of path) tt;
  encode = codes;
  decode = text_of;
}

abbrev reading : String → Fields
reading path = field "path" (str path) end

tools : Unit {0}
unfolding fs_read fs_write read_roots write_roots split_paths split_csv ensure_under_roots is_under
    cut slice_to whole take get Dict.lookup strip to_int
tools = tt

fs_read_test : fs_read small_host (reading "/srv/in/a.txt") [] ≡ (
  ok (obj (field "path" (str "/srv/in/a.txt") (field "content" (str "hello") end))),
  ("srv" ∷ "in" ∷ "a.txt" ∷ []) ∷ [],
)
unfolding tools
fs_read_test = refl

link_test :
    fs_read small_host (reading "/srv/in/link") []
    ≡ (err (run_error "path not permitted by policy"), [])
unfolding tools
link_test = refl

fs_write_test :
    fs_write small_host (field "path" (str "/srv/in/a.txt") (field "content" (str "x") end)) []
    ≡ (err (run_error "path not permitted by policy"), [])
unfolding tools
fs_write_test = refl

-- Everything touched stays below the directory.
abbrev IsIn : String → Parts → Type 0
IsIn folder parts = (rest : Parts) × (parts ≡ ("srv" ∷ folder ∷ []) ++ rest)

abbrev StaysIn : String → List Parts → List Parts → Type 0
StaysIn folder before later = All (IsIn folder) before → All (IsIn folder) later

abbrev writing : Fields
writing = field "path" (str "/srv/out/b.txt") (field "content" (str "hello") end)

-- Three entries of /proc, of which one is no process and one is gone.
abbrev proc : List ProcEntry
proc =
    record { pid = none; cmdline = ok ""; comm = ok ""; stat = ok "" }
    ∷ record { pid = some 1; cmdline = ok "init"; comm = ok " init "; stat = ok "1 (init) S 0" }
    ∷ record { pid = some 2; cmdline = err (run_error "gone"); comm = ok ""; stat = ok "" }
    ∷ []

abbrev first_process : Value
first_process = obj (
    field "pid" (num (decimal false 1 0))
      (field "comm" (str "init") (field "cmdline" (str "init") (field "state" (str "S") end))))

process_list_test :
    process_list (some proc) end ≡ obj (field "processes" (arr (cons first_process nil)) end)
unfolding process_list tools limit_of clamp collect process_of strip nul_to_space words has
process_list_test = refl

shorter : (bytes : List ℕ) → length (codes (text_of bytes)) ≤ length bytes
shorter [] = omega arith
shorter (a ∷ []) = omega arith
shorter (a ∷ b ∷ []) = omega arith
shorter (a ∷ b ∷ c ∷ []) = omega arith
shorter (a ∷ b ∷ c ∷ d ∷ bytes) = omega arith

abbrev three_bytes : Fields
three_bytes = field "path" (str "/srv/in/a.txt") (field "max_bytes" (num (decimal false 3 0)) end)

fs_read_bounded_example :
    (path : String) × (content : String) × (obj
        (field "path" (str "/srv/in/a.txt") (field "content" (str "hel") end))
      ≡ obj (field "path" (str path) (field "content" (str content) end)))
    × (length (small_host.encode content) ≤ 3)
unfolding tools
fs_read_bounded_example =
    fs_read_bounded small_host three_bytes (decimal false 3 0) 3 []
      (("srv" ∷ "in" ∷ "a.txt" ∷ []) ∷ [])
      (obj (field "path" (str "/srv/in/a.txt") (field "content" (str "hel") end))) shorter refl refl
      refl

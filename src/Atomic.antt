-- ===== src/Atomic.antt =====
-- src/atomic.py: a file is written beside the old one and put in its place. The disk may raise at
-- any step; file descriptors are not modelled.
pub mod Whole
use unison_capabilities.Base.{ℕ, String, ◌<>◌, Bool, Option, none, some, ◌==◌, if◌then◌else◌}
use unison_capabilities.Base.Dict
use unison_capabilities.Base.Dict.{Dict}
use unison_capabilities.Error.{Error, Result, ok, err, python_error}
use unison_capabilities.Exec.{Exec, pure, raise, gets, modify, ◌>>=◌, ◌>>◌}

pub record FileEntry : Type 0 where
  pub content : String
  pub mode : ℕ

-- The files of a directory.
abbrev pub Folder : Type 0
Folder = Dict FileEntry

pub data Step : Type 0 where
  make_parent make_temp change_mode write sync replace open_dir sync_dir unlink : Step

-- The steps that raise, with the exception's text, and what a raising write has written.
pub record Disk : Type 0 where
  pub fault : Step → Option String
  pub torn : String

abbrev pub raise_fault : Option String → Exec Folder (Unit {0})
raise_fault none = pure tt
raise_fault (some text) = raise (python_error text)

abbrev pub put_file : String → String → ℕ → Exec Folder (Unit {0})
put_file name content mode = modify (Dict.insert name (record { content = content; mode = mode }))

-- `f.write(data)` and `f.flush()`: a raise leaves some of it written
abbrev pub write_text : Disk → String → String → ℕ → Exec Folder (Unit {0})
write_text disk tmp text mode = elim (disk.fault write) [
  | none ↦ put_file tmp text mode
  | some e ↦ put_file tmp disk.torn mode >> raise (python_error e)
]

-- `os.replace`: the entry of the first name becomes that of the second
abbrev pub move_entry : String → String → Option FileEntry → Exec Folder (Unit {0})
move_entry tmp name none = raise (python_error "FileNotFoundError")
move_entry tmp name (some entry) = modify (λ files. Dict.insert name entry (Dict.erase tmp files))

-- the `try` block
unfoldable pub write_and_replace : Disk → String → String → String → ℕ → Exec Folder (Unit {0})
write_and_replace disk tmp name text mode = do
  raise_fault (disk.fault change_mode)
  put_file tmp "" mode
  write_text disk tmp text mode
  raise_fault (disk.fault sync)
  raise_fault (disk.fault replace)
  entry ← gets (Dict.lookup tmp)
  move_entry tmp name entry
  raise_fault (disk.fault open_dir)
  raise_fault (disk.fault sync_dir)

-- `os.unlink(tmp)`, with a missing file passed over
unfoldable pub unlink_temp : Disk → String → Exec Folder (Unit {0})
unlink_temp disk tmp = raise_fault (disk.fault unlink) >> modify (Dict.erase tmp)

abbrev last_error : Result (Unit {0}) → Result (Unit {0}) → Result (Unit {0})
last_error r (ok u) = r
last_error r (err e) = err e

-- `try: … finally: …`
abbrev pub finally : Exec Folder (Unit {0}) → Exec Folder (Unit {0}) → Exec Folder (Unit {0})
finally m cleanup s = let (r, s') = m s in let (r', s'') = cleanup s' in (last_error r r', s'')

-- `token` is the fresh part of the name that `mkstemp` chooses.
unfoldable pub atomic_write_text : Disk → String → String → String → ℕ → Exec Folder (Unit {0})
atomic_write_text disk token name text mode = do
  raise_fault (disk.fault make_parent)
  raise_fault (disk.fault make_temp)
  let tmp = name <> "." <> token
  put_file tmp "" 384
  finally (write_and_replace disk tmp name text mode) (unlink_temp disk tmp)

-- `dumps` is `json.dumps` with its options.
unfoldable pub atomic_write_json :
    {A : Type 0} → Disk → (A → String) → String → String → A → ℕ → Exec Folder (Unit {0})
atomic_write_json disk dumps token name payload mode =
    atomic_write_text disk token name (dumps payload <> "\n") mode

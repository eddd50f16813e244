-- ===== src/Atomic/Whole.antt =====
-- A file that src/atomic.py writes is the old one or the new one, wherever the disk raises.
use unison_capabilities.Base.{
  ℕ, String, ◌<>◌, ◌≡◌, ◌≢◌, ◌⊎◌, false, none, some, arith, ◌==◌, eq_iff, eq_refl,
}
use unison_capabilities.Base.Dict
use unison_capabilities.Base.Dict.{lookup-insert, lookup-erase}
use unison_capabilities.Error.{Result, ok}
use unison_capabilities.Atomic.{
  Disk, FileEntry, Folder, unlink, write_and_replace, unlink_temp, atomic_write_text,
}

-- The folder before and after a write: the file is the old one, and the write raised, or it is the
-- new one; the temporary file is gone unless removing it raised; the other files are as they were.
pub record IsWhole (disk : Disk) (tmp name : String) (new : FileEntry) (before : Folder)
    (r : Result (Unit {0})) (after : Folder) : Type 0 where
  pub file :
      ((Dict.lookup name after ≡ Dict.lookup name before) × (r ≢ ok tt))
      ⊎ (Dict.lookup name after ≡ some new)
  pub temp : disk.fault unlink ≡ none → Dict.lookup tmp after ≡ none
  pub others :
      (k : String)
      → name == k ≡ false
      → tmp == k ≡ false
      → Dict.lookup k after ≡ Dict.lookup k before

module _ (disk : Disk) (tmp name text : String) (mode : ℕ) (s : Folder)
    (differ : name == tmp ≡ false) where
  file_after :
      ((Dict.lookup name (write_and_replace disk tmp name text mode s).1 ≡ Dict.lookup name s)
        × ((write_and_replace disk tmp name text mode s).0 ≢ ok tt))
      ⊎ (Dict.lookup name (write_and_replace disk tmp name text mode s).1
          ≡ some (record { content = text; mode = mode }))
  unfolding write_and_replace
  file_after = grind (arith, lookup-insert, lookup-erase, eq_refl, eq_iff name tmp, eq_iff tmp name)

  others_after :
      (k : String)
      → name == k ≡ false
      → tmp == k ≡ false
      → Dict.lookup k (write_and_replace disk tmp name text mode s).1 ≡ Dict.lookup k s
  unfolding write_and_replace
  others_after k n t = grind (arith, lookup-insert, lookup-erase)

-- A write leaves the file as it was or whole with its mode, as a write that returns does; it leaves
-- no temporary file, unless removing it raised, and changes no other file. The name that `mkstemp`
-- gave was free.
pub atomic_write_text-IsWhole :
    (disk : Disk) (token name text : String) (mode : ℕ) (before : Folder)
    → name == (name <> "." <> token) ≡ false
    → Dict.lookup (name <> "." <> token) before ≡ none
    → IsWhole disk
        (name <> "." <> token)
        name
        (record { content = text; mode = mode })
        before
        (atomic_write_text disk token name text mode before).0
        (atomic_write_text disk token name text mode before).1
unfolding atomic_write_text unlink_temp
atomic_write_text-IsWhole disk token name text mode before differ fresh =
    let tmp = name <> "." <> token in
    let s = Dict.insert tmp (record { content = ""; mode = 384 }) before in
    record {
      file = grind (
        arith,
        file_after disk tmp name text mode s differ,
        lookup-insert,
        lookup-erase,
        eq_iff name tmp,
        eq_iff tmp name,
      );
      temp = λ h. grind (arith, lookup-erase, eq_refl);
      others = λ k n t.
          grind (
            arith,
            others_after disk tmp name text mode s differ k n t,
            lookup-insert,
            lookup-erase,
          );
    }

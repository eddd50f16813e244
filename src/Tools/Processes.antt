-- ===== src/Tools/Processes.antt =====
-- src/seed_tools.py: the processes of /proc.
use unison_capabilities.Base.{
  ℕ, zero, suc, String, false, Option, none, some, List, [], ◌∷◌, strip, nul_to_space, words,
}
use unison_capabilities.Value.{
  decimal, Value, Fields, end, field, obj, arr, str, num, nil, of_list, Python,
}
use unison_capabilities.Error.{Result, ok, err, ◌>>=◌}
use unison_capabilities.Tools.{limit_of}

-- An entry of /proc: the number that its name is, if the name is digits, and the texts of the three
-- files in it.
pub record ProcEntry : Type 0 where
  pub pid : Option ℕ
  pub cmdline : Result String
  pub comm : Result String
  pub stat : Result String

-- `stat[2] if len(stat) > 2 else ""`
abbrev state_of : List String → String
state_of (a ∷ b ∷ c ∷ parts) = c
state_of _ = ""

-- the process of an entry, where its files can be read
unfoldable pub process_of : ℕ → ProcEntry → Result Value
process_of pid p = do
  cmdline ← p.cmdline
  comm ← p.comm
  stat ← p.stat
  ok (
      obj (
        field "pid" (num (decimal false pid 0)) (
          field "comm" (str (strip comm)) (
            field "cmdline" (str (strip (nul_to_space cmdline)))
              (field "state" (str (state_of (words stat))) end)))))

-- the list with the process in front, or the one without where its files cannot be read
abbrev kept : Result Value → List Value → List Value → List Value
kept (ok v) skip later = v ∷ later
kept (err e) skip later = skip

abbrev step : Option ℕ → ProcEntry → List Value → List Value → List Value
step none p skip later = skip
step (some pid) p skip later = kept (process_of pid p) skip later

-- the loop over the entries, with room for `n` more processes, which ends where there is none
unfoldable pub collect : ℕ → List ProcEntry → List Value
collect zero ps = []
collect (suc n) [] = []
collect (suc n) (p ∷ ps) =
    let skip = collect (suc n) ps in let later = collect n ps in step p.pid p skip later

-- `none` where /proc is not there
unfoldable pub process_list : ⦃py : Python⦄ → Option (List ProcEntry) → Fields → Value
process_list none args = obj (field "processes" (arr nil) end)
process_list (some entries) args =
    obj (field "processes" (arr (of_list (collect (limit_of args) entries))) end)

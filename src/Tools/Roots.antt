-- ===== src/Tools/Roots.antt =====
-- The file tools of src/seed_tools.py stay below their allowed roots.
use mathlib.Core.List.{Memᴰ}
use unison_capabilities.Base.{String, ◌≡◌, List, ◌++◌}
use unison_capabilities.Error.{ok}
use unison_capabilities.Exec.Within.{Preorder, Within}
use unison_capabilities.Tools.{Parts, Host, read_roots, write_roots}

module _ {World : Type 0} (host : Host World) where
  -- A path that resolves to one below a root.
  pub record IsBelow (path : String) (roots : List Parts) : Type 0 where
    pub root : Parts
    pub rest : Parts
    pub is_root : Memᴰ root roots
    pub resolved : host.resolve_path path ≡ ok (root ++ rest)

  module _ (R : World → World → Type 0) (order : Preorder R) where
    -- The relation holds across every read of a path below a root that is allowed for reading.
    pub record AllowsReads : Type 0 where
      pub reads :
          (path : String) (roots : List Parts)
          → read_roots host ≡ ok roots
          → IsBelow path roots
          → Within R (host.read_text path)

    pub record AllowsWrites : Type 0 where
      pub makes :
          (path : String) (roots : List Parts)
          → write_roots host ≡ ok roots
          → IsBelow path roots
          → Within R (host.make_parent path)
      pub writes :
          (path content : String) (roots : List Parts)
          → write_roots host ≡ ok roots
          → IsBelow path roots
          → Within R (host.write_text path content)

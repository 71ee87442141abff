-- ===== src/Skills/Paths.antt =====
-- The filesystem part of `mergeFragments` of src/skills/load.js.
use nvidia_omoda.Prelude.{
  String, Bool, true, Option, none, some, List, [], ◌∷◌, ◌++◌, if◌then◌else◌, includes,
}
use nvidia_omoda.Policy.Compile.{Fragment, sort_texts}

-- The addition of a list of paths to a set.
unfoldable pub add_paths : List String → List String → List String
add_paths set [] = set
add_paths set (p ∷ ps) = add_paths (if includes set p then set else set ++ p ∷ []) ps

unfoldable pub paths_of : (Fragment → List String) → List Fragment → List String → List String
unfolding add_paths
paths_of part [] set = set
paths_of part (f ∷ fs) set = paths_of part fs (add_paths set (part f))

pub record Filesystem : Type 0 where
  pub include_workdir : Bool
  pub read_only : List String
  pub read_write : List String

-- An empty list stands for a part that is left out.
unfoldable pub merge_paths : List Fragment → Option Filesystem
unfolding paths_of sort_texts
merge_paths fs =
    let reads = sort_texts (paths_of (λ f. f.read_only) fs []) in
    let writes = sort_texts (paths_of (λ f. f.read_write) fs []) in
    let merged = some (record { include_workdir = true; read_only = reads; read_write = writes }) in
    elim reads [ p ∷ ps ↦ merged | [] ↦ elim writes [ p ∷ ps ↦ merged | [] ↦ none ] ]

-- ===== src/Vfs/Clusters.antt =====
-- The cluster numbers of vfs.c. `assignments[dv]` is a map from an index to its entry, none where
-- `path` is NULL, as in the whole array at the start.
pub mod Scan
pub mod Nodes
use templeos_loader.Prelude.{
  ℕ, zero, suc, ◌+◌, Option, none, some, ◌==◌, ltb, if◌then◌else◌, ℤ, pos, negsuc, CString, str_eq,
  ◌>>=◌,
}

abbrev pub clus_min : ℕ
clus_min = 1

abbrev pub max_assignments : ℕ
max_assignments = 10000

abbrev pub num_drives : ℕ
num_drives = 5

-- `struct clus_assignment`
pub record Assignment : Type 0 where
  pub path : CString
  pub clus : ℕ

-- `assignments[dv]`, and the whole array.
abbrev pub Table : Type 0
Table = ℕ → Option Assignment

abbrev pub Assignments : Type 0
Assignments = ℕ → Table

abbrev pub update {ℓ} : {A : Type ℓ} → (ℕ → A) → ℕ → A → ℕ → A
update f i v j = if j == i then v else f j

-- How the loop of `get_node_by_path` ends: at an entry with the path, or behind the last one.
pub data Scanned : Type 0 where
  found : ℕ → Scanned
  stopped : ℕ → Scanned

-- The loop from index `i`, `left` steps below MAX_ASSIGNMENTS.
unfoldable pub scan : (left i : ℕ) → Table → CString → Scanned
scan zero i t path = stopped i
scan (suc left) i t path =
    let rest = scan left (i + 1) t path in
    elim (t i) [ none ↦ stopped i | some a ↦ if str_eq a.path path then found i else rest ]

-- On one drive's table; none is the write behind the end of the table.
unfoldable pub assign : Table → CString → Option (ℕ × Table)
assign t path = elim (scan max_assignments 0 t path) [
  | found i ↦ some (i, t)
  | stopped i ↦
      if ltb i max_assignments
      then some (i, update t i (some (record { path = path; clus = clus_min + i })))
      else none
]

-- The index of the returned entry in `assignments[dv]`, and the array. None is an access out of
-- the array, which C leaves undefined.
unfoldable pub get_node_by_path : Assignments → CString → ℕ → Option (ℕ × Assignments)
unfolding assign
get_node_by_path all path dv =
    if ltb dv num_drives
    then (do (i, t) ← assign (all dv) path; some (i, update all dv t))
    else none

-- The index of the returned entry, none for NULL.
unfoldable pub get_node_by_clus : Assignments → ℤ → ℕ → Option (Option ℕ)
get_node_by_clus all (pos zero) dv = some none
get_node_by_clus all (pos (suc index)) dv =
    if ltb index max_assignments
    then if ltb dv num_drives
      then elim (all dv index) [ none ↦ some none | some a ↦ some (some index) ]
      else none
    else some none
get_node_by_clus all (negsuc n) dv = some none

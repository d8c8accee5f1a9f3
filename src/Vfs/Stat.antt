-- ===== src/Vfs/Stat.antt =====
-- `vfs_stat` and `vfs_statclus`.
pub mod Agree
pub mod Slash
pub mod Keeps
pub mod Room
use templeos_loader.Prelude.{
  ℕ, ◌+◌, Bool, true, false, Option, none, some, ◌==◌, if◌then◌else◌, CString, ℤ, pos, minus_one,
  ◌>>=◌,
}
use templeos_loader.Datetime.{CDateStruct, timespec_to_CDateStruct_local}
use templeos_loader.Platform.{Platform, PhysStat, FileType, directory}
use templeos_loader.Vfs.Clusters.{
  Assignment, Assignments, update, get_node_by_path, get_node_by_clus,
}

abbrev pub rs_attr_dir : ℕ
rs_attr_dir = 0x10

-- `struct CHostFsStat`, with the texts that its pointers lead to.
pub record CHostFsStat : Type 0 where
  pub attr : ℕ
  pub clus : ℕ
  pub size : ℤ
  pub abs_path : CString
  pub name : CString
  pub datetime : CDateStruct

abbrev pub attr_of : FileType → ℕ
attr_of FileType.directory = rs_attr_dir
attr_of _ = 0

-- The change of an entry's path in place.
abbrev pub set_path : Assignments → (dv i : ℕ) → CString → Assignments
set_path all dv i path = update all dv (λ j.
    if j == i
    then elim (all dv j) [ none ↦ none | some a ↦ some (record a { path = path }) ]
    else all dv j)

module _ (P : Platform) where
  open P use {Fs, stat, localtime_r, basename}

  -- The stores of `vfs_stat` for entry `i`. `basename` works on the entry's own path, which
  -- `abs_path` then shows as `basename` left it.
  unfoldable pub fill_stat : PhysStat → ℕ → ℕ → Assignments → Option (ℤ × CHostFsStat × Assignments)
  fill_stat st dv i all = do
    a ← all dv i
    let (name, left) = basename a.path
    some (
      pos 0,
      record {
        attr = attr_of st.filetype;
        clus = a.clus;
        size = st.filesize;
        abs_path = left;
        name = name;
        datetime = timespec_to_CDateStruct_local localtime_r st.modtime (pos 0);
      },
      set_path all dv i left,
    )

  -- The return value, what `st_out` holds, and the assignments.
  unfoldable pub vfs_stat :
      CString → CHostFsStat → ℕ → Fs → Assignments → Option (ℤ × CHostFsStat × Assignments)
  unfolding fill_stat
  vfs_stat path st_out dv fs all = elim (stat path dv fs) [
    | none ↦ some (minus_one, st_out, all)
    | some st ↦ do (i, all') ← get_node_by_path all path dv; fill_stat st dv i all'
  ]

  -- `name` keeps what `st_out` held.
  unfoldable pub fill_statclus : CHostFsStat → PhysStat → Assignment → CHostFsStat
  fill_statclus st_out st a = record st_out {
    attr = attr_of st.filetype;
    size = st.filesize;
    clus = a.clus;
    abs_path = a.path;
    datetime = timespec_to_CDateStruct_local localtime_r st.modtime (pos 0);
  }

  unfoldable pub vfs_statclus : ℤ → CHostFsStat → ℕ → Fs → Assignments → Option (ℤ × CHostFsStat)
  unfolding fill_statclus
  vfs_statclus clus st_out dv fs all = do
    node ← get_node_by_clus all clus dv
    elim node [
      | none ↦ some (minus_one, st_out)
      | some i ↦ do
        a ← all dv i
        elim (stat a.path dv fs) [
          | none ↦ some (minus_one, st_out)
          | some st ↦ some (pos 0, fill_statclus st_out st a)
        ]
    ]

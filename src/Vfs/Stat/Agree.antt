-- ===== src/Vfs/Stat/Agree.antt =====
-- `vfs_stat` and `vfs_statclus` agree on a path whose text `basename` leaves alone.
use mathlib.Core.Path.{fun_ext}
use templeos_loader.Prelude.{ℕ, ◌+◌, ◌≡◌, ap, ◌∙◌, arith, none, some, CString, pos, minus_one}
use templeos_loader.Datetime.{timespec_to_CDateStruct_local}
use templeos_loader.Platform.{Platform, PhysStat}
use templeos_loader.Vfs.Clusters.{clus_min, Assignments, get_node_by_path, get_node_by_clus}
use templeos_loader.Vfs.Clusters.Scan.{Names}
use templeos_loader.Vfs.Clusters.Nodes.{
  AreAssigned, get_node_by_path-Obtained, get_node_by_path_again, get_node_by_clus-get_node_by_path,
}
use templeos_loader.Vfs.Stat.{
  CHostFsStat, attr_of, set_path, fill_stat, vfs_stat, fill_statclus, vfs_statclus,
}

-- Writing an entry's own path changes nothing.
pub set_path-same :
    (all : Assignments) (dv i : ℕ) (path : CString)
    → Names (all dv) i path
    → set_path all dv i path ≡ all
set_path-same all dv i path named = fun_ext λ e. fun_ext λ j. ground arith

module _ (P : Platform) where
  open P use {Fs, stat, localtime_r, basename}

  -- What `vfs_stat` reports for an existing file.
  abbrev pub report : CString → CString → PhysStat → ℕ → CHostFsStat
  report path name info i = record {
    attr = attr_of info.filetype;
    clus = clus_min + i;
    size = info.filesize;
    abs_path = path;
    name = name;
    datetime = timespec_to_CDateStruct_local localtime_r info.modtime (pos 0);
  }

  pub fill_stat_lem :
      (path left name : CString) (info : PhysStat) (dv i : ℕ) (all : Assignments)
      → Names (all dv) i path
      → basename path ≡ (name, left)
      → fill_stat P info dv i all ≡ some (pos 0, report left name info i, set_path all dv i left)
  unfolding fill_stat
  fill_stat_lem path left name info dv i all named changed =
      rw (named, fill_stat)
        (ap (λ (b : CString × CString). some (pos 0, report b.1 b.0 info i, set_path all dv i b.1))
          changed)

  module _ (path name : CString) (dv : ℕ) (fs : Fs) (info : PhysStat) (all : Assignments)
      (kept : basename path ≡ (name, path)) (exists : stat path dv fs ≡ some info) where
    pub vfs_stat-found :
        (i : ℕ) (all' : Assignments) (st_out : CHostFsStat)
        → get_node_by_path all path dv ≡ some (i, all')
        → Names (all' dv) i path
        → vfs_stat P path st_out dv fs all ≡ some (pos 0, report path name info i, all')
    unfolding vfs_stat
    vfs_stat-found i all' st_out h named =
        rw (exists, vfs_stat, h)
          (fill_stat_lem path path name info dv i all' named kept
            ∙ ap (λ (x : Assignments). some (pos 0, report path name info i, x))
                (set_path-same all' dv i path named))

    pub statclus-found :
        (i : ℕ) (all' : Assignments) (st_out : CHostFsStat)
        → get_node_by_clus all' (pos (clus_min + i)) dv ≡ some (some i)
        → Names (all' dv) i path
        → vfs_statclus P (pos (clus_min + i)) st_out dv fs all'
          ≡ some (pos 0, record (report path name info i) { name = st_out.name })
    unfolding vfs_statclus
    statclus-found i all' st_out h named = rw (h, vfs_statclus, named, exists, fill_statclus)

  -- For a path that `basename` leaves alone and an existing file, if `vfs_stat` obtains an entry
  -- at all: it returns 0 with the file's data and the entry's cluster; a second `vfs_stat` of the
  -- path reports the same and changes no assignment; and `vfs_statclus` of the reported cluster
  -- returns 0 with the same data, except that it leaves `name` as it was.
  pub vfs_stat-vfs_statclus :
      (path name : CString) (dv : ℕ) (fs : Fs) (info : PhysStat) (all : Assignments) (i : ℕ)
      (all' : Assignments) (st_out st_out' : CHostFsStat)
      → AreAssigned all
      → basename path ≡ (name, path)
      → stat path dv fs ≡ some info
      → get_node_by_path all path dv ≡ some (i, all')
      → let reported = report path name info i in
        (vfs_stat P path st_out dv fs all ≡ some (pos 0, reported, all'))
        × (vfs_stat P path st_out' dv fs all' ≡ some (pos 0, reported, all'))
        × (vfs_statclus P (pos reported.clus) st_out' dv fs all'
            ≡ some (pos 0, record reported { name = st_out'.name }))
  vfs_stat-vfs_statclus path name dv fs info all i all' st_out st_out' w kept exists h =
      let o = get_node_by_path-Obtained all path dv i all' w h in
      let again = get_node_by_path_again all' path dv i o.tables o.drive o.named in
      let back = get_node_by_clus-get_node_by_path all path dv i all' w h in
      (
        vfs_stat-found path name dv fs info all kept exists i all' st_out h o.named,
        vfs_stat-found path name dv fs info all' kept exists i all' st_out' again o.named,
        statclus-found path name dv fs info all kept exists i all' st_out' back.0 o.named,
      )

  -- A failed `vfs_stat` returns -1 and stores and assigns nothing.
  pub vfs_stat-missing :
      (path : CString) (st_out : CHostFsStat) (dv : ℕ) (fs : Fs) (all : Assignments)
      → stat path dv fs ≡ none
      → vfs_stat P path st_out dv fs all ≡ some (minus_one, st_out, all)
  unfolding vfs_stat
  vfs_stat-missing path st_out dv fs all missing = rw (missing, vfs_stat)

-- ===== src/Vfs/Stat/Slash.antt =====
-- `vfs_stat` of a path that `basename` changes in place, as it may a path that ends in a slash.
use mathlib.Core.Path.{fun_ext}
use templeos_loader.Prelude.{==_refl, ℕ, ◌+◌, ◌<◌, ◌≡◌, ◌≢◌, ap, ◌∙◌, arith, some, CString, pos}
use templeos_loader.Platform.{Platform, PhysStat}
use templeos_loader.Vfs.Clusters.{
  max_assignments, num_drives, Assignments, update, get_node_by_path,
}
use templeos_loader.Vfs.Clusters.Scan.{
  IsAssigned, Names, Unnamed, assign-Unnamed, extended, extended-IsAssigned,
}
use templeos_loader.Vfs.Stat.{CHostFsStat, set_path, vfs_stat}
use templeos_loader.Vfs.Stat.Agree.{report, fill_stat_lem}

module _ (P : Platform) (path left name : CString) (dv : ℕ) (info : PhysStat) where
  open P use {Fs, stat, basename}

  -- A `vfs_stat` of an unassigned path: the new entry is left with the other path.
  vfs_stat-left :
      (fs : Fs) (all : Assignments) (n : ℕ) (st_out : CHostFsStat) (w : IsAssigned (all dv) n)
      → dv < num_drives
      → n < max_assignments
      → Unnamed (all dv) path
      → basename path ≡ (name, left)
      → stat path dv fs ≡ some info
      → vfs_stat P path st_out dv fs all
        ≡ some (pos 0, report P left name info n, update all dv (extended (all dv) left n w))
  unfolding vfs_stat get_node_by_path
  vfs_stat-left fs all n st_out w drive room new changed exists =
      let got : get_node_by_path all path dv
          ≡ some (n, update all dv (extended (all dv) path n w)) =
        ground (arith, assign-Unnamed (all dv) path n w new) in
      let named : Names (update all dv (extended (all dv) path n w) dv) n path = ground arith in
      rw (exists, vfs_stat)
        (rw got (
          fill_stat_lem P path left name info dv n (update all dv (extended (all dv) path n w))
            named changed
          ∙ ap (λ (x : Assignments). some (pos 0, report P left name info n, x)) renamed))
    where
      renamed :
          set_path (update all dv (extended (all dv) path n w)) dv n left
          ≡ update all dv (extended (all dv) left n w)
      renamed = fun_ext λ e. fun_ext λ j. ground arith

  -- On one of the drives, whose table is in order and has two free entries, if `basename` changes
  -- the path's text in place to another, and neither text is assigned yet, then two `vfs_stat` of
  -- the same existing file in a row succeed with different clusters: the first left its entry with
  -- the other text.
  pub vfs_stat_twice :
      (fs : Fs) (all : Assignments) (n : ℕ) (st_out st_out' : CHostFsStat)
      → IsAssigned (all dv) n
      → dv < num_drives
      → n + 1 < max_assignments
      → Unnamed (all dv) path
      → Unnamed (all dv) left
      → path ≢ left
      → basename path ≡ (name, left)
      → stat path dv fs ≡ some info
      → (all' all'' : Assignments) × (vfs_stat P path st_out dv fs all
          ≡ some (pos 0, report P left name info n, all'))
        × (vfs_stat P path st_out' dv fs all'
            ≡ some (pos 0, report P left name info (n + 1), all''))
  vfs_stat_twice fs all n st_out st_out' w drive room new new' ne changed exists =
      let all' : Assignments = update all dv (extended (all dv) left n w) in
      let w' : IsAssigned (all' dv) (n + 1) =
        rw (==_refl dv) (extended-IsAssigned (all dv) left n w new' (omega arith)) in
      let still_new : Unnamed (all' dv) path = λ i a e p. ground (arith, new i a) in
      (
        all',
        update all' dv (extended (all' dv) left (n + 1) w'),
        vfs_stat-left fs all n st_out w drive (omega arith) new changed exists,
        vfs_stat-left fs all' (n + 1) st_out' w' drive room still_new changed exists,
      )

-- ===== src/HostFs/Find.antt =====
-- `HostFsFileFind`: what it answers about a name in the directory of a cluster.
use mathlib.Core.List.{append_assoc}
use templeos_loader.Prelude.{
  ℕ, suc, ◌%◌, ◌^◌, ◌≤◌, ◌<◌, ◌≡◌, ◌≢◌, ◌==◌, inl, inr, refl, arith, ap, ◌∙◌, none, some, [], ◌∷◌,
  ◌++◌, length, CString, pos, ltb, Option-cases, true, false,
}
use templeos_loader.Platform.{ends_in_slash, Platform, PhysStat}
use templeos_loader.Vfs.Clusters.{max_assignments, num_drives}
use templeos_loader.Vfs.Stat.{CHostFsStat}
use templeos_loader.Vfs.Stat.Agree.{report}
use templeos_loader.Vfs.Stat.Room.{HasRoom}
use templeos_loader.Vsyscall.Defs.{decode, Libc, World}
use templeos_loader.Vsyscall.Invariant.{IsPlain, IsValid}
use templeos_loader.Vsyscall.Runs.{Runs, here, Runs-IsValid, Runs-trans}
use templeos_loader.Vsyscall.Clusters.{statclus-served}
use templeos_loader.Guest.Calls.{stat_call, statclus_call}
use templeos_loader.HostFs.{
  Kernel, CDrv, CDirEntry, Found, missed, found, fst_hostfs, cdir_filename_len, not_file_find,
  passing, vsys_call, host_fs_dir_entry_init, dir_path, stat_entry, host_fs_make_abs_path,
  host_fs_file_find,
}
use templeos_loader.HostFs.Calls.{
  passing-IsOpen, vsys_call-returned, with_assignments, stat-found, stat-missing,
}
use templeos_loader.HostFs.Answers.{wanted_kind_lem, HasNoFormat, join, IsReady, Answers}

module _ (K : Kernel) (P : Platform) (libc : Libc)
    (keeps : (p : CString) → ends_in_slash p ≡ false → (P.basename p).1 ≡ p) (dv : CDrv) where
  abbrev d : ℕ
  d = dv.prt_num % 2 ^ 8

  dir_path-root :
      (clus : ℕ) (dir : CString) (w : World P)
      → clus ≡ 0
      → dir ≡ b'/' ∷ []
      → dir_path K P libc dv clus w ≡ some (some dir, K.unset, w)
  unfolding dir_path
  dir_path-root clus dir w zero root = rw (dir_path, zero, root) refl

  dir_path-served :
      (clus : ℕ) (dir : CString) (w : World P) (st : CHostFsStat) (w' : World P)
      → clus ≢ 0
      → vsys_call P libc statclus_call clus K.stat_at dv.prt_num 0 (passing [] [] K.unset) w
        ≡ some (record { rc = pos 0; stat_out = some (K.stat_at, st); buf_out = none }, w')
      → st.abs_path ≡ dir
      → dir_path K P libc dv clus w ≡ some (some dir, st, w')
  unfolding dir_path
  dir_path-served clus dir w st w' ne e same =
      let other : (clus == 0) ≡ false = ground arith in rw (dir_path, other, e, same) refl

  dir_path_lem :
      (clus : ℕ) (dir : CString) (w : World P) (k : ℕ)
      → IsReady P w d clus dir k
      → (st : CHostFsStat) × (w' : World P) × (dir_path K P libc dv clus w
          ≡ some (some dir, st, w'))
        × Runs P w w'
        × (w'.fs ≡ w.fs)
        × (w'.assignments ≡ w.assignments)
  unfolding decode IsPlain
  dir_path_lem clus dir w k r = elim r.denotes [
    | inl (zero, root) ↦ (K.unset, w, dir_path-root clus dir w zero root, here, refl, refl)
    | inr (i, nth, named) ↦ elim r.there [
      | inl zero ↦ absurd (omega arith)
      | inr (info, exists) ↦
          let plain : ends_in_slash dir ≡ false = elim r.plain [
            | inl zero ↦ absurd (omega arith)
            | inr p ↦ p
          ] in
          let (e, runs) =
            vsys_call-returned P libc statclus_call clus K.stat_at dv.prt_num 0
              (passing [] [] K.unset) w _ _ tt
              (statclus-served P keeps libc (passing [] [] K.unset)
                (record { arg1 = clus; arg2 = K.stat_at; arg3 = dv.prt_num; arg4 = 0 }) w dir i info
                r.valid.assigned plain refl r.drive named nth exists) in
          (_, _, dir_path-served clus dir w _ _ (omega arith) e refl, runs, refl, refl)
    ]
  ]

  -- The entry that a find of `path` fills.
  abbrev entry : CString → PhysStat → ℕ → CDirEntry
  entry path info i =
      let st = report P path (P.basename path).0 info i in
      record {
        attr = K.file_attr st.name st.attr;
        name = st.name;
        clus = st.clus;
        size = st.size;
        datetime = K.struct2_date st.datetime;
      }

  init_lem :
      (path : CString) (info : PhysStat) (i : ℕ)
      → length (P.basename path).0 < cdir_filename_len
      → host_fs_dir_entry_init K (report P path (P.basename path).0 info i)
        ≡ some (entry path info i)
  unfolding host_fs_dir_entry_init
  init_lem path info i short =
      let fits : ltb (length (P.basename path).0) cdir_filename_len ≡ true = ground arith in
      rw (host_fs_dir_entry_init, fits) refl

  stat_entry-missed :
      (path : CString) (flags : ℕ) (st : CHostFsStat) (w : World P)
      → ends_in_slash path ≡ false
      → P.stat path d w.fs ≡ none
      → (stat_entry K P libc dv path flags st w
          ≡ some (missed, with_assignments P libc w w.assignments))
        × Runs P w (with_assignments P libc w w.assignments)
  unfolding stat_entry decode IsPlain
  stat_entry-missed path flags st w plain missing =
      let (e, runs) =
        vsys_call-returned P libc stat_call K.path_at K.stat_at dv.prt_num 0 (passing path [] st) w
          _ _ plain
          (stat-missing P libc (passing path [] st)
            (record { arg1 = K.path_at; arg2 = K.stat_at; arg3 = dv.prt_num; arg4 = 0 }) w
            (passing-IsOpen path [] st) missing) in
      (rw (stat_entry, e) refl, runs)

  stat_entry-found :
      (path : CString) (flags : ℕ) (st : CHostFsStat) (w : World P) (k : ℕ) (info : PhysStat)
      → IsValid P w
      → ends_in_slash path ≡ false
      → d < num_drives
      → suc k ≤ max_assignments
      → HasRoom (suc k) (w.assignments d)
      → P.stat path d w.fs ≡ some info
      → length (P.basename path).0 < cdir_filename_len
      → (res : Found) × (w' : World P) × (stat_entry K P libc dv path flags st w ≡ some (res, w'))
        × Runs P w w'
        × (w'.fs ≡ w.fs)
        × HasRoom k (w'.assignments d)
        × Answers P K w' d path flags res (some info)
  unfolding stat_entry decode IsPlain
  stat_entry-found path flags st w k info v plain drive small room exists short =
      let (i, all, stats, named, room') =
        stat-found P libc keeps dv.prt_num drive K.path_at K.stat_at path st w k info v plain small
          room exists in
      let (e, runs) =
        vsys_call-returned P libc stat_call K.path_at K.stat_at dv.prt_num 0 (passing path [] st) w
          _ _ plain stats in
      elim (wanted_kind_lem flags info.filetype) [
        | inl (ok, taken) ↦ (
          found (entry path info i),
          _,
          rw (stat_entry, e, ok, init_lem path info i short) refl,
          runs,
          refl,
          room',
          inr (taken, _, refl, refl, refl, refl, inr (i, refl, named)),
        )
        | inr (other, excluded) ↦
            (missed, _, rw (stat_entry, e, other) refl, runs, refl, room', inl (excluded, refl))
      ]

  file_find-entry :
      (clus : ℕ) (name dname dir : CString) (flags : ℕ) (st : CHostFsStat) (w w' : World P)
      → not_file_find flags ≡ 0
      → dv.fs_type ≡ fst_hostfs
      → K.cfile_name_to name ≡ some dname
      → host_fs_make_abs_path K dir name ≡ join dir name
      → dir_path K P libc dv clus w ≡ some (some dir, st, w')
      → host_fs_file_find K P libc dv clus name flags w
        ≡ stat_entry K P libc dv (join dir name) flags st w'
  unfolding host_fs_file_find
  file_find-entry clus name dname dir flags st w w' known host valid path e =
      rw (host_fs_file_find, known, host, valid, e, path) refl

  pub make_abs_path-join :
      (name dir : CString)
      → ((s t : CString) → HasNoFormat t → K.cat_print s t ≡ s ++ t)
      → HasNoFormat name
      → host_fs_make_abs_path K dir name ≡ join dir name
  unfolding HasNoFormat
  make_abs_path-join name dir prints unformatted =
      prints _ name unformatted
      ∙ ap (λ (s : CString). s ++ name) (prints dir (b'/' ∷ []) (λ e. omega arith, tt))
      ∙ append_assoc dir (b'/' ∷ []) name

  -- If `basename` changes no path in place that does not end in a slash, and `CatPrint` prints a
  -- text without `%` as it is, then in a state in order of the loader, on a host drive, one of the
  -- drives of the loader with room for one cluster more, for a valid name without `%`, which does
  -- not end in a slash, in the directory of a cluster that denotes the root or an existing directory
  -- whose path does not end in a slash, where the `basename` of the directory's path, a slash and
  -- the name fits into a directory entry, and for flags that a find takes: `HostFsFileFind` makes
  -- calls that return, and answers what PhysFS has at that path, FALSE where it has nothing or a
  -- file of a kind that the flags exclude, and else an entry with the file's `basename`,
  -- attributes and size, whose cluster denotes the path then; and PhysFS is as before.
  pub host_fs_file_find-Answers :
      (clus : ℕ) (name dname dir : CString) (flags : ℕ) (w : World P) (k : ℕ)
      → ((s t : CString) → HasNoFormat t → K.cat_print s t ≡ s ++ t)
      → HasNoFormat name
      → K.cfile_name_to name ≡ some dname
      → dv.fs_type ≡ fst_hostfs
      → not_file_find flags ≡ 0
      → length (P.basename (join dir name)).0 < cdir_filename_len
      → ends_in_slash (join dir name) ≡ false
      → IsReady P w d clus dir (suc k)
      → (res : Found) × (w' : World P) × (host_fs_file_find K P libc dv clus name flags w
          ≡ some (res, w'))
        × Runs P w w'
        × (w'.fs ≡ w.fs)
        × HasRoom k (w'.assignments d)
        × Answers P K w' d (join dir name) flags res (P.stat (join dir name) d w.fs)
  host_fs_file_find-Answers clus name dname dir flags w k prints unformatted valid host known short
        plain r =
      let (st, w1, e, runs, same_fs, same) = dir_path_lem clus dir w (suc k) r in
      let path = make_abs_path-join name dir prints unformatted in
      let finds = file_find-entry clus name dname dir flags st w w1 known host valid path e in
      elim (Option-cases (P.stat (join dir name) d w.fs)) [
        | inl missing ↦
            let (gone, more) =
              stat_entry-missed (join dir name) flags st w1 plain (rw same_fs missing) in
            (
              missed,
              _,
              finds ∙ gone,
              Runs-trans P runs more,
              same_fs,
              rw same (λ j high. r.room j (omega arith)),
              rw missing refl,
            )
        | inr (info, exists) ↦
            let (res, w2, got, more, same_fs2, room, answers) =
              stat_entry-found (join dir name) flags st w1 k info
                (Runs-IsValid P keeps r.valid runs) plain r.drive r.small (rw same r.room)
                (rw same_fs exists) short in
            (
              res,
              w2,
              finds ∙ got,
              Runs-trans P runs more,
              same_fs2 ∙ same_fs,
              room,
              rw exists answers,
            )
      ]

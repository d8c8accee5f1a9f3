-- ===== src/HostFs/Delete/Whole.antt =====
-- `HostFsFilesDel` against its description without directory streams.
use templeos_loader.Prelude.{
  ℕ, ◌%◌, ◌^◌, ◌≤◌, ◌<◌, ◌≡◌, ◌≢◌, ◌==◌, refl, arith, Bool, false, some, List, [], length, CString,
  signed64, unsigned,
}
use templeos_loader.Platform.{ends_in_slash, Platform}
use templeos_loader.Vfs.Clusters.{max_assignments, num_drives}
use templeos_loader.Vfs.Stat.Room.{HasRoom}
use templeos_loader.Vfs.Dirs.{VfsDir}
use templeos_loader.Vsyscall.Defs.{decode, Reply, Libc, World}
use templeos_loader.Vsyscall.Invariant.{IsPlain, IsValid}
use templeos_loader.Vsyscall.Runs.{Runs-IsValid}
use templeos_loader.Guest.Calls.{opendir_call, closedir_call}
use templeos_loader.HostFs.{Kernel, CDrv, passing, vsys_call}
use templeos_loader.Vfs.Stat.Keeps.{ArePlain}
use templeos_loader.HostFs.Calls.{passing-IsOpen, vsys_call-returned}
use templeos_loader.HostFs.Delete.{delete_loop, host_fs_files_del}
use templeos_loader.HostFs.Delete.Calls.{
  with_open, closedir-returned, opendir-returned, vfs_opendir-listed,
}
use templeos_loader.HostFs.Delete.Direct.{delete_all}
use templeos_loader.HostFs.Delete.Loop.{delete_loop-Looped}

module _ (K : Kernel) (mask : CString) (flags : ℕ) (del_dir : Bool) (P : Platform) (libc : Libc)
    (keeps : (p : CString) → ends_in_slash p ≡ false → (P.basename p).1 ≡ p) (dv : CDrv)
    (drive : dv.prt_num % 2 ^ 8 < num_drives) (dir : CString) where
  abbrev d : ℕ
  d = dv.prt_num % 2 ^ 8

  abbrev stream : List CString → ℕ → VfsDir
  stream list at = record { path = dir; list = list; pos = at }

  abbrev all_of : List CString → ℕ → P.Fs → ℕ × P.Fs
  all_of = delete_all K mask flags del_dir P d dir

  files_del-opened :
      (fuel p n : ℕ) (r r' : Reply) (w w1 w2 w3 : World P)
      → vsys_call P libc opendir_call K.path_at dv.prt_num 0 0 (passing dir [] K.unset) w
        ≡ some (r, w1)
      → unsigned 64 r.rc ≡ p
      → p ≢ 0
      → delete_loop K mask flags del_dir P libc dv fuel p K.unset 0 w1 ≡ some (n, w2)
      → vsys_call P libc closedir_call p dv.prt_num 0 0 (passing [] [] K.unset) w2 ≡ some (r', w3)
      → host_fs_files_del K mask flags del_dir P libc dv fuel dir w ≡ some (n, w3)
  unfolding host_fs_files_del
  files_del-opened fuel p n r r' w w1 w2 w3 opens address ne loops closes =
      let given : (p == 0) ≡ false = ground arith in
      rw (host_fs_files_del, opens, address, given, loops, closes) refl

  -- If `basename` changes no path in place that does not end in a slash, then on one of the drives of
  -- the loader, in a state in order of the loader, where PhysFS lists the guest's directory, no path
  -- of an entry ends in a slash, there is room for a cluster for each entry and more fuel than entries, and `malloc` gives an address for the stream:
  -- `HostFsFilesDel` ends, PhysFS is as after the deletion of the entries that match the mask and
  -- do not start with a dot, directories only with `del_dir`, one after the other, each if it
  -- exists when its turn comes; the count of those that are not directories is returned, and the
  -- stream is closed again.
  pub host_fs_files_del-delete_all :
      (fuel : ℕ) (list : List CString) (fs : P.Fs) (w : World P)
      → IsValid P w
      → P.enumerate_files dir d w.fs ≡ (some list, fs)
      → length list < fuel
      → ArePlain dir list
      → length list ≤ max_assignments
      → HasRoom (length list) (w.assignments d)
      → libc.malloc w.dirs ≢ 0
      → libc.malloc w.dirs < 2 ^ 64
      → (w' : World P) × (host_fs_files_del K mask flags del_dir P libc dv fuel dir w
          ≡ some ((all_of list 0 fs).0, w'))
        × (w'.fs ≡ (all_of list 0 fs).1)
        × (w'.dirs ≡ w.dirs)
  unfolding decode IsPlain
  host_fs_files_del-delete_all fuel list fs w v lists more plain small room ne wide =
      let p = libc.malloc w.dirs in
      let w1 = with_open P libc w (stream list 0) fs in
      let (opens, runs) =
        vsys_call-returned P libc opendir_call K.path_at dv.prt_num 0 0 (passing dir [] K.unset) w _
          w1 tt
          (opendir-returned P libc (passing dir [] K.unset)
            (record { arg1 = K.path_at; arg2 = dv.prt_num; arg3 = 0; arg4 = 0 }) w (stream list 0)
            fs (passing-IsOpen dir [] K.unset) (vfs_opendir-listed P libc dir d list w.fs fs lists)
            ne) in
      let l =
        delete_loop-Looped K mask flags del_dir P libc keeps dv drive dir list fuel 0 0 list p
          K.unset 0 w1 w.dirs more (Runs-IsValid P keeps v runs) plain small room refl refl refl in
      let (closes, runs') =
        vsys_call-returned P libc closedir_call p dv.prt_num 0 0 (passing [] [] K.unset) l.w' _ _ tt
          (closedir-returned P libc (passing [] [] K.unset)
            (record { arg1 = p; arg2 = dv.prt_num; arg3 = 0; arg4 = 0 }) l.w' (stream list l.end)
            w.dirs l.dirs) in
      let address : unsigned 64 (signed64 p) ≡ p = ground arith in
      (_, files_del-opened fuel p _ _ _ w w1 l.w' _ opens address ne l.loops closes, l.fs, refl)

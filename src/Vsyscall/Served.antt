-- ===== src/Vsyscall/Served.antt =====
-- Calls that do not fault.
use templeos_loader.Prelude.{
  true, false, ◌-◌, ◌%◌, ◌^◌, ◌<◌, ◌≤◌, some, length, drop, ◌≡◌, ◌≢◌, none, CString, pos,
}
use templeos_loader.Platform.{ends_in_slash, Platform}
use templeos_loader.Vfs.Clusters.{max_assignments, num_drives}
use templeos_loader.Vsyscall.Defs.{Syscall, Args, Guest, Libc, World, sizeof_host_fs_stat, find_dir}
use templeos_loader.Vfs.Dirs.{VfsDir}
use templeos_loader.Vfs.Files.{vfs_fget}
use templeos_loader.Vfs.Stat.Keeps.{ArePlain}
use templeos_loader.Vfs.Stat.Room.{HasRoom}

module _ (P : Platform) where
  open P use {Fs, stat}

  module _ (libc : Libc) (guest : Guest)
      (keeps : (p : CString) → ends_in_slash p ≡ false → (P.basename p).1 ≡ p) where
    -- What a call relies on besides the state: the memory that it accesses, the stream that it
    -- names, the memory for a new one, the drive, and room in its table.
    unfoldable pub IsServed : Syscall → Args → World P → Type 0
    IsServed Syscall.addsym a w = (guest.text_ok a.arg1 ≡ true) × (guest.text_ok a.arg2 ≡ true)
    IsServed Syscall.debug a w = guest.text_ok a.arg1 ≡ true
    IsServed Syscall.mkdir a w = guest.text_ok a.arg1 ≡ true
    IsServed Syscall.unlink a w = guest.text_ok a.arg1 ≡ true
    IsServed Syscall.fget a w =
        (guest.text_ok a.arg1 ≡ true)
        × (guest.bytes_ok a.arg2
              (length (vfs_fget P (guest.text_at a.arg1) a.arg3 (a.arg4 % 2 ^ 8) w.fs).1)
            ≡ true)
    IsServed Syscall.fput a w =
        (guest.text_ok a.arg1 ≡ true) × (guest.bytes_ok a.arg2 a.arg3 ≡ true)
    IsServed Syscall.closedir a w = find_dir a.arg1 w.dirs ≢ none
    IsServed Syscall.readdir a w =
        (d : VfsDir) × (find_dir a.arg1 w.dirs ≡ some d)
        × ArePlain d.path d.list
        × (a.arg3 % 2 ^ 8 < num_drives)
        × (length (drop d.pos d.list) ≤ max_assignments)
        × HasRoom (length (drop d.pos d.list)) (w.assignments (a.arg3 % 2 ^ 8))
        × (guest.bytes_ok a.arg2 sizeof_host_fs_stat ≡ true)
    IsServed Syscall.opendir a w = (guest.text_ok a.arg1 ≡ true) × (libc.malloc w.dirs ≢ 0)
    IsServed Syscall.statclus a w =
        (a.arg3 % 2 ^ 8 < num_drives) × (guest.bytes_ok a.arg2 sizeof_host_fs_stat ≡ true)
    IsServed Syscall.stat a w =
        (guest.text_ok a.arg1 ≡ true)
        × (guest.bytes_ok a.arg2 sizeof_host_fs_stat ≡ true)
        × (a.arg3 % 2 ^ 8 < num_drives)
        × (w.assignments (a.arg3 % 2 ^ 8) (max_assignments - 1) ≡ none)
    IsServed _ a w = Unit

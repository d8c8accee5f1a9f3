-- ===== src/HostFs/Files.antt =====
-- The driver's functions on whole files: `HostFsFileRead`, `HostFsFileWrite` and `HostFsMkDir`.
pub mod Contents
pub mod RoundTrip
mod Tests
use templeos_loader.Prelude.{
  ℕ, ◌+◌, ◌<◌, ◌==◌, ltb, leb, Bool, true, false, not, ◌&&◌, if◌then◌else◌, Option, none, some,
  List, [], ◌∷◌, ◌++◌, length, take, CString, ℤ, pos, negsuc, unsigned, ◌>>=◌,
}
use templeos_loader.Platform.{Platform}
use templeos_loader.Guest.Calls.{stat_call, fread_call, fwrite_call, mkdir_call}
use templeos_loader.Vfs.Stat.{CHostFsStat}
use templeos_loader.Vfs.Files.{or_zero}
use templeos_loader.Vsyscall.Defs.{Reply, Libc, World}
use templeos_loader.HostFs.{
  Kernel, CDrv, fst_hostfs, passing, is_zero, stat_after, host_fs_make_abs_path, vsys_call,
}

-- The buffer up to and with the zero behind the file, `*_size` and `*_attr`.
pub record FileRead : Type 0 where
  pub buf : Option (List ℕ)
  pub size : ℤ
  pub attr : ℕ

abbrev pub nothing_read : FileRead
nothing_read = record { buf = none; size = pos 0; attr = 0 }

-- The bytes of `MAlloc(stat.size+1)`.
abbrev pub allocated : ℤ → ℕ
allocated (pos n) = n + 1
allocated (negsuc n) = 0

-- The bytes that a call has put into the guest's buffer.
abbrev pub bytes_after : Reply → List ℕ
bytes_after r = elim r.buf_out [ none ↦ [] | some (p, bytes) ↦ bytes ]

-- `buf[*_size] = 0`. None is a store out of the buffer, by the call or here, and a count of bytes
-- that the call has not put there.
unfoldable pub terminated : ℤ → ℤ → List ℕ → Option (List ℕ)
terminated size (pos n) bytes =
    if ltb n (allocated size) && leb (length bytes) (allocated size) && leb n (length bytes)
    then some (take n bytes ++ 0 ∷ [])
    else none
terminated size (negsuc n) bytes = none

module _ (K : Kernel) (P : Platform) (libc : Libc) where
  unfoldable pub read_file : CDrv → CString → CHostFsStat → World P → Option (FileRead × World P)
  read_file dv path st w = do
    (r, w') ←
        vsys_call P libc fread_call K.path_at K.buf_at (unsigned 64 st.size) dv.prt_num
          (passing path [] st) w
    buf ← terminated st.size r.rc (bytes_after r)
    some (record { buf = some buf; size = r.rc; attr = K.file_attr st.name st.attr }, w')

  unfoldable pub host_fs_file_read :
      CDrv → CString → CString → World P → Option (FileRead × World P)
  host_fs_file_read dv cur_dir filename w =
      if not (dv.fs_type == fst_hostfs) then some (nothing_read, w) else do
        let path = host_fs_make_abs_path K cur_dir filename
        (r, w') ←
            vsys_call P libc stat_call K.path_at K.stat_at dv.prt_num 0 (passing path [] K.unset) w
        if is_zero r.rc
            then read_file dv path (stat_after r K.unset) w'
            else some (nothing_read, w')

  unfoldable pub host_fs_file_write :
      CDrv → CString → CString → List ℕ → ℤ → World P → Option (ℤ × World P)
  host_fs_file_write dv cur_dir name buf size w =
      if not (dv.fs_type == fst_hostfs) then some (pos 0, w) else elim (K.cfile_name_to name) [
        | none ↦ some (pos 0, w)
        | some de_name ↦ do
          (r, w') ←
              vsys_call P libc fwrite_call K.path_at K.buf_at (or_zero size) dv.prt_num
                (passing (host_fs_make_abs_path K cur_dir de_name) buf K.unset) w
          some (r.rc, w')
      ]

  unfoldable pub host_fs_mk_dir : CDrv → CString → CString → World P → Option (Bool × World P)
  host_fs_mk_dir dv cur_dir name w = do
    (r, w') ←
        vsys_call P libc mkdir_call K.path_at dv.prt_num 0 0
          (passing (host_fs_make_abs_path K cur_dir name) [] K.unset) w
    some (is_zero r.rc, w')

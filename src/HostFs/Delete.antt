-- ===== src/HostFs/Delete.antt =====
-- `HostFsFilesDel`, on fuel: the loop over VSYSCALL_READDIR takes one unit for each entry that it is
-- given and one to end.
pub mod Calls
pub mod Direct
pub mod Turn
pub mod Loop
pub mod Whole
mod Tests
use templeos_loader.Prelude.{
  ℕ, zero, suc, ◌+◌, ◌==◌, Bool, true, false, not, ◌&&◌, ◌||◌, if◌then◌else◌, Option, none, some,
  [], ◌∷◌, CString, unsigned, ◌>>=◌,
}
use templeos_loader.Platform.{Platform}
use templeos_loader.Guest.Calls.{opendir_call, readdir_call, closedir_call, unlink_call}
use templeos_loader.Vfs.Stat.{CHostFsStat}
use templeos_loader.Vsyscall.Defs.{Libc, World}
use templeos_loader.HostFs.{Kernel, CDrv, passing, is_zero, is_dir, stat_after, vsys_call}

-- `*st.name != '.'`
abbrev pub starts_with_dot : CString → Bool
starts_with_dot [] = false
starts_with_dot (c ∷ s) = c == b'.'

module _ (K : Kernel) (files_find_mask : CString) (fuf_flags : ℕ) (del_dir : Bool) where
  -- The condition on an entry, by its name and attributes.
  unfoldable pub chosen : CString → ℕ → Bool
  chosen name attr =
      not (starts_with_dot name)
      && (del_dir || not (is_dir attr))
      && K.files_find_match name files_find_mask fuf_flags

  module _ (P : Platform) (libc : Libc) (dv : CDrv) where
    -- The body of the loop.
    unfoldable pub delete_entry : CHostFsStat → ℕ → World P → Option (ℕ × World P)
    delete_entry st res w =
        if chosen st.name st.attr
        then (do
          (r, w') ←
              vsys_call P libc unlink_call K.path_at dv.prt_num 0 0 (passing st.abs_path [] st) w
          some (if is_dir st.attr then res else res + 1, w'))
        else some (res, w)

    unfoldable pub delete_loop : ℕ → ℕ → CHostFsStat → ℕ → World P → Option (ℕ × World P)
    delete_loop zero dirp st res w = none
    delete_loop (suc fuel) dirp st res w = do
      (r, w') ← vsys_call P libc readdir_call dirp K.stat_at dv.prt_num 0 (passing [] [] st) w
      elim (is_zero r.rc) [
        | false ↦ some (res, w')
        | true ↦ do
          (res', w'') ← delete_entry (stat_after r st) res w'
          delete_loop fuel dirp (stat_after r st) res' w''
      ]

    -- `Fs->cur_dir` is the directory; the argument `cur_dir` is not used.
    unfoldable pub host_fs_files_del : ℕ → CString → World P → Option (ℕ × World P)
    host_fs_files_del fuel fs_cur_dir w = do
      (r, w') ←
          vsys_call P libc opendir_call K.path_at dv.prt_num 0 0 (passing fs_cur_dir [] K.unset) w
      let dirp = unsigned 64 r.rc
      if dirp == 0 then some (0, w') else (do
        (res, w'') ← delete_loop fuel dirp K.unset 0 w'
        (r', end) ← vsys_call P libc closedir_call dirp dv.prt_num 0 0 (passing [] [] K.unset) w''
        some (res, end))

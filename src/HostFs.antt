-- ===== src/HostFs.antt =====
-- The guest's file system driver for host drives (HolyCRT/BlkDev/FileSysHostFS.HC, and the walk_pieces
-- over it in `Name2DirClus` of HolyCRT/BlkDev/DskStrB.HC), whose functions make their calls through
-- the dispatcher of vsyscall.c. What is printed and the locks of drives are left out, and a drive
-- passes `DrvChk`. None stands for a fault, in the guest or in the loader, for the end of the
-- process, and for a loop that its fuel does not cover.
pub mod Calls
pub mod Answers
pub mod Find
pub mod Walk
pub mod Cd
pub mod Files
pub mod Delete
pub mod Blocks
pub mod Toy
mod Tests
use templeos_loader.Prelude.{
  ℕ, zero, suc, ◌+◌, ◌-◌, ◌/◌, ◌%◌, ◌^◌, ◌==◌, ltb, leb, Bool, true, false, not, ◌&&◌,
  if◌then◌else◌, Option, none, some, List, [], ◌∷◌, ◌++◌, length, take, CString, ℤ, pos, negsuc,
  unsigned, ◌>>=◌,
}
use templeos_loader.Datetime.{CDateStruct}
use templeos_loader.Platform.{Platform}
use templeos_loader.Guest.Calls.{
  GuestCall, guest_number, stat_call, statclus_call, fread_call, fwrite_call, opendir_call,
  readdir_call, closedir_call, mkdir_call, unlink_call,
}
use templeos_loader.Vfs.Stat.{CHostFsStat, rs_attr_dir}
use templeos_loader.Vfs.Files.{or_zero}
use templeos_loader.Vsyscall.Defs.{
  Args, Guest, Reply, Libc, World, returned, exited, vsyscall_dispatcher,
}

-- What the driver calls of the TempleOS kernel: `FileAttr`, `FilesFindMatch`, `Struct2Date`,
-- `CatPrint` of a string that it takes for a format, `CFileNameTo` with what it stores, and the
-- pieces that `StrFirstRem` cuts off a path at its slashes. Then where the locals `abs_path`, `stat`
-- and `buf` of the driver's functions lie, and what `stat` holds before it is stored.
pub record Kernel : Type 0 where
  pub file_attr : CString → ℕ → ℕ
  pub files_find_match : CString → CString → ℕ → Bool
  pub struct2_date : CDateStruct → ℕ
  pub cat_print : CString → CString → CString
  pub cfile_name_to : CString → Option CString
  pub pieces : CString → List CString
  pub path_at : ℕ
  pub stat_at : ℕ
  pub buf_at : ℕ
  pub unset : CHostFsStat

-- The fields of `CDirEntry` that a find fills.
pub record CDirEntry : Type 0 where
  pub attr : ℕ
  pub name : CString
  pub clus : ℕ
  pub size : ℤ
  pub datetime : ℕ

-- `CDrv`
pub record CDrv : Type 0 where
  pub fs_type : ℕ
  pub prt_num : ℕ
  pub root_clus : ℕ

abbrev pub fst_hostfs : ℕ
fst_hostfs = 5

-- Must include terminator zero
abbrev pub cdir_filename_len : ℕ
cdir_filename_len = 38

abbrev pub has_bit : ℕ → ℕ → Bool
has_bit flags b = flags / 2 ^ b % 2 == 1

abbrev pub clear_bit : ℕ → ℕ → ℕ
clear_bit flags b = if has_bit flags b then flags - 2 ^ b else flags

abbrev pub fuf_just_dirs : ℕ
fuf_just_dirs = 0x400

-- `fuf_flags&~FUG_FILE_FIND`
abbrev pub not_file_find : ℕ → ℕ
not_file_find flags = clear_bit (clear_bit (clear_bit (clear_bit flags 10) 11) 18) 20

-- RS_ATTR_DIR
abbrev pub is_dir : ℕ → Bool
is_dir attr = has_bit attr 4

-- The guest's memory at a call: the one text, the one buffer and the one `CHostFsStat` of it. The
-- driver passes its own locals and what its callers gave it, which can be accessed.
abbrev pub passing : CString → List ℕ → CHostFsStat → Guest
passing path buf st = record {
  text_at = λ p. path;
  bytes_at = λ p n. take n buf;
  stat_at = λ p. st;
  text_ok = λ p. true;
  bytes_ok = λ p n. true;
}

abbrev pub is_zero : ℤ → Bool
is_zero (pos n) = n == 0
is_zero (negsuc n) = false

-- The result of `HostFsFileFind`: an exception, FALSE, or TRUE with the entry.
pub data Found : Type 0 where
  threw missed : Found
  found : CDirEntry → Found

-- What `stat` holds after a call.
abbrev pub stat_after : Reply → CHostFsStat → CHostFsStat
stat_after r st = elim r.stat_out [ none ↦ st | some (p, st') ↦ st' ]

-- The tests of FUF_JUST_DIRS and FUF_JUST_FILES.
abbrev pub wanted_kind : ℕ → ℕ → Bool
wanted_kind flags attr =
    not (has_bit flags 10 && not (is_dir attr)) && not (has_bit flags 11 && is_dir attr)

module _ (P : Platform) (libc : Libc) where
  unfoldable pub vsys_call :
      GuestCall → (arg1 arg2 arg3 arg4 : ℕ) → Guest → World P → Option (Reply × World P)
  unfolding vsyscall_dispatcher
  vsys_call c arg1 arg2 arg3 arg4 guest w = do
    r ←
        vsyscall_dispatcher P libc guest (pos (guest_number c))
          (record { arg1 = arg1; arg2 = arg2; arg3 = arg3; arg4 = arg4 }) w
    elim r [ returned reply w' ↦ some (reply, w') | exited rc w' ↦ none ]

module _ (K : Kernel) where
  -- None is a name that overruns the field.
  unfoldable pub host_fs_dir_entry_init : CHostFsStat → Option CDirEntry
  host_fs_dir_entry_init st =
      if ltb (length st.name) cdir_filename_len
      then some (record {
        attr = K.file_attr st.name st.attr;
        name = st.name;
        clus = st.clus;
        size = st.size;
        datetime = K.struct2_date st.datetime;
      })
      else none

  -- Also the three lines that `HostFsFileRead` and `HostFsFileWrite` repeat.
  abbrev pub host_fs_make_abs_path : CString → CString → CString
  host_fs_make_abs_path dir name = K.cat_print (K.cat_print dir (b'/' ∷ [])) name

  module _ (P : Platform) (libc : Libc) where
    -- The directory's path, if its cluster has one, and `stat`.
    unfoldable pub dir_path : CDrv → ℕ → World P → Option (Option CString × CHostFsStat × World P)
    unfolding vsys_call
    dir_path dv cur_dir_clus w =
        if cur_dir_clus == 0 then some (some (b'/' ∷ []), K.unset, w) else do
          (r, w') ←
              vsys_call P libc statclus_call cur_dir_clus K.stat_at dv.prt_num 0
                (passing [] [] K.unset) w
          let st = stat_after r K.unset
          some (if is_zero r.rc then some st.abs_path else none, st, w')

    unfoldable pub stat_entry :
        CDrv → CString → ℕ → CHostFsStat → World P → Option (Found × World P)
    unfolding vsys_call host_fs_dir_entry_init
    stat_entry dv path flags st w = do
      (r, w') ← vsys_call P libc stat_call K.path_at K.stat_at dv.prt_num 0 (passing path [] st) w
      let st' = stat_after r st
      if is_zero r.rc && wanted_kind flags st'.attr
          then (do de ← host_fs_dir_entry_init st'; some (found de, w'))
          else some (missed, w')

    unfoldable pub host_fs_file_find : CDrv → ℕ → CString → ℕ → World P → Option (Found × World P)
    unfolding dir_path stat_entry
    host_fs_file_find dv cur_dir_clus name flags w =
        if not (not_file_find flags == 0)
        then some (threw, w)
        else if not (dv.fs_type == fst_hostfs)
        then some (missed, w)
        else elim (K.cfile_name_to name) [
          | none ↦ some (missed, w)
          | some dname ↦ do
            (dir, st, w') ← dir_path dv cur_dir_clus w
            elim dir [
              | none ↦ some (missed, w')
              | some d ↦ stat_entry dv (host_fs_make_abs_path d name) flags st w'
            ]
        ]

    unfoldable pub host_fs_cd : CDrv → CString → ℕ → World P → Option (Bool × World P)
    host_fs_cd cur_dv name cur_dir_clus w =
        if not (cur_dv.fs_type == fst_hostfs) then some (false, w) else do
          (res, w') ← host_fs_file_find cur_dv cur_dir_clus name fuf_just_dirs w
          some (elim res [ found de ↦ true | _ ↦ false ], w')

    -- The loop of `Name2DirClus` on a host drive: from `cur_dir_clus`, over the pieces that are
    -- left. None is a piece that is not found.
    unfoldable pub walk_pieces : CDrv → List CString → ℕ → World P → Option (Option ℕ × World P)
    unfolding host_fs_file_find
    walk_pieces dv [] cur_dir_clus w = some (some cur_dir_clus, w)
    walk_pieces dv ([] ∷ rest) cur_dir_clus w = walk_pieces dv rest cur_dir_clus w
    walk_pieces dv ((c ∷ cs) ∷ rest) cur_dir_clus w = do
      (res, w') ← host_fs_file_find dv cur_dir_clus (c ∷ cs) fuf_just_dirs w
      elim res [ found de ↦ walk_pieces dv rest de.clus w' | _ ↦ some (none, w') ]

    unfoldable pub name2_dir_clus : CDrv → CString → World P → Option (ℕ × World P)
    unfolding walk_pieces
    name2_dir_clus dv dirname w = do
      (clus, w') ← walk_pieces dv (K.pieces dirname) dv.root_clus w
      some (elim clus [ none ↦ 0 | some c ↦ c ], w')

-- ===== src/Vsyscall/Defs.antt =====
-- The dispatcher of vsyscall.c and the state that it works on. What the guest passes by pointer is
-- read through functions of its memory, and what is stored for it is part of the reply.
use templeos_loader.Prelude.{
  ℕ, zero, suc, Bool, true, ◌&&◌, length, ◌-◌, ◌%◌, ◌^◌, Option, none, some, List, [], ◌∷◌, ◌++◌,
  ◌==◌, if◌then◌else◌, CString, ℤ, pos, negsuc, minus_one, signed32, signed64, ◌>>=◌,
}
use templeos_loader.Symtable
use templeos_loader.Symtable.{Table}
use templeos_loader.Platform.{Platform}
use templeos_loader.MemoryMap.{flat_size}
use templeos_loader.Console
use templeos_loader.Console.{Fmt}
use templeos_loader.Vfs.Clusters.{Assignments}
use templeos_loader.Vfs.Stat.{CHostFsStat, vfs_stat, vfs_statclus}
use templeos_loader.Vfs.Files.{vfs_fget, vfs_fput, vfs_mkdir, vfs_unlink}
use templeos_loader.Vfs.Dirs.{VfsDir, vfs_opendir, vfs_readdir}

-- The VSYSCALL_ numbers of vsyscall.h, and any other number.
pub data Syscall : Type 0 where
  debug memsize setfs setgs usleep putchar stat statclus : Syscall
  fget read addsym fput exit opendir readdir closedir mkdir unlink : Syscall
  bad : Syscall

abbrev pub numbers : List Syscall
numbers =
    Syscall.debug ∷ Syscall.memsize ∷ Syscall.setfs ∷ Syscall.setgs ∷ Syscall.usleep
    ∷ Syscall.putchar ∷ Syscall.stat ∷ Syscall.statclus ∷ Syscall.fget ∷ Syscall.read
    ∷ Syscall.addsym ∷ Syscall.fput ∷ Syscall.exit ∷ Syscall.opendir ∷ Syscall.readdir
    ∷ Syscall.closedir ∷ Syscall.mkdir ∷ Syscall.unlink ∷ []

nth_syscall : List Syscall → ℕ → Syscall
nth_syscall [] n = bad
nth_syscall (s ∷ ss) zero = s
nth_syscall (s ∷ ss) (suc n) = nth_syscall ss n

-- The `switch (num)`.
unfoldable pub decode : ℤ → Syscall
unfolding nth_syscall
decode (pos n) = nth_syscall numbers n
decode (negsuc n) = bad

pub record Args : Type 0 where
  pub arg1 : ℕ
  pub arg2 : ℕ
  pub arg3 : ℕ
  pub arg4 : ℕ

-- The guest's memory as the calls read it: the text at an address, `n` bytes, a `CHostFsStat`. Then
-- whether a text at an address, and `n` bytes, are in memory that may be accessed.
pub record Guest : Type 0 where
  pub text_at : ℕ → CString
  pub bytes_at : ℕ → ℕ → List ℕ
  pub stat_at : ℕ → CHostFsStat
  pub text_ok : ℕ → Bool
  pub bytes_ok : ℕ → ℕ → Bool

-- The return value, and what is stored at an address of the guest.
pub record Reply : Type 0 where
  pub rc : ℤ
  pub stat_out : Option (ℕ × CHostFsStat)
  pub buf_out : Option (ℕ × List ℕ)

abbrev pub code : ℤ → Reply
code rc = record { rc = rc; stat_out = none; buf_out = none }

-- What the C library and the kernel add: the address that `malloc` returns (0 for NULL), the bytes
-- that `read` puts at an address, the value that a caller finds when `vfs_closedir` ends without a
-- `return`, and the bases that `arch_prctl` takes: it refuses an address that is not a user's.
pub record Libc : Type 0 where
  pub malloc : List (ℕ × VfsDir) → ℕ
  pub read : ℕ → ℕ → ℤ × List ℕ
  pub no_return : ℤ
  pub arch_prctl : ℕ → Bool

-- A base behind an `arch_prctl`, whose result the code ignores.
abbrev pub set_base : Libc → ℕ → ℕ → ℕ
set_base libc p old = if libc.arch_prctl p then p else old

abbrev pub sizeof_host_fs_stat : ℕ
sizeof_host_fs_stat = 56

-- The open directory streams by address.
unfoldable pub find_dir : ℕ → List (ℕ × VfsDir) → Option VfsDir
find_dir p [] = none
find_dir p ((q, d) ∷ dirs) = if p == q then some d else find_dir p dirs

unfoldable pub free_dir : ℕ → List (ℕ × VfsDir) → List (ℕ × VfsDir)
free_dir p [] = []
free_dir p ((q, d) ∷ dirs) = if p == q then dirs else (q, d) ∷ free_dir p dirs

module _ (P : Platform) where
  pub record World : Type 0 where
    pub fs : P.Fs
    pub assignments : Assignments
    pub syms : Table
    pub fmt : Fmt
    pub written : List ℕ
    pub debugged : List (CString × ℕ)
    pub dirs : List (ℕ × VfsDir)
    pub host_fs : ℕ
    pub emulated_fs : ℕ
    pub fs_base : ℕ
    pub gs_base : ℕ

  -- A call returns to the guest, or ends the process.
  pub data Result : Type 0 where
    returned : Reply → World → Result
    exited : ℤ → World → Result

  module _ (libc : Libc) (guest : Guest) where
    open P use {Fs}
    open guest use {text_at, bytes_at, stat_at, text_ok, bytes_ok}

    abbrev done : ℤ → World → Option Result
    done rc w = some (returned (code rc) w)

    abbrev byte : ℕ → ℕ
    byte n = n % 2 ^ 8

    -- The cases of the `switch`. None is an access that C leaves undefined; those to the guest's
    -- memory are in `accesses`.
    unfoldable pub handle : Syscall → Args → World → Option Result
    handle addsym a w =
        done (pos 0)
          (record w { syms = Symtable.addsym (text_at a.arg1) (text_at a.arg2) a.arg3 w.syms })
    handle closedir a w = do
      d ← find_dir a.arg1 w.dirs
      done libc.no_return (record w { dirs = free_dir a.arg1 w.dirs })
    handle debug a w =
        done (pos 0) (record w { debugged = w.debugged ++ (text_at a.arg1, a.arg2 % 2 ^ 32) ∷ [] })
    handle exit a w = some (exited (signed32 (a.arg1 % 2 ^ 32)) w)
    handle fget a w =
        let (count, bytes, fs) = vfs_fget P (text_at a.arg1) a.arg3 (byte a.arg4) w.fs in
        some (
          returned
            (record {
              rc = signed64 (count % 2 ^ 64);
              stat_out = none;
              buf_out = some (a.arg2, bytes);
            })
            (record w { fs = fs }))
    handle fput a w =
        let (count, fs) = vfs_fput P (text_at a.arg1) (bytes_at a.arg2 a.arg3) (byte a.arg4) w.fs in
        done (signed64 (count % 2 ^ 64)) (record w { fs = fs })
    handle memsize a w = done (pos (flat_size - 0x1000)) w
    handle mkdir a w =
        let (rc, fs) = vfs_mkdir P (text_at a.arg1) (byte a.arg2) w.fs in
        done rc (record w { fs = fs })
    handle opendir a w =
        let (dir, fs) = vfs_opendir P (text_at a.arg1) (byte a.arg2) w.fs in
        elim dir [
          | none ↦ done (pos 0) (record w { fs = fs })
          | some d ↦
              let p = libc.malloc w.dirs in
              if p == 0
              then none
              else done (signed64 p) (record w { fs = fs; dirs = (p, d) ∷ w.dirs })
        ]
    handle putchar a w = do
      (out, fmt) ← Console.putchar a.arg1 w.fmt
      done (pos 0) (record w { fmt = fmt; written = w.written ++ out })
    handle read a w =
        let (rc, bytes) = libc.read a.arg2 a.arg3 in
        some (returned (record { rc = rc; stat_out = none; buf_out = some (a.arg2, bytes) }) w)
    handle readdir a w = do
      d ← find_dir a.arg1 w.dirs
      (rc, st, d', all) ← vfs_readdir P d (stat_at a.arg2) (byte a.arg3) w.fs w.assignments
      some (
          returned (record { rc = rc; stat_out = some (a.arg2, st); buf_out = none })
            (record w { dirs = (a.arg1, d') ∷ free_dir a.arg1 w.dirs; assignments = all }))
    handle setfs a w = done (pos 0) (record w { emulated_fs = a.arg1 })
    handle setgs a w = done (pos 0) (record w { gs_base = set_base libc a.arg1 w.gs_base })
    handle statclus a w = do
      (rc, st) ← vfs_statclus P (signed64 a.arg1) (stat_at a.arg2) (byte a.arg3) w.fs w.assignments
      some (returned (record { rc = rc; stat_out = some (a.arg2, st); buf_out = none }) w)
    handle stat a w = do
      (rc, st, all) ← vfs_stat P (text_at a.arg1) (stat_at a.arg2) (byte a.arg3) w.fs w.assignments
      some (
          returned (record { rc = rc; stat_out = some (a.arg2, st); buf_out = none })
            (record w { assignments = all }))
    handle unlink a w =
        let (rc, fs) = vfs_unlink P (text_at a.arg1) (byte a.arg2) w.fs in
        done rc (record w { fs = fs })
    handle usleep a w = done (pos 0) w
    handle bad a w = done minus_one w

    abbrev pub stat_stored : ℕ → Result → Bool
    stat_stored p (returned r w) = elim r.rc [
      | pos zero ↦ bytes_ok p sizeof_host_fs_stat
      | _ ↦ true
    ]
    stat_stored p (exited rc w) = true

    abbrev pub buf_stored : ℕ → Result → Bool
    buf_stored p (returned r w) = elim r.buf_out [
      | none ↦ true
      | some (q, bytes) ↦ bytes_ok p (length bytes)
    ]
    buf_stored p (exited rc w) = true

    -- Whether the guest's memory that a case reads and stores into may be accessed: a `st_out` only
    -- where the call succeeds, a buffer to write from only where the file can be opened, and a
    -- buffer to read into as far as it is filled. `read` does not fault, and stores what it can.
    unfoldable pub accesses : Syscall → Args → Fs → Result → Bool
    accesses addsym a fs r = text_ok a.arg1 && text_ok a.arg2
    accesses debug a fs r = text_ok a.arg1
    accesses fget a fs r = text_ok a.arg1 && buf_stored a.arg2 r
    accesses fput a fs r =
        text_ok a.arg1 && elim (P.open_write (text_at a.arg1) (byte a.arg4) fs).0 [
          | none ↦ true
          | some f ↦ bytes_ok a.arg2 a.arg3
        ]
    accesses mkdir a fs r = text_ok a.arg1
    accesses opendir a fs r = text_ok a.arg1
    accesses readdir a fs r = stat_stored a.arg2 r
    accesses statclus a fs r = stat_stored a.arg2 r
    accesses stat a fs r = text_ok a.arg1 && stat_stored a.arg2 r
    accesses unlink a fs r = text_ok a.arg1
    accesses _ a fs r = true

    -- FS is set to the host's for the call, and to the emulated one behind it; an `exit` does not
    -- come back.
    abbrev pub enter_fs : World → World
    enter_fs w = record w { fs_base = set_base libc w.host_fs w.fs_base }

    abbrev pub restore_fs : Result → Result
    restore_fs (returned r w) =
        returned r (record w { fs_base = set_base libc w.emulated_fs w.fs_base })
    restore_fs (exited rc w) = exited rc w

    unfoldable pub vsyscall_dispatcher : ℤ → Args → World → Option Result
    unfolding handle accesses decode
    vsyscall_dispatcher num a w = do
      r ← handle (decode num) a (enter_fs w)
      if accesses (decode num) a w.fs r then some (restore_fs r) else none

    -- The FS base that a call leaves which returns and does not set FS.
    abbrev pub fs_behind : World → ℕ
    fs_behind w = set_base libc w.emulated_fs (set_base libc w.host_fs w.fs_base)

  -- `vsyscall_save_host_fs`; `fs:0` is what the word at the FS base holds.
  unfoldable pub vsyscall_save_host_fs : ℕ → World → World
  vsyscall_save_host_fs tp w = record w { host_fs = tp }

-- ===== src/HostFs/Delete/Calls.antt =====
-- The driver's calls on directory streams and VSYSCALL_UNLINK.
use templeos_loader.Prelude.{
  zero, suc, negsuc, true, ℕ, ◌%◌, ◌^◌, ◌≡◌, ◌≢◌, refl, arith, ap, ◌==◌, false, none, some, List,
  ◌∷◌, CString, ℤ, pos, signed64, Option, ==_refl,
}
use templeos_loader.Platform.{Platform}
use templeos_loader.Vfs.Clusters.{Assignments}
use templeos_loader.Vfs.Stat.{CHostFsStat}
use templeos_loader.Vfs.Files.{vfs_unlink}
use templeos_loader.Vfs.Dirs.{VfsDir, vfs_opendir, vfs_readdir}
use templeos_loader.Vsyscall.Defs.{
  accesses, sizeof_host_fs_stat, decode, Args, Guest, code, Libc, World, returned, handle,
  vsyscall_dispatcher, find_dir, free_dir,
}
use templeos_loader.HostFs.Calls.{IsOpen, base_behind, with_fs}

module _ (P : Platform) (libc : Libc) where
  -- The state behind a VSYSCALL_READDIR.
  abbrev pub with_stream : World P → List (ℕ × VfsDir) → Assignments → World P
  with_stream w dirs all = record w {
    dirs = dirs;
    assignments = all;
    fs_base = base_behind P libc w;
  }

  stored :
      (rc : ℤ) (p : ℕ) (guest : Guest)
      → IsOpen guest
      → elim rc [ pos zero ↦ guest.bytes_ok p sizeof_host_fs_stat | _ ↦ true ] ≡ true
  stored (pos zero) p guest mem = mem.1 p _
  stored (pos (suc n)) p guest mem = refl
  stored (negsuc n) p guest mem = refl

  pub readdir-returned :
      (guest : Guest) (a : Args) (w : World P) (d d' : VfsDir) (ds : List (ℕ × VfsDir)) (rc : ℤ)
      (st : CHostFsStat) (all : Assignments)
      → IsOpen guest
      → w.dirs ≡ (a.arg1, d) ∷ ds
      → vfs_readdir P d (guest.stat_at a.arg2) (a.arg3 % 2 ^ 8) w.fs w.assignments
        ≡ some (rc, st, d', all)
      → vsyscall_dispatcher P libc guest (pos 14) a w
        ≡ some (
            returned
              (record { rc = rc; stat_out = some (a.arg2, st); buf_out = none })
              (with_stream w ((a.arg1, d') ∷ ds) all))
  unfolding vsyscall_dispatcher handle decode accesses find_dir free_dir
  readdir-returned guest a w d d' ds rc st all mem streams e =
      rw
        (
          vsyscall_dispatcher,
          handle,
          decode,
          streams,
          find_dir,
          free_dir,
          ==_refl a.arg1,
          e,
          accesses,
          stored rc a.arg2 guest mem,
        )
        refl

  pub unlink-returned :
      (guest : Guest) (a : Args) (w : World P) (rc : ℤ) (fs : P.Fs)
      → IsOpen guest
      → vfs_unlink P (guest.text_at a.arg1) (a.arg2 % 2 ^ 8) w.fs ≡ (rc, fs)
      → vsyscall_dispatcher P libc guest (pos 17) a w
        ≡ some (returned (code rc) (with_fs P libc w fs))
  unfolding vsyscall_dispatcher handle decode accesses
  unlink-returned guest a w rc fs mem e =
      rw
        (
          vsyscall_dispatcher,
          handle,
          decode,
          ap (λ (r : ℤ × P.Fs). r.0) e,
          ap (λ (r : ℤ × P.Fs). r.1) e,
          accesses,
          mem.0 a.arg1,
        )
        refl

  pub closedir-returned :
      (guest : Guest) (a : Args) (w : World P) (d : VfsDir) (ds : List (ℕ × VfsDir))
      → w.dirs ≡ (a.arg1, d) ∷ ds
      → vsyscall_dispatcher P libc guest (pos 15) a w
        ≡ some (
            returned (code libc.no_return) (record w { dirs = ds; fs_base = base_behind P libc w }))
  unfolding vsyscall_dispatcher handle decode accesses find_dir free_dir
  closedir-returned guest a w d ds streams =
      rw (vsyscall_dispatcher, handle, decode, streams, find_dir, free_dir, ==_refl a.arg1) refl

  -- The state behind a VSYSCALL_OPENDIR.
  abbrev pub with_open : World P → VfsDir → P.Fs → World P
  with_open w d fs = record w {
    fs = fs;
    dirs = (libc.malloc w.dirs, d) ∷ w.dirs;
    fs_base = base_behind P libc w;
  }

  pub opendir-returned :
      (guest : Guest) (a : Args) (w : World P) (d : VfsDir) (fs : P.Fs)
      → IsOpen guest
      → vfs_opendir P (guest.text_at a.arg1) (a.arg2 % 2 ^ 8) w.fs ≡ (some d, fs)
      → libc.malloc w.dirs ≢ 0
      → vsyscall_dispatcher P libc guest (pos 13) a w
        ≡ some (returned (code (signed64 (libc.malloc w.dirs))) (with_open w d fs))
  unfolding vsyscall_dispatcher handle decode accesses
  opendir-returned guest a w d fs mem e ne =
      let given : (libc.malloc w.dirs == 0) ≡ false = ground arith in
      rw
        (
          vsyscall_dispatcher,
          handle,
          decode,
          ap (λ (r : Option VfsDir × P.Fs). r.0) e,
          ap (λ (r : Option VfsDir × P.Fs). r.1) e,
          given,
          accesses,
          mem.0 a.arg1,
        )
        refl

  pub vfs_opendir-listed :
      (path : CString) (d : ℕ) (list : List CString) (fs fs' : P.Fs)
      → P.enumerate_files path d fs ≡ (some list, fs')
      → vfs_opendir P path d fs ≡ (some (record { path = path; list = list; pos = 0 }), fs')
  unfolding vfs_opendir
  vfs_opendir-listed path d list fs fs' e =
      rw
        (
          vfs_opendir,
          ap (λ (r : Option (List CString) × P.Fs). r.0) e,
          ap (λ (r : Option (List CString) × P.Fs). r.1) e,
        )
        refl

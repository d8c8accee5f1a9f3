-- ===== src/HostFs/Blocks/Close.antt =====
-- What was written by blocks is in the file once it is closed.
use templeos_loader.Prelude.{
  ℕ, ◌%◌, ◌^◌, ◌≡◌, refl, true, Option, some, List, length, take, drop, CString, pos,
}
use templeos_loader.Platform.{Platform}
use templeos_loader.Vsyscall.Defs.{decode, Reply, Libc, World}
use templeos_loader.Guest.Calls.{fwrite_call}
use templeos_loader.HostFs.{Kernel, CDrv, passing, vsys_call}
use templeos_loader.Vsyscall.Invariant.{IsPlain}
use templeos_loader.HostFs.Calls.{passing-IsOpen, vsys_call-returned, with_fs, fwrite-returned}
use templeos_loader.HostFs.Files.Contents.{IsFileStore, vfs_fput-contents}
use templeos_loader.HostFs.Blocks.{CFile, fclose}

module _ (K : Kernel) (P : Platform) (libc : Libc) (dv : CDrv)
    (contents : P.Fs → CString → Option (List ℕ))
    (store : IsFileStore P (dv.prt_num % 2 ^ 8) contents) where
  fclose-called :
      (f : CFile) (r : Reply) (w w' : World P)
      → f.writable ≡ true
      → vsys_call P libc fwrite_call K.path_at K.buf_at f.size dv.prt_num
          (passing (drop 2 f.full_name) f.clus_buf K.unset)
          w
        ≡ some (r, w')
      → fclose K P libc dv f w ≡ some w'
  unfolding fclose
  fclose-called f r w w' writable e = rw (fclose, writable, e) refl

  -- If PhysFS keeps files, `FClose` of a file that is open for writing, and whose path can be opened
  -- for writing, makes the first `de.size` bytes of its buffer the file's contents, if PhysFS writes
  -- all of them.
  pub fclose-contents :
      (f : CFile) (w : World P) (h : P.File) (fs1 : P.Fs)
      → f.writable ≡ true
      → P.open_write (drop 2 f.full_name) (dv.prt_num % 2 ^ 8) w.fs ≡ (some h, fs1)
      → (P.write_bytes h (take f.size f.clus_buf) (dv.prt_num % 2 ^ 8) fs1).0
        ≡ pos (length (take f.size f.clus_buf))
      → (w' : World P) × (fclose K P libc dv f w ≡ some w')
        × (contents w'.fs (drop 2 f.full_name) ≡ some (take f.size f.clus_buf))
  unfolding decode IsPlain
  fclose-contents f w h fs1 writable opened whole =
      let (fs, put, kept) =
        vfs_fput-contents P (dv.prt_num % 2 ^ 8) contents store w.fs (drop 2 f.full_name)
          (take f.size f.clus_buf) h fs1 opened whole in
      let guest = passing (drop 2 f.full_name) f.clus_buf K.unset in
      let (e, runs) =
        vsys_call-returned P libc fwrite_call K.path_at K.buf_at f.size dv.prt_num guest w _ _ tt (
          fwrite-returned P libc guest
            (record { arg1 = K.path_at; arg2 = K.buf_at; arg3 = f.size; arg4 = dv.prt_num }) w
            (length (take f.size f.clus_buf)) fs
            (passing-IsOpen (drop 2 f.full_name) f.clus_buf K.unset) put) in
      (with_fs P libc w fs, fclose-called f _ w _ writable e, kept)

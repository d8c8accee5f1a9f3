-- ===== src/HostFs/Files/Contents.antt =====
-- A PhysFS that keeps files, and what the functions of vfs.c on whole files do with it.
use templeos_loader.Prelude.{
  ℕ, ◌+◌, ◌%◌, ◌^◌, ◌<◌, ◌≡◌, refl, arith, ap, Option, some, List, [], ◌∷◌, ◌++◌, length, take,
  CString, ℤ, pos, signed64, ltb, leb, true,
}
use templeos_loader.Platform.{Platform, PhysStat}
use templeos_loader.Vfs.Files.{vfs_fget, vfs_fput}
use templeos_loader.HostFs.Files.{terminated}

-- What PhysFS documents of the files of a drive, `contents` being the bytes at a path: `PHYSFS_stat`
-- has their number, a handle for reading gives all of them to a buffer of their size, and what is
-- written through a handle for writing, if the count returned says that all of it is, is the file
-- once it is closed. A write may fall short or fail.
pub record IsFileStore (P : Platform) (d : ℕ) (contents : P.Fs → CString → Option (List ℕ))
    : Type 0 where
  pub stats :
      (fs : P.Fs) (path : CString) (b : List ℕ)
      → contents fs path ≡ some b
      → (info : PhysStat) × (P.stat path d fs ≡ some info) × (info.filesize ≡ pos (length b))
  pub reads :
      (fs : P.Fs) (path : CString) (b : List ℕ)
      → contents fs path ≡ some b
      → (f : P.File) × (fs1 fs2 : P.Fs) × (P.open_read path d fs ≡ (some f, fs1))
        × (P.read_bytes f (length b) d fs1 ≡ (pos (length b), b, fs2))
  pub writes :
      (fs : P.Fs) (path : CString) (b : List ℕ) (f : P.File) (fs1 : P.Fs)
      → P.open_write path d fs ≡ (some f, fs1)
      → (P.write_bytes f b d fs1).0 ≡ pos (length b)
      → contents (P.close f d (P.write_bytes f b d fs1).1) path ≡ some b

module _ (P : Platform) (d : ℕ) (contents : P.Fs → CString → Option (List ℕ))
    (store : IsFileStore P d contents) where
  -- `vfs_fget` of a file into a buffer of its size.
  pub vfs_fget-contents :
      (fs : P.Fs) (path : CString) (b : List ℕ)
      → contents fs path ≡ some b
      → (fs' : P.Fs) × (vfs_fget P path (length b) d fs ≡ (length b, b, fs'))
  unfolding vfs_fget
  vfs_fget-contents fs path b h =
      let (f, fs1, fs2, opened, read) = store.reads fs path b h in
      (
        P.close f d fs2,
        rw
            (
              vfs_fget,
              ap (λ (o : Option P.File × P.Fs). o.0) opened,
              ap (λ (o : Option P.File × P.Fs). o.1) opened,
              ap (λ (r : ℤ × List ℕ × P.Fs). r.0) read,
              ap (λ (r : ℤ × List ℕ × P.Fs). r.1) read,
              ap (λ (r : ℤ × List ℕ × P.Fs). r.2) read,
            )
            refl,
      )

  pub vfs_fput-contents :
      (fs : P.Fs) (path : CString) (b : List ℕ) (f : P.File) (fs1 : P.Fs)
      → P.open_write path d fs ≡ (some f, fs1)
      → (P.write_bytes f b d fs1).0 ≡ pos (length b)
      → (fs' : P.Fs) × (vfs_fput P path b d fs ≡ (length b, fs')) × (contents fs' path ≡ some b)
  unfolding vfs_fput
  vfs_fput-contents fs path b f fs1 opened whole = (
    P.close f d (P.write_bytes f b d fs1).1,
    rw
        (
          vfs_fput,
          ap (λ (o : Option P.File × P.Fs). o.0) opened,
          ap (λ (o : Option P.File × P.Fs). o.1) opened,
          whole,
        )
        refl,
    store.writes fs path b f fs1 opened whole,
  )

pub count_lem : (n : ℕ) → n < 2 ^ 63 → signed64 (n % 2 ^ 64) ≡ pos n
count_lem n small = ground arith

pub take-length : (b : List ℕ) → take (length b) b ≡ b
take-length [] = refl
take-length (x ∷ xs) = ap (λ (t : List ℕ). x ∷ t) (take-length xs)

pub terminated_lem :
    (b : List ℕ) → terminated (pos (length b)) (pos (length b)) b ≡ some (b ++ 0 ∷ [])
unfolding terminated
terminated_lem b =
    let fits : ltb (length b) (length b + 1) ≡ true = ground arith in
    let less : leb (length b) (length b + 1) ≡ true = ground arith in
    let same : leb (length b) (length b) ≡ true = ground arith in
    rw (terminated, fits, less, same, take-length b) refl

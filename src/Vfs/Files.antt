-- ===== src/Vfs/Files.antt =====
-- The functions of vfs.c on whole files: reading, writing, `mkdir` and `unlink`.
use templeos_loader.Prelude.{
  ℕ, none, some, List, [], CString, ℤ, pos, negsuc, minus_one, if◌then◌else◌,
}
use templeos_loader.Platform.{Platform}

-- `(n >= 0) ? n : 0`
abbrev pub or_zero : ℤ → ℕ
or_zero (pos n) = n
or_zero (negsuc n) = 0

module _ (P : Platform) where
  open P use {Fs, open_read, open_write, read_bytes, write_bytes, close, mkdir, delete}

  -- The count, the bytes put into the buffer, and the state of PhysFS.
  unfoldable pub vfs_fget : CString → ℕ → ℕ → Fs → ℕ × List ℕ × Fs
  vfs_fget path bufsiz dv fs =
      let opened = open_read path dv fs in
      elim opened.0 [
        | none ↦ (0, [], opened.1)
        | some f ↦
            let (read, bytes, fs') = read_bytes f bufsiz dv opened.1 in
            (or_zero read, bytes, close f dv fs')
      ]

  unfoldable pub vfs_fput : CString → List ℕ → ℕ → Fs → ℕ × Fs
  vfs_fput path buf dv fs =
      let opened = open_write path dv fs in
      elim opened.0 [
        | none ↦ (0, opened.1)
        | some f ↦
            let (written, fs') = write_bytes f buf dv opened.1 in (or_zero written, close f dv fs')
      ]

  unfoldable pub vfs_mkdir : CString → ℕ → Fs → ℤ × Fs
  vfs_mkdir path dv fs =
      let (done, fs') = mkdir path dv fs in (if done then pos 0 else minus_one, fs')

  unfoldable pub vfs_unlink : CString → ℕ → Fs → ℤ × Fs
  vfs_unlink path dv fs =
      let (done, fs') = delete path dv fs in (if done then pos 0 else minus_one, fs')

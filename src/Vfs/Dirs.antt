-- ===== src/Vfs/Dirs.antt =====
-- The directory streams of vfs.c.
pub mod Listing
use templeos_loader.Prelude.{
  zero, ℕ, ◌+◌, Option, none, some, List, [], ◌∷◌, ◌++◌, CString, ℤ, pos, negsuc, minus_one, drop,
  take, ◌>>=◌,
}
use templeos_loader.Platform.{Platform}
use templeos_loader.Vfs.Clusters.{Assignments}
use templeos_loader.Vfs.Stat.{CHostFsStat, vfs_stat}

-- `struct vfs_dir_t`; the list without its NULL.
pub record VfsDir : Type 0 where
  pub path : CString
  pub list : List CString
  pub pos : ℕ

-- `snprintf(buf, sizeof(buf), "%s/%s", …)` into 4096 bytes.
abbrev pub entry_path : CString → CString → CString
entry_path path entry = take 4095 (path ++ b'/' ∷ entry)

module _ (P : Platform) where
  open P use {Fs, enumerate_files}

  unfoldable pub vfs_opendir : CString → ℕ → Fs → Option VfsDir × Fs
  vfs_opendir path dv fs =
      let (list, fs') = enumerate_files path dv fs in
      elim list [
        | none ↦ (none, fs')
        | some l ↦ (some (record { path = path; list = l; pos = 0 }), fs')
      ]

  -- From the entries that are left, at position `at`: the return value, what `st_out` holds, the
  -- new position and the assignments.
  unfoldable pub read_rest :
      CString
      → List CString
      → ℕ
      → CHostFsStat
      → ℕ
      → Fs
      → Assignments
      → Option (ℤ × CHostFsStat × ℕ × Assignments)
  read_rest path [] at st_out dv fs all = some (minus_one, st_out, at, all)
  read_rest path (entry ∷ rest) at st_out dv fs all = do
    (rc, st, all') ← vfs_stat P (entry_path path entry) st_out dv fs all
    let again = read_rest path rest (at + 1) st dv fs all'
    elim rc [ pos zero ↦ some (pos 0, st, at + 1, all') | _ ↦ again ]

  unfoldable pub vfs_readdir :
      VfsDir → CHostFsStat → ℕ → Fs → Assignments → Option (ℤ × CHostFsStat × VfsDir × Assignments)
  unfolding read_rest
  vfs_readdir d st_out dv fs all = do
    (rc, st, at, all') ← read_rest d.path (drop d.pos d.list) d.pos st_out dv fs all
    some (rc, st, record d { pos = at }, all')

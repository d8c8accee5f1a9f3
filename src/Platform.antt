-- ===== src/Platform.antt =====
-- What the loader calls and does not implement: PhysFS (a submodule), and of the C library
-- `localtime_r`, `basename` and `malloc`. An argument of the code that uses it.
pub mod Toy
use templeos_loader.Prelude.{ℕ, Bool, false, Option, List, [], ◌∷◌, ◌==◌, CString, ℤ}
use templeos_loader.Datetime.{Tm}

-- `PHYSFS_FileType`
pub data FileType : Type 0 where
  regular directory symlink other : FileType

-- `PHYSFS_Stat`, as far as it is read.
pub record PhysStat : Type 0 where
  pub filesize : ℤ
  pub modtime : ℤ
  pub filetype : FileType

-- Each operation takes the number of the drive, and those that may change the files take and
-- return the state of PhysFS. The error code that PhysFS keeps is not read by the loader, so
-- `stat` only reads.
pub record Platform : Type 1 where
  pub Fs : Type 0
  pub File : Type 0
  pub open_read : CString → ℕ → Fs → Option File × Fs
  pub open_write : CString → ℕ → Fs → Option File × Fs
  -- The count that is returned, the bytes put into the buffer, and the state.
  pub read_bytes : File → ℕ → ℕ → Fs → ℤ × List ℕ × Fs
  pub write_bytes : File → List ℕ → ℕ → Fs → ℤ × Fs
  pub close : File → ℕ → Fs → Fs
  pub mkdir : CString → ℕ → Fs → Bool × Fs
  pub delete : CString → ℕ → Fs → Bool × Fs
  pub enumerate_files : CString → ℕ → Fs → Option (List CString) × Fs
  pub stat : CString → ℕ → Fs → Option PhysStat
  pub localtime_r : ℤ → Option Tm
  -- The name that is returned, and the string that is left in the argument's place: `basename`
  -- "may modify the string pointed to by path".
  pub basename : CString → CString × CString

-- The paths that `basename` may change: it does not count slashes at the end of a path.
unfoldable pub ends_in_slash : CString → Bool
ends_in_slash [] = false
ends_in_slash (c ∷ []) = c == b'/'
ends_in_slash (c ∷ d ∷ s) = ends_in_slash (d ∷ s)

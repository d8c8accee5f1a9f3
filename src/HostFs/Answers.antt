-- ===== src/HostFs/Answers.antt =====
-- The clusters that the driver hands out, and what a find must answer.
use templeos_loader.Prelude.{
  ℕ, ◌+◌, ◌≤◌, ◌<◌, ◌≡◌, ◌≢◌, ◌⊎◌, inl, inr, refl, arith, Bool-cases, Option, none, some, [], ◌∷◌,
  ◌++◌, CString, true, false,
}
use templeos_loader.Platform.{ends_in_slash, Platform, PhysStat, FileType}
use templeos_loader.Vfs.Clusters.{clus_min, max_assignments, num_drives}
use templeos_loader.Vfs.Clusters.Scan.{Names}
use templeos_loader.Vfs.Stat.{attr_of}
use templeos_loader.Vfs.Stat.Room.{HasRoom}
use templeos_loader.Vsyscall.Defs.{World}
use templeos_loader.Vsyscall.Invariant.{IsValid}
use templeos_loader.Vsyscall.Runs.{Runs, Runs-AreKept}
use templeos_loader.HostFs.{Kernel, CDirEntry, Found, missed, found, wanted_kind, has_bit}

-- A string that `CatPrint` prints as it is.
unfoldable pub HasNoFormat : CString → Type 0
HasNoFormat [] = Unit
HasNoFormat (c ∷ s) = (c ≢ b'%') × HasNoFormat s

abbrev pub join : CString → CString → CString
join dir name = dir ++ b'/' ∷ name

-- A find for directories only, and one for files only, does not take a file of this type.
abbrev pub Excludes : ℕ → FileType → Type 0
Excludes flags type =
    ((has_bit flags 10 ≡ true) × (type ≢ FileType.directory))
    ⊎ ((has_bit flags 11 ≡ true) × (type ≡ FileType.directory))

other_kind :
    (flags : ℕ) (type : FileType)
    → type ≢ FileType.directory
    → attr_of type ≡ 0
    → ((wanted_kind flags (attr_of type) ≡ true) × ¬ (Excludes flags type))
      ⊎ ((wanted_kind flags (attr_of type) ≡ false) × Excludes flags type)
other_kind flags type ne zero = elim (Bool-cases (has_bit flags 10)) [
  | inl dirs ↦ inr (rw (zero, dirs) refl, inl (dirs, ne))
  | inr any ↦ inl (
    rw (zero, any) (ground arith),
    λ x. elim x [ inl (dirs, n) ↦ absurd (ground arith) | inr (files, is) ↦ ne is ],
  )
]

pub wanted_kind_lem :
    (flags : ℕ) (type : FileType)
    → ((wanted_kind flags (attr_of type) ≡ true) × ¬ (Excludes flags type))
      ⊎ ((wanted_kind flags (attr_of type) ≡ false) × Excludes flags type)
wanted_kind_lem flags FileType.regular = other_kind flags FileType.regular (λ e. ground arith) refl
wanted_kind_lem flags FileType.directory = elim (Bool-cases (has_bit flags 11)) [
  | inl files ↦ inr (ground arith, inr (files, refl))
  | inr any ↦ inl (
    ground arith,
    λ x. elim x [ inl (dirs, ne) ↦ ne refl | inr (files, is) ↦ absurd (ground arith) ],
  )
]
wanted_kind_lem flags FileType.symlink = other_kind flags FileType.symlink (λ e. ground arith) refl
wanted_kind_lem flags FileType.other = other_kind flags FileType.other (λ e. ground arith) refl

module _ (P : Platform) where
  -- In the state `w`, the cluster stands for the directory `dir` of the drive; 0 is the root.
  abbrev pub Denotes : World P → ℕ → ℕ → CString → Type 0
  Denotes w d clus dir =
      ((clus ≡ 0) × (dir ≡ b'/' ∷ []))
      ⊎ ((i : ℕ) × (clus ≡ clus_min + i) × Names (w.assignments d) i dir)

  -- What a find may rely on: a state in order, a drive with room for `k` more clusters, and a
  -- cluster that stands for the directory `dir`, which is the root, or exists and does not end in a
  -- slash.
  pub record IsReady (w : World P) (d clus : ℕ) (dir : CString) (k : ℕ) : Type 0 where
    pub valid : IsValid P w
    pub drive : d < num_drives
    pub denotes : Denotes w d clus dir
    pub plain : (clus ≡ 0) ⊎ (ends_in_slash dir ≡ false)
    pub there : (clus ≡ 0) ⊎ ((info : PhysStat) × (P.stat dir d w.fs ≡ some info))
    pub small : k ≤ max_assignments
    pub room : HasRoom k (w.assignments d)

  -- The answer to a find of `path` with `flags`, from what PhysFS has there.
  abbrev pub Answers : Kernel → World P → ℕ → CString → ℕ → Found → Option PhysStat → Type 0
  Answers K w d path flags res none = res ≡ missed
  Answers K w d path flags res (some info) =
      (Excludes flags info.filetype × (res ≡ missed))
      ⊎ (¬ (Excludes flags info.filetype)
          × (de : CDirEntry) × (res ≡ found de)
          × (de.name ≡ (P.basename path).0)
          × (de.attr ≡ K.file_attr de.name (attr_of info.filetype))
          × (de.size ≡ info.filesize)
          × Denotes w d de.clus path)

-- A cluster that denotes a directory denotes it after any calls.
pub Denotes-Runs :
    (P : Platform) (w w' : World P) (d clus : ℕ) (dir : CString)
    → ((p : CString) → ends_in_slash p ≡ false → (P.basename p).1 ≡ p)
    → IsValid P w
    → Denotes P w d clus dir
    → Runs P w w'
    → Denotes P w' d clus dir
Denotes-Runs P w w' d clus dir keeps v (inl root) runs = inl root
Denotes-Runs P w w' d clus dir keeps v (inr (i, nth, named)) runs =
    inr (i, nth, Runs-AreKept P keeps v runs d i _ named)

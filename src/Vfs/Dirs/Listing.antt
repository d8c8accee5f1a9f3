-- ===== src/Vfs/Dirs/Listing.antt =====
-- `vfs_readdir` skips the entries that cannot be read, and no others.
use templeos_loader.Prelude.{
  ℕ, ◌+◌, ◌≡◌, refl, arith, Bool, Option, none, some, List, [], ◌∷◌, if◌then◌else◌, CString, ℤ, pos,
  minus_one, drop, ◌>>=◌, is_some, Option-cases, inl, inr,
}
use templeos_loader.Platform.{Platform, PhysStat}
use templeos_loader.Vfs.Clusters.{Assignments}
use templeos_loader.Vfs.Stat.{CHostFsStat, vfs_stat, fill_stat}
use templeos_loader.Vfs.Stat.Agree.{vfs_stat-missing}
use templeos_loader.Vfs.Dirs.{VfsDir, entry_path, read_rest, vfs_readdir}

-- From position `at`: the first entry with the property and the position behind it, or none and
-- the end.
unfoldable pub first_live : (CString → Bool) → ℕ → List CString → ℕ × Option CString
first_live live at [] = (at, none)
first_live live at (e ∷ es) = if live e then (at + 1, some e) else first_live live (at + 1) es

module _ (P : Platform) where
  open P use {Fs, stat}

  abbrev pub is_live : CString → ℕ → Fs → CString → Bool
  is_live path dv fs entry = is_some (stat (entry_path path entry) dv fs)

  -- A `vfs_stat` that does not fault, of an existing file, returns 0.
  vfs_stat-zero :
      (path : CString) (st_out : CHostFsStat) (dv : ℕ) (fs : Fs) (all : Assignments)
      (info : PhysStat) (r : ℤ × CHostFsStat × Assignments)
      → stat path dv fs ≡ some info
      → vfs_stat P path st_out dv fs all ≡ some r
      → r.0 ≡ pos 0
  unfolding vfs_stat fill_stat
  vfs_stat-zero path st_out dv fs all info r exists h = ground arith

  -- What `vfs_readdir` does: it is at the end of the stream if no entry is left that exists, and
  -- otherwise gives the `vfs_stat` of the first one that does, with the stream behind it.
  abbrev pub expected :
      VfsDir
      → CHostFsStat
      → ℕ
      → Fs
      → Assignments
      → ℕ × Option CString
      → Option (ℤ × CHostFsStat × VfsDir × Assignments)
  expected d st_out dv fs all (end, none) = some (minus_one, st_out, record d { pos = end }, all)
  expected d st_out dv fs all (next, some entry) = do
    (rc, st, all') ← vfs_stat P (entry_path d.path entry) st_out dv fs all
    some (rc, st, record d { pos = next }, all')

  abbrev placed :
      VfsDir
      → Option (ℤ × CHostFsStat × ℕ × Assignments)
      → Option (ℤ × CHostFsStat × VfsDir × Assignments)
  placed d r = do (rc, st, at, all') ← r; some (rc, st, record d { pos = at }, all')

  read_rest-expected :
      (d : VfsDir) (rest : List CString) (at : ℕ) (st_out : CHostFsStat) (dv : ℕ) (fs : Fs)
      (all : Assignments)
      → placed d (read_rest P d.path rest at st_out dv fs all)
        ≡ expected d st_out dv fs all (first_live (is_live d.path dv fs) at rest)
  unfolding read_rest first_live
  read_rest-expected d [] at st_out dv fs all = refl
  read_rest-expected d (e ∷ es) at st_out dv fs all =
      elim (Option-cases (stat (entry_path d.path e) dv fs)) [
        | inl missing ↦
            rw (missing, vfs_stat-missing P (entry_path d.path e) st_out dv fs all missing)
              (read_rest-expected d es (at + 1) st_out dv fs all)
        | inr (info, exists) ↦
            elim (Option-cases (vfs_stat P (entry_path d.path e) st_out dv fs all)) [
              | inl fault ↦ rw (exists, fault)
              | inr ((rc, st, all'), h) ↦
                  let zero : rc ≡ pos 0 =
                    vfs_stat-zero (entry_path d.path e) st_out dv fs all info (rc, st, all') exists
                      h in
                  rw (exists, h) (rw zero)
            ]
      ]

  -- `vfs_readdir` returns -1 with the stream at its end, and stores and assigns nothing, if no
  -- entry that is left exists; otherwise it is the `vfs_stat` of the first entry that does, with
  -- the stream just behind that.
  pub vfs_readdir-expected :
      (d : VfsDir) (st_out : CHostFsStat) (dv : ℕ) (fs : Fs) (all : Assignments)
      → vfs_readdir P d st_out dv fs all
        ≡ expected d st_out dv fs all (first_live (is_live d.path dv fs) d.pos (drop d.pos d.list))
  unfolding vfs_readdir
  vfs_readdir-expected d st_out dv fs all =
      read_rest-expected d (drop d.pos d.list) d.pos st_out dv fs all

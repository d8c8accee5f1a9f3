-- ===== src/HostFs/Walk.antt =====
-- `Name2DirClus` on a host drive: from the root over the directories of a path.
use templeos_loader.Prelude.{
  false, ℕ, suc, ◌%◌, ◌^◌, ◌≤◌, ◌<◌, ◌≡◌, inl, inr, refl, arith, ap, ◌∙◌, some, List, [], ◌∷◌, ◌++◌,
  length, CString,
}
use templeos_loader.Platform.{ends_in_slash, Platform, PhysStat, FileType}
use templeos_loader.Vfs.Clusters.{max_assignments, num_drives}
use templeos_loader.Vfs.Stat.Room.{HasRoom}
use templeos_loader.Vsyscall.Defs.{Libc, World}
use templeos_loader.Vsyscall.Invariant.{IsValid}
use templeos_loader.Vsyscall.Runs.{Runs, here, Runs-IsValid, Runs-trans}
use templeos_loader.HostFs.{
  Kernel, CDrv, fst_hostfs, fuf_just_dirs, cdir_filename_len, host_fs_file_find, walk_pieces,
  name2_dir_clus, CDirEntry, Found, found,
}
use templeos_loader.HostFs.Answers.{HasNoFormat, join, Denotes, Denotes-Runs, IsReady, Answers}
use templeos_loader.HostFs.Find.{host_fs_file_find-Answers}

-- The path of the pieces from the directory `dir` on. Empty pieces are skipped.
unfoldable pub below : CString → List CString → CString
below dir [] = dir
below dir ([] ∷ rest) = below dir rest
below dir ((c ∷ cs) ∷ rest) = below (join dir (c ∷ cs)) rest

module _ (K : Kernel) (P : Platform) where
  -- Each piece is a valid name without `%`, which does not end in a slash, and a directory in the one before it.
  unfoldable pub AreDirs : P.Fs → ℕ → CString → List CString → Type 0
  unfolding HasNoFormat
  AreDirs fs d dir [] = Unit
  AreDirs fs d dir ([] ∷ rest) = AreDirs fs d dir rest
  AreDirs fs d dir ((c ∷ cs) ∷ rest) =
      HasNoFormat (c ∷ cs)
      × ((dname : CString) × (K.cfile_name_to (c ∷ cs) ≡ some dname))
      × (length (P.basename (join dir (c ∷ cs))).0 < cdir_filename_len)
      × (ends_in_slash (join dir (c ∷ cs)) ≡ false)
      × ((info : PhysStat) × (P.stat (join dir (c ∷ cs)) d fs ≡ some info)
          × (info.filetype ≡ FileType.directory))
      × AreDirs fs d (join dir (c ∷ cs)) rest

module _ (K : Kernel) (P : Platform) (libc : Libc)
    (keeps : (p : CString) → ends_in_slash p ≡ false → (P.basename p).1 ≡ p) (dv : CDrv)
    (prints : (s t : CString) → HasNoFormat t → K.cat_print s t ≡ s ++ t)
    (host : dv.fs_type ≡ fst_hostfs) where
  abbrev d : ℕ
  d = dv.prt_num % 2 ^ 8

  less :
      (clus : ℕ) (dir : CString) (w : World P) (k : ℕ)
      → IsReady P w d clus dir (suc k)
      → IsReady P w d clus dir k
  less clus dir w k r = record {
    valid = r.valid;
    drive = r.drive;
    denotes = r.denotes;
    plain = r.plain;
    there = r.there;
    small = omega (arith, r.small);
    room = λ j high. r.room j (omega arith);
  }

  entered :
      (path : CString) (w : World P) (res : Found) (info : PhysStat)
      → info.filetype ≡ FileType.directory
      → Answers P K w d path fuf_just_dirs res (some info)
      → (de : CDirEntry) × (res ≡ found de) × Denotes P w d de.clus path
  entered path w res info is_dir (inl (inl (dirs, ne), m)) = absurd (ne is_dir)
  entered path w res info is_dir (inl (inr (files, same), m)) = absurd (ground (arith, files))
  entered path w res info is_dir (inr (ok, de, is_found, name, attr, size, denotes)) =
      (de, is_found, denotes)

  walk_pieces-found :
      (c : ℕ) (cs : CString) (rest : List CString) (clus : ℕ) (w : World P) (de : CDirEntry)
      (w1 : World P)
      → host_fs_file_find K P libc dv clus (c ∷ cs) fuf_just_dirs w ≡ some (found de, w1)
      → walk_pieces K P libc dv ((c ∷ cs) ∷ rest) clus w ≡ walk_pieces K P libc dv rest de.clus w1
  unfolding walk_pieces
  walk_pieces-found c cs rest clus w de w1 e = rw (walk_pieces, e) refl

  walk_pieces-Denotes :
      (parts : List CString) (clus : ℕ) (dir : CString) (w : World P)
      → IsReady P w d clus dir (length parts)
      → AreDirs K P w.fs d dir parts
      → (c : ℕ) × (w' : World P) × (walk_pieces K P libc dv parts clus w ≡ some (some c, w'))
        × Runs P w w'
        × (w'.fs ≡ w.fs)
        × Denotes P w' d c (below dir parts)
  unfolding walk_pieces below AreDirs
  walk_pieces-Denotes [] clus dir w r dirs = (clus, w, refl, here, refl, r.denotes)
  walk_pieces-Denotes ([] ∷ rest) clus dir w r dirs =
      walk_pieces-Denotes rest clus dir w (less clus dir w (length rest) r) dirs
  walk_pieces-Denotes ((c ∷ cs) ∷ rest) clus dir w r
        (unformatted, valid, short, plain, (info, exists, is_dir), more) =
      let (res, w1, finds, runs, same_fs, room, answers) =
        host_fs_file_find-Answers K P libc keeps dv clus (c ∷ cs) valid.0 dir fuf_just_dirs w
          (length rest) prints unformatted valid.1 host refl short plain r in
      let (de, is_found, denotes) =
        entered (join dir (c ∷ cs)) w1 res info is_dir (rw exists at answers) in
      let (last, w2, walks, runs2, same_fs2, denoted) =
        walk_pieces-Denotes rest de.clus (join dir (c ∷ cs)) w1
          (record {
            valid = Runs-IsValid P keeps r.valid runs;
            drive = r.drive;
            denotes = denotes;
            plain = inr plain;
            there = inr (info, rw same_fs exists);
            small = omega (arith, r.small);
            room = room;
          })
          (rw same_fs more) in
      (
        last,
        w2,
        walk_pieces-found c cs rest clus w de w1 (finds ∙ ap (λ x. some (x, w1)) is_found) ∙ walks,
        Runs-trans P runs runs2,
        same_fs2 ∙ same_fs,
        denoted,
      )

  -- On a host drive, one of the drives of the loader, whose root is cluster 0, in a state in order
  -- of the loader, with room for a cluster for each piece of a path: if each piece that is not
  -- empty is a valid name without `%`, which does not end in a slash and whose `basename` fits into
  -- a directory entry, of a directory in the one before it, `CatPrint` prints a text without `%` as
  -- it is and `basename` changes no path in place that does not end in a slash, then `Name2DirClus`
  -- runs without a fault and gives a cluster that then, and after any further calls that pass no
  -- path to `basename` that ends in a slash, denotes the path of the pieces, and PhysFS is as
  -- before.
  pub name2_dir_clus-Denotes :
      (dirname : CString) (w : World P)
      → dv.root_clus ≡ 0
      → IsValid P w
      → d < num_drives
      → length (K.pieces dirname) ≤ max_assignments
      → HasRoom (length (K.pieces dirname)) (w.assignments d)
      → AreDirs K P w.fs d (b'/' ∷ []) (K.pieces dirname)
      → (c : ℕ) × (w' : World P) × (name2_dir_clus K P libc dv dirname w ≡ some (c, w'))
        × (w'.fs ≡ w.fs)
        × ((w'' : World P)
            → Runs P w' w''
            → Denotes P w'' d c (below (b'/' ∷ []) (K.pieces dirname)))
  unfolding name2_dir_clus
  name2_dir_clus-Denotes dirname w root v drive small room dirs =
      let (c, w', walks, runs, same_fs, denotes) =
        walk_pieces-Denotes (K.pieces dirname) dv.root_clus (b'/' ∷ []) w
          (record {
            valid = v;
            drive = drive;
            denotes = inl (root, refl);
            plain = inl root;
            there = inl root;
            small = small;
            room = room;
          })
          dirs in
      (
        c,
        w',
        rw (name2_dir_clus, walks) refl,
        same_fs,
        λ w'' later. Denotes-Runs P w' w'' d c _ keeps (Runs-IsValid P keeps v runs) denotes later,
      )

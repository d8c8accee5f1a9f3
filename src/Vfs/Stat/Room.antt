-- ===== src/Vfs/Stat/Room.antt =====
-- Room in the table of clusters: with enough of it, `vfs_stat` and `vfs_readdir` do not write behind
-- its end.
use templeos_loader.Prelude.{
  false, ℕ, suc, ◌+◌, ◌-◌, ◌≤◌, ◌<◌, ◌≡◌, ◌≢◌, ap, sym, ◌∙◌, arith, none, some, List, [], ◌∷◌,
  length, drop, CString, ℤ, Option-cases, inl, inr,
}
use mathlib.Core.Option.{some-injective}
use templeos_loader.Platform.{ends_in_slash, Platform}
use templeos_loader.Vfs.Clusters.{max_assignments, num_drives, Table, Assignments, get_node_by_path}
use templeos_loader.Vfs.Clusters.Nodes.{
  AreAssigned, Obtained, get_node_by_path-Obtained, get_node_by_path-none,
}
use templeos_loader.Vfs.Stat.{CHostFsStat, fill_stat, vfs_stat}
use templeos_loader.Vfs.Stat.Agree.{fill_stat_lem, set_path-same}
use templeos_loader.Vfs.Stat.Keeps.{vfs_stat-keeps, ArePlain, ArePlain-drop}
use templeos_loader.Vfs.Dirs.{VfsDir, entry_path, read_rest, vfs_readdir}

-- The last `k` entries are free.
abbrev pub HasRoom : ℕ → Table → Type 0
HasRoom k t = (j : ℕ) → max_assignments - k ≤ j → t j ≡ none

pub Obtained-HasRoom :
    (all : Assignments) (path : CString) (dv i k : ℕ) (all' : Assignments)
    → suc k ≤ max_assignments
    → HasRoom (suc k) (all dv)
    → Obtained all path dv i all'
    → HasRoom k (all' dv)
Obtained-HasRoom all path dv i k all' small room o j high = elim (Option-cases (all' dv j)) [
  | inl free ↦ free
  | inr (a, e) ↦
      let (n, t) = o.tables dv o.drive in
      let p = max_assignments - suc k in
      let used : j < n = ground (arith, t.free j) in
      let (b, at, c) = t.used p (omega arith) in
      absurd (ground (arith, o.grown j a e, o.grown p b at, room j, room p))
]

module _ (P : Platform) where
  open P use {Fs, stat}

  -- The last entry of the drive's table is free.
  pub vfs_stat-ne-none :
      (path : CString) (st_out : CHostFsStat) (dv : ℕ) (fs : Fs) (all : Assignments)
      → AreAssigned all
      → dv < num_drives
      → all dv (max_assignments - 1) ≡ none
      → vfs_stat P path st_out dv fs all ≢ none
  unfolding vfs_stat fill_stat
  vfs_stat-ne-none path st_out dv fs all w drive room faults =
      elim (Option-cases (stat path dv fs)) [
        | inl missing ↦ ground arith
        | inr (info, exists) ↦ elim (Option-cases (get_node_by_path all path dv)) [
          | inl full ↦
              let (n, t) = w dv drive in
              let f = (get_node_by_path-none all path dv n drive t).0 full in
              ground (arith, f.0, t.used (max_assignments - 1), room)
          | inr ((i, all'), got) ↦
              let o = get_node_by_path-Obtained all path dv i all' w got in ground (arith, o.named)
        ]
      ]

module _ (P : Platform)
    (keeps : (p : CString) → ends_in_slash p ≡ false → (P.basename p).1 ≡ p) where
  open P use {Fs, stat, basename}

  vfs_stat-HasRoom :
      (path : CString) (st_out : CHostFsStat) (dv k : ℕ) (fs : Fs) (all : Assignments) (rc : ℤ)
      (st : CHostFsStat) (all' : Assignments)
      → AreAssigned all
      → ends_in_slash path ≡ false
      → suc k ≤ max_assignments
      → HasRoom (suc k) (all dv)
      → vfs_stat P path st_out dv fs all ≡ some (rc, st, all')
      → HasRoom k (all' dv)
  unfolding vfs_stat
  vfs_stat-HasRoom path st_out dv k fs all rc st all' w plain small room h =
      elim (Option-cases (stat path dv fs)) [
        | inl missing ↦
            let same : all' ≡ all = ground arith in rw same (λ j high. room j (omega arith))
        | inr (info, exists) ↦ elim (Option-cases (get_node_by_path all path dv)) [
          | inl full ↦ absurd (ground arith)
          | inr ((i, all1), got) ↦
              let o = get_node_by_path-Obtained all path dv i all1 w got in
              let kept : basename path ≡ ((basename path).0, path) =
                ap (λ (q : CString). ((basename path).0, q)) (keeps path plain) in
              let filled =
                fill_stat_lem P path path (basename path).0 info dv i all1 o.named kept in
              let run : fill_stat P info dv i all1 ≡ some (rc, st, all') =
                rw (exists, vfs_stat, got) at h in
              let same = some-injective _ _ (sym run ∙ filled) in
              rw
                (ap (λ (r : ℤ × CHostFsStat × Assignments). r.2) same
                  ∙ set_path-same all1 dv i path o.named)
                (Obtained-HasRoom all path dv i k all1 small room o)
        ]
      ]

  read_rest-ne-none :
      (path : CString) (rest : List CString) (at : ℕ) (st_out : CHostFsStat) (dv : ℕ) (fs : Fs)
      (all : Assignments)
      → AreAssigned all
      → ArePlain path rest
      → dv < num_drives
      → length rest ≤ max_assignments
      → HasRoom (length rest) (all dv)
      → read_rest P path rest at st_out dv fs all ≢ none
  unfolding read_rest ArePlain
  read_rest-ne-none path [] at st_out dv fs all w plain drive small room faults = ground arith
  read_rest-ne-none path (e ∷ es) at st_out dv fs all w plain drive small room faults =
      elim (Option-cases (vfs_stat P (entry_path path e) st_out dv fs all)) [
        | inl full ↦
            vfs_stat-ne-none P (entry_path path e) st_out dv fs all w drive
              (room (max_assignments - 1) (omega arith)) full
        | inr ((rc, st1, all1), got) ↦
            let later =
              read_rest-ne-none path es (at + 1) st1 dv fs all1
                (vfs_stat-keeps P keeps (entry_path path e) st_out dv fs all rc st1 all1 w plain.0
                  got).tables
                plain.1 drive (omega arith)
                (vfs_stat-HasRoom (entry_path path e) st_out dv (length es) fs all rc st1 all1 w
                  plain.0 small room got) in
            ground (arith, got)
      ]

  -- With room for every entry that the stream has left.
  pub vfs_readdir-ne-none :
      (d : VfsDir) (st_out : CHostFsStat) (dv : ℕ) (fs : Fs) (all : Assignments)
      → AreAssigned all
      → ArePlain d.path d.list
      → dv < num_drives
      → length (drop d.pos d.list) ≤ max_assignments
      → HasRoom (length (drop d.pos d.list)) (all dv)
      → vfs_readdir P d st_out dv fs all ≢ none
  unfolding vfs_readdir
  vfs_readdir-ne-none d st_out dv fs all w plain drive small room faults =
      let rest =
        read_rest-ne-none d.path (drop d.pos d.list) d.pos st_out dv fs all w
          (ArePlain-drop d.path d.pos d.list plain) drive small room in
      ground arith

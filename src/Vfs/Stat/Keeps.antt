-- ===== src/Vfs/Stat/Keeps.antt =====
-- The functions that assign clusters keep the tables in order and all entries that stand in them, if
-- `basename` leaves paths alone that do not end in a slash.
use mathlib.Core.Option.{some-injective}
use templeos_loader.Prelude.{
  false, sym, ◌∙◌, ◌<◌, ℕ, zero, suc, ◌+◌, ◌≡◌, ap, arith, some, List, [], ◌∷◌, CString, ℤ, pos,
  negsuc, Option-cases, inl, inr, drop, Bool-cases, ◌==◌,
}
use templeos_loader.Platform.{ends_in_slash, Platform, PhysStat}
use templeos_loader.Vfs.Clusters.Scan.{Names}
use templeos_loader.Vfs.Clusters.{clus_min, num_drives, Assignment, Assignments, get_node_by_path}
use templeos_loader.Vfs.Clusters.Nodes.{AreAssigned, Obtained, get_node_by_path-Obtained}
use templeos_loader.Vfs.Stat.{CHostFsStat, fill_stat, vfs_stat}
use templeos_loader.Vfs.Stat.Agree.{fill_stat_lem, set_path-same}
use templeos_loader.Vfs.Dirs.{VfsDir, entry_path, read_rest, vfs_readdir}

-- Every entry is still there.
abbrev pub AreKept : Assignments → Assignments → Type 0
AreKept all all' = (dv j : ℕ) (a : Assignment) → all dv j ≡ some a → all' dv j ≡ some a

-- The tables after calls: in order, with all entries kept.
pub record Follows (all all' : Assignments) : Type 0 where
  pub tables : AreAssigned all'
  pub kept : AreKept all all'

-- No path of an entry ends in a slash.
unfoldable pub ArePlain : CString → List CString → Type 0
ArePlain path [] = Unit
ArePlain path (e ∷ es) = (ends_in_slash (entry_path path e) ≡ false) × ArePlain path es

pub ArePlain-drop :
    (path : CString) (n : ℕ) (es : List CString) → ArePlain path es → ArePlain path (drop n es)
unfolding ArePlain
ArePlain-drop path zero es plain = plain
ArePlain-drop path (suc n) [] plain = tt
ArePlain-drop path (suc n) (e ∷ es) plain = ArePlain-drop path n es plain.1

stays : (all : Assignments) → AreAssigned all → Follows all all
stays all w = record { tables = w; kept = λ dv j a e. e }

Follows-trans :
    (all all' all'' : Assignments) → Follows all all' → Follows all' all'' → Follows all all''
Follows-trans all all' all'' f g = record {
  tables = g.tables;
  kept = λ dv j a e. g.kept dv j a (f.kept dv j a e);
}

get_node_by_path-Follows :
    (all : Assignments) (path : CString) (dv i : ℕ) (all' : Assignments)
    → Obtained all path dv i all'
    → Follows all all'
get_node_by_path-Follows all path dv i all' o = record {
  tables = o.tables;
  kept = λ e j a at. elim (Bool-cases (e == dv)) [
    | inl same ↦ let here : e ≡ dv = ground arith in rw here (o.kept j a (rw here at at))
    | inr other ↦ rw (o.others e (λ h. ground arith)) at
  ];
}

module _ (P : Platform)
    (keeps : (p : CString) → ends_in_slash p ≡ false → (P.basename p).1 ≡ p) where
  open P use {Fs, stat, basename}

  fill-keeps :
      (path : CString) (info : PhysStat) (dv i : ℕ) (all : Assignments) (rc : ℤ) (st : CHostFsStat)
      (all' : Assignments)
      → AreAssigned all
      → ends_in_slash path ≡ false
      → all dv i ≡ some (record { path = path; clus = 1 + i })
      → fill_stat P info dv i all ≡ some (rc, st, all')
      → Follows all all'
  fill-keeps path info dv i all rc st all' w plain named h =
      let kept : basename path ≡ ((basename path).0, path) =
        ap (λ (q : CString). ((basename path).0, q)) (keeps path plain) in
      let filled = fill_stat_lem P path path (basename path).0 info dv i all named kept in
      let same : all' ≡ all = cc (filled, set_path-same all dv i path named) in
      rw same (stays all w)

  pub vfs_stat-keeps :
      (path : CString) (st_out : CHostFsStat) (dv : ℕ) (fs : Fs) (all : Assignments) (rc : ℤ)
      (st : CHostFsStat) (all' : Assignments)
      → AreAssigned all
      → ends_in_slash path ≡ false
      → vfs_stat P path st_out dv fs all ≡ some (rc, st, all')
      → Follows all all'
  unfolding vfs_stat
  vfs_stat-keeps path st_out dv fs all rc st all' w plain h =
      elim (Option-cases (stat path dv fs)) [
        | inl missing ↦ let same : all' ≡ all = ground arith in rw same (stays all w)
        | inr (info, exists) ↦ elim (Option-cases (get_node_by_path all path dv)) [
          | inl full ↦ absurd (ground arith)
          | inr ((i, all1), got) ↦
              let o = get_node_by_path-Obtained all path dv i all1 w got in
              let filled : fill_stat P info dv i all1 ≡ some (rc, st, all') =
                rw (exists, vfs_stat, got) at h in
              Follows-trans all all1 all' (get_node_by_path-Follows all path dv i all1 o)
                (fill-keeps path info dv i all1 rc st all' o.tables plain o.named filled)
        ]
      ]

  -- Where `vfs_stat` returns 0, the cluster that it stores is the one of the path.
  pub vfs_stat-Names :
      (path : CString) (st_out : CHostFsStat) (dv : ℕ) (fs : Fs) (all : Assignments)
      (st : CHostFsStat) (all' : Assignments)
      → AreAssigned all
      → ends_in_slash path ≡ false
      → vfs_stat P path st_out dv fs all ≡ some (pos 0, st, all')
      → (i : ℕ) × (st.clus ≡ clus_min + i) × (dv < num_drives) × Names (all' dv) i path
  unfolding vfs_stat
  vfs_stat-Names path st_out dv fs all st all' w plain h = elim (Option-cases (stat path dv fs)) [
    | inl missing ↦ absurd (ground arith)
    | inr (info, exists) ↦ elim (Option-cases (get_node_by_path all path dv)) [
      | inl full ↦ absurd (ground arith)
      | inr ((i, all1), got) ↦
          let o = get_node_by_path-Obtained all path dv i all1 w got in
          let kept : basename path ≡ ((basename path).0, path) =
            ap (λ (q : CString). ((basename path).0, q)) (keeps path plain) in
          let filled = fill_stat_lem P path path (basename path).0 info dv i all1 o.named kept in
          let run : fill_stat P info dv i all1 ≡ some (pos 0, st, all') =
            rw (exists, vfs_stat, got) at h in
          let same = some-injective _ _ (sym run ∙ filled) in
          (
            i,
            ap (λ (r : ℤ × CHostFsStat × Assignments). r.1.clus) same,
            o.drive,
            rw
                (ap (λ (r : ℤ × CHostFsStat × Assignments). r.2) same
                  ∙ set_path-same all1 dv i path o.named)
                o.named,
          )
    ]
  ]

  read_rest-keeps :
      (path : CString) (rest : List CString) (at : ℕ) (st_out : CHostFsStat) (dv : ℕ) (fs : Fs)
      (all : Assignments) (rc : ℤ) (st : CHostFsStat) (end : ℕ) (all' : Assignments)
      → AreAssigned all
      → ArePlain path rest
      → read_rest P path rest at st_out dv fs all ≡ some (rc, st, end, all')
      → Follows all all'
  unfolding read_rest ArePlain
  read_rest-keeps path [] at st_out dv fs all rc st end all' w plain h =
      let same : all' ≡ all = ground arith in rw same (stays all w)
  read_rest-keeps path (e ∷ es) at st_out dv fs all rc st end all' w plain h =
      elim (Option-cases (vfs_stat P (entry_path path e) st_out dv fs all)) [
        | inl full ↦ absurd (ground arith)
        | inr ((pos zero, st1, all1), got) ↦
            let same : all' ≡ all1 = ground arith in
            rw same (
              vfs_stat-keeps (entry_path path e) st_out dv fs all (pos zero) st1 all1 w plain.0 got)
        | inr ((pos (suc n), st1, all1), got) ↦
            let first =
              vfs_stat-keeps (entry_path path e) st_out dv fs all (pos (suc n)) st1 all1 w plain.0
                got in
            Follows-trans all all1 all' first (
              read_rest-keeps path es (at + 1) st1 dv fs all1 rc st end all' first.tables plain.1
                (rw got at h))
        | inr ((negsuc n, st1, all1), got) ↦
            let first =
              vfs_stat-keeps (entry_path path e) st_out dv fs all (negsuc n) st1 all1 w plain.0
                got in
            Follows-trans all all1 all' first (
              read_rest-keeps path es (at + 1) st1 dv fs all1 rc st end all' first.tables plain.1
                (rw got at h))
      ]

  pub vfs_readdir-keeps :
      (d : VfsDir) (st_out : CHostFsStat) (dv : ℕ) (fs : Fs) (all : Assignments) (rc : ℤ)
      (st : CHostFsStat) (d' : VfsDir) (all' : Assignments)
      → AreAssigned all
      → ArePlain d.path d.list
      → vfs_readdir P d st_out dv fs all ≡ some (rc, st, d', all')
      → Follows all all'
  unfolding vfs_readdir
  vfs_readdir-keeps d st_out dv fs all rc st d' all' w plain h =
      elim (Option-cases (read_rest P d.path (drop d.pos d.list) d.pos st_out dv fs all)) [
        | inl full ↦ absurd (ground arith)
        | inr ((rc1, st1, end, all1), got) ↦
            let same : all' ≡ all1 = ground arith in
            rw same (
              read_rest-keeps d.path (drop d.pos d.list) d.pos st_out dv fs all rc1 st1 end all1 w
                (ArePlain-drop d.path d.pos d.list plain) got)
      ]

-- ===== src/Vfs/Tests.antt =====
-- The clusters, `vfs_stat` and the directory streams at concrete paths.
use templeos_loader.Prelude.{
  ℕ, ◌+◌, ◌≡◌, ◌↔◌, refl, arith, true, false, none, some, [], ◌∷◌, CString, text, str_eq, pos,
}
use templeos_loader.Datetime.{zeroed}
use templeos_loader.Platform.Toy.{toy, file, folder}
use templeos_loader.Vfs.Clusters.{max_assignments, Assignments, update, scan, get_node_by_path}
use templeos_loader.Vfs.Clusters.Scan.{IsAssigned, Unnamed}
use templeos_loader.Vfs.Clusters.Nodes.{
  AreAssigned, Obtained, get_node_by_path-Obtained, get_node_by_path-none,
}
use templeos_loader.Vfs.Stat.{CHostFsStat, vfs_stat, vfs_statclus}
use templeos_loader.Vfs.Stat.Agree.{report, vfs_stat-vfs_statclus}
use templeos_loader.Vfs.Stat.Slash.{vfs_stat_twice}
use templeos_loader.Vfs.Dirs.{VfsDir, vfs_readdir}
use templeos_loader.Vfs.Dirs.Listing.{first_live, is_live, expected, vfs_readdir-expected}

abbrev empty : Assignments
empty dv i = none

empty-IsAssigned : (dv : ℕ) → IsAssigned (empty dv) 0
empty-IsAssigned dv = record {
  bounded = omega arith;
  used = λ i h. absurd (omega arith);
  free = λ i h. refl;
  distinct = λ i j a b e e' p. absurd (ground arith);
}

empty-AreAssigned : AreAssigned empty
empty-AreAssigned dv drive = (0, empty-IsAssigned dv)

abbrev path : CString
path = text "/d/a"

abbrev dir : CString
dir = text "/d"

-- With the first path assigned on drive 1.
abbrev one : Assignments
one = update empty 1 (update (empty 1) 0 (some (record { path = path; clus = 1 })))

abbrev both : Assignments
both = update one 1 (update (one 1) 1 (some (record { path = dir; clus = 2 })))

first : get_node_by_path empty path 1 ≡ some (0, one)
unfolding get_node_by_path scan
first = refl

second : get_node_by_path one dir 1 ≡ some (1, both)
unfolding get_node_by_path scan str_eq
second = refl

no_drive : get_node_by_path empty path 5 ≡ none
unfolding get_node_by_path
no_drive = refl

get_node_by_path-Obtained_example : Obtained empty path 1 0 one
get_node_by_path-Obtained_example =
    get_node_by_path-Obtained empty path 1 0 one empty-AreAssigned first

get_node_by_path-none_example :
    (get_node_by_path empty path 1 ≡ none)
    ↔ ((◌≡◌ {A = ℕ} 0 max_assignments) × Unnamed (empty 1) path)
get_node_by_path-none_example =
    get_node_by_path-none empty path 1 0 (omega arith) (empty-IsAssigned 1)

one-AreAssigned : AreAssigned one
one-AreAssigned = (get_node_by_path-Obtained empty path 1 0 one empty-AreAssigned first).tables

abbrev blank : CHostFsStat
blank = record {
  attr = 0;
  clus = 0;
  size = pos 0;
  abs_path = [];
  name = text "old";
  datetime = zeroed;
}

vfs_stat-vfs_statclus_example :
    let reported = report (toy false) path path file 0 in
    (vfs_stat (toy false) path blank 1 tt empty ≡ some (pos 0, reported, one))
    × (vfs_stat (toy false) path blank 1 tt one ≡ some (pos 0, reported, one))
    × (vfs_statclus (toy false) (pos reported.clus) blank 1 tt one
        ≡ some (pos 0, record reported { name = text "old" }))
unfolding str_eq
vfs_stat-vfs_statclus_example =
    vfs_stat-vfs_statclus (toy false) path path 1 tt file empty 0 one blank blank empty-AreAssigned
      refl refl first

vfs_stat_twice_example :
    (all' all'' : Assignments) × (vfs_stat (toy true) (text "/d/") blank 1 tt empty
      ≡ some (pos 0, report (toy true) dir (text "d") folder 0, all'))
    × (vfs_stat (toy true) (text "/d/") blank 1 tt all'
        ≡ some (pos 0, report (toy true) dir (text "d") folder (0 + 1), all''))
unfolding str_eq
vfs_stat_twice_example =
    vfs_stat_twice (toy true) (text "/d/") dir (text "d") 1 folder tt empty 0 blank blank
      (empty-IsAssigned 1) (omega arith) (omega arith) (λ i a e. absurd (ground arith))
      (λ i a e. absurd (ground arith)) (cc) refl refl

abbrev stream : VfsDir
stream = record { path = text "/d"; list = text "gone" ∷ text "a" ∷ []; pos = 0 }

-- The entry that is gone is skipped.
skips : first_live (is_live (toy false) dir 1 tt) 0 stream.list ≡ (2, some (text "a"))
unfolding first_live str_eq
skips = refl

vfs_readdir-expected_example :
    vfs_readdir (toy false) stream blank 1 tt empty
    ≡ expected
        (toy false)
        stream
        blank
        1
        tt
        empty
        (first_live (is_live (toy false) dir 1 tt) 0 stream.list)
vfs_readdir-expected_example = vfs_readdir-expected (toy false) stream blank 1 tt empty

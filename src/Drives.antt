-- ===== src/Drives.antt =====
-- The virtual drives at the start: `vfs_init` of vfs.c, `setup_vfs` of loader.c, and the loop over
-- the `--drive` options that main.c and mainstatic.c share. What is observed is the sequence of
-- calls into PhysFS, whose results this code ignores.
pub mod Spec
pub mod Inits
mod Tests
use templeos_loader.Prelude.{
  ℕ, zero, suc, ◌+◌, Bool, true, false, Option, none, some, List, [], ◌∷◌, ◌++◌, ◌==◌,
  if◌then◌else◌, CString, ℤ, pos, minus_one, take, drop,
}

-- The calls; `mount` is at "/", appended to the search path.
pub data Call : Type 0 where
  phys_init : CString → ℕ → Call
  set_write_dir : CString → ℕ → Call
  mount : CString → ℕ → Call

unfoldable pub vfs_init : CString → (vfspath writepath : Option CString) → ℕ → List Call
vfs_init argv0 vfspath writepath dv =
    phys_init argv0 dv
    ∷ (elim writepath [ none ↦ [] | some w ↦ set_write_dir w dv ∷ mount w dv ∷ [] ]
        ++ elim vfspath [ none ↦ [] | some v ↦ mount v dv ∷ [] ])

pub record DriveMapping : Type 0 where
  pub letter : ℕ
  pub dir : Option CString
  pub writedir : Option CString

-- The number of a drive letter, none for a letter that is refused.
abbrev pub drive_index : ℕ → Option ℕ
drive_index letter = if letter == b'C' then some 0 else if letter == b'D' then some 1 else none

-- The calls behind the loops: a drive that no option named is still initialised.
unfoldable pub default_drives : CString → (have_C have_D : Bool) → List Call
unfolding vfs_init
default_drives argv0 have_C have_D =
    (if have_C then [] else vfs_init argv0 none none 0)
    ++ (if have_D then [] else vfs_init argv0 none none 1)

-- The return value, and the calls made.
unfoldable pub setup_loop : CString → List DriveMapping → (have_C have_D : Bool) → ℤ × List Call
unfolding vfs_init default_drives
setup_loop argv0 [] have_C have_D = (pos 0, default_drives argv0 have_C have_D)
setup_loop argv0 (m ∷ ms) have_C have_D =
    let rest =
      setup_loop argv0 ms (if m.letter == b'C' then true else have_C)
        (if m.letter == b'C' then have_D else if m.letter == b'D' then true else have_D) in
    elim (drive_index m.letter) [
      | none ↦ (minus_one, [])
      | some idx ↦ (rest.0, vfs_init argv0 m.dir m.writedir idx ++ rest.1)
    ]

unfoldable pub setup_vfs : CString → List DriveMapping → ℤ × List Call
unfolding setup_loop
setup_vfs argv0 drive_mappings = setup_loop argv0 drive_mappings false false

abbrev pub comma : ℕ
comma = b','

-- The index of the first occurrence.
unfoldable pub strchr : CString → ℕ → Option ℕ
strchr [] c = none
strchr (d ∷ s) c =
    if d == c then some 0 else elim (strchr s c) [ none ↦ none | some i ↦ some (i + 1) ]

-- The character at an index, NUL behind the last.
abbrev pub char_at : CString → ℕ → ℕ
char_at [] i = 0
char_at (c ∷ s) zero = c
char_at (c ∷ s) (suc i) = char_at s i

-- `letter,dir[,writedir]`, none for a syntax error.
unfoldable pub parse_drive : CString → Option DriveMapping
unfolding strchr
parse_drive sval = elim (strchr sval comma) [
  | none ↦ none
  | some comma1 ↦
      if comma1 == 1
      then (let dir = drop (comma1 + 1) sval in
          elim (strchr dir comma) [
            | none ↦ some (record { letter = char_at sval 0; dir = some dir; writedir = none })
            | some comma2 ↦ some (record {
              letter = char_at sval 0;
              dir = some (take comma2 dir);
              writedir = some (drop (comma2 + 1) dir);
            })
          ])
      else none
]

-- The drives of `main`: 0 to go on, or the exit code, and the calls made.
unfoldable pub main_drives : CString → List CString → (have_C have_D : Bool) → ℤ × List Call
unfolding vfs_init default_drives parse_drive
main_drives argv0 [] have_C have_D = (pos 0, default_drives argv0 have_C have_D)
main_drives argv0 (sval ∷ rest) have_C have_D =
    let go = λ (c d : Bool). main_drives argv0 rest c d in
    elim (parse_drive sval) [
      | none ↦ (minus_one, [])
      | some m ↦
          let after =
            go (if m.letter == b'C' then true else have_C)
              (if m.letter == b'C' then have_D else if m.letter == b'D' then true else have_D) in
          elim (drive_index m.letter) [
            | none ↦ (minus_one, [])
            | some idx ↦ (after.0, vfs_init argv0 m.dir m.writedir idx ++ after.1)
          ]
    ]

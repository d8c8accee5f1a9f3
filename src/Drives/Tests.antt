-- ===== src/Drives/Tests.antt =====
-- The drives at concrete options.
use templeos_loader.Prelude.{
  ℕ, ◌≡◌, ◌≢◌, ◌↔◌, refl, none, some, List, [], ◌∷◌, CString, text, pos, minus_one, false,
}
use templeos_loader.Drives.{
  phys_init, set_write_dir, mount, DriveMapping, setup_vfs, parse_drive, main_drives,
}
use templeos_loader.Drives.Inits.{Parsed, main_drives-setup_vfs}
use templeos_loader.Drives.Spec.{NoComma, drive_spec, parse_drive_iff}

abbrev argv0 : CString
argv0 = text "loader"

abbrev options : List CString
options = text "C,MiniSystem" ∷ text "D,.,CmpOutput" ∷ []

abbrev mappings : List DriveMapping
mappings =
    record { letter = b'C'; dir = some (text "MiniSystem"); writedir = none }
    ∷ record { letter = b'D'; dir = some (text "."); writedir = some (text "CmpOutput") }
    ∷ []

options-Parsed : Parsed options mappings
unfolding parse_drive
options-Parsed = (refl, (refl, tt))

calls : setup_vfs argv0 mappings ≡ (
  pos 0,
  phys_init argv0 0
      ∷ mount (text "MiniSystem") 0
      ∷ phys_init argv0 1
      ∷ set_write_dir (text "CmpOutput") 1
      ∷ mount (text "CmpOutput") 1
      ∷ mount (text ".") 1
      ∷ [],
)
unfolding setup_vfs
calls = refl

refused :
    (parse_drive (text "CD,x") ≡ none)
    × (parse_drive (text ",x") ≡ none)
    × ((main_drives argv0 (text "E,x" ∷ []) false false).0 ≡ minus_one)
unfolding main_drives
refused = (refl, refl, refl)

main_drives-setup_vfs_example : main_drives argv0 options false false ≡ setup_vfs argv0 mappings
main_drives-setup_vfs_example = main_drives-setup_vfs argv0 options mappings options-Parsed

parse_drive_iff_example :
    (parse_drive (text "D,.,Out")
      ≡ some (record { letter = b'D'; dir = some (text "."); writedir = some (text "Out") }))
    ↔ ((text "D,.,Out" ≡ drive_spec b'D' (text ".") (some (text "Out")))
        × (◌≢◌ {A = ℕ} b'D' b',')
        × NoComma (text "."))
parse_drive_iff_example = parse_drive_iff (text "D,.,Out") b'D' (text ".") (some (text "Out"))

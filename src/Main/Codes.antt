-- ===== src/Main/Codes.antt =====
-- The parts of `main` return 0 or -1, so the tests for a negative value are tests for success.
use templeos_loader.Prelude.{
  ℕ, ◌≡◌, ◌⊎◌, inl, inr, refl, arith, Bool, true, false, Option, none, some, List, [], ◌∷◌, CString,
  ℤ, pos, minus_one, if◌then◌else◌, Option-cases, ◌==◌,
}
use templeos_loader.MemoryMap.{Mmap, Request, init_memory_map, map_areas}
use templeos_loader.Drives.{main_drives, parse_drive, drive_index}
use templeos_loader.Host.{Thunks}
use templeos_loader.LoadKernel.Memory.{Mem}
use templeos_loader.LoadKernel.Defs.{load_kernel}
use templeos_loader.Symtable.{Table}
use templeos_loader.Main.{is_negative}

-- The value is one of the two.
abbrev pub IsCode : ℤ → Type 0
IsCode z = (z ≡ pos 0) ⊎ (z ≡ minus_one)

pub succeeded : (z : ℤ) → IsCode z → is_negative z ≡ false → z ≡ pos 0
succeeded z (inl e) ok = e
succeeded z (inr e) ok = absurd (ground (arith, e))

map_areas-IsCode :
    (mmap : Mmap) (out : Option ℕ) (areas : List (Request × ℕ))
    → IsCode (map_areas mmap out areas).rc
unfolding map_areas
map_areas-IsCode mmap out areas = ground arith

pub main_drives-IsCode :
    (argv0 : CString) (drives : List CString) (c d : Bool) → IsCode (main_drives argv0 drives c d).0
unfolding main_drives
main_drives-IsCode argv0 [] c d = inl refl
main_drives-IsCode argv0 (s ∷ rest) c d = elim (Option-cases (parse_drive s)) [
  | inl e ↦ rw (main_drives, e) (inr refl)
  | inr (m, e) ↦ elim (Option-cases (drive_index m.letter)) [
    | inl f ↦ rw (main_drives, e, f) (inr refl)
    | inr (i, f) ↦
        rw (main_drives, e, f)
          (main_drives-IsCode argv0 rest (if m.letter == b'C' then true else c)
            (if m.letter == b'C' then d else if m.letter == b'D' then true else d))
  ]
]

pub init_memory_map-IsCode :
    (mmap : Mmap) (start reserve : ℕ) (wants_out : Bool)
    → IsCode (init_memory_map mmap start reserve wants_out).rc
unfolding init_memory_map
init_memory_map-IsCode mmap start reserve wants_out = ground (arith, map_areas-IsCode mmap none [])

pub load_kernel-IsCode :
    (thunks : Thunks) (file : Option (List ℕ)) (fuel address max_size : ℕ) (m : Mem) (syms : Table)
    (r : ℤ × Mem × Table)
    → load_kernel thunks file fuel address max_size m syms ≡ some r
    → IsCode r.0
unfolding load_kernel
load_kernel-IsCode thunks none fuel address max_size m syms r e = ground arith
load_kernel-IsCode thunks (some file) fuel address max_size m syms r e = ground arith

-- ===== src/Guest/Mapped.antt =====
-- The fixed area of the guest against the one that memory_map.c maps.
use templeos_loader.Prelude.{
  ℕ, ◌+◌, ◌≤◌, ◌<◌, ◌≡◌, ◌⊎◌, inl, inr, arith, List, [], ◌∷◌, Option, none, some, Bool, minus_one,
  pos, Option-cases, Bool-cases, ◌==◌, if◌then◌else◌,
}
use templeos_loader.MemoryMap.{
  align_down, Request, Outcome, Mmap, init_memory_map, map_areas, kernel_request, kernel_misplaced,
  sys_fixed_area_start, sys_fixed_area_size,
}
use templeos_loader.Guest.Layout.{struct, size}
use templeos_loader.Guest.FixedArea.{sys_fixed_area, c_sys_fixed_area}

-- The byte at an address lies in one of the areas.
unfoldable pub IsMapped : ℕ → List (Request × ℕ) → Type 0
IsMapped x [] = ⊥
IsMapped x ((r, p) ∷ areas) = ((p ≤ x) × (x < p + r.size)) ⊎ IsMapped x areas

module _ (mmap : Mmap) (o : ℕ) (within : o < sys_fixed_area_size) where
  fixed_mapped :
      (out : Option ℕ) (areas : List (Request × ℕ))
      → (map_areas mmap out areas).rc ≡ pos 0
      → IsMapped (sys_fixed_area_start + o) (map_areas mmap out areas).mapped
  unfolding map_areas IsMapped
  fixed_mapped out areas ok = ground arith

-- A run that returns 0 went through the mappings behind the kernel's.
module _ (mmap : Mmap) (start reserve : ℕ) (wants_out : Bool) where
  abbrev run : Outcome
  run = init_memory_map mmap start reserve wants_out

  to_map_areas :
      run.rc ≡ pos 0
      → (out : Option ℕ) × (areas : List (Request × ℕ)) × (run ≡ map_areas mmap out areas)
  unfolding init_memory_map
  to_map_areas ok = elim (Bool-cases (reserve == 0)) [
    | inl e ↦ (none, [], rw (e, init_memory_map))
    | inr e ↦ elim (Option-cases (mmap [] (kernel_request start reserve))) [
      | inl f ↦
          let failed : run.rc ≡ minus_one = rw (e, f, init_memory_map) in absurd (ground arith)
      | inr (p, f) ↦ elim (Bool-cases (kernel_misplaced start reserve p)) [
        | inl g ↦
            let bad : run.rc ≡ minus_one = rw (e, f, g, init_memory_map) in absurd (ground arith)
        | inr g ↦ (
          if wants_out then some (if align_down start == 0 then p else start) else none,
          (kernel_request start reserve, p) ∷ [],
          rw (e, f, g, init_memory_map),
        )
      ]
    ]
  ]

-- Where init_memory_map returns 0, every byte of the CSysFixedArea that the
-- guest keeps at SYS_FIXED_AREA lies in an area that it mapped: the size that the loader reserves for it is
-- enough.
pub fixed_area-IsMapped :
    (mmap : Mmap) (start reserve : ℕ) (wants_out : Bool) (o : ℕ)
    → (init_memory_map mmap start reserve wants_out).rc ≡ pos 0
    → o < size (struct c_sys_fixed_area)
    → IsMapped (sys_fixed_area + o) (init_memory_map mmap start reserve wants_out).mapped
unfolding size
fixed_area-IsMapped mmap start reserve wants_out o ok within =
    let (out, areas, e) = to_map_areas mmap start reserve wants_out ok in
    rw (e) (fixed_mapped mmap o (omega arith) out areas (rw (e) at ok))

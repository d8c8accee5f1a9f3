-- ===== src/MemoryMap/Tests.antt =====
-- The mappings for the arguments of main.c, under an `mmap` that honours every hint and under one
-- that puts the kernel elsewhere.
use templeos_loader.Prelude.{
  ◌+◌, ◌≤◌, ◌≡◌, ◌↔◌, refl, arith, true, none, some, [], ◌∷◌, pos, minus_one,
}
use templeos_loader.MemoryMap.{align_up, Mmap, kernel_request, flat_start, init_memory_map}
use templeos_loader.MemoryMap.Areas.{Succeeds, init_memory_map-Succeeds, kernel_out_unmapped}

abbrev obliging : Mmap
obliging mapped r = some r.hint

-- The first answer is 0x10000, the others honour the hint.
abbrev evasive : Mmap
evasive [] r = some 0x10000
evasive (a ∷ rest) r = some r.hint

abbrev refusing : Mmap
refusing [] r = some r.hint
refusing (a ∷ rest) r = none

main_request :
    ((kernel_request 0x107c00 0x40000).hint ≡ 0x107000)
    × ((kernel_request 0x107c00 0x40000).size ≡ 0x41000)
unfolding align_up
main_request = (refl, refl)

main_succeeds : (init_memory_map obliging 0x107c00 0x40000 true).kernel_out ≡ some 0x107c00
unfolding init_memory_map align_up
main_succeeds = refl

flat_refused : (init_memory_map refusing 0x107c00 0x40000 true).rc ≡ minus_one
unfolding init_memory_map align_up
flat_refused = refl

init_memory_map-Succeeds_example :
    ((init_memory_map obliging 0x107c00 0x40000 true).rc ≡ pos 0)
    ↔ Succeeds obliging 0x107c00 0x40000 true (init_memory_map obliging 0x107c00 0x40000 true)
init_memory_map-Succeeds_example =
    init_memory_map-Succeeds obliging 0x107c00 0x40000 true (omega arith) (omega arith)

kernel_out_unmapped_example :
    ((init_memory_map evasive 0x107c00 0x40000 true).rc ≡ pos 0)
    × ((init_memory_map evasive 0x107c00 0x40000 true).kernel_out ≡ some 0x107c00)
    × (0x10000 + (kernel_request 0x107c00 0x40000).size ≤ 0x107c00)
unfolding align_up
kernel_out_unmapped_example =
    kernel_out_unmapped evasive 0x107c00 0x40000 0x10000 flat_start (omega arith) (omega arith)
      (omega arith) (omega arith) (omega arith) refl refl refl

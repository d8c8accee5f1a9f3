-- ===== src/Guest/Tests.antt =====
-- The layouts of the shared structures, and sizes and offsets of concrete classes.
use templeos_loader.Guest.Task.{c_task, wake_jiffy_at}
use templeos_loader.Prelude.{str_eq, ◌+◌, ◌≡◌, refl, arith, false, some}
use templeos_loader.MemoryMap.{Mmap, init_memory_map}
use templeos_loader.Guest.FixedArea.{sys_fixed_area, c_tss}
use templeos_loader.Guest.Layout.{size, struct, places, find_place, c_places}
use templeos_loader.Guest.Places.{InOrder}
use templeos_loader.Guest.Shared.{of_host_fs_stat, host, guest, slots, host-guest}
use templeos_loader.Guest.Mapped.{IsMapped, fixed_area-IsMapped}

host-guest_example :
    (slots (c_places 0 (host of_host_fs_stat)) ≡ slots (places 0 (guest of_host_fs_stat)))
    × InOrder 0 (c_places 0 (host of_host_fs_stat)) (size (struct (guest of_host_fs_stat)))
host-guest_example = host-guest of_host_fs_stat

-- Every mapping is made where it is asked for.
abbrev obliging : Mmap
obliging mapped r = some r.hint

fixed_area-IsMapped_example :
    IsMapped (sys_fixed_area + 0x1FFF) (init_memory_map obliging 0 0 false).mapped
unfolding init_memory_map size
fixed_area-IsMapped_example = fixed_area-IsMapped obliging 0 0 false 0x1FFF refl (omega arith)

-- The task's wake_jiffy stands where a dying task has its own.
wake_jiffy_dying : find_place "wake_jiffy" (places 0 c_task) ≡ some wake_jiffy_at
unfolding wake_jiffy_at find_place places size str_eq
wake_jiffy_dying = refl

-- The processor's own structure, which C would only lay out so when packed.
tss_offsets :
    (find_place "rsp0" (places 0 c_tss) ≡ some 4)
    × (find_place "ist1" (places 0 c_tss) ≡ some 36)
    × (find_place "io_map_offset" (places 0 c_tss) ≡ some 102)
    × (find_place "rsp0" (c_places 0 c_tss) ≡ some 8)
unfolding find_place places size str_eq c_places
tss_offsets = (refl, refl, refl, refl)

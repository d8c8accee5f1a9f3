-- ===== src/Guest/Flags.antt =====
-- The constants of HolyCRT/KernelA.HH that come in pairs, the number of a bit and its mask: the
-- run levels of the runtime, the types of symbols and their flags. mainstatic.c has a copy of one.
use templeos_loader.Prelude.{ℕ, ◌^◌, ◌≡◌, ◌↔◌, refl, arith, Bool, true, false}

-- RLf_ and RLF_, with `real_mode`, `protected_mode` and `long_mode` for 16BIT, 32BIT and 64BIT,
-- and without the prefix 16MEG_.
pub data RunLevel : Type 0 where
  real_mode vga protected_mode patched sys_code_bp long_mode adam_heap_ctrl full_heaps raw
        interrupts blkdev mp compiler doc winmgr registry home auto_complete adam_server once_adam
        once_user :
      RunLevel

abbrev pub run_level_bit : RunLevel → ℕ
run_level_bit real_mode = 0
run_level_bit vga = 1
run_level_bit protected_mode = 2
run_level_bit patched = 3
run_level_bit sys_code_bp = 4
run_level_bit long_mode = 5
run_level_bit adam_heap_ctrl = 6
run_level_bit full_heaps = 7
run_level_bit raw = 8
run_level_bit interrupts = 9
run_level_bit blkdev = 10
run_level_bit mp = 11
run_level_bit compiler = 12
run_level_bit doc = 13
run_level_bit winmgr = 14
run_level_bit registry = 15
run_level_bit home = 16
run_level_bit auto_complete = 17
run_level_bit adam_server = 18
run_level_bit once_adam = 19
run_level_bit once_user = 20

abbrev pub run_level_mask : RunLevel → ℕ
run_level_mask real_mode = 0x000001
run_level_mask vga = 0x000002
run_level_mask protected_mode = 0x000004
run_level_mask patched = 0x000008
run_level_mask sys_code_bp = 0x000010
run_level_mask long_mode = 0x000020
run_level_mask adam_heap_ctrl = 0x000040
run_level_mask full_heaps = 0x000050
run_level_mask raw = 0x000100
run_level_mask interrupts = 0x000200
run_level_mask blkdev = 0x000400
run_level_mask mp = 0x000800
run_level_mask compiler = 0x001000
run_level_mask doc = 0x002000
run_level_mask winmgr = 0x004000
run_level_mask registry = 0x008000
run_level_mask home = 0x010000
run_level_mask auto_complete = 0x020000
run_level_mask adam_server = 0x040000
run_level_mask once_adam = 0x080000
run_level_mask once_user = 0x100000

abbrev pub is_full_heaps : RunLevel → Bool
is_full_heaps full_heaps = true
is_full_heaps real_mode = false
is_full_heaps vga = false
is_full_heaps protected_mode = false
is_full_heaps patched = false
is_full_heaps sys_code_bp = false
is_full_heaps long_mode = false
is_full_heaps adam_heap_ctrl = false
is_full_heaps raw = false
is_full_heaps interrupts = false
is_full_heaps blkdev = false
is_full_heaps mp = false
is_full_heaps compiler = false
is_full_heaps doc = false
is_full_heaps winmgr = false
is_full_heaps registry = false
is_full_heaps home = false
is_full_heaps auto_complete = false
is_full_heaps adam_server = false
is_full_heaps once_adam = false
is_full_heaps once_user = false

-- The mask of a run level is the power of two of its bit exactly if the level is not
-- RLF_FULL_HEAPS.
pub run_level_mask_iff :
    (l : RunLevel) → (run_level_mask l ≡ 2 ^ run_level_bit l) ↔ (is_full_heaps l ≡ false)
run_level_mask_iff real_mode = (λ e. refl, λ e. refl)
run_level_mask_iff vga = (λ e. refl, λ e. refl)
run_level_mask_iff protected_mode = (λ e. refl, λ e. refl)
run_level_mask_iff patched = (λ e. refl, λ e. refl)
run_level_mask_iff sys_code_bp = (λ e. refl, λ e. refl)
run_level_mask_iff long_mode = (λ e. refl, λ e. refl)
run_level_mask_iff adam_heap_ctrl = (λ e. refl, λ e. refl)
run_level_mask_iff full_heaps = (λ e. absurd (omega arith), λ e. absurd (ground arith))
run_level_mask_iff raw = (λ e. refl, λ e. refl)
run_level_mask_iff interrupts = (λ e. refl, λ e. refl)
run_level_mask_iff blkdev = (λ e. refl, λ e. refl)
run_level_mask_iff mp = (λ e. refl, λ e. refl)
run_level_mask_iff compiler = (λ e. refl, λ e. refl)
run_level_mask_iff doc = (λ e. refl, λ e. refl)
run_level_mask_iff winmgr = (λ e. refl, λ e. refl)
run_level_mask_iff registry = (λ e. refl, λ e. refl)
run_level_mask_iff home = (λ e. refl, λ e. refl)
run_level_mask_iff auto_complete = (λ e. refl, λ e. refl)
run_level_mask_iff adam_server = (λ e. refl, λ e. refl)
run_level_mask_iff once_adam = (λ e. refl, λ e. refl)
run_level_mask_iff once_user = (λ e. refl, λ e. refl)

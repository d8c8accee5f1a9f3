-- ===== src/Guest/Memory.antt =====
-- The classes of HolyCRT/KernelA.HH for the heaps.
use templeos_loader.Prelude.{ℕ, ◌-◌, ◌/◌}
use templeos_loader.Guest.Layout.{Members, nil, member, array, u32, i64, ptr, ◌▸◌}

abbrev pub mem_free_pag_hash_size : ℕ
mem_free_pag_hash_size = 0x100

abbrev pub mem_pag_bits : ℕ
mem_pag_bits = 9

abbrev pub mem_heap_hash_size : ℕ
mem_heap_hash_size = 1024

abbrev pub c_mem_blk : Members
c_mem_blk =
    member "next" ptr ▸ member "last" ptr ▸ member "mb_signature" u32 ▸ member "pags" u32 ▸ nil

abbrev pub c_mem_range : Members
c_mem_range =
    member "next" ptr
    ▸ member "last" ptr
    ▸ member "type" u32
    ▸ member "flags" u32
    ▸ member "base" ptr
    ▸ member "size" i64
    ▸ nil

abbrev pub c_blk_pool : Members
c_blk_pool =
    member "locked_flags" i64
    ▸ member "alloced_u8s" i64
    ▸ member "used_u8s" i64
    ▸ member "mem_free_lst" ptr
    ▸ member "mem_free_2meg_lst" ptr
    ▸ member "free_pag_hash" (array ptr mem_free_pag_hash_size)
    ▸ member "free_pag_hash2" (array ptr (64 - mem_pag_bits))
    ▸ nil

abbrev pub c_heap_ctrl : Members
c_heap_ctrl =
    member "bp" ptr
    ▸ member "hc_signature" u32
    ▸ member "pad" u32
    ▸ member "locked_flags" i64
    ▸ member "alloced_u8s" i64
    ▸ member "used_u8s" i64
    ▸ member "mem_task" ptr
    ▸ member "next_mem_blk" ptr
    ▸ member "last_mem_blk" ptr
    ▸ member "last_mergable" ptr
    ▸ member "malloc_free_lst" ptr
    ▸ member "next_um" ptr
    ▸ member "last_um" ptr
    ▸ member "heap_hash" (array ptr (mem_heap_hash_size / 8))
    ▸ nil

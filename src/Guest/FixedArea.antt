-- ===== src/Guest/FixedArea.antt =====
-- The classes of HolyCRT/KernelA.HH for processors, and the fixed area.
use templeos_loader.Prelude.{ℕ, ◌/◌}
use templeos_loader.Guest.Layout.{
  Members, nil, member, align_to, assert_aligned, array, struct, u8, u16, u32, i64, f64, ptr, ◌▸◌,
}
use templeos_loader.Guest.Memory.{c_blk_pool, c_heap_ctrl}
use templeos_loader.Guest.Tasks.{c_fpu}
use templeos_loader.Guest.Task.{c_task}

abbrev pub c_tss : Members
c_tss =
    member "res1" u32
    ▸ member "rsp0" i64
    ▸ member "rsp1" i64
    ▸ member "rsp2" i64
    ▸ member "res2" i64
    ▸ member "ist1" i64
    ▸ member "ist2" i64
    ▸ member "ist3" i64
    ▸ member "ist4" i64
    ▸ member "ist5" i64
    ▸ member "ist6" i64
    ▸ member "ist7" i64
    ▸ member "res3" i64
    ▸ member "res4" u16
    ▸ member "io_map_offset" u16
    ▸ member "io_map" (array u8 (0x10000 / 8))
    ▸ member "st0" ptr
    ▸ member "st1" ptr
    ▸ member "st2" ptr
    ▸ member "tr" u16
    ▸ member "tr_ring3" u16
    ▸ nil

abbrev pub c_cpu : Members
c_cpu =
    member "addr" ptr
    ▸ member "num" i64
    ▸ member "cpu_flags" i64
    ▸ member "startup_rip" i64
    ▸ member "idle_pt_hits" i64
    ▸ member "idle_factor" f64
    ▸ member "total_jiffies" i64
    ▸ member "seth_task" ptr
    ▸ member "idle_task" ptr
    ▸ member "tr" i64
    ▸ member "swap_cnter" i64
    ▸ member "profiler_timer_irq" ptr
    ▸ member "next_dying" ptr
    ▸ member "last_dying" ptr
    ▸ member "kill_jiffy" i64
    ▸ member "tss" ptr
    ▸ member "start_stk" (array i64 16)
    ▸ assert_aligned 3
    ▸ nil

abbrev pub sys_fixed_area : ℕ
sys_fixed_area = 0x100000

abbrev pub c_sys_fixed_area : Members
c_sys_fixed_area =
    member "init_fpu_mmx" (struct c_fpu)
    ▸ member "boot_cpu" (struct c_cpu)
    ▸ member "adam" (struct c_task)
    ▸ member "sys_code_bp" (struct c_blk_pool)
    ▸ member "adam_hc" (struct c_heap_ctrl)
    ▸ align_to 12
    ▸ nil

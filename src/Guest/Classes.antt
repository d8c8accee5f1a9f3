-- ===== src/Guest/Classes.antt =====
-- All the modelled classes of HolyCRT/KernelA.HH at once: their assertions.
use templeos_loader.Prelude.{◌≡◌, refl, true, str_eq}
use templeos_loader.Guest.Layout.{Members, size, after, asserts, inherit, find_place, places}
use templeos_loader.Guest.Boot.{
  c_date, c_date_struct, c_gdt_entry, c_gdt, c_sys_limit_base, c_mem_e820, c_bin_file,
  c_patch_table_abs_addr, c_kernel,
}
use templeos_loader.Guest.Symbols.{
  c_hash, c_hash_table, c_hash_src_sym, c_hash_generic, c_hash_reg, c_hash_ac, c_hash_export,
  c_hash_import, c_array_dim, c_hash_class, c_hash_fun,
}
use templeos_loader.Guest.Memory.{c_mem_blk, c_mem_range, c_blk_pool, c_heap_ctrl}
use templeos_loader.Guest.Files.{c_dir_entry, c_blk_dev, c_drv, c_dir_context, c_file}
use templeos_loader.Guest.Tasks.{
  c_except, c_fpu, c_job, c_job_ctrl, c_win_scroll, c_bgr48, c_task_settings, c_task_stk,
  c_task_dying,
}
use templeos_loader.Guest.Task.{c_task, wake_jiffy_at}
use templeos_loader.Guest.FixedArea.{c_tss, c_cpu, c_sys_fixed_area}

pub data Class : Type 0 where
  of_date of_date_struct of_gdt_entry of_gdt of_sys_limit_base of_mem_e820 of_bin_file
        of_patch_table_abs_addr of_kernel of_hash of_hash_table of_hash_src_sym of_hash_generic
        of_hash_reg of_hash_ac of_hash_export of_hash_import of_array_dim of_hash_class of_hash_fun
        of_mem_blk of_mem_range of_blk_pool of_heap_ctrl of_dir_entry of_blk_dev of_drv
        of_dir_context of_file of_except of_fpu of_job of_job_ctrl of_win_scroll of_bgr48
        of_task_settings of_task_stk of_task_dying of_task of_tss of_cpu of_sys_fixed_area :
      Class

abbrev pub members : Class → Members
members of_date = c_date
members of_date_struct = c_date_struct
members of_gdt_entry = c_gdt_entry
members of_gdt = c_gdt
members of_sys_limit_base = c_sys_limit_base
members of_mem_e820 = c_mem_e820
members of_bin_file = c_bin_file
members of_patch_table_abs_addr = c_patch_table_abs_addr
members of_kernel = c_kernel
members of_hash = c_hash
members of_hash_table = c_hash_table
members of_hash_src_sym = c_hash_src_sym
members of_hash_generic = c_hash_generic
members of_hash_reg = c_hash_reg
members of_hash_ac = c_hash_ac
members of_hash_export = c_hash_export
members of_hash_import = c_hash_import
members of_array_dim = c_array_dim
members of_hash_class = c_hash_class
members of_hash_fun = c_hash_fun
members of_mem_blk = c_mem_blk
members of_mem_range = c_mem_range
members of_blk_pool = c_blk_pool
members of_heap_ctrl = c_heap_ctrl
members of_dir_entry = c_dir_entry
members of_blk_dev = c_blk_dev
members of_drv = c_drv
members of_dir_context = c_dir_context
members of_file = c_file
members of_except = c_except
members of_fpu = c_fpu
members of_job = c_job
members of_job_ctrl = c_job_ctrl
members of_win_scroll = c_win_scroll
members of_bgr48 = c_bgr48
members of_task_settings = c_task_settings
members of_task_stk = c_task_stk
members of_task_dying = c_task_dying
members of_task = c_task
members of_tss = c_tss
members of_cpu = c_cpu
members of_sys_fixed_area = c_sys_fixed_area

-- Every `#assert` in a class holds.
pub class-asserts : (c : Class) → asserts 0 (members c) ≡ true
unfolding asserts after size inherit wake_jiffy_at find_place places str_eq
class-asserts of_date = refl
class-asserts of_date_struct = refl
class-asserts of_gdt_entry = refl
class-asserts of_gdt = refl
class-asserts of_sys_limit_base = refl
class-asserts of_mem_e820 = refl
class-asserts of_bin_file = refl
class-asserts of_patch_table_abs_addr = refl
class-asserts of_kernel = refl
class-asserts of_hash = refl
class-asserts of_hash_table = refl
class-asserts of_hash_src_sym = refl
class-asserts of_hash_generic = refl
class-asserts of_hash_reg = refl
class-asserts of_hash_ac = refl
class-asserts of_hash_export = refl
class-asserts of_hash_import = refl
class-asserts of_array_dim = refl
class-asserts of_hash_class = refl
class-asserts of_hash_fun = refl
class-asserts of_mem_blk = refl
class-asserts of_mem_range = refl
class-asserts of_blk_pool = refl
class-asserts of_heap_ctrl = refl
class-asserts of_dir_entry = refl
class-asserts of_blk_dev = refl
class-asserts of_drv = refl
class-asserts of_dir_context = refl
class-asserts of_file = refl
class-asserts of_except = refl
class-asserts of_fpu = refl
class-asserts of_job = refl
class-asserts of_job_ctrl = refl
class-asserts of_win_scroll = refl
class-asserts of_bgr48 = refl
class-asserts of_task_settings = refl
class-asserts of_task_stk = refl
class-asserts of_task_dying = refl
class-asserts of_task = refl
class-asserts of_tss = refl
class-asserts of_cpu = refl
class-asserts of_sys_fixed_area = refl

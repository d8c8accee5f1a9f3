-- ===== src/Guest/Boot.antt =====
-- The classes of HolyCRT/KernelA.HH for the boot image and what the boot code leaves behind.
use templeos_loader.Prelude.{ℕ}
use templeos_loader.Guest.Layout.{
  Members, nil, member, align_to, array, struct, u0, u8, u16, i32, u32, i64, u64, ptr, ◌▸◌,
}

abbrev pub mp_processors_num : ℕ
mp_processors_num = 128

abbrev pub mem_e820_entries_num : ℕ
mem_e820_entries_num = 48

abbrev pub c_date : Members
c_date = member "time" u32 ▸ member "date" i32 ▸ nil

abbrev pub c_date_struct : Members
c_date_struct =
    member "sec10000" u8
    ▸ member "sec100" u8
    ▸ member "sec" u8
    ▸ member "min" u8
    ▸ member "hour" u8
    ▸ member "day_of_week" u8
    ▸ member "day_of_mon" u8
    ▸ member "mon" u8
    ▸ member "year" i32
    ▸ nil

abbrev pub c_gdt_entry : Members
c_gdt_entry = member "lo" u64 ▸ member "hi" u64 ▸ nil

abbrev pub c_gdt : Members
c_gdt =
    member "null" (struct c_gdt_entry)
    ▸ member "boot_ds" (struct c_gdt_entry)
    ▸ member "boot_cs" (struct c_gdt_entry)
    ▸ member "cs32" (struct c_gdt_entry)
    ▸ member "cs64" (struct c_gdt_entry)
    ▸ member "cs64_ring3" (struct c_gdt_entry)
    ▸ member "ds" (struct c_gdt_entry)
    ▸ member "ds_ring3" (struct c_gdt_entry)
    ▸ member "tr" (array (struct c_gdt_entry) mp_processors_num)
    ▸ member "tr_ring3" (array (struct c_gdt_entry) mp_processors_num)
    ▸ nil

abbrev pub c_sys_limit_base : Members
c_sys_limit_base = member "limit" u16 ▸ member "base" ptr ▸ nil

abbrev pub c_mem_e820 : Members
c_mem_e820 =
    member "base" ptr ▸ member "len" i64 ▸ member "type" u8 ▸ member "pad" (array u8 3) ▸ nil

abbrev pub c_bin_file : Members
c_bin_file =
    member "jmp" u16
    ▸ member "module_align_bits" u8
    ▸ member "reserved" u8
    ▸ member "bin_signature" u32
    ▸ member "org" i64
    ▸ member "patch_table_offset" i64
    ▸ member "file_size" i64
    ▸ nil

abbrev pub c_patch_table_abs_addr : Members
c_patch_table_abs_addr =
    member "eit_abs_addr" u8
    ▸ member "abs_addres_cnt" u32
    ▸ member "zero" u8
    ▸ member "abs_addres" (array u32 1)
    ▸ nil

abbrev pub c_kernel : Members
c_kernel =
    member "h" (struct c_bin_file)
    ▸ member "jmp" u32
    ▸ member "boot_src" u32
    ▸ member "boot_blk" u32
    ▸ member "boot_patch_table_base" u32
    ▸ member "sys_run_level" u32
    ▸ member "compile_time" (struct c_date)
    ▸ member "start" u0
    ▸ member "boot_base" u32
    ▸ member "mem_E801" (array u16 2)
    ▸ member "mem_E820" (array (struct c_mem_e820) mem_e820_entries_num)
    ▸ member "mem_physical_space" u64
    ▸ member "sys_gdt_ptr" (struct c_sys_limit_base)
    ▸ member "sys_pci_busses" u16
    ▸ align_to 4
    ▸ member "sys_gdt" (struct c_gdt)
    ▸ nil

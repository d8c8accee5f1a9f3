-- ===== src/Guest/Files.antt =====
-- The classes of HolyCRT/KernelA.HH for files and drives.
use templeos_loader.Prelude.{ℕ}
use templeos_loader.Guest.Layout.{
  Members, nil, member, array, struct, u0, u8, u16, u32, i64, f64, ptr, ◌▸◌,
}
use templeos_loader.Guest.Boot.{c_date}

abbrev pub cdir_filename_len : ℕ
cdir_filename_len = 38

abbrev pub c_dir_entry : Members
c_dir_entry =
    member "next" ptr
    ▸ member "parent" ptr
    ▸ member "sub" ptr
    ▸ member "full_name" ptr
    ▸ member "user_data" i64
    ▸ member "user_data2" i64
    ▸ member "start" u0
    ▸ member "attr" u16
    ▸ member "name" (array u8 cdir_filename_len)
    ▸ member "clus" i64
    ▸ member "size" i64
    ▸ member "datetime" (struct c_date)
    ▸ nil

abbrev pub c_blk_dev : Members
c_blk_dev =
    member "lock_fwding" ptr
    ▸ member "locked_flags" i64
    ▸ member "bd_signature" u32
    ▸ member "type" u32
    ▸ member "flags" u32
    ▸ member "first_drv_let" u8
    ▸ member "unit" u8
    ▸ member "pad" (array u8 2)
    ▸ member "base0" u32
    ▸ member "base1" u32
    ▸ member "blk_size" u32
    ▸ member "drv_offset" i64
    ▸ member "init_root_dir_blks" i64
    ▸ member "max_blk" i64
    ▸ member "dev_id_record" ptr
    ▸ member "RAM_dsk" ptr
    ▸ member "file_dsk_name" ptr
    ▸ member "file_dsk" ptr
    ▸ member "owning_task" ptr
    ▸ member "last_time" f64
    ▸ member "max_reads" u32
    ▸ member "max_writes" u32
    ▸ nil

abbrev pub c_drv : Members
c_drv =
    member "locked_flags" i64
    ▸ member "dv_signature" u32
    ▸ member "drv_let" u8
    ▸ member "pad" u8
    ▸ member "fs_type" u16
    ▸ member "drv_offset" i64
    ▸ member "size" i64
    ▸ member "prt_num" i64
    ▸ member "file_system_info_sect" i64
    ▸ member "fat1" i64
    ▸ member "fat2" i64
    ▸ member "root_clus" i64
    ▸ member "data_area" i64
    ▸ member "spc" i64
    ▸ member "fat32_local_time_offset" (struct c_date)
    ▸ member "owning_task" ptr
    ▸ member "bd" ptr
    ▸ member "fis" ptr
    ▸ member "fat_blk_dirty" i64
    ▸ member "cur_fat_blk_num" i64
    ▸ member "cur_fat_blk" ptr
    ▸ member "next_free" ptr
    ▸ member "last_free" ptr
    ▸ nil

abbrev pub c_dir_context : Members
c_dir_context =
    member "old_dv" ptr ▸ member "dv" ptr ▸ member "old_dir" ptr ▸ member "mask" ptr ▸ nil

abbrev pub c_file : Members
c_file =
    member "flags" i64
    ▸ member "de" (struct c_dir_entry)
    ▸ member "dv" ptr
    ▸ member "fblk_num" i64
    ▸ member "clus" i64
    ▸ member "file_clus_num" i64
    ▸ member "max_blk" i64
    ▸ member "clus_buf" ptr
    ▸ nil

-- ===== src/Guest/Shared.antt =====
-- The structures that the loader declares after the guest's classes: in templeos.h those of
-- KernelA.HH, and in vsyscall.h the one of VKernel.HH through which the file system calls return
-- their results.
use templeos_loader.Prelude.{ℕ, ◌≡◌, refl, arith, List, map}
use templeos_loader.Guest.Layout.{
  Members, nil, ◌▸◌, member, struct, array, u8, u16, u32, i32, i64, u64, ptr, size, Place, places,
  c_align, c_size, c_places,
}
use templeos_loader.Guest.Places.{InOrder}
use templeos_loader.Guest.Boot.{c_date_struct, c_bin_file}
use templeos_loader.Guest.Symbols.{c_hash, c_hash_table}

-- templeos.h
abbrev pub bin_file : Members
bin_file =
    member "jmp" u16
    ▸ member "module_align_bits" u8
    ▸ member "reserved" u8
    ▸ member "signature" u32
    ▸ member "module_org" i64
    ▸ member "patch_table_offset" i64
    ▸ member "file_size" i64
    ▸ nil

abbrev pub date_struct : Members
date_struct =
    member "sec10000" u8
    ▸ member "sec100" u8
    ▸ member "sec" u8
    ▸ member "min" u8
    ▸ member "hour" u8
    ▸ member "day_of_week" u8
    ▸ member "day_of_mon" u8
    ▸ member "mon" u8
    ▸ member "year" i32
    ▸ nil

abbrev pub hash : Members
hash = member "next" ptr ▸ member "str" ptr ▸ member "type" u32 ▸ member "use_cnt" u32 ▸ nil

abbrev pub hash_table10 : Members
hash_table10 =
    member "next" ptr ▸ member "mask" u64 ▸ member "locked_flags" u64 ▸ member "body" ptr ▸ nil

-- vsyscall.h
abbrev pub host_fs_stat : Members
host_fs_stat =
    member "attr" u16
    ▸ member "pad" (array u16 3)
    ▸ member "clus" i64
    ▸ member "size" i64
    ▸ member "abs_path" ptr
    ▸ member "name" ptr
    ▸ member "datetime" (struct date_struct)
    ▸ nil

-- VKernel.HH
abbrev pub c_host_fs_stat : Members
c_host_fs_stat =
    member "attr" u16
    ▸ member "pad" (array u16 3)
    ▸ member "clus" i64
    ▸ member "size" i64
    ▸ member "abs_path" ptr
    ▸ member "name" ptr
    ▸ member "datetime" (struct c_date_struct)
    ▸ nil

-- What stands in the same place in both declarations; the names may differ.
abbrev pub slots : List Place → List (ℕ × ℕ)
slots ps = map (λ (p : Place). (p.offset, p.bytes)) ps

-- The shared structures, with the loader's declaration and the guest's.
pub data Shared : Type 0 where
  of_bin_file : Shared
  of_date_struct : Shared
  of_hash : Shared
  of_hash_table : Shared
  of_host_fs_stat : Shared

abbrev pub host : Shared → Members
host of_bin_file = bin_file
host of_date_struct = date_struct
host of_hash = hash
host of_hash_table = hash_table10
host of_host_fs_stat = host_fs_stat

abbrev pub guest : Shared → Members
guest of_bin_file = c_bin_file
guest of_date_struct = c_date_struct
guest of_hash = c_hash
guest of_hash_table = c_hash_table
guest of_host_fs_stat = c_host_fs_stat

-- Each member of a structure that the loader and the guest share lies at the same offset for both,
-- with the same number of bytes, under C's rules for the loader's declaration and HolyC's for the
-- guest's; and what C takes for the members lies one behind the other within the guest's object.
pub host-guest :
    (s : Shared)
    → (slots (c_places 0 (host s)) ≡ slots (places 0 (guest s)))
      × InOrder 0 (c_places 0 (host s)) (size (struct (guest s)))
unfolding c_places places
host-guest of_bin_file = (refl, omega arith)
host-guest of_date_struct = (refl, omega arith)
host-guest of_hash = (refl, omega arith)
host-guest of_hash_table = (refl, omega arith)
host-guest of_host_fs_stat = (refl, omega arith)

-- The sizes agree too, but for the results of the file system calls: there the structure of C ends
-- with padding that the guest's class does not have.
size_of_stat : (c_size (struct host_fs_stat) ≡ 56) × (size (struct c_host_fs_stat) ≡ 52)
unfolding c_size size c_align
size_of_stat = (refl, refl)

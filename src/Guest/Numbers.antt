-- ===== src/Guest/Numbers.antt =====
-- The numbers that the loader and the guest each define: the types of entries of the patch table
-- and the file attributes (templeos.h, HolyCRT/KernelA.HH), and the calls (vsyscall.h,
-- HolyCRT/VKernel.HH).
use templeos_loader.Prelude.{ℕ, ◌≡◌, refl}
use templeos_loader.LoadKernel.Defs.{Kind, export, import, abs_addr, other, kind}

-- IET_
pub data EntryType : Type 0 where
  iet_end rel_i0 imm_u0 rel_i8 imm_u8 rel_i16 imm_u16 rel_i32 imm_u32 rel_i64 imm_i64 rel32_export
        imm32_export rel64_export imm64_export abs_addr_entry code_heap zeroed_code_heap data_heap
        zeroed_data_heap main :
      EntryType

abbrev pub host_entry_type : EntryType → ℕ
host_entry_type iet_end = 0
host_entry_type rel_i0 = 2
host_entry_type imm_u0 = 3
host_entry_type rel_i8 = 4
host_entry_type imm_u8 = 5
host_entry_type rel_i16 = 6
host_entry_type imm_u16 = 7
host_entry_type rel_i32 = 8
host_entry_type imm_u32 = 9
host_entry_type rel_i64 = 10
host_entry_type imm_i64 = 11
host_entry_type rel32_export = 16
host_entry_type imm32_export = 17
host_entry_type rel64_export = 18
host_entry_type imm64_export = 19
host_entry_type abs_addr_entry = 20
host_entry_type code_heap = 21
host_entry_type zeroed_code_heap = 22
host_entry_type data_heap = 23
host_entry_type zeroed_data_heap = 24
host_entry_type main = 25

abbrev pub guest_entry_type : EntryType → ℕ
guest_entry_type iet_end = 0
guest_entry_type rel_i0 = 2
guest_entry_type imm_u0 = 3
guest_entry_type rel_i8 = 4
guest_entry_type imm_u8 = 5
guest_entry_type rel_i16 = 6
guest_entry_type imm_u16 = 7
guest_entry_type rel_i32 = 8
guest_entry_type imm_u32 = 9
guest_entry_type rel_i64 = 10
guest_entry_type imm_i64 = 11
guest_entry_type rel32_export = 16
guest_entry_type imm32_export = 17
guest_entry_type rel64_export = 18
guest_entry_type imm64_export = 19
guest_entry_type abs_addr_entry = 20
guest_entry_type code_heap = 21
guest_entry_type zeroed_code_heap = 22
guest_entry_type data_heap = 23
guest_entry_type zeroed_data_heap = 24
guest_entry_type main = 25

-- What an entry is by its name.
abbrev pub role : EntryType → Kind
role iet_end = other
role rel_i0 = import
role imm_u0 = import
role rel_i8 = import
role imm_u8 = import
role rel_i16 = import
role imm_u16 = import
role rel_i32 = import
role imm_u32 = import
role rel_i64 = import
role imm_i64 = import
role rel32_export = export
role imm32_export = export
role rel64_export = export
role imm64_export = export
role abs_addr_entry = abs_addr
role code_heap = other
role zeroed_code_heap = other
role data_heap = other
role zeroed_data_heap = other
role main = other

-- The loader and the guest's compiler number the types of entries alike, and load_kernel treats
-- the guest's exports as exports, its imports as imports and its absolute addresses as such, and
-- takes no other type of an entry for one of these.
pub kind-guest_entry_type :
    (e : EntryType)
    → (host_entry_type e ≡ guest_entry_type e) × (kind (guest_entry_type e) ≡ role e)
unfolding kind
kind-guest_entry_type iet_end = (refl, refl)
kind-guest_entry_type rel_i0 = (refl, refl)
kind-guest_entry_type imm_u0 = (refl, refl)
kind-guest_entry_type rel_i8 = (refl, refl)
kind-guest_entry_type imm_u8 = (refl, refl)
kind-guest_entry_type rel_i16 = (refl, refl)
kind-guest_entry_type imm_u16 = (refl, refl)
kind-guest_entry_type rel_i32 = (refl, refl)
kind-guest_entry_type imm_u32 = (refl, refl)
kind-guest_entry_type rel_i64 = (refl, refl)
kind-guest_entry_type imm_i64 = (refl, refl)
kind-guest_entry_type rel32_export = (refl, refl)
kind-guest_entry_type imm32_export = (refl, refl)
kind-guest_entry_type rel64_export = (refl, refl)
kind-guest_entry_type imm64_export = (refl, refl)
kind-guest_entry_type abs_addr_entry = (refl, refl)
kind-guest_entry_type code_heap = (refl, refl)
kind-guest_entry_type zeroed_code_heap = (refl, refl)
kind-guest_entry_type data_heap = (refl, refl)
kind-guest_entry_type zeroed_data_heap = (refl, refl)
kind-guest_entry_type main = (refl, refl)

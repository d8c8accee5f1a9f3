-- ===== src/Guest/Symbols.antt =====
-- The classes of HolyCRT/KernelA.HH for the hash tables of symbols.
use templeos_loader.Guest.Layout.{Members, nil, member, inherit, u8, u16, i32, u32, i64, ptr, ◌▸◌}

abbrev pub c_hash : Members
c_hash = member "next" ptr ▸ member "str" ptr ▸ member "type" u32 ▸ member "use_cnt" u32 ▸ nil

abbrev pub c_hash_table : Members
c_hash_table =
    member "next" ptr ▸ member "mask" i64 ▸ member "locked_flags" i64 ▸ member "body" ptr ▸ nil

abbrev pub c_hash_src_sym : Members
c_hash_src_sym = inherit c_hash (
    member "src_link" ptr
    ▸ member "idx" ptr
    ▸ member "dbg_info" ptr
    ▸ member "import_name" ptr
    ▸ member "ie_lst" ptr
    ▸ nil)

abbrev pub c_hash_generic : Members
c_hash_generic =
    inherit c_hash
      (member "user_data0" i64 ▸ member "user_data1" i64 ▸ member "user_data2" i64 ▸ nil)

abbrev pub c_hash_reg : Members
c_hash_reg = inherit c_hash (member "reg_num" u8 ▸ member "reg_type" u8 ▸ nil)

abbrev pub c_hash_ac : Members
c_hash_ac = inherit c_hash (member "num" i32 ▸ member "hits" u32 ▸ nil)

abbrev pub c_hash_export : Members
c_hash_export = inherit c_hash_src_sym (member "val" i64 ▸ nil)

abbrev pub c_hash_import : Members
c_hash_import =
    inherit c_hash_src_sym (member "module_base" ptr ▸ member "module_header_entry" ptr ▸ nil)

abbrev pub c_array_dim : Members
c_array_dim = member "next" ptr ▸ member "cnt" i64 ▸ member "total_cnt" i64 ▸ nil

abbrev pub c_hash_class : Members
c_hash_class = inherit c_hash_src_sym (
    member "size" i64
    ▸ member "neg_offset" i64
    ▸ member "member_cnt" u32
    ▸ member "ptr_stars_cnt" u8
    ▸ member "raw_type" u8
    ▸ member "flags" u16
    ▸ member "member_lst_and_root" ptr
    ▸ member "member_class_base_root" ptr
    ▸ member "last_in_member_lst" ptr
    ▸ member "base_class" ptr
    ▸ member "fwd_class" ptr
    ▸ nil)

abbrev pub c_hash_fun : Members
c_hash_fun = inherit c_hash_class (
    member "return_class" ptr
    ▸ member "arg_cnt" u32
    ▸ member "pad" u32
    ▸ member "used_reg_mask" u32
    ▸ member "clobbered_reg_mask" u32
    ▸ member "exe_addr" ptr
    ▸ member "ext_lst" ptr
    ▸ nil)

-- ===== src/Guest/HashFlags.antt =====
-- The types and the flags of symbols in HolyCRT/KernelA.HH, each as the number of a bit and as a
-- mask.
use Prim.Native.Nat.{bit_and}
use templeos_loader.Prelude.{ℕ, ◌^◌, ◌≡◌, refl}

-- HTt_ and HTT_
pub data HashType : Type 0 where
  export_sys_sym import_sys_sym define_str glbl_var class_type internal_type fun word dict_word
        keyword asm_keyword opcode reg file_type module_type help_file frame_ptr :
      HashType

abbrev pub hash_type_bit : HashType → ℕ
hash_type_bit export_sys_sym = 0
hash_type_bit import_sys_sym = 1
hash_type_bit define_str = 2
hash_type_bit glbl_var = 3
hash_type_bit class_type = 4
hash_type_bit internal_type = 5
hash_type_bit fun = 6
hash_type_bit word = 7
hash_type_bit dict_word = 8
hash_type_bit keyword = 9
hash_type_bit asm_keyword = 10
hash_type_bit opcode = 11
hash_type_bit reg = 12
hash_type_bit file_type = 13
hash_type_bit module_type = 14
hash_type_bit help_file = 15
hash_type_bit frame_ptr = 16

abbrev pub hash_type_mask : HashType → ℕ
hash_type_mask export_sys_sym = 0x00001
hash_type_mask import_sys_sym = 0x00002
hash_type_mask define_str = 0x00004
hash_type_mask glbl_var = 0x00008
hash_type_mask class_type = 0x00010
hash_type_mask internal_type = 0x00020
hash_type_mask fun = 0x00040
hash_type_mask word = 0x00080
hash_type_mask dict_word = 0x00100
hash_type_mask keyword = 0x00200
hash_type_mask asm_keyword = 0x00400
hash_type_mask opcode = 0x00800
hash_type_mask reg = 0x01000
hash_type_mask file_type = 0x02000
hash_type_mask module_type = 0x04000
hash_type_mask help_file = 0x08000
hash_type_mask frame_ptr = 0x10000

-- HTf_ and HTF_
pub data HashFlag : Type 0 where
  private_sym public_sym exported imported imm goto_label resolved unresolved local_sym : HashFlag

abbrev pub hash_flag_bit : HashFlag → ℕ
hash_flag_bit private_sym = 23
hash_flag_bit public_sym = 24
hash_flag_bit exported = 25
hash_flag_bit imported = 26
hash_flag_bit imm = 27
hash_flag_bit goto_label = 28
hash_flag_bit resolved = 29
hash_flag_bit unresolved = 30
hash_flag_bit local_sym = 31

abbrev pub hash_flag_mask : HashFlag → ℕ
hash_flag_mask private_sym = 0x00800000
hash_flag_mask public_sym = 0x01000000
hash_flag_mask exported = 0x02000000
hash_flag_mask imported = 0x04000000
hash_flag_mask imm = 0x08000000
hash_flag_mask goto_label = 0x10000000
hash_flag_mask resolved = 0x20000000
hash_flag_mask unresolved = 0x40000000
hash_flag_mask local_sym = 0x80000000

abbrev pub htg_type_mask : ℕ
htg_type_mask = 0x1FFFF

-- Each type has the mask of its bit, one of those of HTG_TYPE_MASK.
pub hash_type_mask_lem :
    (t : HashType)
    → (hash_type_mask t ≡ 2 ^ hash_type_bit t)
      × (bit_and (hash_type_mask t) htg_type_mask ≡ 2 ^ hash_type_bit t)
hash_type_mask_lem export_sys_sym = (refl, refl)
hash_type_mask_lem import_sys_sym = (refl, refl)
hash_type_mask_lem define_str = (refl, refl)
hash_type_mask_lem glbl_var = (refl, refl)
hash_type_mask_lem class_type = (refl, refl)
hash_type_mask_lem internal_type = (refl, refl)
hash_type_mask_lem fun = (refl, refl)
hash_type_mask_lem word = (refl, refl)
hash_type_mask_lem dict_word = (refl, refl)
hash_type_mask_lem keyword = (refl, refl)
hash_type_mask_lem asm_keyword = (refl, refl)
hash_type_mask_lem opcode = (refl, refl)
hash_type_mask_lem reg = (refl, refl)
hash_type_mask_lem file_type = (refl, refl)
hash_type_mask_lem module_type = (refl, refl)
hash_type_mask_lem help_file = (refl, refl)
hash_type_mask_lem frame_ptr = (refl, refl)

-- Each flag has the mask of its bit, none of those of HTG_TYPE_MASK.
pub hash_flag_mask_lem :
    (f : HashFlag)
    → (hash_flag_mask f ≡ 2 ^ hash_flag_bit f) × (bit_and (hash_flag_mask f) htg_type_mask ≡ 0)
hash_flag_mask_lem private_sym = (refl, refl)
hash_flag_mask_lem public_sym = (refl, refl)
hash_flag_mask_lem exported = (refl, refl)
hash_flag_mask_lem imported = (refl, refl)
hash_flag_mask_lem imm = (refl, refl)
hash_flag_mask_lem goto_label = (refl, refl)
hash_flag_mask_lem resolved = (refl, refl)
hash_flag_mask_lem unresolved = (refl, refl)
hash_flag_mask_lem local_sym = (refl, refl)

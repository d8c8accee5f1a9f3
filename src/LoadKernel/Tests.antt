-- ===== src/LoadKernel/Tests.antt =====
-- The kernel image loader at concrete images.
use templeos_loader.Prelude.{
  ℕ, ◌+◌, ◌%◌, ◌^◌, ◌≡◌, inl, inr, refl, Option, none, some, List, [], ◌∷◌, ◌++◌, arith, CString,
  text, str_eq, take, pos,
}
use templeos_loader.Symtable.{Table, addsym}
use templeos_loader.Host.{Thunks, host_get_api_by_name}
use templeos_loader.LoadKernel.Memory.{Mem, load, store, store_bytes, cstring, NoNul}
use templeos_loader.LoadKernel.Defs.{load_kernel, patch, patch_width, kind}
use templeos_loader.LoadKernel.Patch.{patch-leads}
use templeos_loader.LoadKernel.Table.{Use}
use templeos_loader.LoadKernel.Items.{
  Item, plain, imported, absolute, encode_items, AreItems, SparesWords, SparesItems, apply_items,
}
use templeos_loader.LoadKernel.Image.{AreBytes, load_kernel-apply_items}
use templeos_loader.LoadKernel.Import.{Spares}

abbrev thunks : Thunks
thunks = record {
  host_get_api_version = 0x5000;
  host_get_env = 0x5010;
  host_get_local_time = 0x5020;
  host_inject_statically_linked_symbols = 0x5030;
}

abbrev empty : Mem
empty q = 0

-- An image whose table follows the header: an export relative to the module, one patch of an
-- absolute address, and a call of HostGetEnv.
abbrev header : List ℕ
header =
    0 ∷ 0 ∷ 0 ∷ 0 ∷ 0 ∷ 0 ∷ 0 ∷ 0 ∷ 0 ∷ 0 ∷ 0 ∷ 0 ∷ 0 ∷ 0 ∷ 0 ∷ 0 ∷ 40 ∷ 0 ∷ 0 ∷ 0 ∷ 0 ∷ 0 ∷ 0 ∷ 0
    ∷ 0 ∷ 0 ∷ 0 ∷ 0 ∷ 0 ∷ 0 ∷ 0 ∷ 0 ∷ []

abbrev image : List ℕ
image =
    header
    ++ (7 ∷ 0 ∷ 0 ∷ 0 ∷ 0 ∷ 0 ∷ 0 ∷ 0 ∷ [])
    ++ (16 ∷ 5 ∷ 0 ∷ 0 ∷ 0 ∷ text "Main")
    ++ (0 ∷ 20 ∷ 1 ∷ 0 ∷ 0 ∷ 0 ∷ 0 ∷ 0 ∷ 0 ∷ 0 ∷ 0 ∷ [])
    ++ (8 ∷ 4 ∷ 0 ∷ 0 ∷ 0 ∷ text "HostGetEnv")
    ++ (0 ∷ 0 ∷ [])

abbrev loaded : Option (ℕ × ℕ × ℕ × Table)
loaded = elim (load_kernel thunks (some image) 100 0x1000 200 empty []) [
  | none ↦ none
  | some r ↦ some (load 4 0x1020 (r.1), load 4 0x1024 (r.1), load 1 0x1028 (r.1), r.2)
]

image_loaded :
    loaded
    ≡ some (
      0x1027,
      0x3FE8,
      16,
      record { module_name = text "Kernel"; name = text "Main"; address = 0x1025 } ∷ [],
    )
unfolding load_kernel load kind store_bytes cstring store patch host_get_api_by_name str_eq addsym
image_loaded = refl

abbrev uses : List Use
uses = record { etype_pred = 5; place = 4 } ∷ []

abbrev first_use : Use
first_use = record { etype_pred = 7; place = 0 }

abbrev names : CString
names = text "ostGetEnv"

patch-leads_example :
    (0x2000 + patch_width 8 + load (patch_width 8) 0x2000 (patch 8 0x2000 0x1000 empty))
      % 256 ^ patch_width 8
    ≡ 0x1000 % 256 ^ patch_width 8
patch-leads_example =
    patch-leads 8 0x2000 0x1000 empty (inr (inr (inl refl))) (omega arith) (omega arith)

-- An image of eight bytes of code, with two words to patch and one to relocate.
abbrev small : List Item
small =
    plain (record { etype_pred = 15; word_field = 5; name = text "Main" })
    ∷ imported 71 names first_use uses
    ∷ absolute (text "a") (4 ∷ [])
    ∷ []

abbrev head : List ℕ
head = header ++ (7 ∷ 0 ∷ 0 ∷ 0 ∷ 0 ∷ 0 ∷ 0 ∷ 0 ∷ [])

small-AreItems : AreItems small
unfolding AreItems NoNul kind
small-AreItems =
    ((ground arith, inl refl), (ground arith, refl, (96, [], refl), (ground arith, tt)))

load_kernel-apply_items_example :
    let r =
      apply_items thunks
        (0x1000 + 32)
        small
        (store_bytes 0x1000 (take 200 (head ++ (encode_items small ++ []))) empty)
        [] in
    load_kernel thunks (some (head ++ (encode_items small ++ []))) 100 0x1000 200 empty []
    ≡ some (pos 0, r.0, r.1)
unfolding AreBytes store_bytes load SparesItems Spares SparesWords
load_kernel-apply_items_example =
    load_kernel-apply_items thunks head [] small 100 0x1000 200 empty [] (ground arith)
      (omega arith) refl (omega arith) (omega arith) (omega arith) small-AreItems (omega arith)

-- ===== src/LoadKernel/Defs.antt =====
-- load_kernel and LoadOneImport of load_kernel.c. A loop runs on fuel: no round reads fewer than
-- six bytes of the patch table, so its length is enough.
use templeos_loader.Prelude.{
  ℕ, zero, suc, ◌+◌, ◌-◌, ◌*◌, ◌%◌, ◌^◌, ◌==◌, leb, ltb, if◌then◌else◌, Bool, true, false, ◌&&◌,
  ◌||◌, Option, none, some, List, [], ◌∷◌, text, length, take, ℤ, pos, minus_one, ◌>>=◌,
}
use templeos_loader.Symtable.{Table, addsym}
use templeos_loader.Host.{Thunks, host_get_api_by_name}
use templeos_loader.LoadKernel.Memory.{Mem, load, store, store_bytes, cstring}

-- What `load_kernel` does with an entry of a given type, 0 (IET_END) aside.
pub data Kind : Type 0 where
  export : Kind
  import : Kind
  abs_addr : Kind
  other : Kind

unfoldable pub kind : ℕ → Kind
kind etype =
    if leb 16 etype && leb etype 19
    then export
    else if leb 2 etype && leb etype 11
    then import
    else if etype == 20
    then abs_addr
    else other

-- The bytes that an import patches: none for the fictitious types and for all others.
abbrev pub patch_width : ℕ → ℕ
patch_width etype =
    if etype == 4 || etype == 5
    then 1
    else if etype == 6 || etype == 7
    then 2
    else if etype == 8 || etype == 9
    then 4
    else if etype == 10 || etype == 11
    then 8
    else 0

-- The types that patch a distance from the end of the patched word have even numbers.
abbrev pub patch_value : ℕ → ℕ → ℕ → ℕ
patch_value etype ptr2 i =
    if etype % 2 == 0 then (i + 2 * 2 ^ 64 - ptr2 - patch_width etype) % 2 ^ 64 else i

unfoldable pub patch : ℕ → ℕ → ℕ → Mem → Mem
patch etype ptr2 i m =
    if i == 0 then m else store (patch_width etype) ptr2 (patch_value etype ptr2 i) m

-- The address of an export, moved by the base where the type is a relative one.
abbrev pub export_value : ℕ → ℕ → ℕ → ℕ
export_value module_base etype i = if etype % 2 == 0 then (i + module_base) % 2 ^ 64 else i

module _ (thunks : Thunks) (module_base : ℕ) where
  -- The result is the memory and the address where the walk over the table goes on.
  unfoldable pub load_one_import : ℕ → Bool → ℕ → ℕ → Mem → Option (Mem × ℕ)
  load_one_import zero first func_addr src m = none
  load_one_import (suc fuel) first func_addr src m = elim (m src) [
    | zero ↦ some (m, src)
    | suc e ↦ cstring (suc fuel) (src + 5) m >>= λ name.
        let next = src + 6 + length name in
        let ptr2 = (module_base + load 4 (src + 1) m) % 2 ^ 64 in
        elim name [
          | [] ↦ load_one_import fuel first func_addr next (patch (suc e) ptr2 func_addr m)
          | c ∷ s ↦ elim first [
            | false ↦ some (m, src)
            | true ↦
                load_one_import fuel false (host_get_api_by_name thunks (c ∷ s)) next
                  (patch (suc e) ptr2 (host_get_api_by_name thunks (c ∷ s)) m)
          ]
        ]
  ]

  -- The loop of IET_ABS_ADDR over `count` offsets at `src`.
  unfoldable pub patch_abs : ℕ → ℕ → Mem → Mem
  patch_abs zero src m = m
  patch_abs (suc count) src m =
      let p = (module_base + load 4 src m) % 2 ^ 64 in
      patch_abs count (src + 4) (store 4 p (load 4 p m + module_base) m)

  -- The loop of `load_kernel` over the patch table.
  unfoldable pub patch_table : ℕ → ℕ → Mem → Table → Option (Mem × Table)
  unfolding load_one_import patch_abs
  patch_table zero src m syms = none
  patch_table (suc fuel) src m syms = elim (m src) [
    | zero ↦ some (m, syms)
    | suc e ↦ cstring (suc fuel) (src + 5) m >>= λ name.
        let i = load 4 (src + 1) m in
        let next = src + 6 + length name in
        elim (kind (suc e)) [
          | export ↦
              patch_table fuel next m
                (addsym (text "Kernel") name (export_value module_base (suc e) i) syms)
          | import ↦
              load_one_import (suc fuel) true 0 src m >>= λ r. patch_table fuel (r.1) (r.0) syms
          | abs_addr ↦ patch_table fuel (next + 4 * i) (patch_abs i next m) syms
          | other ↦ patch_table fuel next m syms
        ]
  ]

abbrev pub sizeof_bin_file : ℕ
sizeof_bin_file = 32

-- The file is what `open` finds, none where it fails. `read` gives as many of its bytes as there
-- are, up to the count. The result is the return value, with the memory and the symbols behind it.
unfoldable pub load_kernel :
    Thunks → Option (List ℕ) → ℕ → ℕ → ℕ → Mem → Table → Option (ℤ × Mem × Table)
unfolding patch_table
load_kernel thunks none fuel address max_size m syms = some (minus_one, m, syms)
load_kernel thunks (some file) fuel address max_size m syms =
    if ltb (length file) sizeof_bin_file
    then some (minus_one, m, syms)
    else let loaded = store_bytes address (take max_size file) m in
      let header = store_bytes 0 (take sizeof_bin_file file) (λ q. 0) in
      patch_table thunks ((address + sizeof_bin_file) % 2 ^ 64) fuel
        ((address + load 8 16 header) % 2 ^ 64) loaded syms
      >>= λ r. some (pos 0, r.0, r.1)

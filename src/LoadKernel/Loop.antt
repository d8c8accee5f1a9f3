-- ===== src/LoadKernel/Loop.antt =====
-- The loop of load_kernel against the entries that the patch table encodes.
use templeos_loader.Prelude.{
  ℕ, zero, suc, ◌+◌, ◌≤◌, ◌<◌, ◌≡◌, ◌⊎◌, refl, arith, some, List, [], ◌∷◌, CString, length, inl,
  inr, length-append, text,
}
use templeos_loader.Symtable.{Table, addsym}
use templeos_loader.Host.{Thunks}
use templeos_loader.LoadKernel.Memory.{Mem, Holds, NoNul}
use templeos_loader.LoadKernel.Defs.{export, other, kind, patch_table, export_value}
use templeos_loader.LoadKernel.Table.{entry, Found, Holds-Found}

-- The entries that only give a symbol or are passed over.
pub record Entry : Type 0 where
  pub etype_pred : ℕ
  pub word_field : ℕ
  pub name : CString

abbrev pub encode : List Entry → List ℕ
encode [] = 0 ∷ []
encode (e ∷ es) = entry (suc (e.etype_pred)) (e.word_field) (e.name) (encode es)

-- Neither an import nor absolute addresses.
abbrev pub IsPlain : Entry → Type 0
IsPlain e =
    NoNul (e.name) × ((kind (suc (e.etype_pred)) ≡ export) ⊎ (kind (suc (e.etype_pred)) ≡ other))

unfoldable pub ArePlain : List Entry → Type 0
ArePlain [] = Unit
ArePlain (e ∷ es) = IsPlain e × ArePlain es

-- The symbols that the exports add, in order.
unfoldable pub add_exports : ℕ → List Entry → Table → Table
add_exports base [] syms = syms
add_exports base (e ∷ es) syms = elim (kind (suc (e.etype_pred))) [
  | export ↦
      add_exports base es (
        addsym (text "Kernel") (e.name) (export_value base (suc (e.etype_pred)) (e.word_field))
          syms)
  | _ ↦ add_exports base es syms
]

pub added :
    (base : ℕ) (e : Entry) (es : List Entry) (syms : Table)
    → kind (suc (e.etype_pred)) ≡ export
    → add_exports base (e ∷ es) syms
      ≡ add_exports base es (
          addsym
            (text "Kernel")
            (e.name)
            (export_value base (suc (e.etype_pred)) (e.word_field))
            syms)
unfolding add_exports
added base e es syms k = rw (add_exports, k) refl

pub passed :
    (base : ℕ) (e : Entry) (es : List Entry) (syms : Table)
    → kind (suc (e.etype_pred)) ≡ other
    → add_exports base (e ∷ es) syms ≡ add_exports base es syms
unfolding add_exports
passed base e es syms k = rw (add_exports, k) refl

module _ (thunks : Thunks) (module_base : ℕ) where
  -- Where memory holds a patch table whose entries are neither imports nor absolute addresses,
  -- the loop of load_kernel with fuel for its bytes leaves memory as it is and adds the exported
  -- symbols in order, those with a type relative to the module moved by its base.
  pub patch_table-add_exports :
      (es : List Entry) (fuel src : ℕ) (m : Mem) (syms : Table)
      → ArePlain es
      → length (encode es) ≤ fuel
      → Holds m src (encode es)
      → patch_table thunks module_base fuel src m syms ≡ some (m, add_exports module_base es syms)
  unfolding patch_table ArePlain add_exports Holds
  patch_table-add_exports [] zero src m syms plain enough h = absurd (omega arith)
  patch_table-add_exports [] (suc fuel) src m syms plain enough h = rw (patch_table, h.0) refl
  patch_table-add_exports (e ∷ es) zero src m syms plain enough h = absurd (omega arith)
  patch_table-add_exports (e ∷ es) (suc fuel) src m syms plain enough h = elim (plain.0.1) [
    | inl k ↦
        rw
          (
            patch_table,
            found.type_at,
            found.name_at (suc fuel) short,
            k,
            found.word_at,
            added module_base e es syms k,
          )
          (patch_table-add_exports es fuel _ m _ (plain.1) rest found.rest_at)
    | inr k ↦
        rw
          (
            patch_table,
            found.type_at,
            found.name_at (suc fuel) short,
            k,
            passed module_base e es syms k,
          )
          (patch_table-add_exports es fuel _ m _ (plain.1) rest found.rest_at)
  ]
    where
      found : Found m src (suc (e.etype_pred)) (e.word_field) (e.name) (encode es)
      found =
          Holds-Found (suc (e.etype_pred)) (e.word_field) (e.name) (encode es) src m (plain.0.0) h

      long : length (encode (e ∷ es)) ≡ 6 + length (e.name) + length (encode es)
      long = omega (arith, length-append (e.name) (0 ∷ encode es))

      short : length (e.name) < suc fuel
      short = omega (arith, long)

      rest : length (encode es) ≤ fuel
      rest = omega (arith, long)

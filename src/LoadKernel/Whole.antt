-- ===== src/LoadKernel/Whole.antt =====
-- The loop of load_kernel over a whole patch table, with its imports and its absolute addresses.
use templeos_loader.Prelude.{
  ℕ, zero, suc, ◌+◌, ◌*◌, ◌≤◌, ◌≡◌, refl, arith, subst, sym, some, List, [], ◌∷◌, length,
}
use templeos_loader.Symtable.{Table}
use templeos_loader.Host.{Thunks}
use templeos_loader.LoadKernel.Memory.{Mem, Holds, Holds-prefix}
use templeos_loader.LoadKernel.Defs.{patch_table}
use templeos_loader.LoadKernel.Table.{Holds-Found, encode_import}
use templeos_loader.LoadKernel.Import.{Spares-smaller}
use templeos_loader.LoadKernel.Items.{
  Item, plain, imported, absolute, encode_words, encode_items, AreItems, SparesWords, SparesItems,
  apply_items, SparesItems-smaller,
}
use templeos_loader.LoadKernel.Split.{encode_import-append}
use templeos_loader.LoadKernel.Steps.{
  length-encode_words, Holds-patch_uses, plain_step, absolute_step, Holds-behind, import_step,
  length-import, length-entry,
}

module _ (thunks : Thunks) (module_base : ℕ) where
  -- Where memory holds a patch table of any items, names without NUL, uses with types of imports, and
  -- behind each import the end or an entry with a name, and no patched word and no absolute address
  -- meets the table's bytes, the loop of load_kernel with fuel for its bytes ends and does, in order,
  -- what the items mean: exports add their symbols, imports patch all their uses with the address
  -- that host_get_api_by_name gives for the name, absolute addresses get the base added to their
  -- words, and other entries do nothing.
  pub patch_table-apply_items :
      (is : List Item) (fuel src : ℕ) (m : Mem) (syms : Table)
      → AreItems is
      → length (encode_items is) ≤ fuel
      → Holds m src (encode_items is)
      → SparesItems thunks module_base src (length (encode_items is)) is
      → patch_table thunks module_base fuel src m syms
        ≡ some (apply_items thunks module_base is m syms)
  unfolding patch_table AreItems apply_items Holds SparesItems
  patch_table-apply_items [] zero src m syms ok enough h s = absurd (omega arith)
  patch_table-apply_items [] (suc fuel) src m syms ok enough h s = rw (patch_table, h.0) refl
  patch_table-apply_items (plain e ∷ is) zero src m syms ok enough h s = absurd (omega arith)
  patch_table-apply_items (imported c name u us ∷ is) zero src m syms ok enough h s =
      absurd (omega arith)
  patch_table-apply_items (absolute name os ∷ is) zero src m syms ok enough h s =
      absurd (omega arith)
  patch_table-apply_items (plain e ∷ is) (suc fuel) src m syms ok enough h s =
      plain_step thunks module_base e (encode_items is) fuel src m syms _ ok.0 (omega (arith, long))
        h
        (patch_table-apply_items is fuel _ m _ ok.1 (omega (arith, long))
          (Holds-Found (suc e.etype_pred) e.word_field e.name (encode_items is) src m ok.0.0
            h).rest_at
          (SparesItems-smaller thunks module_base is src _ _ _ (omega arith) (omega (arith, long))
            s))
    where
      long : length (encode_items (plain e ∷ is)) ≡ 6 + length e.name + length (encode_items is)
      long = length-entry (suc e.etype_pred) e.word_field e.name (encode_items is)
  patch_table-apply_items (imported c name u us ∷ is) (suc fuel) src m syms ok enough h s =
      import_step thunks module_base c name u us is fuel src m syms _ ok.0 ok.1 ok.2 ok.3 enough h
        s.0
        (patch_table-apply_items is fuel _ _ syms ok.3 (omega (arith, long))
          (Holds-patch_uses thunks module_base (u ∷ us) (encode_items is) _ _ m
            (Spares-smaller thunks module_base (u ∷ us) src _ _ _ (omega arith)
              (omega (arith, long)) s.0)
            (Holds-prefix (encode_import c name u us []) (encode_items is) src m (
              subst (Holds m src) (sym (encode_import-append c name u us [] (encode_items is))) h)))
          (SparesItems-smaller thunks module_base is src _ _ _ (omega arith) (omega (arith, long))
            s.1))
    where
      long :
          length (encode_import c name u us (encode_items is))
          ≡ length (encode_import c name u us []) + length (encode_items is)
      long = length-import c name u us (encode_items is)
  patch_table-apply_items (absolute name os ∷ is) (suc fuel) src m syms ok enough h s =
      absolute_step thunks module_base name os (encode_items is) fuel src m syms _ ok.0
        (omega (arith, long)) h (subst (λ n. SparesWords thunks module_base src n os) long s.0)
        (patch_table-apply_items is fuel _ _ syms ok.1 (omega (arith, long, words))
          (Holds-behind thunks module_base name os (encode_items is) src m ok.0 h
            (subst (λ n. SparesWords thunks module_base src n os) long s.0))
          (SparesItems-smaller thunks module_base is src _ _ _ (omega arith)
            (omega (arith, long, words)) s.1))
    where
      words : length (encode_words os (encode_items is)) ≡ 4 * length os + length (encode_items is)
      words = length-encode_words os (encode_items is)

      long :
          length (encode_items (absolute name os ∷ is))
          ≡ 6 + length name + length (encode_words os (encode_items is))
      long = length-entry 20 (length os) name (encode_words os (encode_items is))

-- ===== src/LoadKernel/Steps.antt =====
-- One round of the loop of load_kernel, for each kind of item of the patch table.
use templeos_loader.Prelude.{
  ℕ, suc, ◌+◌, ◌*◌, ◌≤◌, ◌≡◌, refl, arith, ap, ◌∙◌, subst, sym, some, List, [], ◌∷◌, ◌++◌, CString,
  length, length-append, inl, inr, true, Option,
}
use templeos_loader.Symtable.{Table}
use templeos_loader.Host.{Thunks, host_get_api_by_name}
use templeos_loader.LoadKernel.Memory.{Mem, Holds, NoNul, word, Holds-prefix}
use templeos_loader.LoadKernel.Defs.{import, abs_addr, kind, load_one_import, patch_table}
use templeos_loader.LoadKernel.Table.{
  Use, Found, Holds-Found, entry, encode_uses, encode_import, encode_stop,
}
use templeos_loader.LoadKernel.Loop.{Entry, IsPlain, added, passed, add_exports}
use templeos_loader.LoadKernel.Import.{
  target, patch_uses, Spares, Spares-smaller, Holds-patch, load_one_import-patch_uses,
}
use templeos_loader.LoadKernel.Items.{
  Item, encode_words, encode_items, StartsNamed, AreItems, add_base, SparesWords,
  SparesWords-smaller,
}
use templeos_loader.LoadKernel.Absolute.{patch_abs-add_base, Holds-add_base}
use templeos_loader.LoadKernel.Split.{Holds-take, encode_import-append, Starts, encode_items-Starts}

pub length-encode_words :
    (os rest : List ℕ) → length (encode_words os rest) ≡ 4 * length os + length rest
length-encode_words [] rest = omega arith
length-encode_words (o ∷ os) rest = omega (arith, length-encode_words os rest)

Holds-words :
    (os rest : List ℕ) (p : ℕ) (m : Mem)
    → Holds m p (encode_words os rest)
    → Holds m (p + 4 * length os) rest
Holds-words [] rest p m h = subst (λ q. Holds m q rest) (omega arith) h
Holds-words (o ∷ os) rest p m h =
    subst (λ q. Holds m q rest) (omega arith)
      (Holds-words os rest (p + 4) m (Holds-prefix (word o) (encode_words os rest) p m h))

pub length-import :
    (c : ℕ) (name : CString) (u : Use) (us : List Use) (rest : List ℕ)
    → length (encode_import c name u us rest) ≡ length (encode_import c name u us []) + length rest
length-import c name u us rest =
    ap length (sym (encode_import-append c name u us [] rest))
    ∙ length-append (encode_import c name u us []) rest

pub length-entry :
    (e i : ℕ) (name rest : List ℕ) → length (entry e i name rest) ≡ 6 + length name + length rest
length-entry e i name rest = omega (arith, length-append name (0 ∷ rest))

abs_type : kind 20 ≡ abs_addr
unfolding kind
abs_type = refl

module _ (thunks : Thunks) (module_base : ℕ) where
  pub Holds-patch_uses :
      (us : List Use) (bytes : List ℕ) (func p : ℕ) (m : Mem)
      → Spares thunks module_base p (length bytes) us
      → Holds m p bytes
      → Holds (patch_uses thunks module_base func us m) p bytes
  unfolding patch_uses Spares
  Holds-patch_uses [] bytes func p m s h = h
  Holds-patch_uses (u ∷ us) bytes func p m s h = Holds-patch_uses us bytes func p _ s.1 (
      Holds-patch thunks module_base bytes (suc u.etype_pred) (target thunks module_base u) func p m
        s.0 h)

  -- An import in the middle of a table: the walk over its uses ends where the next item starts.
  import_done :
      (c : ℕ) (name : CString) (u : Use) (us : List Use) (is : List Item) (fuel src : ℕ) (m : Mem)
      → NoNul name
      → StartsNamed is
      → AreItems is
      → length (encode_import c name u us (encode_items is)) ≤ fuel
      → Holds m src (encode_import c name u us (encode_items is))
      → Spares thunks module_base src
          (length (encode_import c name u us (encode_items is)))
          (u ∷ us)
      → load_one_import thunks module_base fuel true 0 src m
        ≡ some (
          patch_uses thunks module_base (host_get_api_by_name thunks (suc c ∷ name)) (u ∷ us) m,
          src + length (encode_import c name u us []),
        )
  import_done c name u us is fuel src m nn named ok enough h s =
      load_one_import-patch_uses thunks module_base c name u us starts.stop fuel src m nn
        starts.is_stop (omega (arith, long))
        (Holds-take _ starts.tail src m (subst (Holds m src) split h))
        (Spares-smaller thunks module_base (u ∷ us) src _ src _ (omega arith) (omega (arith, long))
          s)
    where
      starts : Starts (encode_items is)
      starts = encode_items-Starts is named ok

      split :
          encode_import c name u us (encode_items is)
          ≡ encode_import c name u us (encode_stop starts.stop) ++ starts.tail
      split =
          ap (encode_import c name u us) starts.split
          ∙ sym (encode_import-append c name u us (encode_stop starts.stop) starts.tail)

      long :
          length (encode_import c name u us (encode_items is))
          ≡ length (encode_import c name u us (encode_stop starts.stop)) + length starts.tail
      long =
          ap length split
          ∙ length-append (encode_import c name u us (encode_stop starts.stop)) starts.tail

  pub plain_step :
      (e : Entry) (rest : List ℕ) (fuel src : ℕ) (m : Mem) (syms : Table) (r : Option (Mem × Table))
      → IsPlain e
      → length e.name ≤ fuel
      → Holds m src (entry (suc e.etype_pred) e.word_field e.name rest)
      → patch_table thunks module_base fuel
          (src + 6 + length e.name)
          m
          (add_exports module_base (e ∷ []) syms)
        ≡ r
      → patch_table thunks module_base (suc fuel) src m syms ≡ r
  unfolding patch_table add_exports
  plain_step e rest fuel src m syms r ok short h goes = elim ok.1 [
    | inl k ↦
        rw (patch_table, found.type_at, found.name_at (suc fuel) (omega arith), k, found.word_at)
          (ap (patch_table thunks module_base fuel _ m) (sym (added module_base e [] syms k))
            ∙ goes)
    | inr k ↦
        rw (patch_table, found.type_at, found.name_at (suc fuel) (omega arith), k)
          (ap (patch_table thunks module_base fuel _ m) (sym (passed module_base e [] syms k))
            ∙ goes)
  ]
    where
      found : Found m src (suc e.etype_pred) e.word_field e.name rest
      found = Holds-Found (suc e.etype_pred) e.word_field e.name rest src m ok.0 h

  pub absolute_step :
      (name : CString) (os rest : List ℕ) (fuel src : ℕ) (m : Mem) (syms : Table)
      (r : Option (Mem × Table))
      → NoNul name
      → length name ≤ fuel
      → Holds m src (entry 20 (length os) name (encode_words os rest))
      → SparesWords thunks module_base src (6 + length name + length (encode_words os rest)) os
      → patch_table thunks module_base fuel
          (src + 6 + length name + 4 * length os)
          (add_base thunks module_base os m)
          syms
        ≡ r
      → patch_table thunks module_base (suc fuel) src m syms ≡ r
  unfolding patch_table
  absolute_step name os rest fuel src m syms r nn short h s goes =
      rw
        (
          patch_table,
          found.type_at,
          found.name_at (suc fuel) (omega arith),
          abs_type,
          found.word_at,
          patch_abs-add_base thunks module_base os rest _ m found.rest_at
              (SparesWords-smaller thunks module_base os src _ _ _ (omega arith) (omega arith) s),
        )
        goes
    where
      found : Found m src 20 (length os) name (encode_words os rest)
      found = Holds-Found 20 (length os) name (encode_words os rest) src m nn h

  -- The bytes behind the words are still there when the base is added.
  pub Holds-behind :
      (name : CString) (os rest : List ℕ) (src : ℕ) (m : Mem)
      → NoNul name
      → Holds m src (entry 20 (length os) name (encode_words os rest))
      → SparesWords thunks module_base src (6 + length name + length (encode_words os rest)) os
      → Holds (add_base thunks module_base os m) (src + 6 + length name + 4 * length os) rest
  Holds-behind name os rest src m nn h s =
      Holds-add_base thunks module_base os rest _ m
        (SparesWords-smaller thunks module_base os src _ _ _ (omega arith)
          (omega (arith, length-encode_words os rest)) s)
        (Holds-words os rest _ m
          (Holds-Found 20 (length os) name (encode_words os rest) src m nn h).rest_at)

  pub import_step :
      (c : ℕ) (name : CString) (u : Use) (us : List Use) (is : List Item) (fuel src : ℕ) (m : Mem)
      (syms : Table) (r : Option (Mem × Table))
      → NoNul name
      → kind (suc u.etype_pred) ≡ import
      → StartsNamed is
      → AreItems is
      → length (encode_import c name u us (encode_items is)) ≤ suc fuel
      → Holds m src (encode_import c name u us (encode_items is))
      → Spares thunks module_base src
          (length (encode_import c name u us (encode_items is)))
          (u ∷ us)
      → patch_table thunks module_base fuel
          (src + length (encode_import c name u us []))
          (patch_uses thunks module_base (host_get_api_by_name thunks (suc c ∷ name)) (u ∷ us) m)
          syms
        ≡ r
      → patch_table thunks module_base (suc fuel) src m syms ≡ r
  unfolding patch_table NoNul
  import_step c name u us is fuel src m syms r nn k named ok enough h s goes =
      rw
        (
          patch_table,
          found.type_at,
          found.name_at (suc fuel)
              (omega (arith, length-append name (0 ∷ encode_uses us (encode_items is)))),
          k,
          import_done c name u us is (suc fuel) src m nn named ok enough h s,
        )
        goes
    where
      found :
          Found m src (suc u.etype_pred) u.place (suc c ∷ name) (encode_uses us (encode_items is))
      found =
          Holds-Found (suc u.etype_pred) u.place (suc c ∷ name) _ src m ((λ x. ground arith), nn) h

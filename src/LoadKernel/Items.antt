-- ===== src/LoadKernel/Items.antt =====
-- A whole patch table: exports and other entries, imports with their uses, and absolute addresses.
use templeos_loader.Prelude.{
  ℕ, suc, ◌+◌, ◌%◌, ◌^◌, ◌≤◌, ◌≡◌, arith, List, [], ◌∷◌, ◌++◌, CString, length,
}
use templeos_loader.Symtable.{Table}
use templeos_loader.Host.{Thunks, host_get_api_by_name}
use templeos_loader.LoadKernel.Memory.{Mem, load, store, NoNul, Apart, word}
use templeos_loader.LoadKernel.Defs.{import, kind}
use templeos_loader.LoadKernel.Table.{Use, entry, encode_import}
use templeos_loader.LoadKernel.Loop.{Entry, IsPlain, add_exports}
use templeos_loader.LoadKernel.Import.{patch_uses, Spares, Spares-smaller}

pub data Item : Type 0 where
  plain : Entry → Item
  imported : ℕ → CString → Use → List Use → Item
  absolute : CString → List ℕ → Item

abbrev pub encode_words : List ℕ → List ℕ → List ℕ
encode_words [] rest = rest
encode_words (o ∷ os) rest = word o ++ encode_words os rest

abbrev pub encode_item : Item → List ℕ → List ℕ
encode_item (plain e) rest = entry (suc (e.etype_pred)) (e.word_field) (e.name) rest
encode_item (imported c name u us) rest = encode_import c name u us rest
encode_item (absolute name os) rest = entry 20 (length os) name (encode_words os rest)

abbrev pub encode_items : List Item → List ℕ
encode_items [] = 0 ∷ []
encode_items (i ∷ is) = encode_item i (encode_items is)

-- The table ends, or goes on with an entry that has a name.
abbrev pub StartsNamed : List Item → Type 0
StartsNamed [] = Unit
StartsNamed (plain e ∷ is) = (c : ℕ) × (s : CString) × (e.name ≡ suc c ∷ s)
StartsNamed (imported c name u us ∷ is) = Unit
StartsNamed (absolute name os ∷ is) = (c : ℕ) × (s : CString) × (name ≡ suc c ∷ s)

-- Names hold no NUL, entries have the types of their kinds, and behind an import stands an entry
-- with a name.
unfoldable pub AreItems : List Item → Type 0
AreItems [] = Unit
AreItems (plain e ∷ is) = IsPlain e × AreItems is
AreItems (imported c name u us ∷ is) =
    NoNul name × (kind (suc (u.etype_pred)) ≡ import) × StartsNamed is × AreItems is
AreItems (absolute name os ∷ is) = NoNul name × AreItems is

module _ (thunks : Thunks) (module_base : ℕ) where
  abbrev pub word_target : ℕ → ℕ
  word_target o = (module_base + o) % 2 ^ 64

  -- The base added to the 32-bit word at each offset.
  unfoldable pub add_base : List ℕ → Mem → Mem
  add_base [] m = m
  add_base (o ∷ os) m =
      add_base os (store 4 (word_target o) (load 4 (word_target o) m + module_base) m)

  -- No absolute address lies in the range.
  unfoldable pub SparesWords : ℕ → ℕ → List ℕ → Type 0
  SparesWords p n [] = Unit
  SparesWords p n (o ∷ os) = Apart p n (word_target o) 4 × SparesWords p n os

  unfoldable pub SparesItems : ℕ → ℕ → List Item → Type 0
  SparesItems p n [] = Unit
  SparesItems p n (plain e ∷ is) = SparesItems p n is
  SparesItems p n (imported c name u us ∷ is) =
      Spares thunks module_base p n (u ∷ us) × SparesItems p n is
  SparesItems p n (absolute name os ∷ is) = SparesWords p n os × SparesItems p n is

  -- What the table means: the memory and the symbols behind it.
  unfoldable pub apply_items : List Item → Mem → Table → Mem × Table
  apply_items [] m syms = (m, syms)
  apply_items (plain e ∷ is) m syms = apply_items is m (add_exports module_base (e ∷ []) syms)
  apply_items (imported c name u us ∷ is) m syms =
      apply_items is
        (patch_uses thunks module_base (host_get_api_by_name thunks (suc c ∷ name)) (u ∷ us) m) syms
  apply_items (absolute name os ∷ is) m syms = apply_items is (add_base os m) syms

  pub SparesWords-smaller :
      (os : List ℕ) (p n q k : ℕ) → p ≤ q → q + k ≤ p + n → SparesWords p n os → SparesWords q k os
  unfolding SparesWords
  SparesWords-smaller [] p n q k low high s = tt
  SparesWords-smaller (o ∷ os) p n q k low high s =
      (ground arith, SparesWords-smaller os p n q k low high s.1)

  pub SparesItems-smaller :
      (is : List Item) (p n q k : ℕ)
      → p ≤ q
      → q + k ≤ p + n
      → SparesItems p n is
      → SparesItems q k is
  unfolding SparesItems
  SparesItems-smaller [] p n q k low high s = tt
  SparesItems-smaller (plain e ∷ is) p n q k low high s = SparesItems-smaller is p n q k low high s
  SparesItems-smaller (imported c name u us ∷ is) p n q k low high s = (
    Spares-smaller thunks module_base (u ∷ us) p n q k low high s.0,
    SparesItems-smaller is p n q k low high s.1,
  )
  SparesItems-smaller (absolute name os ∷ is) p n q k low high s =
      (SparesWords-smaller os p n q k low high s.0, SparesItems-smaller is p n q k low high s.1)

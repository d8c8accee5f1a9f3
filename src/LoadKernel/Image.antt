-- ===== src/LoadKernel/Image.antt =====
-- load_kernel on a whole image: the file in memory, and the patch table within it.
use templeos_loader.Prelude.{
  ℕ, zero, suc, ◌+◌, ◌-◌, ◌%◌, ◌^◌, ◌≤◌, ◌<◌, ◌≡◌, refl, arith, ap, ◌∙◌, subst, some, List, [], ◌∷◌,
  ◌++◌, length, length-append, take, ltb, false, pos,
}
use templeos_loader.Symtable.{Table}
use templeos_loader.Host.{Thunks}
use templeos_loader.LoadKernel.Memory.{Mem, load, store_byte, store_bytes, Holds, Holds-prefix}
use templeos_loader.LoadKernel.Defs.{sizeof_bin_file, load_kernel}
use templeos_loader.LoadKernel.Items.{Item, encode_items, AreItems, SparesItems, apply_items}
use templeos_loader.LoadKernel.Split.{Holds-take}
use templeos_loader.LoadKernel.Whole.{patch_table-apply_items}

unfoldable pub AreBytes : List ℕ → Type 0
AreBytes [] = Unit
AreBytes (b ∷ bytes) = (b < 256) × AreBytes bytes

AreBytes-take : (n : ℕ) (bytes : List ℕ) → AreBytes bytes → AreBytes (take n bytes)
unfolding AreBytes
AreBytes-take zero bytes ok = tt
AreBytes-take (suc n) [] ok = tt
AreBytes-take (suc n) (b ∷ bytes) ok = (ok.0, AreBytes-take n bytes ok.1)

take-append :
    (n : ℕ) (xs ys : List ℕ) → length xs ≤ n → take n (xs ++ ys) ≡ xs ++ take (n - length xs) ys
take-append n [] ys le = ap (λ k. take k ys) (omega arith)
take-append zero (x ∷ xs) ys le = absurd (omega arith)
take-append (suc n) (x ∷ xs) ys le =
    ap (λ (t : List ℕ). x ∷ t) (take-append n xs ys (omega arith))
    ∙ ap (λ k. x ∷ (xs ++ take k ys)) (omega arith)

store_bytes-below : (bytes : List ℕ) (p q : ℕ) (m : Mem) → q < p → store_bytes p bytes m q ≡ m q
unfolding store_bytes store_byte
store_bytes-below [] p q m lt = refl
store_bytes-below (b ∷ bytes) p q m lt =
    store_bytes-below bytes (suc p) q (store_byte p b m) (omega arith) ∙ ground arith

Holds-store_bytes :
    (bytes : List ℕ) (p : ℕ) (m : Mem) → AreBytes bytes → Holds (store_bytes p bytes m) p bytes
unfolding store_bytes store_byte Holds AreBytes
Holds-store_bytes [] p m ok = tt
Holds-store_bytes (b ∷ bytes) p m ok = (
  store_bytes-below bytes (suc p) p (store_byte p b m) (omega arith) ∙ ground arith,
  Holds-store_bytes bytes (suc p) (store_byte p b m) ok.1,
)

-- What `load_kernel` finds in the header of a file.
abbrev pub patch_table_offset : List ℕ → ℕ
patch_table_offset file = load 8 16 (store_bytes 0 (take sizeof_bin_file file) (λ q. 0))

module _ (thunks : Thunks) (head tail : List ℕ) (is : List Item) where
  abbrev pub image : List ℕ
  image = head ++ (encode_items is ++ tail)

  loaded-Holds :
      (address max_size : ℕ) (m : Mem)
      → AreBytes image
      → length head + length (encode_items is) ≤ max_size
      → Holds
          (store_bytes address (take max_size image) m)
          (address + length head)
          (encode_items is)
  loaded-Holds address max_size m ok fits =
      Holds-take (encode_items is) _ (address + length head) _ (
        Holds-prefix head _ address _ (
          subst (Holds (store_bytes address (take max_size image) m) address) split
            (Holds-store_bytes (take max_size image) address m (AreBytes-take max_size image ok))))
    where
      split :
          take max_size image
          ≡ head
            ++ (encode_items is ++ take (max_size - length head - length (encode_items is)) tail)
      split =
          take-append max_size head (encode_items is ++ tail) (omega arith)
          ∙ ap (λ t. head ++ t)
              (take-append (max_size - length head) (encode_items is) tail (omega arith))

  -- For an image of bytes that holds a patch table of any items, names without NUL, uses with types
  -- of imports, and behind each import the end or an entry with a name, at the offset that its header
  -- gives, behind the header and within the size that is read, where no patched word and no absolute
  -- address meets the table's bytes in memory and the area ends below 2^64, load_kernel with fuel for
  -- the table returns 0, and leaves the file's bytes at the address it was given, changed by what the
  -- items mean in order, and the symbols that the items add.
  pub load_kernel-apply_items :
      (fuel address max_size : ℕ) (m : Mem) (syms : Table)
      → AreBytes image
      → sizeof_bin_file ≤ length head
      → patch_table_offset image ≡ length head
      → length head + length (encode_items is) ≤ max_size
      → address + max_size < 2 ^ 64
      → length (encode_items is) ≤ fuel
      → AreItems is
      → SparesItems thunks
          (address + sizeof_bin_file)
          (address + length head)
          (length (encode_items is))
          is
      → let r =
          apply_items thunks
            (address + sizeof_bin_file)
            is
            (store_bytes address (take max_size image) m)
            syms in
        load_kernel thunks (some image) fuel address max_size m syms ≡ some (pos 0, r.0, r.1)
  unfolding load_kernel
  load_kernel-apply_items fuel address max_size m syms ok header at fits low enough items spares =
      rw
        (
          load_kernel,
          long,
          at,
          base,
          table,
          patch_table-apply_items thunks (address + sizeof_bin_file) is fuel (address + length head)
              (store_bytes address (take max_size image) m) syms items enough
              (loaded-Holds address max_size m ok fits) spares,
        )
        refl
    where
      long : ltb (length image) sizeof_bin_file ≡ false
      long = ground (arith, length-append head (encode_items is ++ tail))

      base : (address + sizeof_bin_file) % 2 ^ 64 ≡ address + sizeof_bin_file
      base = omega arith

      table : (address + length head) % 2 ^ 64 ≡ address + length head
      table = omega arith

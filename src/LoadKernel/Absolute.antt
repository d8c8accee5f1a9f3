-- ===== src/LoadKernel/Absolute.antt =====
-- The loop over the absolute addresses.
use templeos_loader.Prelude.{ℕ, ◌+◌, ◌≡◌, refl, arith, List, [], ◌∷◌, length}
use templeos_loader.Host.{Thunks}
use templeos_loader.LoadKernel.Memory.{
  Mem, load, store, Holds, word, Holds-store, Holds-prefix, load-Holds,
}
use templeos_loader.LoadKernel.Defs.{patch_abs}
use templeos_loader.LoadKernel.Items.{
  encode_words, add_base, word_target, SparesWords, SparesWords-smaller,
}

module _ (thunks : Thunks) (module_base : ℕ) where
  -- Where memory holds the offsets, and no word at one of them meets their bytes, the loop adds the
  -- base at each of them.
  pub patch_abs-add_base :
      (os rest : List ℕ) (src : ℕ) (m : Mem)
      → Holds m src (encode_words os rest)
      → SparesWords thunks module_base src (length (encode_words os rest)) os
      → patch_abs thunks module_base (length os) src m ≡ add_base thunks module_base os m
  unfolding patch_abs add_base SparesWords
  patch_abs-add_base [] rest src m h s = refl
  patch_abs-add_base (o ∷ os) rest src m h s =
      rw (patch_abs, load-Holds o (encode_words os rest) src m h)
        (patch_abs-add_base os rest (src + 4) (patched m)
          (Holds-prefix (word o) (encode_words os rest) src (patched m) (
            Holds-store (encode_words (o ∷ os) rest) 4 (word_target thunks module_base o) _ src m
              s.0 h))
          (SparesWords-smaller thunks module_base os src _ (src + 4) _ (omega arith) (omega arith)
            s.1))
    where
      patched : Mem → Mem
      patched m' =
          store 4 (word_target thunks module_base o)
            (load 4 (word_target thunks module_base o) m' + module_base) m'

  -- The bytes that no word meets are still there.
  pub Holds-add_base :
      (os bytes : List ℕ) (p : ℕ) (m : Mem)
      → SparesWords thunks module_base p (length bytes) os
      → Holds m p bytes
      → Holds (add_base thunks module_base os m) p bytes
  unfolding add_base SparesWords
  Holds-add_base [] bytes p m s h = h
  Holds-add_base (o ∷ os) bytes p m s h =
      Holds-add_base os bytes p _ s.1
        (Holds-store bytes 4 (word_target thunks module_base o) _ p m s.0 h)

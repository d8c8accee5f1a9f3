-- ===== src/LoadKernel/Import.antt =====
-- LoadOneImport against the list of uses that an import's part of the patch table encodes.
use templeos_loader.Prelude.{
  ℕ, zero, suc, ◌+◌, ◌*◌, ◌%◌, ◌^◌, ◌≤◌, ◌<◌, ◌≡◌, refl, arith, some, List, [], ◌∷◌, true, false,
  CString, length, ap, Bool-cases, ◌==◌, inl, inr, ◌∙◌, length-append,
}
use templeos_loader.Host.{Thunks, host_get_api_by_name}
use templeos_loader.LoadKernel.Memory.{Mem, Holds, NoNul, Apart, Holds-store}
use templeos_loader.LoadKernel.Defs.{patch, patch_width, load_one_import}
use templeos_loader.LoadKernel.Table.{
  Use, Found, Holds-Found, encode_uses, length-encode_uses, encode_import, Stop, ending, next_entry,
  encode_stop, IsStop,
}

module _ (thunks : Thunks) (module_base : ℕ) where
  abbrev pub target : Use → ℕ
  target u = (module_base + u.place) % 2 ^ 64

  -- Every use patched with the same value, in order.
  unfoldable pub patch_uses : ℕ → List Use → Mem → Mem
  patch_uses i [] m = m
  patch_uses i (u ∷ us) m = patch_uses i us (patch (suc (u.etype_pred)) (target u) i m)

  -- No patch touches the range.
  unfoldable pub Spares : ℕ → ℕ → List Use → Type 0
  Spares p n [] = Unit
  Spares p n (u ∷ us) = Apart p n (target u) (patch_width (suc (u.etype_pred))) × Spares p n us

  pub Spares-smaller :
      (us : List Use) (p n q k : ℕ) → p ≤ q → q + k ≤ p + n → Spares p n us → Spares q k us
  unfolding Spares
  Spares-smaller [] p n q k low high s = tt
  Spares-smaller (u ∷ us) p n q k low high s =
      (ground arith, Spares-smaller us p n q k low high (s.1))

  pub Holds-patch :
      (bytes : List ℕ) (etype q i p : ℕ) (m : Mem)
      → Apart p (length bytes) q (patch_width etype)
      → Holds m p bytes
      → Holds (patch etype q i m) p bytes
  unfolding patch
  Holds-patch bytes etype q i p m apart h = elim (Bool-cases (i == 0)) [
    | inl e ↦ rw (e) h
    | inr e ↦ rw (e) (Holds-store bytes (patch_width etype) q _ p m apart h)
  ]

  stops :
      (stop : Stop) (fuel func src : ℕ) (m : Mem)
      → IsStop stop
      → length (encode_stop stop) ≤ fuel
      → Holds m src (encode_stop stop)
      → load_one_import thunks module_base fuel false func src m ≡ some (m, src)
  unfolding load_one_import IsStop Holds NoNul
  stops ending zero func src m ok enough h = absurd (omega arith)
  stops (next_entry e i c s) zero func src m ok enough h = absurd (omega arith)
  stops ending (suc fuel) func src m ok enough h = rw (load_one_import, h.0) refl
  stops (next_entry e i c s) (suc fuel) func src m ok enough h =
      rw
        (
          load_one_import,
          found.type_at,
          found.name_at (suc fuel) (omega (arith, length-append s (0 ∷ []))),
        )
        refl
    where
      found : Found m src (suc e) i (suc c ∷ s) []
      found = Holds-Found (suc e) i (suc c ∷ s) [] src m ((λ x. ground arith), ok) h

  pub load_uses :
      (us : List Use) (stop : Stop) (fuel func src : ℕ) (m : Mem)
      → IsStop stop
      → length (encode_uses us (encode_stop stop)) ≤ fuel
      → Holds m src (encode_uses us (encode_stop stop))
      → Spares src (length (encode_uses us (encode_stop stop))) us
      → load_one_import thunks module_base fuel false func src m
        ≡ some (patch_uses func us m, src + 6 * length us)
  unfolding load_one_import Spares patch_uses NoNul
  load_uses [] stop fuel func src m ok enough h s =
      stops stop fuel func src m ok enough h ∙ ap (λ q. some (m, q)) (omega arith)
  load_uses (u ∷ us) stop zero func src m ok enough h s = absurd (omega arith)
  load_uses (u ∷ us) stop (suc fuel) func src m ok enough h s =
      rw (load_one_import, found.type_at, found.name_at (suc fuel) (omega arith), found.word_at)
        (load_uses us stop fuel func (src + 6 + 0) (patched m) ok (omega arith)
            (Holds-patch _ _ _ func _ m (ground arith) found.rest_at)
            (Spares-smaller us src _ (src + 6 + 0) _ (omega arith) (omega arith) (s.1))
          ∙ ap (λ q. some (patch_uses func us (patched m), q)) (omega arith))
    where
      patched : Mem → Mem
      patched = patch (suc (u.etype_pred)) (target u) func

      found : Found m src (suc (u.etype_pred)) (u.place) [] (encode_uses us (encode_stop stop))
      found = Holds-Found (suc (u.etype_pred)) (u.place) [] _ src m tt h

  -- Where memory holds the uses of a symbol, the first with a name and the others without, and
  -- behind them an entry with a name or the end of the table, and no patched word meets these
  -- bytes, LoadOneImport with fuel for these bytes patches every use in order with the address
  -- that host_get_api_by_name gives for the name, and ends behind the last use.
  pub load_one_import-patch_uses :
      (c : ℕ) (name : CString) (u : Use) (us : List Use) (stop : Stop) (fuel src : ℕ) (m : Mem)
      → NoNul name
      → IsStop stop
      → length (encode_import c name u us (encode_stop stop)) ≤ fuel
      → Holds m src (encode_import c name u us (encode_stop stop))
      → Spares src (length (encode_import c name u us (encode_stop stop))) (u ∷ us)
      → load_one_import thunks module_base fuel true 0 src m
        ≡ some (
          patch_uses (host_get_api_by_name thunks (suc c ∷ name)) (u ∷ us) m,
          src + length (encode_import c name u us []),
        )
  unfolding load_one_import Spares patch_uses NoNul
  load_one_import-patch_uses c name u us stop zero src m nn ok enough h s = absurd (omega arith)
  load_one_import-patch_uses c name u us stop (suc fuel) src m nn ok enough h s =
      rw (load_one_import, found.type_at, found.name_at (suc fuel) short, found.word_at)
        (load_uses us stop fuel func (src + 6 + length (suc c ∷ name)) (patched m) ok
            (omega (arith, long)) (Holds-patch _ _ _ func _ m (ground (arith, long)) found.rest_at)
            (Spares-smaller us src _ (src + 6 + length (suc c ∷ name)) _ (omega arith)
              (omega (arith, long)) (s.1))
          ∙ ap (λ q. some (patch_uses func us (patched m), q)) (omega (arith, short_end)))
    where
      long :
          length (encode_import c name u us (encode_stop stop))
          ≡ 7 + length name + length (encode_uses us (encode_stop stop))
      long = omega (arith, length-append name (0 ∷ encode_uses us (encode_stop stop)))

      short_end : length (encode_import c name u us []) ≡ 7 + length name + 6 * length us
      short_end = omega (arith, length-append name (0 ∷ encode_uses us []), length-encode_uses us)

      short : length (suc c ∷ name) < suc fuel
      short = omega (arith, long)

      func : ℕ
      func = host_get_api_by_name thunks (suc c ∷ name)

      patched : Mem → Mem
      patched = patch (suc (u.etype_pred)) (target u) func

      found :
          Found m src
            (suc (u.etype_pred))
            (u.place)
            (suc c ∷ name)
            (encode_uses us (encode_stop stop))
      found =
          Holds-Found (suc (u.etype_pred)) (u.place) (suc c ∷ name) _ src m
            ((λ x. ground arith), nn) h

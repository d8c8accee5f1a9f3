-- ===== src/Static/Tests.antt =====
-- The export table of the static build at concrete exports.
use templeos_loader.Prelude.{ℕ, ◌+◌, ◌≡◌, refl, some, List, [], ◌∷◌, CString, text, arith}
use templeos_loader.LoadKernel.Memory.{Mem, store_bytes, Holds, NoNul}
use templeos_loader.Static.{inject_extra_symbols}
use templeos_loader.Static.Exports.{encode_exports, AreNames, inject_extra_symbols-encode_exports}

abbrev exports : List (CString × ℕ)
exports = (text "Print", 0x2010) ∷ (text "PutChars", 0x123456) ∷ []

abbrev table : Mem
table = store_bytes 0x600000 (encode_exports exports) (λ q. 0)

inject_extra_symbols-encode_exports_example :
    inject_extra_symbols 100 0x600000 (0x600000 + 23) table ≡ some exports
unfolding AreNames NoNul Holds store_bytes
inject_extra_symbols-encode_exports_example =
    inject_extra_symbols-encode_exports exports 100 0x600000 (0x600000 + 23) table (ground arith)
      (omega arith) refl (ground arith)

-- ===== src/Static/Exports.antt =====
-- The export table of the static build, as bin2elf writes it and inject_extra_symbols reads it.
use templeos_loader.Prelude.{
  ℕ, zero, suc, ◌+◌, ◌<◌, ◌≡◌, refl, arith, some, List, [], ◌∷◌, ◌++◌, true, false, ◌==◌, CString,
  length, length-append,
}
use templeos_loader.LoadKernel.Memory.{
  Mem, cstring, load, word, Holds, NoNul, Holds-prefix, cstring-Holds, load-Holds,
}
use templeos_loader.Static.{inject_extra_symbols}

-- Each export is its name, a NUL and four bytes of its address.
abbrev pub encode_exports : List (CString × ℕ) → List ℕ
encode_exports [] = []
encode_exports ((name, addr) ∷ rest) = name ++ (0 ∷ (word addr ++ encode_exports rest))

unfoldable pub AreNames : List (CString × ℕ) → Type 0
AreNames [] = Unit
AreNames ((name, addr) ∷ rest) = NoNul name × AreNames rest

length-encode :
    (name : CString) (addr : ℕ) (rest : List (CString × ℕ))
    → length (encode_exports ((name, addr) ∷ rest)) ≡ length name + 5 + length (encode_exports rest)
length-encode name addr rest =
    omega (arith, length-append name (0 ∷ (word addr ++ encode_exports rest)))

-- Where memory holds the table of some exports, inject_extra_symbols with more fuel than the table
-- has bytes ends, and adds just these, in their order.
pub inject_extra_symbols-encode_exports :
    (exports : List (CString × ℕ)) (fuel p end : ℕ) (m : Mem)
    → AreNames exports
    → length (encode_exports exports) < fuel
    → end ≡ p + length (encode_exports exports)
    → Holds m p (encode_exports exports)
    → inject_extra_symbols fuel p end m ≡ some exports
unfolding inject_extra_symbols AreNames
inject_extra_symbols-encode_exports exports zero p end m names enough e h = absurd (omega arith)
inject_extra_symbols-encode_exports [] (suc fuel) p end m names enough e h =
    let done : (p == end) ≡ true = ground arith in rw (inject_extra_symbols, done) refl
inject_extra_symbols-encode_exports ((name, addr) ∷ rest) (suc fuel) p end m names enough e h =
    rw
      (
        inject_extra_symbols,
        more,
        named,
        addressed,
        inject_extra_symbols-encode_exports rest fuel (p + length name + 1 + 4) end m names.1
            (omega (arith, length-encode name addr rest))
            (omega (arith, length-encode name addr rest)) tail,
      )
      refl
  where
    more : (p == end) ≡ false
    more = ground (arith, length-encode name addr rest)

    named : cstring (suc fuel) p m ≡ some name
    named =
        cstring-Holds name (word addr ++ encode_exports rest) (suc fuel) p m names.0
          (omega (arith, length-encode name addr rest)) h

    at_word : Holds m (p + length name + 1) (word addr ++ encode_exports rest)
    at_word =
        (Holds-prefix (0 ∷ []) (word addr ++ encode_exports rest) (p + length name) m
          (Holds-prefix name (0 ∷ (word addr ++ encode_exports rest)) p m h))

    addressed : load 4 (p + length name + 1) m ≡ addr
    addressed = load-Holds addr (encode_exports rest) (p + length name + 1) m at_word

    tail : Holds m (p + length name + 1 + 4) (encode_exports rest)
    tail = Holds-prefix (word addr) (encode_exports rest) (p + length name + 1) m at_word

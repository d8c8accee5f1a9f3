-- ===== src/LoadKernel/Table.antt =====
-- The patch table as load_kernel.c reads it: its entries as bytes, and what is found at an entry that
-- memory holds.
use templeos_loader.Prelude.{
  ℕ, suc, ◌+◌, ◌*◌, ◌<◌, ◌≡◌, refl, arith, some, List, [], ◌∷◌, ◌++◌, CString, length, subst,
}
use templeos_loader.LoadKernel.Memory.{
  Mem, load, cstring, Holds, NoNul, Holds-prefix, cstring-Holds, word, load-Holds,
}

-- One use of a symbol: the type of the patch, less one since 0 is the end, and its place.
pub record Use : Type 0 where
  pub etype_pred : ℕ
  pub place : ℕ

abbrev pub entry : ℕ → ℕ → CString → List ℕ → List ℕ
entry etype i name rest = etype ∷ word i ++ name ++ 0 ∷ rest

-- What is found at an entry that memory holds.
pub record Found (m : Mem) (src etype i : ℕ) (name : CString) (rest : List ℕ) : Type 0 where
  pub type_at : m src ≡ etype
  pub word_at : load 4 (src + 1) m ≡ i
  pub name_at : (fuel : ℕ) → length name < fuel → cstring fuel (src + 5) m ≡ some name
  pub rest_at : Holds m (src + 6 + length name) rest

pub Holds-Found :
    (etype i : ℕ) (name rest : CString) (src : ℕ) (m : Mem)
    → NoNul name
    → Holds m src (entry etype i name rest)
    → Found m src etype i name rest
unfolding Holds
Holds-Found etype i name rest src m nn h = record {
  type_at = h.0;
  word_at =
      load-Holds i (name ++ 0 ∷ rest) (src + 1) m
        (Holds-prefix (etype ∷ []) (word i ++ name ++ 0 ∷ rest) src m h);
  name_at = λ fuel lt. cstring-Holds name rest fuel (src + 5) m nn lt named;
  rest_at =
      subst (λ q. Holds m q rest) (omega arith)
        ((Holds-prefix name (0 ∷ rest) (src + 5) m named).1);
}
  where
    named : Holds m (src + 5) (name ++ 0 ∷ rest)
    named = Holds-prefix (etype ∷ word i) (name ++ 0 ∷ rest) src m h

-- The uses after the first have an empty name.
abbrev pub encode_uses : List Use → List ℕ → List ℕ
encode_uses [] rest = rest
encode_uses (u ∷ us) rest = entry (suc (u.etype_pred)) (u.place) [] (encode_uses us rest)

pub length-encode_uses : (us : List Use) → length (encode_uses us []) ≡ 6 * length us
length-encode_uses [] = refl
length-encode_uses (u ∷ us) = omega (arith, length-encode_uses us)

-- All uses of a symbol, the first with the name.
abbrev pub encode_import : ℕ → CString → Use → List Use → List ℕ → List ℕ
encode_import c name u us rest =
    entry (suc (u.etype_pred)) (u.place) (suc c ∷ name) (encode_uses us rest)

-- What ends the uses: the end of the table, or an entry with a name.
pub data Stop : Type 0 where
  ending : Stop
  next_entry : ℕ → ℕ → ℕ → CString → Stop

abbrev pub encode_stop : Stop → List ℕ
encode_stop ending = 0 ∷ []
encode_stop (next_entry e i c s) = entry (suc e) i (suc c ∷ s) []

unfoldable pub IsStop : Stop → Type 0
IsStop ending = Unit
IsStop (next_entry e i c s) = NoNul s

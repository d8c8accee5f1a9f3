-- ===== src/LoadKernel/Memory.antt =====
-- Memory as a function from addresses to bytes, for load_kernel.c: the little-endian words that its
-- `memcpy` and its stores through pointers move, and the C strings in it.
use native.Mathlib.Nat.{pow-suc, one-le-pow}
use templeos_loader.Prelude.{
  ℕ, zero, suc, ◌+◌, ◌*◌, ◌/◌, ◌%◌, ◌^◌, ◌==◌, if◌then◌else◌, Option, none, some, List, [], ◌++◌,
  ◌≡◌, sym, ◌∙◌, ◌≢◌, ◌⊎◌, ◌≤◌, ◌<◌, inl, refl, arith, length, ap, subst, ◌∷◌, CString, ◌>>=◌,
}

abbrev pub Mem : Type 0
Mem = ℕ → ℕ

unfoldable pub store_byte : ℕ → ℕ → Mem → Mem
store_byte p b m q = if q == p then b % 256 else m q

-- The `width` bytes at an address as a number.
unfoldable pub load : ℕ → ℕ → Mem → ℕ
load zero p m = 0
load (suc width) p m = m p + 256 * load width (suc p) m

-- The low `width` bytes of a number, stored.
unfoldable pub store : ℕ → ℕ → ℕ → Mem → Mem
unfolding store_byte
store zero p v m = m
store (suc width) p v m = store width (suc p) (v / 256) (store_byte p v m)

-- A run of bytes, as `read` stores it.
unfoldable pub store_bytes : ℕ → List ℕ → Mem → Mem
unfolding store_byte
store_bytes p [] m = m
store_bytes p (b ∷ bytes) m = store_bytes (suc p) bytes (store_byte p b m)

-- The bytes before the first NUL.
unfoldable pub cstring : ℕ → ℕ → Mem → Option CString
cstring zero p m = none
cstring (suc fuel) p m = elim (m p) [
  | zero ↦ some []
  | suc c ↦ cstring fuel (suc p) m >>= λ s. some (suc c ∷ s)
]

-- Memory holds a run of bytes at an address.
unfoldable pub Holds : Mem → ℕ → List ℕ → Type 0
Holds m p [] = Unit
Holds m p (b ∷ bytes) = (m p ≡ b) × Holds m (suc p) bytes

-- No byte of a C string is NUL.
unfoldable pub NoNul : CString → Type 0
NoNul [] = Unit
NoNul (c ∷ s) = (c ≢ 0) × NoNul s

-- Two ranges, each given by its address and its length, have no byte in common.
abbrev pub Apart : ℕ → ℕ → ℕ → ℕ → Type 0
Apart p n q w = (p + n ≤ q) ⊎ (q + w ≤ p)

store_byte-apart : (q b p : ℕ) (m : Mem) → p ≢ q → store_byte q b m p ≡ m p
unfolding store_byte
store_byte-apart q b p m ne = ground arith

store-apart : (width q v p : ℕ) (m : Mem) → (p < q) ⊎ (q + width ≤ p) → store width q v m p ≡ m p
unfolding store
store-apart zero q v p m h = refl
store-apart (suc width) q v p m h =
    store-apart width (suc q) (v / 256) p (store_byte q v m) (ground arith)
    ∙ store_byte-apart q v p m (λ e. ground arith)

pub Holds-store :
    (bytes : List ℕ) (width q v p : ℕ) (m : Mem)
    → Apart p (length bytes) q width
    → Holds m p bytes
    → Holds (store width q v m) p bytes
unfolding Holds
Holds-store [] width q v p m apart h = tt
Holds-store (b ∷ bytes) width q v p m apart h = (
  store-apart width q v p m (ground arith) ∙ h.0,
  Holds-store bytes width q v (suc p) m (ground arith) (h.1),
)

pub Holds-prefix :
    (xs ys : List ℕ) (p : ℕ) (m : Mem) → Holds m p (xs ++ ys) → Holds m (p + length xs) ys
unfolding Holds
Holds-prefix [] ys p m h = subst (λ q. Holds m q ys) (omega arith) h
Holds-prefix (x ∷ xs) ys p m h =
    subst (λ q. Holds m q ys) (omega arith) (Holds-prefix xs ys (suc p) m (h.1))

pub cstring-Holds :
    (name rest : List ℕ) (fuel p : ℕ) (m : Mem)
    → NoNul name
    → length name < fuel
    → Holds m p (name ++ 0 ∷ rest)
    → cstring fuel p m ≡ some name
unfolding cstring Holds NoNul
cstring-Holds name rest zero p m nn lt h = absurd (omega arith)
cstring-Holds [] rest (suc fuel) p m nn lt h = rw (cstring, h.0) refl
cstring-Holds (zero ∷ name) rest (suc fuel) p m nn lt h = absurd (nn.0 refl)
cstring-Holds (suc c ∷ name) rest (suc fuel) p m nn lt h =
    rw (cstring, h.0, cstring-Holds name rest fuel (suc p) m (nn.1) (omega arith) (h.1)) refl

-- The four bytes of a 32-bit word, lowest first.
abbrev pub word : ℕ → List ℕ
word i = i % 256 ∷ i / 256 % 256 ∷ i / 65536 % 256 ∷ i / 16777216 ∷ []

pub load-Holds :
    (i : ℕ) (rest : List ℕ) (p : ℕ) (m : Mem) → Holds m p (word i ++ rest) → load 4 p m ≡ i
unfolding Holds load
load-Holds i rest p m h = omega (arith, h.0, h.1.0, h.1.1.0, h.1.1.1.0)

pub load-store-apart :
    (width k q v p : ℕ) (m : Mem)
    → (p + width ≤ q) ⊎ (q + k ≤ p)
    → load width p (store k q v m) ≡ load width p m
unfolding load
load-store-apart zero k q v p m h = refl
load-store-apart (suc width) k q v p m h = omega (
  arith,
  store-apart k q v p m (ground arith),
  load-store-apart width k q v (suc p) m (ground arith),
)

store_byte-here : (p b : ℕ) (m : Mem) → store_byte p b m p ≡ b % 256
unfolding store_byte
store_byte-here p b m = ground arith

-- The lowest byte of a remainder, and the others.
mod-split : (k v : ℕ) → 1 ≤ k → v % (256 * k) ≡ v % 256 + 256 * ((v / 256) % k)
mod-split k v h = grind arith

-- What is loaded behind a store of as many bytes is the number modulo the width.
pub load-store : (width p v : ℕ) (m : Mem) → load width p (store width p v m) ≡ v % 256 ^ width
unfolding load store
load-store zero p v m = omega arith
load-store (suc width) p v m =
    (λ j. low j + 256 * load-store width (suc p) (v / 256) (store_byte p v m) j)
    ∙ sym (mod-split (256 ^ width) v (one-le-pow width 256 (omega arith)))
    ∙ ap (λ k. v % k) (omega (arith, pow-suc 256 width))
  where
    low : store width (suc p) (v / 256) (store_byte p v m) p ≡ v % 256
    low =
        store-apart width (suc p) (v / 256) p (store_byte p v m) (inl (omega arith))
        ∙ store_byte-here p v m

-- ===== src/Symtable/Order.antt =====
-- The order of the symbol table: "the list is sorted by address (syms points to the
-- highest-address symbol)".
use templeos_loader.Prelude.{
  ℕ, ◌<◌, ◌≤◌, ◌≡◌, refl, ◌≢◌, ◌↔◌, ◌⊎◌, inl, inr, [], ◌∷◌, arith, CString,
}
use templeos_loader.Symtable.{Sym, Table, addsym, insert_sym}

-- Every address of the table is below `a`.
abbrev pub Below : ℕ → Table → Type 0
Below a [] = Unit
Below a (s ∷ rest) = (s.address < a) × Below a rest

abbrev pub IsSorted : Table → Type 0
IsSorted [] = Unit
IsSorted (s ∷ rest) = Below s.address rest × IsSorted rest

abbrev pub In : Sym → Table → Type 0
In s [] = ⊥
In s (t ∷ rest) = (s ≡ t) ⊎ In s rest

-- No symbol of the table has the address `a`.
abbrev pub Free : ℕ → Table → Type 0
Free a [] = Unit
Free a (s ∷ rest) = (s.address ≢ a) × Free a rest

pub Below-mono : (a b : ℕ) (syms : Table) → a ≤ b → Below a syms → Below b syms
Below-mono a b [] h below = tt
Below-mono a b (s ∷ rest) h below = (omega arith, Below-mono a b rest h below.1)

pub Below-Free : (a : ℕ) (syms : Table) → Below a syms → Free a syms
Below-Free a [] below = tt
Below-Free a (s ∷ rest) below = (omega arith, Below-Free a rest below.1)

pub Below-insert_sym :
    (a : ℕ) (sym : Sym) (syms : Table)
    → sym.address < a
    → Below a syms
    → Below a (insert_sym sym syms)
unfolding insert_sym
Below-insert_sym a sym [] h below = (h, tt)
Below-insert_sym a sym (s ∷ rest) h below = ground (arith, Below-insert_sym a sym rest)

pub insert_sym-IsSorted :
    (sym : Sym) (syms : Table) → IsSorted syms → IsSorted (insert_sym sym syms)
unfolding insert_sym
insert_sym-IsSorted sym [] sorted = (tt, tt)
insert_sym-IsSorted sym (s ∷ rest) sorted = ground (
  arith,
  insert_sym-IsSorted sym rest,
  Below-insert_sym s.address sym rest,
  Below-mono s.address sym.address rest,
)

-- `addsym` keeps the table strictly descending in the address, so no two symbols share one.
pub addsym-IsSorted :
    (module_name name : CString) (address : ℕ) (syms : Table)
    → IsSorted syms
    → IsSorted (addsym module_name name address syms)
unfolding addsym
addsym-IsSorted module_name name address syms = insert_sym-IsSorted _ syms

pub Below-In : (a : ℕ) (s : Sym) (syms : Table) → Below a syms → In s syms → s.address < a
Below-In a s [] below i = absurd i
Below-In a s (t ∷ rest) below (inl p) = ground arith
Below-In a s (t ∷ rest) below (inr i) = Below-In a s rest below.1 i

insert_sym-taken :
    (sym s : Sym) (syms : Table)
    → IsSorted syms
    → In s syms
    → s.address ≡ sym.address
    → insert_sym sym syms ≡ syms
unfolding insert_sym
insert_sym-taken sym s [] sorted i e = absurd i
insert_sym-taken sym s (t ∷ rest) sorted (inl p) e = ground arith
insert_sym-taken sym s (t ∷ rest) sorted (inr i) e =
    ground (arith, Below-In t.address s rest sorted.0 i, insert_sym-taken sym s rest sorted.1 i e)

insert_sym-Below :
    (sym : Sym) (syms : Table) → Below sym.address syms → insert_sym sym syms ≡ sym ∷ syms
unfolding insert_sym
insert_sym-Below sym [] below = refl
insert_sym-Below sym (s ∷ rest) below = ground arith

insert_sym_comm :
    (a b : Sym) (syms : Table)
    → IsSorted syms
    → a.address ≢ b.address
    → insert_sym a (insert_sym b syms) ≡ insert_sym b (insert_sym a syms)
unfolding insert_sym
insert_sym_comm a b [] sorted ne = ground arith
insert_sym_comm a b (s ∷ rest) sorted ne = ground (arith, insert_sym_comm a b rest)

In-insert_sym :
    (s sym : Sym) (syms : Table)
    → IsSorted syms
    → In s (insert_sym sym syms) ↔ (In s syms ⊎ ((s ≡ sym) × Free sym.address syms))
unfolding insert_sym
In-insert_sym s sym [] sorted = ground arith
In-insert_sym s sym (t ∷ rest) sorted = ground (
  arith,
  In-insert_sym s sym rest sorted.1,
  Below-Free sym.address rest,
  Below-mono t.address sym.address rest,
)

-- After `addsym` the table holds what it held, and the new symbol exactly if no symbol had its
-- address: a second symbol at an address is dropped.
pub In-addsym :
    (s : Sym) (module_name name : CString) (address : ℕ) (syms : Table)
    → IsSorted syms
    → let new : Sym = record { module_name = module_name; name = name; address = address } in
      In s (addsym module_name name address syms) ↔ (In s syms ⊎ ((s ≡ new) × Free address syms))
unfolding addsym
In-addsym s module_name name address syms = In-insert_sym s _ syms

-- Two symbols at different addresses may be added in either order: the table forgets the order
-- in which it was filled.
pub addsym_comm :
    (m n m' n' : CString) (a b : ℕ) (syms : Table)
    → IsSorted syms
    → a ≢ b
    → addsym m n a (addsym m' n' b syms) ≡ addsym m' n' b (addsym m n a syms)
unfolding addsym
addsym_comm m n m' n' a b syms sorted ne = insert_sym_comm _ _ syms sorted ne

-- Adding a symbol at an address that the table has leaves it as it was.
pub addsym-taken :
    (m n : CString) (s : Sym) (syms : Table)
    → IsSorted syms
    → In s syms
    → addsym m n s.address syms ≡ syms
unfolding addsym
addsym-taken m n s syms sorted i = insert_sym-taken _ s syms sorted i refl

-- A sorted table has one symbol at an address.
pub In-unique :
    (s t : Sym) (syms : Table)
    → IsSorted syms
    → In s syms
    → In t syms
    → s.address ≡ t.address
    → s ≡ t
In-unique s t [] sorted i j e = absurd i
In-unique s t (u ∷ rest) sorted i j e = ground (
  arith,
  Below-In u.address s rest sorted.0,
  Below-In u.address t rest sorted.0,
  In-unique s t rest sorted.1,
)

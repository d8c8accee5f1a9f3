-- ===== src/Symtable/Linked/Walk.antt =====
-- `lookupsym` and `findsym` over the nodes return the node of the symbol that the record-level
-- functions return.
use templeos_loader.Prelude.{
  ℕ, zero, suc, ◌<◌, ◌≡◌, refl, ◌≢◌, inl, inr, Option, none, some, [], ◌∷◌, ◌==◌, leb, arith,
  length, false, Bool-cases, CString, str_eq,
}
use templeos_loader.Symtable
use templeos_loader.Symtable.{Sym, Table}
use templeos_loader.Symtable.Linked.Defs.{
  Heap, null, State, lookup_loop, lookupsym, find_loop, findsym,
}
use templeos_loader.Symtable.Linked.Chain.{IsList, nil, cons, node}

-- The pointer `p` stands for the result `r`: NULL for none, or the address of the symbol's node.
abbrev pub Stands : Heap → ℕ → Option Sym → Type 0
Stands h p none = p ≡ null
Stands h p (some s) = (p ≢ null) × ((q : ℕ) × (h p ≡ some (node s q)))

abbrev pub Returns : Heap → Option ℕ → Option Sym → Type 0
Returns h run r = (p : ℕ) × (run ≡ some p) × Stands h p r

module _ (h : Heap) where
  lookup_loop-Returns :
      (fuel address p : ℕ) (syms : Table)
      → IsList h p syms
      → length syms < fuel
      → Returns h (lookup_loop fuel h address p) (Symtable.lookupsym address syms)
  unfolding lookup_loop Symtable.lookupsym
  lookup_loop-Returns zero address p syms list fuel = absurd (omega arith)
  lookup_loop-Returns (suc k) address p [] nil fuel = (null, refl, refl)
  lookup_loop-Returns (suc k) address p (s ∷ rest) (cons {q} ne at list) fuel =
      let not_null : (p == null) ≡ false = ground arith in
      rw (not_null, at)
        (elim (Bool-cases (leb s.address address)) [
          | inl hit ↦ rw hit (p, refl, (ne, (q, at)))
          | inr miss ↦ rw miss (lookup_loop-Returns k address q rest list (omega arith))
        ])

  find_loop-Returns :
      (fuel : ℕ) (name : CString) (p : ℕ) (syms : Table)
      → IsList h p syms
      → length syms < fuel
      → Returns h (find_loop fuel h name p) (Symtable.findsym name syms)
  unfolding find_loop Symtable.findsym
  find_loop-Returns zero name p syms list fuel = absurd (omega arith)
  find_loop-Returns (suc k) name p [] nil fuel = (null, refl, refl)
  find_loop-Returns (suc k) name p (s ∷ rest) (cons {q} ne at list) fuel =
      let not_null : (p == null) ≡ false = ground arith in
      rw (not_null, at)
        (elim (Bool-cases (str_eq s.name name)) [
          | inl hit ↦ rw hit (p, refl, (ne, (q, at)))
          | inr miss ↦ rw miss (find_loop-Returns k name q rest list (omega arith))
        ])

-- Over a list of nodes, with fuel for each node and one more, `lookupsym` and `findsym` end
-- without a fault at the node of the symbol that their record-level versions return, or at NULL
-- where those return none.
pub search-refines :
    (fuel address : ℕ) (name : CString) (s : State) (syms : Table)
    → IsList s.heap s.syms syms
    → length syms < fuel
    → Returns s.heap (lookupsym fuel address s) (Symtable.lookupsym address syms)
      × Returns s.heap (findsym fuel name s) (Symtable.findsym name syms)
unfolding lookupsym findsym
search-refines fuel address name s syms list enough = (
  lookup_loop-Returns s.heap fuel address s.syms syms list enough,
  find_loop-Returns s.heap fuel name s.syms syms list enough,
)

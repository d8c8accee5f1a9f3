-- ===== src/Symtable/Tests.antt =====
-- The symbol table at concrete symbols.
use templeos_loader.Prelude.{
  str_eq, ℕ, ◌≡◌, refl, ◌↔◌, none, some, [], ◌∷◌, arith, CString, text, if◌then◌else◌, ◌==◌,
}
use templeos_loader.Symtable.{Sym, Table, lookupsym, addsym, findsym}
use templeos_loader.Symtable.Order.{IsSorted}
use templeos_loader.Symtable.Search.{Nearest, lookupsym_iff}
use templeos_loader.Symtable.Linked.Defs
use templeos_loader.Symtable.Linked.Chain.{IsList, nil, cons, node}
use templeos_loader.Symtable.Linked.Insert.{Ran, addsym-refines}
use templeos_loader.Symtable.Linked.Walk.{Returns, search-refines}

abbrev kernel : CString
kernel = text "Kernel"

abbrev sym : CString → ℕ → Sym
sym name address = record { module_name = kernel; name = name; address = address }

abbrev two : Table
two = sym (text "B") 0x20 ∷ sym (text "A") 0x10 ∷ []

two_built : addsym kernel (text "A") 0x10 (addsym kernel (text "B") 0x20 []) ≡ two
unfolding addsym
two_built = refl

two-IsSorted : IsSorted two
two-IsSorted = omega arith

middle :
    addsym kernel (text "C") 0x18 two
    ≡ sym (text "B") 0x20 ∷ sym (text "C") 0x18 ∷ sym (text "A") 0x10 ∷ []
unfolding addsym
middle = refl

lookups :
    (lookupsym 0x1f two ≡ some (sym (text "A") 0x10))
    × (lookupsym 0x0f two ≡ none)
    × (findsym (text "B") two ≡ some (sym (text "B") 0x20))
unfolding lookupsym findsym str_eq
lookups = (refl, refl, refl)

lookupsym_iff_example :
    (lookupsym 0x1f two ≡ some (sym (text "A") 0x10)) ↔ Nearest 0x1f two (sym (text "A") 0x10)
lookupsym_iff_example = lookupsym_iff 0x1f two (sym (text "A") 0x10) two-IsSorted

-- The two symbols in nodes at 100 and 200.
abbrev nodes : Defs.State
nodes = record {
  heap = λ p.
      if p == 100
      then some (node (sym (text "B") 0x20) 200)
      else if p == 200
      then some (node (sym (text "A") 0x10) 0)
      else none;
  syms = 100;
}

nodes-IsList : IsList nodes.heap nodes.syms two
nodes-IsList = cons (omega arith) refl (cons (omega arith) refl nil)

addsym-refines_example :
    Ran (addsym kernel (text "C") 0x18 two) (Defs.addsym 3 300 7 kernel (text "C") 0x18 nodes)
addsym-refines_example =
    addsym-refines 3 300 7 kernel (text "C") 0x18 nodes two nodes-IsList two-IsSorted (omega arith)
      refl (omega arith)

search-refines_example :
    Returns nodes.heap (Defs.lookupsym 3 0x1f nodes) (lookupsym 0x1f two)
    × Returns nodes.heap (Defs.findsym 3 (text "A") nodes) (findsym (text "A") two)
search-refines_example = search-refines 3 0x1f (text "A") nodes two nodes-IsList (omega arith)

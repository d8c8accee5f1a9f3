-- ===== src/Symtable.antt =====
-- The symbol table of symtable.c: the list that `syms` heads, as a list of records in its order.
pub mod Order
pub mod Search
pub mod Linked
mod Tests
use templeos_loader.Prelude.{
  ℕ, Option, none, some, List, [], ◌∷◌, ◌==◌, leb, if◌then◌else◌, CString, str_eq,
}

pub record Sym : Type 0 where
  pub module_name : CString
  pub name : CString
  pub address : ℕ

abbrev pub Table : Type 0
Table = List Sym

unfoldable pub lookupsym : ℕ → Table → Option Sym
lookupsym address [] = none
lookupsym address (sym ∷ rest) =
    if leb sym.address address then some sym else lookupsym address rest

-- The walk for the place and the linking of the new entry there.
unfoldable pub insert_sym : Sym → Table → Table
insert_sym sym [] = sym ∷ []
insert_sym sym (curr ∷ rest) =
    if sym.address == curr.address
    then curr ∷ rest
    else if leb curr.address sym.address
    then sym ∷ curr ∷ rest
    else curr ∷ insert_sym sym rest

unfoldable pub addsym : CString → CString → ℕ → Table → Table
unfolding insert_sym
addsym module_name name address syms =
    insert_sym (record { module_name = module_name; name = name; address = address }) syms

unfoldable pub findsym : CString → Table → Option Sym
findsym name [] = none
findsym name (sym ∷ rest) = if str_eq sym.name name then some sym else findsym name rest

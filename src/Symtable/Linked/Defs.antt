-- ===== src/Symtable/Linked/Defs.antt =====
-- `struct sym`, `syms` and the functions of symtable.c over the nodes that they link. A heap maps
-- an address to the node that is allocated there. `malloc` is not this code's: the address that it
-- returns and what it leaves in `next` are arguments of `addsym`. Loops take fuel.
use templeos_loader.Prelude.{
  ℕ, zero, suc, Option, none, some, ◌==◌, leb, if◌then◌else◌, CString, str_eq, ◌>>=◌,
}

pub record Node : Type 0 where
  pub next : ℕ
  pub module_name : CString
  pub name : CString
  pub address : ℕ

abbrev pub Heap : Type 0
Heap = ℕ → Option Node

abbrev pub null : ℕ
null = 0

abbrev pub write : Heap → ℕ → Node → Heap
write h p n q = if q == p then some n else h q

-- The heap and the variable `syms`.
pub record State : Type 0 where
  pub heap : Heap
  pub syms : ℕ

-- How the walk of `addsym` ends: at a symbol with the address, or behind `prev` (NULL: in front).
pub data Place : Type 0 where
  taken : Place
  behind : ℕ → Place

unfoldable pub find_place : ℕ → Heap → ℕ → (prev curr : ℕ) → Option Place
find_place zero h address prev curr = none
find_place (suc fuel) h address prev curr = if curr == null then some (behind prev) else do
  n ← h curr
  if address == n.address
      then some taken
      else if leb n.address address
      then some (behind prev)
      else find_place fuel h address curr n.next

-- The assignments behind the loop; `sym` is the new node's address.
unfoldable pub link : ℕ → State → Place → Option State
link sym s taken = some s
link sym s (behind prev) =
    if prev == null
    then (do
      new ← s.heap sym
      some (record { heap = write s.heap sym (record new { next = s.syms }); syms = sym }))
    else (do
      before ← s.heap prev
      new ← s.heap sym
      let linked = write s.heap sym (record new { next = before.next })
      some (record s { heap = write linked prev (record before { next = sym }) }))

unfoldable pub addsym : (fuel sym garbage : ℕ) → CString → CString → ℕ → State → Option State
unfolding find_place link
addsym fuel sym garbage module_name name address s = if sym == null then none else do
  let node : Node = record {
    next = garbage;
    module_name = module_name;
    name = name;
    address = address;
  }
  let allocated = record s { heap = write s.heap sym node }
  place ← find_place fuel allocated.heap address null s.syms
  link sym allocated place

-- Both return the address of a node, or NULL.
unfoldable pub lookup_loop : ℕ → Heap → ℕ → ℕ → Option ℕ
lookup_loop zero h address sym = none
lookup_loop (suc fuel) h address sym =
    if sym == null
    then some null
    else do n ← h sym; if leb n.address address then some sym else lookup_loop fuel h address n.next

unfoldable pub lookupsym : ℕ → ℕ → State → Option ℕ
unfolding lookup_loop
lookupsym fuel address s = lookup_loop fuel s.heap address s.syms

unfoldable pub find_loop : ℕ → Heap → CString → ℕ → Option ℕ
find_loop zero h name sym = none
find_loop (suc fuel) h name sym =
    if sym == null
    then some null
    else do n ← h sym; if str_eq n.name name then some sym else find_loop fuel h name n.next

unfoldable pub findsym : ℕ → CString → State → Option ℕ
unfolding find_loop
findsym fuel name s = find_loop fuel s.heap name s.syms

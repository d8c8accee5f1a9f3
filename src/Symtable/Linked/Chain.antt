-- ===== src/Symtable/Linked/Chain.antt =====
-- The lists of symbols that the nodes of a heap form.
use templeos_loader.Prelude.{ℕ, ◌<◌, ◌≤◌, ◌≡◌, ◌≢◌, some, [], ◌∷◌, arith}
use templeos_loader.Symtable.{Sym, Table}
use templeos_loader.Symtable.Order.{Below}
use templeos_loader.Symtable.Linked.Defs.{Node, Heap, null, write}

abbrev pub node : Sym → ℕ → Node
node s next = record {
  next = next;
  module_name = s.module_name;
  name = s.name;
  address = s.address;
}

-- From `p` the `next` pointers lead through nodes that hold the symbols `syms` to NULL.
pub data IsList (h : Heap) : ℕ → Table → Type 0 where
  nil : IsList h null []
  cons :
      {p q : ℕ} {s : Sym} {rest : Table}
      → p ≢ null
      → h p ≡ some (node s q)
      → IsList h q rest
      → IsList h p (s ∷ rest)

-- The node at `q`, if there is one, has an address of at least `a`.
abbrev pub Above : Heap → ℕ → ℕ → Type 0
Above h q a = (n : Node) → h q ≡ some n → a ≤ n.address

-- A list of symbols below `a` survives a change that spares the nodes of symbols below `a`.
pub IsList-frame :
    {h g : Heap} {p : ℕ} {syms : Table} (a : ℕ)
    → IsList h p syms
    → Below a syms
    → ((q : ℕ) (n : Node) → h q ≡ some n → n.address < a → g q ≡ some n)
    → IsList g p syms
IsList-frame a nil below same = nil
IsList-frame a (cons {p} {q} {s} ne at list) below same =
    cons ne (same p (node s q) at below.0) (IsList-frame a list below.1 same)

-- A write at a node that is not below `a`, or at no node, is such a change.
pub IsList-write :
    {h : Heap} {p : ℕ} {syms : Table} (a q : ℕ) (c : Node)
    → Above h q a
    → Below a syms
    → IsList h p syms
    → IsList (write h q c) p syms
IsList-write a q c above below list = IsList-frame a list below λ r n e lt. ground (arith, above n)

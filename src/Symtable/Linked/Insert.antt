-- ===== src/Symtable/Linked/Insert.antt =====
-- `addsym` over the nodes does what `addsym` does to the list of records.
use templeos_loader.Prelude.{
  ℕ, zero, suc, ◌+◌, ◌<◌, ◌≡◌, refl, ◌≢◌, inl, inr, Option, none, some, [], ◌∷◌, ◌==◌, leb, arith,
  ◌>>=◌, length, Bool-cases, CString, false,
}
use templeos_loader.Symtable
use templeos_loader.Symtable.{Sym, Table, insert_sym}
use templeos_loader.Symtable.Order.{Below, IsSorted, Below-mono}
use templeos_loader.Symtable.Linked.Defs.{
  Node, Heap, null, write, State, taken, behind, find_place, link, addsym,
}
use templeos_loader.Symtable.Linked.Chain.{IsList, nil, cons, node, IsList-frame}

-- The rest of the run behind the node `prev`, which holds `before`: the nodes of higher addresses
-- are spared, and `prev` leads to the list with the new symbol.
pub record Inserted (h : Heap) (syms prev : ℕ) (before : Sym) (list : Table) (r : Option State)
    : Type 0 where
  pub end : State
  pub returns : r ≡ some end
  pub same_syms : end.syms ≡ syms
  pub next : ℕ
  pub at_prev : end.heap prev ≡ some (node before next)
  pub chain : IsList end.heap next list
  pub spared : (q : ℕ) (n : Node) → h q ≡ some n → before.address < n.address → end.heap q ≡ some n

-- The run from `syms`: it ends, and the list is then `list`.
pub record Ran (list : Table) (r : Option State) : Type 0 where
  pub end : State
  pub returns : r ≡ some end
  pub chain : IsList end.heap end.syms list

module _ (h : Heap) (sym garbage : ℕ) (new : Sym) (ne : sym ≢ null) (unused : h sym ≡ none) where
  abbrev allocated : Heap
  allocated = write h sym (node new garbage)

  abbrev start : ℕ → State
  start syms = record { heap = allocated; syms = syms }

  -- Where the walk ends behind `prev`.
  spliced :
      (syms : ℕ) (prev curr : ℕ) (before : Sym) (list : Table)
      → prev ≢ null
      → h prev ≡ some (node before curr)
      → new.address < before.address
      → Below new.address list
      → IsList h curr list
      → Inserted h syms prev before (new ∷ list) (link sym (start syms) (behind prev))
  unfolding link
  spliced syms prev curr before list pne at lt below chain =
      let h' = write (write allocated sym (node new curr)) prev (node before sym) in
      record {
        end = record { heap = h'; syms = syms };
        returns = ground arith;
        same_syms = refl;
        next = sym;
        at_prev = ground arith;
        chain =
            cons ne (ground arith) (IsList-frame new.address chain below λ r n e l. ground arith);
        spared = λ q n e l. ground arith;
      }

  -- Where it ends at a symbol that has the address.
  kept :
      (syms : ℕ) (prev curr : ℕ) (before s : Sym) (q : ℕ) (rest : Table)
      → h prev ≡ some (node before curr)
      → Below before.address (s ∷ rest)
      → curr ≢ null
      → h curr ≡ some (node s q)
      → IsList h q rest
      → Inserted h syms prev before (s ∷ rest) (link sym (start syms) taken)
  unfolding link
  kept syms prev curr before s q rest at below cne cat chain = record {
    end = start syms;
    returns = refl;
    same_syms = refl;
    next = curr;
    at_prev = ground arith;
    chain = IsList-frame before.address (cons cne cat chain) below λ r n e l. ground arith;
    spared = λ r n e l. ground arith;
  }

  -- A step of the walk over the node `curr`.
  stepped :
      (syms : ℕ) (prev curr : ℕ) (before s : Sym) (list : Table) {r : Option State}
      → prev ≢ null
      → h prev ≡ some (node before curr)
      → curr ≢ null
      → s.address < before.address
      → Inserted h syms curr s list r
      → Inserted h syms prev before (s ∷ list) r
  stepped syms prev curr before s list pne at cne lt i = record {
    end = i.end;
    returns = i.returns;
    same_syms = i.same_syms;
    next = curr;
    at_prev = i.spared prev (node before curr) at lt;
    chain = cons cne i.at_prev i.chain;
    spared = λ q n e l. i.spared q n e (omega arith);
  }

  behind_prev :
      (syms : ℕ) (fuel prev curr : ℕ) (before : Sym) (list : Table)
      → prev ≢ null
      → h prev ≡ some (node before curr)
      → new.address < before.address
      → Below before.address list
      → IsSorted list
      → IsList h curr list
      → length list < fuel
      → Inserted h syms prev before
          (insert_sym new list)
          (find_place fuel allocated new.address prev curr >>= link sym (start syms))
  unfolding find_place insert_sym
  behind_prev syms zero prev curr before list pne at lt below sorted chain fuel =
      absurd (omega arith)
  behind_prev syms (suc k) prev curr before [] pne at lt below sorted nil fuel =
      spliced syms prev null before [] pne at lt tt nil
  behind_prev syms (suc k) prev curr before (s ∷ rest) pne at lt below sorted
        (cons {q} cne cat chain) fuel =
      let live : allocated curr ≡ some (node s q) = ground arith in
      let not_null : (curr == null) ≡ false = ground arith in
      rw (not_null, live)
        (elim (Bool-cases (new.address == s.address)) [
          | inl same ↦ rw same (kept syms prev curr before s q rest at below cne cat chain)
          | inr differs ↦ rw differs (elim (Bool-cases (leb s.address new.address)) [
            | inl here ↦ rw here (
                spliced syms prev curr before (s ∷ rest) pne at lt
                  (ground arith, Below-mono s.address new.address rest (ground arith) sorted.0)
                  (cons cne cat chain))
            | inr on ↦ rw on (
                stepped syms prev curr before s (insert_sym new rest) pne at cne below.0 (
                  behind_prev syms k curr q s rest cne cat (ground arith) sorted.0 sorted.1 chain
                    (omega arith)))
          ])
        ])

  spliced_front :
      (syms : ℕ) (list : Table)
      → Below new.address list
      → IsList h syms list
      → Ran (new ∷ list) (link sym (start syms) (behind null))
  unfolding link
  spliced_front syms list below chain = record {
    end = record { heap = write allocated sym (node new syms); syms = sym };
    returns = ground arith;
    chain = cons ne (ground arith) (IsList-frame new.address chain below λ r n e l. ground arith);
  }

  kept_front :
      (syms : ℕ) (list : Table) (a : ℕ)
      → Below a list
      → IsList h syms list
      → Ran list (link sym (start syms) taken)
  unfolding link
  kept_front syms list a below chain = record {
    end = start syms;
    returns = refl;
    chain = IsList-frame a chain below λ r n e l. ground arith;
  }

  reached :
      (syms : ℕ) (s : Sym) (list : Table) {r : Option State}
      → syms ≢ null
      → Inserted h syms syms s list r
      → Ran (s ∷ list) r
  reached syms s list ne i = record {
    end = i.end;
    returns = i.returns;
    chain = rw i.same_syms (cons ne i.at_prev i.chain);
  }

  from_front :
      (syms : ℕ) (fuel : ℕ) (list : Table)
      → IsSorted list
      → IsList h syms list
      → length list < fuel
      → Ran
          (insert_sym new list)
          (find_place fuel allocated new.address null syms >>= link sym (start syms))
  unfolding find_place insert_sym
  from_front syms zero list sorted chain fuel = absurd (omega arith)
  from_front syms (suc k) [] sorted nil fuel = spliced_front null [] tt nil
  from_front syms (suc k) (s ∷ rest) sorted (cons {q} cne cat chain) fuel =
      let live : allocated syms ≡ some (node s q) = ground arith in
      let not_null : (syms == null) ≡ false = ground arith in
      let list : IsList h syms (s ∷ rest) = cons cne cat chain in
      rw (not_null, live)
        (elim (Bool-cases (new.address == s.address)) [
          | inl same ↦ rw same (
              kept_front syms (s ∷ rest) (s.address + 1)
                (omega arith, Below-mono s.address (s.address + 1) rest (omega arith) sorted.0)
                list)
          | inr differs ↦ rw differs (elim (Bool-cases (leb s.address new.address)) [
            | inl here ↦ rw here (
                spliced_front syms (s ∷ rest)
                  (ground arith, Below-mono s.address new.address rest (ground arith) sorted.0)
                  list)
            | inr on ↦ rw on (
                reached syms s (insert_sym new rest) cne (
                  behind_prev syms k syms q s rest cne cat (ground arith) sorted.0 sorted.1 chain
                    (omega arith)))
          ])
        ])

-- `addsym` on a sorted list of nodes, with an unused address from `malloc`, runs without a fault
-- to the end of its loop, and the nodes then form the list that the record-level `addsym` returns.
pub addsym-refines :
    (fuel sym garbage : ℕ) (m n : CString) (a : ℕ) (s : State) (syms : Table)
    → IsList s.heap s.syms syms
    → IsSorted syms
    → sym ≢ null
    → s.heap sym ≡ none
    → length syms < fuel
    → Ran (Symtable.addsym m n a syms) (addsym fuel sym garbage m n a s)
unfolding Symtable.addsym addsym
addsym-refines fuel sym garbage m n a s syms list sorted ne unused enough =
    let not_null : (sym == null) ≡ false = ground arith in
    rw not_null (
      from_front s.heap sym garbage (record { module_name = m; name = n; address = a }) ne unused
        s.syms fuel syms sorted list enough)

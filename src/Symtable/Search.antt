-- ===== src/Symtable/Search.antt =====
-- What `lookupsym` and `findsym` return.
use templeos_loader.Prelude.{
  ℕ, ◌<◌, ◌≤◌, ◌≡◌, refl, ◌≢◌, ◌↔◌, inl, inr, Option, none, some, [], ◌∷◌, false, arith, leb, ltb,
  if◌then◌else◌, CString, str_eq, str_eq_iff, Bool, Bool-cases,
}
use templeos_loader.Symtable.{Sym, Table, lookupsym, insert_sym, addsym, findsym}
use templeos_loader.Symtable.Order.{IsSorted, In, Below-In, In-unique}

-- `s` is the symbol of the table with the highest address that is not above `address`.
pub record Nearest (address : ℕ) (syms : Table) (s : Sym) : Type 0 where
  pub listed : In s syms
  pub below : s.address ≤ address
  pub highest : (t : Sym) → In t syms → t.address ≤ address → t.address ≤ s.address

lookupsym-Nearest :
    (address : ℕ) (syms : Table) (s : Sym)
    → IsSorted syms
    → lookupsym address syms ≡ some s
    → Nearest address syms s
unfolding lookupsym
lookupsym-Nearest address [] s sorted h = cc
lookupsym-Nearest address (t ∷ rest) s sorted h = elim (Bool-cases (leb t.address address)) [
  | inl hit ↦ record {
    listed = ground arith;
    below = ground arith;
    highest = λ u i le. ground (arith, Below-In t.address u rest sorted.0);
  }
  | inr miss ↦
      let found : lookupsym address rest ≡ some s = ground arith in
      let n = lookupsym-Nearest address rest s sorted.1 found in
      record {
        listed = inr n.listed;
        below = n.below;
        highest = λ u i le. ground (arith, n.highest u);
      }
]

lookupsym-none :
    (address : ℕ) (syms : Table)
    → lookupsym address syms ≡ none
    → (t : Sym) → In t syms
    → address < t.address
unfolding lookupsym
lookupsym-none address [] h t i = absurd i
lookupsym-none address (s ∷ rest) h t (inl e) = ground arith
lookupsym-none address (s ∷ rest) h t (inr i) =
    ground (arith, lookupsym-none address rest (ground arith) t i)

-- Whether the new symbol is nearer to `address` than the one found so far.
abbrev nearer : ℕ → ℕ → Option Sym → Bool
nearer new address none = leb new address
nearer new address (some s) = if leb new address then ltb s.address new else false

-- Looking up after `addsym`: the new symbol is returned if it is the nearest, and otherwise
-- what was returned before.
pub lookupsym-addsym :
    (address : ℕ) (m n : CString) (a : ℕ) (syms : Table)
    → IsSorted syms
    → lookupsym address (addsym m n a syms) ≡ (
        if nearer a address (lookupsym address syms)
        then some (record { module_name = m; name = n; address = a })
        else lookupsym address syms)
unfolding lookupsym addsym insert_sym
lookupsym-addsym address m n a [] sorted = ground arith
lookupsym-addsym address m n a (s ∷ rest) sorted =
    ground (arith, lookupsym-addsym address m n a rest)

Nearest-found :
    (address : ℕ) (syms : Table) (s : Sym) (r : Option Sym)
    → IsSorted syms
    → lookupsym address syms ≡ r
    → Nearest address syms s
    → r ≡ some s
Nearest-found address syms s none sorted e n =
    absurd (omega (arith, lookupsym-none address syms e s n.listed, n.below))
Nearest-found address syms s (some t) sorted e n =
    let f = lookupsym-Nearest address syms t sorted e in
    let same : s.address ≡ t.address =
      omega (arith, n.highest t f.listed f.below, f.highest s n.listed n.below) in
    ground (arith, In-unique s t syms sorted n.listed f.listed same)

-- `lookupsym` returns a symbol exactly if it is the one with the highest address that is not
-- above the given address.
pub lookupsym_iff :
    (address : ℕ) (syms : Table) (s : Sym)
    → IsSorted syms
    → (lookupsym address syms ≡ some s) ↔ Nearest address syms s
lookupsym_iff address syms s sorted =
    (lookupsym-Nearest address syms s sorted, Nearest-found address syms s _ sorted refl)

-- `s` is the symbol called `name` that has the highest address of those.
pub record Called (name : CString) (syms : Table) (s : Sym) : Type 0 where
  pub listed : In s syms
  pub named : s.name ≡ name
  pub highest : (t : Sym) → In t syms → t.name ≡ name → t.address ≤ s.address

findsym-Called :
    (name : CString) (syms : Table) (s : Sym)
    → IsSorted syms
    → findsym name syms ≡ some s
    → Called name syms s
unfolding findsym
findsym-Called name [] s sorted h = cc
findsym-Called name (t ∷ rest) s sorted h = elim (Bool-cases (str_eq t.name name)) [
  | inl hit ↦ record {
    listed = ground arith;
    named = ground (arith, str_eq_iff t.name name);
    highest = λ u i e. ground (arith, Below-In t.address u rest sorted.0);
  }
  | inr miss ↦
      let found : findsym name rest ≡ some s = ground arith in
      let n = findsym-Called name rest s sorted.1 found in
      record {
        listed = inr n.listed;
        named = n.named;
        highest = λ u i e. ground (arith, n.highest u, str_eq_iff t.name name);
      }
]

findsym-none :
    (name : CString) (syms : Table)
    → findsym name syms ≡ none
    → (t : Sym) → In t syms
    → t.name ≢ name
unfolding findsym
findsym-none name [] h t i = absurd i
findsym-none name (s ∷ rest) h t (inl e) = λ p. ground (arith, str_eq_iff s.name name)
findsym-none name (s ∷ rest) h t (inr i) = ground (arith, findsym-none name rest (ground arith) t i)

Called-found :
    (name : CString) (syms : Table) (s : Sym) (r : Option Sym)
    → IsSorted syms
    → findsym name syms ≡ r
    → Called name syms s
    → r ≡ some s
Called-found name syms s none sorted e n = absurd (findsym-none name syms e s n.listed n.named)
Called-found name syms s (some t) sorted e n =
    let f = findsym-Called name syms t sorted e in
    let same : s.address ≡ t.address =
      omega (arith, n.highest t f.listed f.named, f.highest s n.listed n.named) in
    ground (arith, In-unique s t syms sorted n.listed f.listed same)

-- `findsym` returns a symbol exactly if it bears the name and no symbol that bears it stands
-- at a higher address.
pub findsym_iff :
    (name : CString) (syms : Table) (s : Sym)
    → IsSorted syms
    → (findsym name syms ≡ some s) ↔ Called name syms s
findsym_iff name syms s sorted =
    (findsym-Called name syms s sorted, Called-found name syms s _ sorted refl)

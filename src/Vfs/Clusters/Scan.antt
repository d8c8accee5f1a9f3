-- ===== src/Vfs/Clusters/Scan.antt =====
-- Where the loop of `get_node_by_path` ends, in a table whose entries are its first ones.
use templeos_loader.Prelude.{
  ap, ◌⊎◌, ℕ, zero, suc, ◌+◌, ◌≤◌, ◌<◌, ◌≡◌, ◌≢◌, refl, arith, false, none, some, ◌==◌, ltb,
  if◌then◌else◌, CString, str_eq, str_eq_iff, Option-cases, Bool-cases, inl, inr,
}
use templeos_loader.Vfs.Clusters.{
  clus_min, max_assignments, Assignment, Table, update, Scanned, found, stopped, scan, assign,
}

-- The first `n` entries are assigned, to different paths, and entry `i` has the cluster `i + 1`.
pub record IsAssigned (t : Table) (n : ℕ) : Type 0 where
  pub bounded : n ≤ max_assignments
  pub used : (i : ℕ) → i < n → (a : Assignment) × (t i ≡ some a) × (a.clus ≡ clus_min + i)
  pub free : (i : ℕ) → n ≤ i → t i ≡ none
  pub distinct :
      (i j : ℕ) (a b : Assignment) → t i ≡ some a → t j ≡ some b → a.path ≡ b.path → i ≡ j

-- Entry `i` is the one for `path`.
abbrev pub Names : Table → ℕ → CString → Type 0
Names t i path = t i ≡ some (record { path = path; clus = clus_min + i })

-- No entry is for `path`.
abbrev pub Unnamed : Table → CString → Type 0
Unnamed t path = (i : ℕ) (a : Assignment) → t i ≡ some a → a.path ≢ path

scan-found :
    (left i : ℕ) (t : Table) (path : CString) (k : ℕ)
    → scan left i t path ≡ found k
    → (a : Assignment) × (t k ≡ some a) × (a.path ≡ path)
unfolding scan
scan-found zero i t path k h = absurd (cc)
scan-found (suc left) i t path k h = elim (Option-cases (t i)) [
  | inl e ↦ absurd (ground arith)
  | inr (a, e) ↦ elim (Bool-cases (str_eq a.path path)) [
    | inl hit ↦ (a, ground arith, (str_eq_iff a.path path).0 hit)
    | inr miss ↦ scan-found left (i + 1) t path k (ground arith)
  ]
]

scan-stopped :
    (left i : ℕ) (t : Table) (path : CString) (k n : ℕ)
    → IsAssigned t n
    → i ≤ n
    → i + left ≡ max_assignments
    → scan left i t path ≡ stopped k
    → (k ≡ n) × ((j : ℕ) (a : Assignment) → i ≤ j → t j ≡ some a → a.path ≢ path)
unfolding scan
scan-stopped zero i t path k n w le e h =
    let at_end : i ≡ n = omega (arith, w.bounded) in
    (ground arith, λ j a le' e' p. ground (arith, w.free j))
scan-stopped (suc left) i t path k n w le e h = elim (Option-cases (t i)) [
  | inl e' ↦
      let here : k ≡ i = ground arith in
      let at_end : i ≡ n = ground (arith, w.used i) in
      (ground arith, λ j a le' e'' p. ground (arith, w.free j))
  | inr (b, e') ↦
      let more : i < n = ground (arith, w.free i) in
      let miss : str_eq b.path path ≡ false = ground arith in
      let rest =
        scan-stopped left (i + 1) t path k n w (omega arith) (omega arith) (ground arith) in
      (rest.0, λ j a le' e'' p. ground (arith, rest.1 j a, str_eq_iff b.path path))
]

Scanned-cases : (r : Scanned) → ((k : ℕ) × (r ≡ found k)) ⊎ ((k : ℕ) × (r ≡ stopped k))
Scanned-cases (found k) = inl (k, refl)
Scanned-cases (stopped k) = inr (k, refl)

module _ (t : Table) (path : CString) (n : ℕ) (w : IsAssigned t n) where
  abbrev whole : Scanned
  whole = scan max_assignments 0 t path

  -- An entry below the count is the one for its own path.
  pub entry-Names : (i : ℕ) (a : Assignment) → t i ≡ some a → (i < n) × Names t i a.path
  entry-Names i a e =
      let below : i < n = ground (arith, w.free i) in
      let (b, e', c) = w.used i below in (below, ground arith)

  found-Names : (k : ℕ) → whole ≡ found k → (k < n) × Names t k path
  found-Names k h =
      let (a, e, p) = scan-found max_assignments 0 t path k h in rw p at (entry-Names k a e)

  stopped-Unnamed : (k : ℕ) → whole ≡ stopped k → (k ≡ n) × Unnamed t path
  stopped-Unnamed k h =
      let r = scan-stopped max_assignments 0 t path k n w (omega arith) refl h in
      (r.0, λ i a e. r.1 i a (omega arith) e)

  -- The table has an entry for the path, or none.
  pub Names-or-Unnamed : ((i : ℕ) × (i < n) × Names t i path) ⊎ Unnamed t path
  Names-or-Unnamed = elim (Scanned-cases whole) [
    | inl (k, e) ↦ inl (k, (found-Names k e).0, (found-Names k e).1)
    | inr (k, e) ↦ inr (stopped-Unnamed k e).1
  ]

  pub assign-Names : (i : ℕ) → Names t i path → assign t path ≡ some (i, t)
  unfolding assign
  assign-Names i named = elim (Scanned-cases whole) [
    | inl (k, e) ↦
        let same : k ≡ i = w.distinct k i _ _ (found-Names k e).1 named refl in
        rw (e, assign) (ap (λ (j : ℕ). some (j, t)) same)
    | inr (k, e) ↦ absurd ((stopped-Unnamed k e).1 i _ named refl)
  ]

  abbrev pub extended : Table
  extended = update t n (some (record { path = path; clus = clus_min + n }))

  pub assign-Unnamed :
      Unnamed t path → assign t path ≡ (if ltb n max_assignments then some (n, extended) else none)
  unfolding assign
  assign-Unnamed new = elim (Scanned-cases whole) [
    | inl (k, e) ↦ absurd (new k _ (found-Names k e).1 refl)
    | inr (k, e) ↦ rw (e, (stopped-Unnamed k e).0, assign)
  ]

  pub extended-IsAssigned : Unnamed t path → n < max_assignments → IsAssigned extended (n + 1)
  extended-IsAssigned new room = record {
    bounded = omega arith;
    used = λ i lt. elim (Bool-cases (i == n)) [
      | inl e ↦ (record { path = path; clus = clus_min + n }, ground arith, ground arith)
      | inr e ↦ let (a, e', c) = w.used i (ground arith) in (a, ground arith, c)
    ];
    free = λ i le. ground (arith, w.free i);
    distinct = λ i j a b e e' p. ground (arith, w.distinct i j a b, new i a, new j b);
  }

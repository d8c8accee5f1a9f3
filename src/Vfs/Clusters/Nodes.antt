-- ===== src/Vfs/Clusters/Nodes.antt =====
-- What `get_node_by_path` and `get_node_by_clus` promise over the drives' tables.
use mathlib.Core.Option.{some-injective}
use mathlib.Core.Path.{fun_ext}
use templeos_loader.Prelude.{
  subst, ℕ, zero, suc, ◌+◌, ◌<◌, ◌≡◌, ◌≢◌, refl, ap, sym, ◌∙◌, ◌↔◌, ◌⊎◌, arith, false, Option, none,
  some, ◌==◌, ltb, if◌then◌else◌, CString, ℤ, pos, negsuc, Option-cases, Bool-cases, inl, inr,
}
use templeos_loader.Vfs.Clusters.{
  clus_min, max_assignments, num_drives, Assignment, Table, Assignments, update, get_node_by_path,
  get_node_by_clus,
}
use templeos_loader.Vfs.Clusters.Scan.{
  IsAssigned, Names, Unnamed, assign-Names, assign-Unnamed, Names-or-Unnamed, extended,
  extended-IsAssigned,
}

-- Each drive's table has some number of entries.
abbrev pub AreAssigned : Assignments → Type 0
AreAssigned all = (dv : ℕ) → dv < num_drives → (n : ℕ) × IsAssigned (all dv) n

-- The state after a call that returned entry `i`: it is the path's, nothing that was assigned has
-- changed, and no other drive has.
pub record Obtained (all : Assignments) (path : CString) (dv i : ℕ) (all' : Assignments)
    : Type 0 where
  pub drive : dv < num_drives
  pub named : Names (all' dv) i path
  pub kept : (j : ℕ) (a : Assignment) → all dv j ≡ some a → all' dv j ≡ some a
  pub others : (e : ℕ) → e ≢ dv → all' e ≡ all e
  pub tables : AreAssigned all'
  pub grown :
      (j : ℕ) (a : Assignment)
      → all' dv j ≡ some a
      → (all dv j ≡ some a) ⊎ ((j ≡ i) × Unnamed (all dv) path)

update-AreAssigned :
    (all : Assignments) (dv n : ℕ) (t : Table)
    → AreAssigned all
    → IsAssigned t n
    → AreAssigned (update all dv t)
update-AreAssigned all dv n t w w' e drive = elim (Bool-cases (e == dv)) [
  | inl h ↦ rw h (n, w')
  | inr h ↦ rw h (w e drive)
]

module _ (all : Assignments) (path : CString) (dv : ℕ) (w : AreAssigned all)
    (drive : dv < num_drives) where
  abbrev pub t : Table
  t = all dv

  abbrev pub count : ℕ
  count = (w dv drive).0

  known-Obtained : (i : ℕ) → Names t i path → Obtained all path dv i (update all dv t)
  known-Obtained i named = record {
    drive = drive;
    named = ground arith;
    kept = λ j a e. ground arith;
    others = λ e ne. ground arith;
    tables = update-AreAssigned all dv count t w (w dv drive).1;
    grown = λ j a e. inl (ground arith);
  }

  known : (i : ℕ) → Names t i path → get_node_by_path all path dv ≡ some (i, update all dv t)
  unfolding get_node_by_path
  known i named = ground (arith, assign-Names t path count (w dv drive).1 i named)

  abbrev pub grown : Table
  grown = extended t path count (w dv drive).1

  new-Obtained :
      Unnamed t path → count < max_assignments → Obtained all path dv count (update all dv grown)
  new-Obtained new room = record {
    drive = drive;
    named = ground arith;
    kept = λ j a e. ground (arith, (w dv drive).1.free j);
    others = λ e ne. ground arith;
    tables =
        update-AreAssigned all dv (count + 1) grown w
          (extended-IsAssigned t path count (w dv drive).1 new room);
    grown = λ j a e. ground arith;
  }

  pub unknown :
      Unnamed t path
      → get_node_by_path all path dv
        ≡ (if ltb count max_assignments then some (count, update all dv grown) else none)
  unfolding get_node_by_path
  unknown new = ground (arith, assign-Unnamed t path count (w dv drive).1 new)

  obtained :
      (i : ℕ) (all' : Assignments)
      → get_node_by_path all path dv ≡ some (i, all')
      → Obtained all path dv i all'
  obtained i all' h = elim (Names-or-Unnamed t path count (w dv drive).1) [
    | inl (k, lt, named) ↦ taken_over (sym (known k named) ∙ h) (known-Obtained k named)
    | inr new ↦ elim (Bool-cases (ltb count max_assignments)) [
      | inl room ↦ taken_over (sym (rw room at (unknown new)) ∙ h) (new-Obtained new (ground arith))
      | inr full ↦ absurd (ground (arith, unknown new))
    ]
  ]
    where
      taken_over :
          {r : ℕ × Assignments}
          → ◌≡◌ {A = Option (ℕ × Assignments)} (some r) (some (i, all'))
          → Obtained all path dv r.0 r.1
          → Obtained all path dv i all'
      taken_over e o =
          subst (λ (r : ℕ × Assignments). Obtained all path dv r.0 r.1) (some-injective _ _ e) o

-- If `get_node_by_path` returns an entry of a drive, the entry is the path's, with the cluster
-- after its index; every entry assigned before is as it was, on each drive; an entry is new only
-- where the path had none; and the tables are again in order.
pub get_node_by_path-Obtained :
    (all : Assignments) (path : CString) (dv i : ℕ) (all' : Assignments)
    → AreAssigned all
    → get_node_by_path all path dv ≡ some (i, all')
    → Obtained all path dv i all'
get_node_by_path-Obtained all path dv i all' w h = elim (Bool-cases (ltb dv num_drives)) [
  | inl e ↦ obtained all path dv w (ground arith) i all' h
  | inr e ↦ absurd (no_drive e)
]
  where
    no_drive : ltb dv num_drives ≡ false → ⊥
    no_drive e = unfold get_node_by_path in ground arith

-- For a drive whose table is in order with `n` entries, `get_node_by_path` accesses memory out of
-- the table exactly if the table is full and has no entry for the path.
pub get_node_by_path-none :
    (all : Assignments) (path : CString) (dv n : ℕ)
    → dv < num_drives
    → IsAssigned (all dv) n
    → (get_node_by_path all path dv ≡ none) ↔ ((n ≡ max_assignments) × Unnamed (all dv) path)
unfolding get_node_by_path
get_node_by_path-none all path dv n drive w = elim (Names-or-Unnamed (all dv) path n w) [
  | inl (k, lt, named) ↦ (
    λ h. absurd (ground (arith, assign-Names (all dv) path n w k named)),
    λ h. absurd (h.1 k _ named refl),
  )
  | inr new ↦ (
    λ h. (ground (arith, w.bounded, assign-Unnamed (all dv) path n w new), new),
    λ h. ground (arith, assign-Unnamed (all dv) path n w new),
  )
]

-- Asked again for a path that it has returned an entry for, in any later state that kept that
-- entry, `get_node_by_path` returns the same entry and changes nothing.
pub get_node_by_path_again :
    (all : Assignments) (path : CString) (dv i : ℕ)
    → AreAssigned all
    → dv < num_drives
    → Names (all dv) i path
    → get_node_by_path all path dv ≡ some (i, all)
get_node_by_path_again all path dv i w drive named =
    known all path dv w drive i named
    ∙ ap (λ (x : Assignments). some (i, x)) (fun_ext λ e. ground arith)

-- Two calls on a drive, one after the other, return the same cluster exactly if they are for the
-- same path.
pub get_node_by_path-injective :
    (all : Assignments) (p q : CString) (dv i j : ℕ) (all' all'' : Assignments)
    → AreAssigned all
    → get_node_by_path all p dv ≡ some (i, all')
    → get_node_by_path all' q dv ≡ some (j, all'')
    → (i ≡ j) ↔ (p ≡ q)
get_node_by_path-injective all p q dv i j all' all'' w h h' =
    let o = get_node_by_path-Obtained all p dv i all' w h in
    let o' = get_node_by_path-Obtained all' q dv j all'' o.tables h' in
    let named : Names (all'' dv) i p = o'.kept i _ o.named in
    (
      λ e. ground (arith, named, o'.named),
      λ e. (o'.tables dv o.drive).1.distinct i j _ _ named o'.named e,
    )

-- The cluster of an assigned entry leads to it.
pub Names-get_node_by_clus :
    (all : Assignments) (path : CString) (dv i : ℕ)
    → AreAssigned all
    → dv < num_drives
    → Names (all dv) i path
    → get_node_by_clus all (pos (clus_min + i)) dv ≡ some (some i)
unfolding get_node_by_clus
Names-get_node_by_clus all path dv i w drive named =
    let (n, w') = w dv drive in
    let below : i < max_assignments = ground (arith, w'.free i, w'.bounded, named) in
    let next : clus_min + i ≡ suc i = omega arith in rw next (ground (arith, named, drive))

-- The cluster that `get_node_by_path` returns is found again by `get_node_by_clus`, at the entry
-- that holds the path.
pub get_node_by_clus-get_node_by_path :
    (all : Assignments) (path : CString) (dv i : ℕ) (all' : Assignments)
    → AreAssigned all
    → get_node_by_path all path dv ≡ some (i, all')
    → (get_node_by_clus all' (pos (clus_min + i)) dv ≡ some (some i)) × Names (all' dv) i path
get_node_by_clus-get_node_by_path all path dv i all' w h =
    let o = get_node_by_path-Obtained all path dv i all' w h in
    (Names-get_node_by_clus all' path dv i o.tables o.drive o.named, o.named)

-- In tables that are in order, `get_node_by_clus` never accesses memory out of them for an existing drive, and
-- returns an entry exactly if the cluster is that of an assigned one.
pub get_node_by_clus_iff :
    (all : Assignments) (clus : ℤ) (dv i n : ℕ)
    → dv < num_drives
    → IsAssigned (all dv) n
    → (get_node_by_clus all clus dv ≡ some (some i)) ↔ ((clus ≡ pos (clus_min + i)) × (i < n))
unfolding get_node_by_clus
get_node_by_clus_iff all (pos zero) dv i n drive w = ground arith
get_node_by_clus_iff all (pos (suc k)) dv i n drive w = elim (Option-cases (all dv k)) [
  | inl e ↦ (λ h. absurd (ground arith), λ h. absurd (ground (arith, w.used k)))
  | inr (a, e) ↦
      let below : k < n = ground (arith, w.free k) in
      (λ h. ground (arith, w.bounded), λ h. ground (arith, w.bounded))
]
get_node_by_clus_iff all (negsuc k) dv i n drive w = ground arith

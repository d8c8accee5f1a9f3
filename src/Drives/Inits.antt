-- ===== src/Drives/Inits.antt =====
-- Which drives `setup_vfs` initialises, and that `main` does the same with the parsed options.
use templeos_loader.Prelude.{
  ℕ, ◌+◌, ◌≤◌, ◌≡◌, ◌↔◌, ◌⊎◌, refl, arith, Bool, Option, none, some, List, [], ◌∷◌, ◌++◌, ◌==◌,
  if◌then◌else◌, CString, true, false, ℤ, pos, minus_one, Bool-cases, inl, inr,
}
use templeos_loader.Drives.{
  Call, phys_init, set_write_dir, mount, vfs_init, DriveMapping, default_drives, setup_loop,
  setup_vfs, parse_drive, main_drives,
}

-- The calls that initialise drive `dv`, counted.
abbrev pub inits : ℕ → List Call → ℕ
inits dv [] = 0
inits dv (phys_init argv0 e ∷ calls) = (if e == dv then 1 else 0) + inits dv calls
inits dv (set_write_dir path e ∷ calls) = inits dv calls
inits dv (mount path e ∷ calls) = inits dv calls

inits-append : (dv : ℕ) (xs ys : List Call) → inits dv (xs ++ ys) ≡ inits dv xs + inits dv ys
inits-append dv [] ys = omega arith
inits-append dv (phys_init argv0 e ∷ xs) ys = omega (arith, inits-append dv xs ys)
inits-append dv (set_write_dir path e ∷ xs) ys = inits-append dv xs ys
inits-append dv (mount path e ∷ xs) ys = inits-append dv xs ys

inits-vfs_init :
    (dv : ℕ) (argv0 : CString) (v w : Option CString) (e : ℕ)
    → inits dv (vfs_init argv0 v w e) ≡ (if e == dv then 1 else 0)
unfolding vfs_init
inits-vfs_init dv argv0 none none e = omega arith
inits-vfs_init dv argv0 (some v) none e = omega arith
inits-vfs_init dv argv0 none (some w) e = omega arith
inits-vfs_init dv argv0 (some v) (some w) e = omega arith

inits-default :
    (dv : ℕ) (argv0 : CString) (c d : Bool)
    → inits dv (default_drives argv0 c d)
      ≡ (if c then 0 else (if 0 == dv then 1 else 0))
        + (if d then 0 else (if 1 == dv then 1 else 0))
unfolding default_drives vfs_init
inits-default dv argv0 true true = omega arith
inits-default dv argv0 true false = omega arith
inits-default dv argv0 false true = omega arith
inits-default dv argv0 false false = omega arith

-- Every mapping is for C or D.
abbrev pub AreLetters : List DriveMapping → Type 0
AreLetters [] = Unit
AreLetters (m ∷ ms) = ((m.letter ≡ b'C') ⊎ (m.letter ≡ b'D')) × AreLetters ms

setup_loop_rc :
    (argv0 : CString) (ms : List DriveMapping) (c d : Bool)
    → ((setup_loop argv0 ms c d).0 ≡ pos 0) ↔ AreLetters ms
unfolding setup_loop
setup_loop_rc argv0 [] c d = (λ h. tt, λ h. refl)
setup_loop_rc argv0 (m ∷ ms) c d =
    ground (arith, setup_loop_rc argv0 ms true d, setup_loop_rc argv0 ms c true)

-- The step of the loop for a mapping of each letter.
module _ (argv0 : CString) (m : DriveMapping) (ms : List DriveMapping) (c d : Bool) where
  abbrev stepped : ℕ → ℤ × List Call → ℤ × List Call
  stepped idx rest = (rest.0, vfs_init argv0 m.dir m.writedir idx ++ rest.1)

  step_C :
      (m.letter == b'C') ≡ true
      → setup_loop argv0 (m ∷ ms) c d ≡ stepped 0 (setup_loop argv0 ms true d)
  unfolding setup_loop
  step_C e = ground arith

  step_D :
      (m.letter == b'C') ≡ false
      → (m.letter == b'D') ≡ true
      → setup_loop argv0 (m ∷ ms) c d ≡ stepped 1 (setup_loop argv0 ms c true)
  unfolding setup_loop
  step_D e e' = ground arith

  step_refused :
      (m.letter == b'C') ≡ false
      → (m.letter == b'D') ≡ false
      → setup_loop argv0 (m ∷ ms) c d ≡ (minus_one, [])
  unfolding setup_loop
  step_refused e e' = ground arith

setup_loop-inits :
    (argv0 : CString) (ms : List DriveMapping) (c d : Bool)
    → (setup_loop argv0 ms c d).0 ≡ pos 0
    → (c ≡ false → 1 ≤ inits 0 (setup_loop argv0 ms c d).1)
      × (d ≡ false → 1 ≤ inits 1 (setup_loop argv0 ms c d).1)
unfolding setup_loop
setup_loop-inits argv0 [] c d h =
    ground (arith, inits-default 0 argv0 c d, inits-default 1 argv0 c d)
setup_loop-inits argv0 (m ∷ ms) c d h = elim (Bool-cases (m.letter == b'C')) [
  | inl e ↦
      let ok : (setup_loop argv0 ms true d).0 ≡ pos 0 = rw (step_C argv0 m ms c d e) at h in
      let calls = (setup_loop argv0 ms true d).1 in
      let rest = setup_loop-inits argv0 ms true d ok in
      rw (step_C argv0 m ms c d e) (
        λ f. omega (
          arith,
          inits-append 0 (vfs_init argv0 m.dir m.writedir 0) calls,
          inits-vfs_init 0 argv0 m.dir m.writedir 0,
        ),
        λ f. omega (arith, inits-append 1 (vfs_init argv0 m.dir m.writedir 0) calls, rest.1 f),
      )
  | inr e ↦
      let is_D : (m.letter == b'D') ≡ true = ground (arith, step_refused argv0 m ms c d e) in
      let ok : (setup_loop argv0 ms c true).0 ≡ pos 0 = rw (step_D argv0 m ms c d e is_D) at h in
      let calls = (setup_loop argv0 ms c true).1 in
      let rest = setup_loop-inits argv0 ms c true ok in
      rw (step_D argv0 m ms c d e is_D) (
        λ f. omega (arith, inits-append 0 (vfs_init argv0 m.dir m.writedir 1) calls, rest.0 f),
        λ f. omega (
          arith,
          inits-append 1 (vfs_init argv0 m.dir m.writedir 1) calls,
          inits-vfs_init 1 argv0 m.dir m.writedir 1,
        ),
      )
]

setup_loop_others :
    (argv0 : CString) (ms : List DriveMapping) (c d : Bool) (dv : ℕ)
    → 2 ≤ dv
    → inits dv (setup_loop argv0 ms c d).1 ≡ 0
unfolding setup_loop
setup_loop_others argv0 [] c d dv h = ground (arith, inits-default dv argv0 c d)
setup_loop_others argv0 (m ∷ ms) c d dv h = elim (Bool-cases (m.letter == b'C')) [
  | inl e ↦ rw (step_C argv0 m ms c d e) (
      ground (
        arith,
        inits-append dv (vfs_init argv0 m.dir m.writedir 0) (setup_loop argv0 ms true d).1,
        inits-vfs_init dv argv0 m.dir m.writedir 0,
        setup_loop_others argv0 ms true d dv h,
      ))
  | inr e ↦ elim (Bool-cases (m.letter == b'D')) [
    | inl e' ↦ rw (step_D argv0 m ms c d e e') (
        ground (
          arith,
          inits-append dv (vfs_init argv0 m.dir m.writedir 1) (setup_loop argv0 ms c true).1,
          inits-vfs_init dv argv0 m.dir m.writedir 1,
          setup_loop_others argv0 ms c true dv h,
        ))
    | inr e' ↦ rw (step_refused argv0 m ms c d e e') refl
  ]
]

-- `setup_vfs` returns 0 exactly if every mapping is for C or D.
pub setup_vfs_iff :
    (argv0 : CString) (ms : List DriveMapping) → ((setup_vfs argv0 ms).0 ≡ pos 0) ↔ AreLetters ms
unfolding setup_vfs
setup_vfs_iff argv0 ms = setup_loop_rc argv0 ms false false

-- With mappings for C and D only, `setup_vfs` initialises the drives 0 and 1, each at least once,
-- and no other drive.
pub setup_vfs-inits :
    (argv0 : CString) (ms : List DriveMapping) (dv : ℕ)
    → AreLetters ms
    → 2 ≤ dv
    → (1 ≤ inits 0 (setup_vfs argv0 ms).1)
      × (1 ≤ inits 1 (setup_vfs argv0 ms).1)
      × (inits dv (setup_vfs argv0 ms).1 ≡ 0)
unfolding setup_vfs
setup_vfs-inits argv0 ms dv letters h =
    let ok = (setup_loop_rc argv0 ms false false).1 letters in
    let both = setup_loop-inits argv0 ms false false ok in
    (both.0 refl, both.1 refl, setup_loop_others argv0 ms false false dv h)

-- The options parse to the mappings, one by one.
abbrev pub Parsed : List CString → List DriveMapping → Type 0
Parsed [] [] = Unit
Parsed [] (m ∷ ms) = ⊥
Parsed (s ∷ ss) [] = ⊥
Parsed (s ∷ ss) (m ∷ ms) = (parse_drive s ≡ some m) × Parsed ss ms

main_loop :
    (argv0 : CString) (ss : List CString) (ms : List DriveMapping) (c d : Bool)
    → Parsed ss ms
    → main_drives argv0 ss c d ≡ setup_loop argv0 ms c d
unfolding main_drives setup_loop
main_loop argv0 [] [] c d p = refl
main_loop argv0 [] (m ∷ ms) c d p = absurd p
main_loop argv0 (s ∷ ss) [] c d p = absurd p
main_loop argv0 (s ∷ ss) (m ∷ ms) c d p =
    ground (arith, main_loop argv0 ss ms true d p.1, main_loop argv0 ss ms c true p.1, p.0)

-- Where every option parses, the loop of `main` does what `setup_vfs` does with the mappings that
-- they parse to: the same calls in the same order, and the same result.
pub main_drives-setup_vfs :
    (argv0 : CString) (ss : List CString) (ms : List DriveMapping)
    → Parsed ss ms
    → main_drives argv0 ss false false ≡ setup_vfs argv0 ms
unfolding setup_vfs
main_drives-setup_vfs argv0 ss ms p = main_loop argv0 ss ms false false p

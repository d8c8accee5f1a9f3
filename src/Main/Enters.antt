-- ===== src/Main/Enters.antt =====
-- What has happened when the guest is entered.
use mathlib.Core.Option.{some-injective}
use templeos_loader.Prelude.{
  ℕ, ◌≡◌, ◌↔◌, refl, arith, Bool, true, false, Option, none, some, List, [], ℤ, pos, minus_one, ltb,
  if◌then◌else◌, Option-cases, inl, inr, sym, ap, ◌∙◌, subst,
}
use templeos_loader.MemoryMap.{Request, Mmap, init_memory_map, align_down}
use templeos_loader.MemoryMap.Areas.{Succeeds, init_memory_map-Succeeds}
use templeos_loader.Drives.{Call, main_drives}
use templeos_loader.LoadKernel.Memory.{Mem}
use templeos_loader.LoadKernel.Defs.{load_kernel}
use templeos_loader.Symtable.{Table}
use templeos_loader.Loader.{Entered, get_symbols, loader_enter}
use templeos_loader.Trap.{install_trap_handlers}
use templeos_loader.Main.Codes.{
  succeeded, init_memory_map-IsCode, main_drives-IsCode, load_kernel-IsCode,
}
use templeos_loader.Main.{
  Env, Run, main, load_and_enter, start_kernel, can_load, covers, is_negative, or_null,
  kernel_start_address, kernel_reserve_size,
}

pub record Ready (env : Env) (fuel : ℕ) (r : Run) (e : Entered) : Type 0 where
  pub m : Mem
  pub syms : Table
  pub no_help : env.parsed.help ≡ 0
  pub no_errors : env.parsed.nerrors ≡ 0
  pub drives : main_drives env.argv0 env.parsed.drives false false ≡ (pos 0, r.calls)
  pub traps : install_trap_handlers env.sigaction ≡ (r.caught, true)
  pub loaded :
      load_kernel env.thunks
        (env.files env.parsed.kernel)
        fuel
        kernel_start_address
        kernel_reserve_size
        env.mem
        []
      ≡ some (pos 0, m, syms)
  pub enters : e ≡ loader_enter env.dispatcher kernel_start_address syms m
  pub refusal : (get_symbols syms ≡ none) ↔ (e.rc ≡ minus_one)

-- Behind a test that stops the program, a run that enters the guest is one of the rest.
behind :
    (b : Bool) (s : Run) (rest : Option Run) (r : Run) (e : Entered)
    → s.entry ≡ none
    → (if b then some s else rest) ≡ some r
    → r.entry ≡ some e
    → (b ≡ false) × (rest ≡ some r)
behind true s rest r e out run enters = absurd (ground arith)
behind false s rest r e out run enters = (refl, run)

-- The address of the kernel: `kernel_out` is the start that was asked for.
pub kernel_at :
    (mmap : Mmap)
    → (init_memory_map mmap kernel_start_address kernel_reserve_size true).rc ≡ pos 0
    → or_null (init_memory_map mmap kernel_start_address kernel_reserve_size true).kernel_out
      ≡ kernel_start_address
unfolding align_down
kernel_at mmap ok = ap (λ o. or_null o.kernel_out) (found.result)
  where
    found :
        Succeeds mmap kernel_start_address kernel_reserve_size true
          (init_memory_map mmap kernel_start_address kernel_reserve_size true)
    found =
        (init_memory_map-Succeeds mmap kernel_start_address kernel_reserve_size true (omega arith)
            (omega arith)).0
          ok

loads :
    (b : Bool) (rest : Option Run) (r : Run) → (if b then rest else none) ≡ some r → rest ≡ some r
loads true rest r run = run
loads false rest r run = absurd (ground arith)

refuses :
    (dispatcher : ℕ) (syms : Table) (m : Mem)
    → (get_symbols syms ≡ none)
      ↔ ((loader_enter dispatcher kernel_start_address syms m).rc ≡ minus_one)
unfolding loader_enter
refuses dispatcher syms m = elim (Option-cases (get_symbols syms)) [
  | inl n ↦ (λ e. rw (loader_enter, n) refl, λ e. n)
  | inr (s, f) ↦ (λ e. absurd (ground (arith, f)), λ e. absurd (ground (arith, f)))
]

module _ (env : Env) (fuel : ℕ) (r : Run) (e : Entered) (enters : r.entry ≡ some e) where
  -- The part behind the drives.
  module _ (calls : List Call) (no_help : env.parsed.help ≡ 0) (no_errors : env.parsed.nerrors ≡ 0)
      (drives : main_drives env.argv0 env.parsed.drives false false ≡ (pos 0, calls)) where
    abbrev load_result : Option (ℤ × Mem × Table)
    load_result =
        load_kernel env.thunks (env.files env.parsed.kernel) fuel kernel_start_address
          kernel_reserve_size env.mem []

    entered_at :
        (l : ℤ × Mem × Table)
        → load_result ≡ some l
        → load_and_enter env fuel kernel_start_address calls ≡ some r
        → Ready env fuel r e
    unfolding load_and_enter
    entered_at l f run =
        let step = behind _ _ _ r e refl (rw (load_and_enter, f) at run) enters in
        let step' = behind _ _ _ r e refl step.1 enters in
        let done = some-injective _ _ step'.1 in
        let entry = some-injective _ _ (ap (λ (x : Run). x.entry) done ∙ enters) in
        let code =
          succeeded l.0 (load_kernel-IsCode _ _ fuel kernel_start_address _ env.mem [] l f)
            step.0 in
        let all_caught : (install_trap_handlers env.sigaction).1 ≡ true = ground (arith, step'.0) in
        record {
          m = l.1;
          syms = l.2;
          no_help = no_help;
          no_errors = no_errors;
          drives = drives ∙ ap (λ (x : Run). (pos 0, x.calls)) done;
          traps = λ i. ((done i).caught, all_caught i);
          loaded = f ∙ (λ i. some (code i, l.1, l.2));
          enters = sym entry;
          refusal =
              subst (λ x. (get_symbols l.2 ≡ none) ↔ (x.rc ≡ minus_one)) entry
                (refuses env.dispatcher l.2 l.1);
        }

    load_and_enter-Ready :
        load_and_enter env fuel kernel_start_address calls ≡ some r → Ready env fuel r e
    unfolding load_and_enter
    load_and_enter-Ready run = elim (Option-cases load_result) [
      | inl n ↦ absurd (ground (arith, n))
      | inr (l, f) ↦ entered_at l f run
    ]

    start_kernel-Ready :
        (areas : List (Request × ℕ))
        → start_kernel env fuel areas kernel_start_address calls ≡ some r
        → Ready env fuel r e
    unfolding start_kernel
    start_kernel-Ready areas run = load_and_enter-Ready (
        loads
          (can_load (env.files env.parsed.kernel)
            (covers kernel_start_address kernel_reserve_size areas))
          _ r run)

-- If `main` enters the guest, then no help was asked for and no option was wrong, every drive
-- option was served, the kernel was loaded at 0x107c00, all three signals are caught, and the
-- entry is `loader_enter` on what the load left; it is refused exactly if a symbol is missing.
pub main-Ready :
    (env : Env) (fuel : ℕ) (r : Run) (e : Entered)
    → main env fuel ≡ some r
    → r.entry ≡ some e
    → Ready env fuel r e
unfolding main
main-Ready env fuel r e run enters =
    let mapped = init_memory_map env.mmap kernel_start_address kernel_reserve_size true in
    let drives = main_drives env.argv0 env.parsed.drives false false in
    let a = behind (is_negative mapped.rc) _ _ r e refl run enters in
    let b = behind (ltb 0 env.parsed.help) _ _ r e refl a.1 enters in
    let c = behind (ltb 0 env.parsed.nerrors) _ _ r e refl b.1 enters in
    let d = behind (is_negative drives.0) _ _ r e refl c.1 enters in
    let mapped_at =
      succeeded mapped.rc
        (init_memory_map-IsCode env.mmap kernel_start_address kernel_reserve_size true) a.0 in
    let served =
      succeeded drives.0 (main_drives-IsCode env.argv0 env.parsed.drives false false) d.0 in
    start_kernel-Ready env fuel r e enters drives.1 (ground (arith, b.0)) (ground (arith, c.0))
      (λ i. (served i, drives.1)) mapped.mapped (rw (kernel_at env.mmap mapped_at) at d.1)

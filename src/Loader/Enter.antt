-- ===== src/Loader/Enter.antt =====
-- What the entry into the runtime needs and does.
use templeos_loader.Prelude.{
  ℕ, ◌+◌, ◌%◌, ◌^◌, ◌≤◌, ◌<◌, ◌≡◌, ◌⊎◌, refl, arith, ◌∙◌, leb, none, some, [], ◌∷◌, pos, true,
  false, Option-cases, inl, inr,
}
use templeos_loader.Symtable.{Table}
use templeos_loader.MemoryMap.{int32_max}
use templeos_loader.LoadKernel.Memory.{Mem, load, store, load-store, load-store-apart}
use templeos_loader.Loader.{Symbols, Entered, get_symbols, refused, entered, loader_enter}

-- The runtime starts: its functions are called in order, with the dispatcher's address and the
-- base of the kernel's code in the guest's variables.
pub record Starts (dispatcher kernel_base : ℕ) (s : Symbols) (r : Entered) : Type 0 where
  pub returns : r.rc ≡ pos 0
  pub calls :
      r.called
      ≡ s.init_runtime ∷ s.init_runtime2 ∷ s.init_runtime3 ∷ s.runtime_load_compiler
        ∷ s.runtime_start_os ∷ []
  pub dispatcher_stored : load 8 s.dispatcher_at r.mem ≡ dispatcher
  pub base_stored : load 4 s.mem_boot_base r.mem ≡ kernel_base + 32

entered-Starts :
    (dispatcher kernel_base : ℕ) (m : Mem) (s : Symbols)
    → kernel_base < int32_max
    → dispatcher < 2 ^ 64
    → (s.mem_boot_base + 4 ≤ s.dispatcher_at) ⊎ (s.dispatcher_at + 8 ≤ s.mem_boot_base)
    → Starts dispatcher kernel_base s (entered dispatcher kernel_base m s)
entered-Starts dispatcher kernel_base m s low fits apart = record {
  returns = refl;
  calls = refl;
  dispatcher_stored = load-store 8 (s.dispatcher_at) dispatcher (with_base m) ∙ omega arith;
  base_stored =
      load-store-apart 4 8 (s.dispatcher_at) dispatcher (s.mem_boot_base) (with_base m) apart
      ∙ load-store 4 (s.mem_boot_base) ((kernel_base % 2 ^ 32 + 32) % 2 ^ 64) m
      ∙ omega arith;
}
  where
    with_base : Mem → Mem
    with_base = store 4 (s.mem_boot_base) ((kernel_base % 2 ^ 32 + 32) % 2 ^ 64)

-- Where the table has all seven symbols, the kernel's base is below INT32_MAX, the dispatcher's
-- address has 64 bits and the guest's two variables do not overlap, loader_enter calls the five
-- functions of the runtime in order and returns 0 behind them, with the dispatcher's address and
-- the base plus the 32 bytes of the header in those variables.
pub loader_enter-Starts :
    (dispatcher kernel_base : ℕ) (syms : Table) (m : Mem) (s : Symbols)
    → get_symbols syms ≡ some s
    → kernel_base < int32_max
    → dispatcher < 2 ^ 64
    → (s.mem_boot_base + 4 ≤ s.dispatcher_at) ⊎ (s.dispatcher_at + 8 ≤ s.mem_boot_base)
    → Starts dispatcher kernel_base s (loader_enter dispatcher kernel_base syms m)
unfolding loader_enter
loader_enter-Starts dispatcher kernel_base syms m s found low fits apart =
    rw (loader_enter, found, below) (entered-Starts dispatcher kernel_base m s low fits apart)
  where
    below : leb int32_max kernel_base ≡ false
    below = ground arith

-- Where a symbol is missing or the kernel's base is not below INT32_MAX, loader_enter stores
-- nothing, calls nothing and returns -1.
pub loader_enter-refused :
    (dispatcher kernel_base : ℕ) (syms : Table) (m : Mem)
    → (get_symbols syms ≡ none) ⊎ (int32_max ≤ kernel_base)
    → loader_enter dispatcher kernel_base syms m ≡ refused m
unfolding loader_enter
loader_enter-refused dispatcher kernel_base syms m (inl missing) = rw (loader_enter, missing) refl
loader_enter-refused dispatcher kernel_base syms m (inr high) =
    elim (Option-cases (get_symbols syms)) [
      | inl e ↦ rw (loader_enter, e) refl
      | inr (s, e) ↦ rw (loader_enter, e, above) refl
    ]
  where
    above : leb int32_max kernel_base ≡ true
    above = ground arith

-- ===== src/Loader.antt =====
-- get_symbol and loader_enter of loader.c: the entry into the guest's runtime. The runtime's functions
-- are the guest's, so what is modelled of their calls is which addresses are called, in what order.
pub mod Enter
mod Tests
use templeos_loader.Prelude.{
  ℕ, ◌+◌, ◌%◌, ◌^◌, leb, if◌then◌else◌, Option, none, some, List, [], ◌∷◌, CString, text, ℤ, pos,
  minus_one, ◌>>=◌,
}
use templeos_loader.Symtable.{Sym, Table, findsym}
use templeos_loader.MemoryMap.{int32_max}
use templeos_loader.LoadKernel.Memory.{Mem, store}
use templeos_loader.LoadKernel.Defs.{sizeof_bin_file}

unfoldable pub get_symbol : CString → Table → Option ℕ
unfolding findsym
get_symbol name syms = findsym name syms >>= λ s. some s.address

-- The addresses that `loader_enter` looks up.
pub record Symbols : Type 0 where
  pub init_runtime : ℕ
  pub init_runtime2 : ℕ
  pub init_runtime3 : ℕ
  pub dispatcher_at : ℕ
  pub mem_boot_base : ℕ
  pub runtime_load_compiler : ℕ
  pub runtime_start_os : ℕ

unfoldable pub get_symbols : Table → Option Symbols
unfolding get_symbol
get_symbols syms = do
  a ← get_symbol (text "InitRuntime") syms
  b ← get_symbol (text "_VKSTART64") syms
  c ← get_symbol (text "InitRuntime3") syms
  d ← get_symbol (text "_VSYSCALL_DISPATCHER") syms
  e ← get_symbol (text "mem_boot_base") syms
  f ← get_symbol (text "RuntimeLoadCompiler") syms
  g ← get_symbol (text "RuntimeStartOS") syms
  some (record {
    init_runtime = a;
    init_runtime2 = b;
    init_runtime3 = c;
    dispatcher_at = d;
    mem_boot_base = e;
    runtime_load_compiler = f;
    runtime_start_os = g;
  })

pub record Entered : Type 0 where
  pub rc : ℤ
  pub mem : Mem
  pub called : List ℕ

abbrev pub refused : Mem → Entered
refused m = record { rc = minus_one; mem = m; called = [] }

abbrev pub entered : ℕ → ℕ → Mem → Symbols → Entered
entered dispatcher kernel_base m s = record {
  rc = pos 0;
  mem =
      store 8 s.dispatcher_at dispatcher
        (store 4 s.mem_boot_base ((kernel_base % 2 ^ 32 + sizeof_bin_file) % 2 ^ 64) m);
  called =
      s.init_runtime ∷ s.init_runtime2 ∷ s.init_runtime3 ∷ s.runtime_load_compiler
      ∷ s.runtime_start_os ∷ [];
}

unfoldable pub loader_enter : ℕ → ℕ → Table → Mem → Entered
unfolding get_symbols
loader_enter dispatcher kernel_base syms m = elim (get_symbols syms) [
  | none ↦ refused m
  | some s ↦ if leb int32_max kernel_base then refused m else entered dispatcher kernel_base m s
]

-- ===== src/Loader/Tests.antt =====
-- The entry into the runtime at a concrete table of symbols.
use templeos_loader.Prelude.{◌≡◌, refl, some, [], ◌∷◌, text, inr, arith, str_eq}
use templeos_loader.Symtable.{Table, findsym}
use templeos_loader.LoadKernel.Memory.{Mem}
use templeos_loader.Loader.{Symbols, get_symbol, get_symbols, loader_enter}
use templeos_loader.Loader.Enter.{Starts, loader_enter-Starts}

abbrev empty : Mem
empty q = 0

abbrev kernel : Table
kernel =
    record { module_name = text "Kernel"; name = text "RuntimeStartOS"; address = 0x7000 }
    ∷ record { module_name = text "Kernel"; name = text "RuntimeLoadCompiler"; address = 0x6000 }
    ∷ record { module_name = text "Kernel"; name = text "mem_boot_base"; address = 0x5000 }
    ∷ record { module_name = text "Kernel"; name = text "_VSYSCALL_DISPATCHER"; address = 0x4000 }
    ∷ record { module_name = text "Kernel"; name = text "InitRuntime3"; address = 0x3000 }
    ∷ record { module_name = text "Kernel"; name = text "_VKSTART64"; address = 0x2000 }
    ∷ record { module_name = text "Kernel"; name = text "InitRuntime"; address = 0x1000 }
    ∷ []

abbrev symbols : Symbols
symbols = record {
  init_runtime = 0x1000;
  init_runtime2 = 0x2000;
  init_runtime3 = 0x3000;
  dispatcher_at = 0x4000;
  mem_boot_base = 0x5000;
  runtime_load_compiler = 0x6000;
  runtime_start_os = 0x7000;
}

kernel-symbols : get_symbols kernel ≡ some symbols
unfolding get_symbols get_symbol findsym str_eq
kernel-symbols = refl

loader_enter-Starts_example :
    Starts 0x400000 0x107c00 symbols (loader_enter 0x400000 0x107c00 kernel empty)
loader_enter-Starts_example =
    loader_enter-Starts 0x400000 0x107c00 kernel empty symbols kernel-symbols (omega arith)
      (omega arith) (inr (omega arith))

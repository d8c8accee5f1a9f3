-- ===== src/Main/Tests.antt =====
-- The program at a concrete kernel, which exports the symbols of the runtime.
use templeos_loader.Prelude.{
  ℕ, ◌≡◌, refl, true, none, some, List, [], ◌∷◌, ◌++◌, CString, text, pos, minus_one, str_eq,
}
use templeos_loader.Symtable.{addsym, findsym}
use templeos_loader.MemoryMap.{init_memory_map, align_up}
use templeos_loader.Drives.{main_drives, parse_drive}
use templeos_loader.Host.{Thunks}
use templeos_loader.LoadKernel.Memory.{store_bytes, load, cstring}
use templeos_loader.LoadKernel.Defs.{load_kernel, kind}
use templeos_loader.LoadKernel.Loop.{Entry}
use templeos_loader.LoadKernel.Items.{Item, plain, encode_items}
use templeos_loader.Loader.{Symbols, Entered, refused, loader_enter}
use templeos_loader.Trap.{install_trap_handlers}
use templeos_loader.Main.{Env, Run, covers, load_and_enter, start_kernel, main}
use templeos_loader.Main.Enters.{Ready, main-Ready}

abbrev thunks : Thunks
thunks = record {
  host_get_api_version = 0x5000;
  host_get_env = 0x5010;
  host_get_local_time = 0x5020;
  host_inject_statically_linked_symbols = 0x5030;
}

abbrev export_of : CString → ℕ → Entry
export_of name at = record { etype_pred = 15; word_field = at; name = name }

abbrev head : List ℕ
head =
    0 ∷ 0 ∷ 0 ∷ 0 ∷ 0 ∷ 0 ∷ 0 ∷ 0 ∷ 0 ∷ 0 ∷ 0 ∷ 0 ∷ 0 ∷ 0 ∷ 0 ∷ 0 ∷ 32 ∷ 0 ∷ 0 ∷ 0 ∷ 0 ∷ 0 ∷ 0 ∷ 0
    ∷ 0 ∷ 0 ∷ 0 ∷ 0 ∷ 0 ∷ 0 ∷ 0 ∷ 0 ∷ []

abbrev kernel : List Item
kernel =
    plain (export_of (text "InitRuntime") 0x100)
    ∷ plain (export_of (text "_VKSTART64") 0x110)
    ∷ plain (export_of (text "InitRuntime3") 0x120)
    ∷ plain (export_of (text "_VSYSCALL_DISPATCHER") 0x130)
    ∷ plain (export_of (text "mem_boot_base") 0x140)
    ∷ plain (export_of (text "RuntimeLoadCompiler") 0x150)
    ∷ plain (export_of (text "RuntimeStartOS") 0x160)
    ∷ []

abbrev env : Env
env = record {
  argv0 = text "templeos-loader";
  parsed = record { help = 0; nerrors = 0; drives = text "C,/tos" ∷ []; kernel = text "KMain.BIN" };
  mmap = λ mapped r. some r.hint;
  files = λ name. some (head ++ (encode_items kernel ++ []));
  sigaction = λ s. true;
  thunks = thunks;
  dispatcher = 0x400000;
  mem = λ q. 0;
}

abbrev stopped_run : Run
stopped_run = record { exitcode = minus_one; calls = []; caught = []; entry = none }

abbrev run : Run
run = elim (main env 200) [ none ↦ stopped_run | some r ↦ r ]

abbrev entry : Entered
entry = elim (run.entry) [ none ↦ refused (λ q. 0) | some e ↦ e ]

main-Ready_example : Ready env 200 run entry
unfolding main start_kernel load_and_enter covers init_memory_map align_up main_drives parse_drive
    load_kernel install_trap_handlers loader_enter store_bytes load cstring kind addsym str_eq
main-Ready_example = main-Ready env 200 run entry refl refl

guest_entered : entry.rc ≡ pos 0
unfolding main start_kernel load_and_enter covers init_memory_map align_up main_drives parse_drive
    load_kernel install_trap_handlers loader_enter store_bytes load cstring kind addsym str_eq
    findsym
guest_entered = refl

abbrev symbols : Symbols
symbols = record {
  init_runtime = 0x107d20;
  init_runtime2 = 0x107d30;
  init_runtime3 = 0x107d40;
  dispatcher_at = 0x107d50;
  mem_boot_base = 0x107d60;
  runtime_load_compiler = 0x107d70;
  runtime_start_os = 0x107d80;
}

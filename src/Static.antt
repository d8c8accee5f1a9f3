-- ===== src/Static.antt =====
-- The program of the static build, mainstatic.c: its export table, and `main`.
pub mod Exports
mod Tests
use Prim.Native.Nat.{bit_or}
use templeos_loader.Prelude.{
  ℕ, zero, suc, ◌+◌, Bool, true, false, Option, none, some, List, [], ◌∷◌, ◌++◌, CString, text, ℤ,
  pos, negsuc, minus_one, ltb, length, ◌==◌, if◌then◌else◌, ◌>>=◌,
}
use templeos_loader.MemoryMap.{init_memory_map}
use templeos_loader.Drives.{Call, main_drives}
use templeos_loader.LoadKernel.Memory.{Mem, cstring, load}
use templeos_loader.Trap.{Signal, install_trap_handlers}
use templeos_loader.Main.{Env, is_negative}

-- The loop of `inject_extra_symbols` over the table from `p` to `end`, on fuel: the calls of
-- HashAddSysSym.
unfoldable pub inject_extra_symbols : ℕ → (p end : ℕ) → Mem → Option (List (CString × ℕ))
inject_extra_symbols zero p end m = none
inject_extra_symbols (suc fuel) p end m = elim (p == end) [
  | true ↦ some []
  | false ↦ cstring (suc fuel) p m >>= λ name.
      let addr = p + length name + 1 in
      inject_extra_symbols fuel (addr + 4) end m >>= λ rest. some ((name, load 4 addr m) ∷ rest)
]

-- What `main` does to the guest, in order: stores into its variables, calls of its functions, and
-- the flag that it sets in `sys_run_level`.
pub data Action : Type 0 where
  store_mem_boot_base : ℕ → Action
  store_vsyscall_dispatcher : ℕ → Action
  call_function : CString → Action
  or_sys_run_level : ℕ → Action

pub record StaticRun : Type 0 where
  pub exitcode : ℤ
  pub calls : List Call
  pub caught : List Signal
  pub actions : List Action

abbrev pub rlf_compiler : ℕ
rlf_compiler = 0x001000

abbrev pub start_actions : ℕ → List Action
start_actions dispatcher =
    store_mem_boot_base 0
    ∷ store_vsyscall_dispatcher dispatcher
    ∷ call_function (text "InitRuntime")
    ∷ call_function (text "_VKSTART64")
    ∷ call_function (text "InitRuntime3")
    ∷ call_function (text "Cd")
    ∷ call_function (text "CompilerInit")
    ∷ or_sys_run_level rlf_compiler
    ∷ call_function (text "RuntimeStartOS")
    ∷ []

abbrev pub static_stopped : ℤ → List Call → List Signal → StaticRun
static_stopped code calls caught = record {
  exitcode = code;
  calls = calls;
  caught = caught;
  actions = [];
}

unfoldable pub static_main : Env → StaticRun
static_main env =
    let mapped = init_memory_map env.mmap 0 0 false in
    let drives = main_drives env.argv0 env.parsed.drives false false in
    let traps = install_trap_handlers env.sigaction in
    if is_negative mapped.rc
    then static_stopped minus_one [] []
    else if ltb 0 env.parsed.help
    then static_stopped (pos 0) [] []
    else if ltb 0 env.parsed.nerrors
    then static_stopped (pos 1) [] []
    else if is_negative drives.0
    then static_stopped minus_one drives.1 []
    else if traps.1
    then record {
      exitcode = pos 0;
      calls = drives.1;
      caught = traps.0;
      actions = start_actions env.dispatcher;
    }
    else static_stopped (pos 1) drives.1 traps.0

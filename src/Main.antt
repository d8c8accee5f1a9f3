-- ===== src/Main.antt =====
-- The program of main.c from the start to the entry into the guest. The option parser, a library,
-- is what it returns.
pub mod Codes
pub mod Enters
pub mod Starts
mod Tests
use templeos_loader.Prelude.{
  ℕ, Bool, true, false, Option, none, some, List, [], CString, ℤ, pos, negsuc, minus_one, ltb, leb,
  not, ◌∷◌, ◌+◌, ◌&&◌, ◌||◌, if◌then◌else◌, ◌>>=◌,
}
use templeos_loader.MemoryMap.{Request, Mmap, init_memory_map}
use templeos_loader.Drives.{Call, main_drives}
use templeos_loader.Host.{Thunks}
use templeos_loader.LoadKernel.Memory.{Mem}
use templeos_loader.LoadKernel.Defs.{load_kernel}
use templeos_loader.Loader.{Entered, loader_enter}
use templeos_loader.Trap.{Signal, install_trap_handlers}

-- What `arg_parse` found: how often `--help` stands, the errors, the values of `--drive` and the
-- kernel's file name.
pub record Parsed : Type 0 where
  pub help : ℕ
  pub nerrors : ℕ
  pub drives : List CString
  pub kernel : CString

-- What the program finds outside: the linker's addresses, the kernel's answers, the files, and
-- memory as the mappings leave it.
pub record Env : Type 0 where
  pub argv0 : CString
  pub parsed : Parsed
  pub mmap : Mmap
  pub files : CString → Option (List ℕ)
  pub sigaction : Signal → Bool
  pub thunks : Thunks
  pub dispatcher : ℕ
  pub mem : Mem

-- The exit code, the calls into PhysFS, the signals caught, and the entry into the runtime.
pub record Run : Type 0 where
  pub exitcode : ℤ
  pub calls : List Call
  pub caught : List Signal
  pub entry : Option Entered

abbrev pub stopped : ℤ → List Call → List Signal → Run
stopped code calls caught = record { exitcode = code; calls = calls; caught = caught; entry = none }

abbrev pub is_negative : ℤ → Bool
is_negative (pos n) = false
is_negative (negsuc n) = true

-- A pointer, 0 where nothing was stored in it.
abbrev pub or_null : Option ℕ → ℕ
or_null none = 0
or_null (some p) = p

abbrev pub kernel_start_address : ℕ
kernel_start_address = 0x107c00

abbrev pub kernel_reserve_size : ℕ
kernel_reserve_size = 0x40000

-- An area that was mapped has the `n` bytes at `p`.
unfoldable pub covers : ℕ → ℕ → List (Request × ℕ) → Bool
covers p n [] = false
covers p n ((r, at) ∷ areas) = leb at p && leb (p + n) (at + r.size) || covers p n areas

-- A file that cannot be opened is not read into memory.
abbrev pub can_load : Option (List ℕ) → Bool → Bool
can_load none mapped = true
can_load (some file) mapped = mapped

-- The load of the kernel and the entry into the guest.
unfoldable pub load_and_enter : Env → ℕ → ℕ → List Call → Option Run
load_and_enter env fuel kernel_base calls =
    load_kernel env.thunks (env.files env.parsed.kernel) fuel kernel_base kernel_reserve_size
      env.mem []
    >>= λ loaded.
        let traps = install_trap_handlers env.sigaction in
        if is_negative loaded.0
        then some (stopped minus_one calls [])
        else if not traps.1
        then some (stopped (pos 1) calls traps.0)
        else some (record {
          exitcode = pos 0;
          calls = calls;
          caught = traps.0;
          entry = some (loader_enter env.dispatcher kernel_base loaded.2 loaded.1);
        })

-- The part of `main` behind the drives, with the areas that are mapped.
unfoldable pub start_kernel : Env → ℕ → List (Request × ℕ) → ℕ → List Call → Option Run
unfolding covers load_and_enter
start_kernel env fuel areas kernel_base calls =
    if can_load (env.files env.parsed.kernel) (covers kernel_base kernel_reserve_size areas)
    then load_and_enter env fuel kernel_base calls
    else none

-- `main`, with fuel for the patch table of the kernel. None is a walk over the patch table that
-- the fuel does not cover, and a kernel that is read to where no memory is mapped.
unfoldable pub main : Env → ℕ → Option Run
unfolding start_kernel
main env fuel =
    let mapped = init_memory_map env.mmap kernel_start_address kernel_reserve_size true in
    let drives = main_drives env.argv0 env.parsed.drives false false in
    if is_negative mapped.rc
    then some (stopped minus_one [] [])
    else if ltb 0 env.parsed.help
    then some (stopped (pos 0) [] [])
    else if ltb 0 env.parsed.nerrors
    then some (stopped (pos 1) [] [])
    else if is_negative drives.0
    then some (stopped minus_one drives.1 [])
    else start_kernel env fuel mapped.mapped (or_null mapped.kernel_out) drives.1

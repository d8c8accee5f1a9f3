-- ===== src/Main/Starts.antt =====
-- A start that succeeds: from the image to the entry into the runtime.
use templeos_loader.Prelude.{ℕ, ◌+◌, some, List, [], take, pos, false}
use templeos_loader.Symtable.{Table}
use templeos_loader.Drives.{main_drives}
use templeos_loader.LoadKernel.Memory.{Mem, store_bytes}
use templeos_loader.LoadKernel.Defs.{sizeof_bin_file}
use templeos_loader.LoadKernel.Items.{Item, apply_items}
use templeos_loader.LoadKernel.Image.{image}
use templeos_loader.Loader.{Symbols, entered}
use templeos_loader.Trap.{install_trap_handlers}
use templeos_loader.Main.{Env, Run, kernel_start_address, kernel_reserve_size}

module _ (env : Env) (fuel : ℕ) (head tail : List ℕ) (is : List Item) (s : Symbols) where
  -- Memory and symbols behind the load of the image.
  abbrev pub loaded : Mem × Table
  loaded =
      apply_items env.thunks (kernel_start_address + sizeof_bin_file) is
        (store_bytes kernel_start_address (take kernel_reserve_size (image env.thunks head tail is))
          env.mem)
        []

  abbrev pub started : Run
  started = record {
    exitcode = pos 0;
    calls = (main_drives env.argv0 env.parsed.drives false false).1;
    caught = (install_trap_handlers env.sigaction).0;
    entry = some (entered env.dispatcher kernel_start_address loaded.0 s);
  }

-- ===== src/Trap.antt =====
-- The trap handlers of loader.c: `handler`, which replaces a CLI instruction of the guest by a NOP,
-- `bugcheck`, which prints the stack of the guest, and `install_trap_handlers`.
pub mod Patch
pub mod Walk
mod Tests
use templeos_loader.Prelude.{
  ℕ, zero, suc, ◌+◌, ◌-◌, ◌%◌, ◌^◌, Bool, true, false, Option, none, some, List, [], ◌∷◌, ◌==◌, ltb,
  if◌then◌else◌, CString,
}
use templeos_loader.Symtable.{Sym, Table, lookupsym}
use templeos_loader.MemoryMap.{flat_start, flat_size}
use templeos_loader.LoadKernel.Memory.{Mem, store_byte, load}

pub data Signal : Type 0 where
  fpe segv ill : Signal

pub record Context : Type 0 where
  pub rip : ℕ
  pub rbp : ℕ

-- One line of the report: the frame, the address, and the symbol with the offset from it.
pub record Line : Type 0 where
  pub frame : ℕ
  pub addr : ℕ
  pub symbol : Option (CString × CString × ℕ)

-- The guest goes on, the process is killed by a fault within the handler, the report is printed and
-- the process exits, or lines are printed and a write into the pipe blocks for ever.
pub data Handled : Type 0 where
  resumed : Mem → Handled
  killed : Handled
  reported : List Line → Handled
  blocked : List Line → Handled

unfoldable pub line : Table → ℕ → ℕ → Line
unfolding lookupsym
line syms frame addr = record {
  frame = frame;
  addr = addr;
  symbol = elim (lookupsym addr syms) [
    | none ↦ none
    | some s ↦ some (s.module_name, s.name, addr - s.address)
  ];
}

abbrev x86_cli : ℕ
x86_cli = 0xFA

abbrev nop : ℕ
nop = 0x90

-- `readable p n` says whether `n` bytes at `p` can be read; what the kernel says of the probe
-- through the pipe.
module _ (readable : ℕ → ℕ → Bool) (syms : Table) (m : Mem) where
  -- The loop of `bugcheck`, with room in the pipe for so many more probes of 16 bytes: the lines,
  -- and whether the loop ends. Nothing reads the pipe, and a write into a full one blocks.
  unfoldable pub walk : ℕ → ℕ → ℕ → List Line × Bool
  unfolding line load
  walk zero frame addr = (line syms frame addr ∷ [], false)
  walk (suc room) frame addr =
      let rest = walk room (load 8 frame m) (load 8 (frame + 8) m) in
      if readable frame 16
      then (line syms frame addr ∷ rest.0, rest.1)
      else (line syms frame addr ∷ [], true)

  unfoldable pub bugcheck : ℕ → Context → Handled
  unfolding walk
  bugcheck room u =
      let walked = walk room u.rbp u.rip in if walked.1 then reported walked.0 else blocked walked.0

  unfoldable pub handler : ℕ → Signal → Context → Handled
  unfolding bugcheck store_byte
  handler room fpe u = bugcheck room u
  handler room segv u =
      if ltb u.rip (flat_start + flat_size)
      then (elim (readable u.rip 1) [
        | false ↦ killed
        | true ↦ if m u.rip == x86_cli then resumed (store_byte u.rip nop m) else bugcheck room u
      ])
      else bugcheck room u
  handler room ill u = bugcheck room u

-- The signals in the order of the calls of `sigaction`, which fails for some; behind them the FS
-- base is saved. The result is false where the process exits with 1.
unfoldable pub install : (Signal → Bool) → List Signal → List Signal × Bool
install sigaction [] = ([], true)
install sigaction (s ∷ ss) =
    let rest = install sigaction ss in if sigaction s then (s ∷ rest.0, rest.1) else ([], false)

unfoldable pub install_trap_handlers : (Signal → Bool) → List Signal × Bool
unfolding install
install_trap_handlers sigaction = install sigaction (segv ∷ fpe ∷ ill ∷ [])

-- ===== src/Trap/Patch.antt =====
-- The replacement of a CLI instruction.
use templeos_loader.Prelude.{ℕ, ◌+◌, ◌<◌, ◌≡◌, ◌≢◌, arith, Bool, true, Bool-cases, inl, inr}
use templeos_loader.Symtable.{Table}
use templeos_loader.MemoryMap.{flat_start, flat_size}
use templeos_loader.LoadKernel.Memory.{Mem, store_byte}
use templeos_loader.Trap.{segv, Context, resumed, bugcheck, handler, walk}

module _ (readable : ℕ → ℕ → Bool) (syms : Table) (m : Mem) (room : ℕ) (u : Context) where
  -- The patched instruction is one that is executed again, as a NOP, and no other byte changes.
  pub record Patched (m' : Mem) : Type 0 where
    pub now_nop : m' u.rip ≡ 0x90
    pub others : (q : ℕ) → q ≢ u.rip → m' q ≡ m q

  -- The instruction is a CLI below the end of the guest's memory, where it can be read.
  pub record IsCli : Type 0 where
    pub can_read : readable u.rip 1 ≡ true
    pub low : u.rip < flat_start + flat_size
    pub cli : m u.rip ≡ 0xFA

  bugcheck-ne-resumed : (m' : Mem) → bugcheck readable syms m room u ≢ resumed m'
  unfolding bugcheck
  bugcheck-ne-resumed m' e = elim (Bool-cases (walk readable syms m room u.rbp u.rip).1) [
    | inl ends ↦ absurd (ground (arith, ends))
    | inr blocks ↦ absurd (ground (arith, blocks))
  ]

  resumes : IsCli → handler readable syms m room segv u ≡ resumed (store_byte u.rip 0x90 m)
  unfolding handler
  resumes c = ground (arith, c.can_read, c.low, c.cli)

  store-Patched : Patched (store_byte u.rip 0x90 m)
  unfolding store_byte
  store-Patched = record { now_nop = ground arith; others = λ q ne. ground arith }

  only_cli : (m' : Mem) → handler readable syms m room segv u ≡ resumed m' → IsCli
  unfolding handler
  only_cli m' e = ground (arith, bugcheck-ne-resumed m')

  -- On a SIGSEGV the guest goes on exactly if the instruction is a CLI below the end of the guest's
  -- memory that can be read; then it is a NOP, and no other byte has changed.
  pub handler_resumes :
      (IsCli → (m' : Mem) × (handler readable syms m room segv u ≡ resumed m') × Patched m')
      × ((m' : Mem) → handler readable syms m room segv u ≡ resumed m' → IsCli)
  handler_resumes = (λ c. (store_byte u.rip 0x90 m, resumes c, store-Patched), only_cli)

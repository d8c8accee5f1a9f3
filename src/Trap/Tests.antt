-- ===== src/Trap/Tests.antt =====
-- The trap handlers at a concrete memory.
use templeos_loader.Prelude.{
  ℕ, ◌+◌, ◌≡◌, leb, ◌&&◌, Bool, true, false, ◌↔◌, length, List, [], ◌∷◌, ◌<◌, refl, arith, text,
}
use templeos_loader.Symtable.{Table}
use templeos_loader.LoadKernel.Memory.{Mem, store, store_byte, load}
use templeos_loader.Trap.{Context, segv, resumed, handler, walk}
use templeos_loader.Trap.Patch.{IsCli, Patched, handler_resumes}
use templeos_loader.Trap.Walk.{IsChain, Linked, lines_of, walk_ends_iff, walk_blocks}

-- A CLI at 0x1000, and frames at 0x7000 and 0x7100, the second of which ends the chain.
abbrev memory : Mem
memory = store_byte 0x1000 0xFA (
    store 8 0x7000 0x7100
      (store 8 0x7008 0x1050 (store 8 0x7100 0x9000 (store 8 0x7108 0x1060 (λ q. 0)))))

abbrev readable : ℕ → ℕ → Bool
readable p n = leb 0x1000 p && leb (p + n) 0x8000

abbrev syms : Table
syms = record { module_name = text "Kernel"; name = text "Main"; address = 0x1040 } ∷ []

abbrev context : Context
context = record { rip = 0x1000; rbp = 0x7000 }

handler_resumes_example :
    (IsCli readable syms memory 10 context
      → (m' : Mem) × (handler readable syms memory 10 segv context ≡ resumed m')
        × Patched readable syms memory 10 context m')
    × ((m' : Mem)
        → handler readable syms memory 10 segv context ≡ resumed m'
        → IsCli readable syms memory 10 context)
handler_resumes_example = handler_resumes readable syms memory 10 context

resumed_here :
    (m' : Mem) × (handler readable syms memory 10 segv context ≡ resumed m')
    × Patched readable syms memory 10 context m'
unfolding store_byte
resumed_here =
    (handler_resumes readable syms memory 10 context).0
      (record { can_read = refl; low = omega arith; cli = refl })

abbrev chain : List (ℕ × ℕ)
chain = (0x7100, 0x1050) ∷ (0x9000, 0x1060) ∷ []

walk_ends_iff_example :
    ((walk readable syms memory 2 0x7000 0x1044).1 ≡ true)
    ↔ ((chain : List (ℕ × ℕ)) × (length chain < 2) × IsChain readable syms memory 0x7000 chain)
walk_ends_iff_example = walk_ends_iff readable syms memory 2 0x7000 0x1044

walk_blocks_example :
    walk readable syms memory 2 0x7000 0x1044
    ≡ (lines_of readable syms memory 0x7000 0x1044 chain, false)
unfolding Linked load store store_byte
walk_blocks_example =
    walk_blocks readable syms memory 2 0x7000 0x1044 0x9000 chain refl
      (refl, refl, refl, (refl, refl, refl, refl))

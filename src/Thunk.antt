-- ===== src/Thunk.antt =====
-- The thunks of thunk.h, through which the guest calls the loader's functions: they save the
-- registers that the guest's convention preserves and the host's does not, take the argument from
-- the guest's stack, and remove it on return. The machine is x86-64 as far as they use it. Memory
-- is a function from addresses to 64-bit words: all accesses are 8 bytes at multiples of 8 from
-- the stack pointer. The call of the C function is a function on the machine.
pub mod Saves
pub mod Wrapped
pub mod Returns
pub mod Guest
pub mod Import
pub mod Export
mod Tests
use templeos_loader.Prelude.{ℕ, ◌+◌, ◌-◌, ◌%◌, ◌^◌, ◌==◌, if◌then◌else◌, List, [], ◌∷◌}

-- Registers by their numbers in the instruction set; 4 is the stack pointer, which stands apart.
abbrev pub rax : ℕ
rax = 0

abbrev pub rcx : ℕ
rcx = 1

abbrev pub rdx : ℕ
rdx = 2

abbrev pub rbx : ℕ
rbx = 3

abbrev pub rsi : ℕ
rsi = 6

abbrev pub rdi : ℕ
rdi = 7

abbrev pub r8 : ℕ
r8 = 8

abbrev pub r9 : ℕ
r9 = 9

abbrev pub r10 : ℕ
r10 = 10

abbrev pub r11 : ℕ
r11 = 11

pub record Machine : Type 0 where
  pub reg : ℕ → ℕ
  pub rsp : ℕ
  pub mem : ℕ → ℕ
  pub rip : ℕ

pub data Instr : Type 0 where
  push : ℕ → Instr
  pop : ℕ → Instr
  mov_from_stack : ℕ → ℕ → Instr
  mov_from : ℕ → ℕ → Instr
  call : Instr
  retq : ℕ → Instr

abbrev pub set_at : ℕ → ℕ → (ℕ → ℕ) → ℕ → ℕ
set_at p v f q = if q == p then v else f q

abbrev pub up : ℕ → ℕ → ℕ
up rsp n = (rsp + n) % 2 ^ 64

abbrev pub down : ℕ → ℕ
down rsp = (rsp + 2 ^ 64 - 8) % 2 ^ 64

module _ (func : Machine → Machine) where
  unfoldable pub step : Instr → Machine → Machine
  step (push r) m = record m { rsp = down m.rsp; mem = set_at (down m.rsp) (m.reg r) m.mem }
  step (pop r) m = record m { rsp = up m.rsp 8; reg = set_at r (m.mem m.rsp) m.reg }
  step (mov_from_stack offset r) m = record m { reg = set_at r (m.mem (up m.rsp offset)) m.reg }
  step (mov_from p r) m = record m { reg = set_at r (m.mem p) m.reg }
  step call m = func m
  step (retq n) m = record m { rip = m.mem m.rsp; rsp = up m.rsp (8 + n) }

  unfoldable pub run : List Instr → Machine → Machine
  run [] m = m
  run (i ∷ is) m = run is (step i m)

-- MAKE_THUNK0 and MAKE_THUNK1
abbrev pub thunk0 : List Instr
thunk0 =
    push rdi
    ∷ push rsi
    ∷ push rdx
    ∷ push rcx
    ∷ push r8
    ∷ push r9
    ∷ push r10
    ∷ push r11
    ∷ call
    ∷ pop r11
    ∷ pop r10
    ∷ pop r9
    ∷ pop r8
    ∷ pop rcx
    ∷ pop rdx
    ∷ pop rsi
    ∷ pop rdi
    ∷ retq 0
    ∷ []

abbrev pub thunk1 : List Instr
thunk1 =
    push rdi
    ∷ push rsi
    ∷ push rdx
    ∷ push rcx
    ∷ push r8
    ∷ push r9
    ∷ push r10
    ∷ push r11
    ∷ mov_from_stack 72 rdi
    ∷ call
    ∷ pop r11
    ∷ pop r10
    ∷ pop r9
    ∷ pop r8
    ∷ pop rcx
    ∷ pop rdx
    ∷ pop rsi
    ∷ pop rdi
    ∷ retq 8
    ∷ []

-- ===== src/Thunk/Returns.antt =====
-- The thunks from the guest's call to the return into the guest.
use templeos_loader.Prelude.{
  ℕ, ◌+◌, ◌^◌, ◌≤◌, ◌<◌, ◌≡◌, ◌⊎◌, inl, inr, refl, arith, ap, ◌∙◌, List, [], ◌∷◌, ◌*◌, length,
}
use templeos_loader.Thunk.{
  Machine, mov_from_stack, retq, step, run, up, thunk0, thunk1, rax, rcx, rdx, rsi, rdi, r8, r9,
  r10, r11,
}
use templeos_loader.Thunk.Wrapped.{back_returns, back_pops, back_saved, back_other}
use templeos_loader.Thunk.Saves.{Frames, In, savings, pushes, pushes_lem, set_at_other}

-- The registers that the thunks save.
abbrev pub saved : List ℕ
saved = rdi ∷ rsi ∷ rdx ∷ rcx ∷ r8 ∷ r9 ∷ r10 ∷ r11 ∷ []

-- rbx, rbp and r12 to r15
abbrev pub callee_saved : List ℕ
callee_saved = 3 ∷ 5 ∷ 12 ∷ 13 ∷ 14 ∷ 15 ∷ []

-- A function of the System V convention: it returns with the stack pointer as it was, keeps the
-- registers that are the callee's to save, and does not write into its caller's frame, which is
-- here the thunk's eight words and the guest's return address.
pub record IsSysV (func : Machine → Machine) : Type 0 where
  pub frame : Frames 0 72 func
  pub registers : (m : Machine) (r : ℕ) → In r callee_saved → (func m).reg r ≡ m.reg r

-- The call from the guest's side: it returns to its return address with `popped` bytes of
-- arguments taken from the stack, the registers `regs` and those that a callee saves as they were, and in rax what the function
-- returned that was entered in a state `entry`.
pub record Returned (func : Machine → Machine) (regs : List ℕ) (popped : ℕ) (entry m m' : Machine)
    : Type 0 where
  pub returns : m'.rip ≡ m.mem m.rsp
  pub pops : m'.rsp ≡ m.rsp + 8 + popped
  pub restores : (x : ℕ) → In x regs ⊎ In x callee_saved → m'.reg x ≡ m.reg x
  pub result : m'.reg rax ≡ (func entry).reg rax

module _ (func : Machine → Machine) (sysv : IsSysV func) where
  abbrev with_argument : Machine → Machine
  with_argument m = func (step func (mov_from_stack 72 rdi) m)

  with_argument-Frames : Frames 0 72 with_argument
  unfolding step
  with_argument-Frames = record {
    rsp_kept = λ m. sysv.frame.rsp_kept (step func (mov_from_stack 72 rdi) m);
    mem_kept = λ m. sysv.frame.mem_kept (step func (mov_from_stack 72 rdi) m);
  }

  with_argument_registers :
      (m : Machine) (r : ℕ) → In r callee_saved → (with_argument m).reg r ≡ m.reg r
  unfolding step In
  with_argument_registers m r c =
      sysv.registers (step func (mov_from_stack 72 rdi) m) r c
      ∙ set_at_other rdi (m.mem (up m.rsp 72)) r m.reg (λ e. ground arith)

module _ (func : Machine → Machine) (regs : List ℕ)
    (apart : (x : ℕ) → In x callee_saved ⊎ (x ≡ rax) → ¬ (In x regs)) (body : Machine → Machine)
    (popped : ℕ) (frame : Frames 0 (8 * length regs + 8) body)
    (registers : (m : Machine) (r : ℕ) → In r callee_saved → (body m).reg r ≡ m.reg r) (m : Machine)
    (low : 8 * length regs ≤ m.rsp) (high : m.rsp + 8 + popped < 2 ^ 64) where
  abbrev pub back : Machine
  back = step func (retq popped) (savings func regs body m)

  back_restores : (x : ℕ) → In x regs ⊎ In x callee_saved → back.reg x ≡ m.reg x
  back_restores x (inl s) = back_saved func regs body popped 0 frame m (omega arith) high x s
  back_restores x (inr c) =
      back_other func regs body popped 0 frame m (omega arith) high x (apart x (inl c))
      ∙ registers (pushes func regs m) x c
      ∙ ap (λ (f : ℕ → ℕ). f x) (pushes_lem func regs m low (omega arith)).0

  pub back-Returned :
      (entry : Machine)
      → (body (pushes func regs m)).reg rax ≡ (func entry).reg rax
      → Returned func regs popped entry m back
  back-Returned entry e = record {
    returns = back_returns func regs body popped 0 frame m (omega arith) high;
    pops = back_pops func regs body popped 0 frame m (omega arith) high;
    restores = back_restores;
    result =
        back_other func regs body popped 0 frame m (omega arith) high rax (apart rax (inr refl))
        ∙ e;
  }

apart : (x : ℕ) → In x callee_saved ⊎ (x ≡ rax) → ¬ (In x saved)
unfolding In
apart x c s = ground arith

-- Through thunk0, with room for eight words on the stack, a function of the System V convention
-- returns to the guest as the guest's convention wants it, with nothing taken from the stack.
pub thunk0-Returned :
    (func : Machine → Machine) (m : Machine)
    → IsSysV func
    → 64 ≤ m.rsp
    → m.rsp + 8 < 2 ^ 64
    → (entry : Machine) × (entry.reg ≡ m.reg) × Returned func saved 0 entry m (run func thunk0 m)
unfolding run step
thunk0-Returned func m sysv low high = (
  pushes func saved m,
  (pushes_lem func saved m low (omega arith)).0,
  back-Returned func saved apart func 0 sysv.frame sysv.registers m low (omega arith)
      (pushes func saved m) refl,
)

-- Through thunk1, with room for eight words on the stack, a function of the System V convention
-- is entered with the guest's argument in rdi, and returns to the guest as the guest's convention
-- wants it, with the argument taken from the stack.
pub thunk1-Returned :
    (func : Machine → Machine) (m : Machine)
    → IsSysV func
    → 64 ≤ m.rsp
    → m.rsp + 16 < 2 ^ 64
    → (entry : Machine) × (entry.reg rdi ≡ m.mem (m.rsp + 8))
      × Returned func saved 8 entry m (run func thunk1 m)
unfolding run step
thunk1-Returned func m sysv low high = (
  step func (mov_from_stack 72 rdi) (pushes func saved m),
  ap (pushes func saved m).mem argument
      ∙ (pushes_lem func saved m low (omega arith)).2 (m.rsp + 8) (omega arith),
  back-Returned func saved apart (with_argument func sysv) 8 (with_argument-Frames func sysv)
      (with_argument_registers func sysv) m low (omega arith)
      (step func (mov_from_stack 72 rdi) (pushes func saved m)) refl,
)
  where
    argument : up (pushes func saved m).rsp 72 ≡ m.rsp + 8
    argument = omega (arith, (pushes_lem func saved m low (omega arith)).1)

-- ===== src/Thunk/Wrapped.antt =====
-- Code that saves registers, runs a body and returns with some bytes of arguments taken from the
-- stack: what every stub between the guest and the loader consists of.
use templeos_loader.Prelude.{ℕ, ◌+◌, ◌*◌, ◌^◌, ◌≤◌, ◌<◌, ◌≡◌, ap, ◌∙◌, arith, List, length}
use templeos_loader.Thunk.{Machine, retq, step}
use templeos_loader.Thunk.Saves.{
  Frames, In, savings, pushes, savings-Frames, savings_saved, savings_other,
}

module _ (func : Machine → Machine) (regs : List ℕ) (body : Machine → Machine) (popped k : ℕ)
    (frame : Frames k (8 * length regs + 8) body) (m : Machine) (low : 8 * length regs + k ≤ m.rsp)
    (high : m.rsp + 8 + popped < 2 ^ 64) where
  abbrev pub back : Machine
  back = step func (retq popped) (savings func regs body m)

  all : Frames (8 * length regs + k) 8 (savings func regs body)
  all = savings-Frames func body k regs 8 frame

  pub back_returns : back.rip ≡ m.mem m.rsp
  unfolding step
  back_returns =
      ap (savings func regs body m).mem (all.rsp_kept m (omega arith) (omega arith))
      ∙ all.mem_kept m m.rsp (omega arith) (omega arith) (omega arith) (omega arith)

  pub back_pops : back.rsp ≡ m.rsp + 8 + popped
  unfolding step
  back_pops = omega (arith, all.rsp_kept m (omega arith) (omega arith))

  pub back_saved : (x : ℕ) → In x regs → back.reg x ≡ m.reg x
  unfolding step
  back_saved x s = savings_saved func body k regs 8 m x frame s (omega arith) (omega arith)

  pub back_other : (x : ℕ) → ¬ (In x regs) → back.reg x ≡ (body (pushes func regs m)).reg x
  unfolding step
  back_other x out = savings_other func body k regs m x out

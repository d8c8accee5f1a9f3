-- ===== src/Thunk/Import.antt =====
-- The thunks that bin2elf.py writes for the functions that the runtime of a static build imports
-- from C (`make_import_thunks`). A function of more than two arguments ends the script. The thunks
-- that resolve a function of the compiler in the guest when they are called are left out.
use mathlib.Core.Option.{some-injective}
use templeos_loader.Prelude.{
  sym, ℕ, zero, suc, ◌+◌, ◌*◌, ◌^◌, ◌≤◌, ◌<◌, ◌≡◌, ◌⊎◌, refl, arith, ap, ◌∙◌, Option, none, some,
  List, [], ◌∷◌, ◌++◌, leb, if◌then◌else◌,
}
use templeos_loader.Thunk.{
  Machine, Instr, push, pop, mov_from_stack, call, retq, step, run, up, rax, rsi, rdi, r10, r11,
}
use templeos_loader.Thunk.Saves.{Frames, In, savings, pushes, pushes_lem}
use templeos_loader.Thunk.Returns.{IsSysV, Returned, callee_saved, back-Returned}

abbrev pub import_saved : List ℕ
import_saved = rdi ∷ rsi ∷ r10 ∷ r11 ∷ []

unfoldable pub make_import_thunk : ℕ → Option (List Instr)
make_import_thunk num_args =
    if leb 3 num_args
    then none
    else some (
        (push rdi ∷ push rsi ∷ push r10 ∷ push r11 ∷ [])
        ++ (if leb 1 num_args then mov_from_stack 40 rdi ∷ [] else [])
        ++ (if leb 2 num_args then mov_from_stack 48 rsi ∷ [] else [])
        ++ call ∷ pop r11 ∷ pop r10 ∷ pop rsi ∷ pop rdi ∷ retq (num_args * 8) ∷ [])

import_apart : (x : ℕ) → In x callee_saved ⊎ (x ≡ rax) → ¬ (In x import_saved)
unfolding In
import_apart x c s = ground arith

-- The moves of the arguments, of which there are up to two.
abbrev moved : ℕ → Machine → Machine
moved zero m = m
moved (suc zero) m = step (λ n. n) (mov_from_stack 40 rdi) m
moved (suc (suc n)) m =
    step (λ n. n) (mov_from_stack 48 rsi) (step (λ n. n) (mov_from_stack 40 rdi) m)

moved_kept :
    (n : ℕ) (m : Machine)
    → ((moved n m).rsp ≡ m.rsp)
      × ((moved n m).mem ≡ m.mem)
      × ((r : ℕ) → In r callee_saved → (moved n m).reg r ≡ m.reg r)
unfolding step In
moved_kept zero m = (refl, refl, λ r c. refl)
moved_kept (suc zero) m = (refl, refl, λ r c. ground arith)
moved_kept (suc (suc n)) m = (refl, refl, λ r c. ground arith)

unfoldable import_body : (Machine → Machine) → ℕ → Machine → Machine
import_body func n m = func (moved n m)

run-import :
    (func : Machine → Machine) (n : ℕ) (thunk : List Instr) (m : Machine)
    → make_import_thunk n ≡ some thunk
    → run func thunk m ≡ step func (retq (n * 8)) (savings func import_saved (import_body func n) m)
unfolding make_import_thunk run step import_body
run-import func zero thunk m written = ap (λ t. run func t m) (sym (some-injective _ _ written))
run-import func (suc zero) thunk m written =
    ap (λ t. run func t m) (sym (some-injective _ _ written))
run-import func (suc (suc zero)) thunk m written =
    ap (λ t. run func t m) (sym (some-injective _ _ written))
run-import func (suc (suc (suc n))) thunk m written = absurd (ground arith)

module _ (func : Machine → Machine) (sysv : IsSysV func) (n : ℕ) where
  import_body-Frames : Frames 0 40 (import_body func n)
  unfolding import_body
  import_body-Frames = record {
    rsp_kept = λ m low high.
        let (r, e, c) = moved_kept n m in
        sysv.frame.rsp_kept (moved n m) (omega (arith, r)) (omega (arith, r)) ∙ r;
    mem_kept = λ m a low high from to.
        let (r, e, c) = moved_kept n m in
        sysv.frame.mem_kept (moved n m) a (omega (arith, r)) (omega (arith, r)) (omega (arith, r))
          (omega (arith, r))
        ∙ ap (λ (f : ℕ → ℕ). f a) e;
  }

  import-Returned :
      (m : Machine)
      → 32 ≤ m.rsp
      → m.rsp + 8 + 8 * n < 2 ^ 64
      → let entry = moved n (pushes func import_saved m) in
        Returned func import_saved
          (n * 8)
          entry
          m
          (step func (retq (n * 8)) (savings func import_saved (import_body func n) m))
  unfolding import_body
  import-Returned m low high =
      back-Returned func import_saved import_apart (import_body func n) (n * 8) import_body-Frames
        (λ x r c. sysv.registers (moved n x) r c ∙ (moved_kept n x).2 r c) m low (omega arith)
        (moved n (pushes func import_saved m)) refl

-- If a function of the System V convention takes `n` arguments and the import thunk for `n` is
-- written, then with room for four words on the stack, through the thunk the function is entered
-- with the arguments of the guest's stack in rdi and rsi, and returns to the guest, with the
-- arguments taken from the stack and rdi, rsi, r10, r11 and the registers that a callee saves as
-- they were.
pub import_thunk-Returned :
    (func : Machine → Machine) (n : ℕ) (thunk : List Instr) (m : Machine)
    → IsSysV func
    → make_import_thunk n ≡ some thunk
    → 32 ≤ m.rsp
    → m.rsp + 8 + 8 * n < 2 ^ 64
    → (entry : Machine) × (1 ≤ n → entry.reg rdi ≡ m.mem (m.rsp + 8))
      × (2 ≤ n → entry.reg rsi ≡ m.mem (m.rsp + 16))
      × Returned func import_saved (n * 8) entry m (run func thunk m)
unfolding step
import_thunk-Returned func n thunk m sysv written low high = (
  moved n (pushes func import_saved m),
  first n high,
  second n high,
  rw (run-import func n thunk m written) (import-Returned func sysv n m low high),
)
  where
    pushed : Machine
    pushed = pushes func import_saved m

    argument :
        (k : ℕ)
        → m.rsp + 16 + k < 2 ^ 64
        → pushed.mem (up pushed.rsp (40 + k)) ≡ m.mem (m.rsp + (8 + k))
    argument k room =
        ap pushed.mem (omega (arith, (pushes_lem func import_saved m low (omega arith)).1))
        ∙ (pushes_lem func import_saved m low (omega arith)).2 (m.rsp + (8 + k)) (omega arith)

    first :
        (j : ℕ) → m.rsp + 8 + 8 * j < 2 ^ 64 → 1 ≤ j → (moved j pushed).reg rdi ≡ m.mem (m.rsp + 8)
    first zero room h = absurd (omega arith)
    first (suc zero) room h = argument 0 (omega arith)
    first (suc (suc j)) room h = argument 0 (omega arith)

    second :
        (j : ℕ) → m.rsp + 8 + 8 * j < 2 ^ 64 → 2 ≤ j → (moved j pushed).reg rsi ≡ m.mem (m.rsp + 16)
    second zero room h = absurd (omega arith)
    second (suc zero) room h = absurd (omega arith)
    second (suc (suc j)) room h = argument 8 (omega arith)

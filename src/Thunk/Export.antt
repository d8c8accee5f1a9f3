-- ===== src/Thunk/Export.antt =====
-- The thunks that bin2elf.py writes for the functions of the runtime that C calls in a static build
-- (`make_export_thunks`). A function of more than two arguments ends the script.
use mathlib.Core.Option.{some-injective}
use templeos_loader.Prelude.{
  sym, ℕ, zero, suc, ◌+◌, ◌*◌, ◌^◌, ◌≤◌, ◌<◌, ◌≡◌, ◌≢◌, ◌==◌, Bool-cases, true, inl, inr, refl,
  arith, ap, ◌∙◌, subst, Option, none, some, List, [], ◌∷◌, ◌++◌, leb, length, if◌then◌else◌,
}
use templeos_loader.Thunk.{Machine, Instr, push, pop, call, retq, step, run, rax, rbx, rsi, rdi}
use templeos_loader.Thunk.Saves.{Frames, In, savings, pushes, pushes_lem}
use templeos_loader.Thunk.Returns.{callee_saved}
use templeos_loader.Thunk.Guest.{guest_keeps}
use templeos_loader.Thunk.Wrapped.{back_returns, back_pops, back_saved, back_other}

unfoldable pub make_export_thunk : ℕ → Option (List Instr)
make_export_thunk num_args =
    if leb 3 num_args
    then none
    else some (
        (push rbx ∷ [])
        ++ (if leb 2 num_args then push rsi ∷ [] else [])
        ++ (if leb 1 num_args then push rdi ∷ [] else [])
        ++ call ∷ pop rbx ∷ retq 0 ∷ [])

-- A function of the guest's convention that takes `n` arguments, from the stack: it takes them off,
-- keeps the registers in which the guest's compiler keeps values over a call, and does not write
-- into its caller's frame behind the arguments, which is here one word and the return address.
pub record IsHolyC (n : ℕ) (func : Machine → Machine) : Type 0 where
  pub rsp_popped : (m : Machine) → m.rsp + 8 * n < 2 ^ 64 → (func m).rsp ≡ m.rsp + 8 * n
  pub mem_kept :
      (m : Machine) (a : ℕ)
      → m.rsp + 8 * n < 2 ^ 64
      → m.rsp + 8 * n ≤ a
      → a < m.rsp + 8 * n + 16
      → (func m).mem a ≡ m.mem a
  pub registers :
      (m : Machine) (r : ℕ) → r < 16 → r ≢ 4 → guest_keeps r ≡ true → (func m).reg r ≡ m.reg r

-- The registers of the arguments, the last one first.
abbrev arguments : ℕ → List ℕ
arguments zero = []
arguments (suc zero) = rdi ∷ []
arguments (suc (suc n)) = rsi ∷ rdi ∷ []

unfoldable export_body : (Machine → Machine) → ℕ → Machine → Machine
export_body func n m = func (pushes func (arguments n) m)

run-export :
    (func : Machine → Machine) (n : ℕ) (thunk : List Instr) (m : Machine)
    → make_export_thunk n ≡ some thunk
    → (n ≤ 2)
      × (run func thunk m ≡ step func (retq 0) (savings func (rbx ∷ []) (export_body func n) m))
unfolding make_export_thunk run step export_body
run-export func zero thunk m written =
    (omega arith, ap (λ t. run func t m) (sym (some-injective _ _ written)))
run-export func (suc zero) thunk m written =
    (omega arith, ap (λ t. run func t m) (sym (some-injective _ _ written)))
run-export func (suc (suc zero)) thunk m written =
    (omega arith, ap (λ t. run func t m) (sym (some-injective _ _ written)))
run-export func (suc (suc (suc n))) thunk m written = absurd (ground arith)

length-arguments : (n : ℕ) → n ≤ 2 → length (arguments n) ≡ n
length-arguments zero h = refl
length-arguments (suc zero) h = refl
length-arguments (suc (suc zero)) h = refl
length-arguments (suc (suc (suc n))) h = absurd (omega arith)

unfoldable entry_of : (Machine → Machine) → ℕ → Machine → Machine
entry_of func n m = pushes func (arguments n) m

module _ (func : Machine → Machine) (n : ℕ) (small : n ≤ 2) (holyc : IsHolyC n func) where
  entry_of_lem :
      (m : Machine)
      → 8 * n ≤ m.rsp
      → m.rsp < 2 ^ 64
      → ((entry_of func n m).reg ≡ m.reg)
        × ((entry_of func n m).rsp + 8 * n ≡ m.rsp)
        × ((a : ℕ) → m.rsp ≤ a → (entry_of func n m).mem a ≡ m.mem a)
  unfolding entry_of
  entry_of_lem m low high =
      subst
        (λ k.
          ((entry_of func n m).reg ≡ m.reg)
          × ((entry_of func n m).rsp + 8 * k ≡ m.rsp)
          × ((a : ℕ) → m.rsp ≤ a → (entry_of func n m).mem a ≡ m.mem a))
        (length-arguments n small)
        (pushes_lem func (arguments n) m (omega (arith, length-arguments n small)) high)

  export_body-Frames : Frames (8 * n) 16 (export_body func n)
  unfolding export_body entry_of
  export_body-Frames = record {
    rsp_kept = λ m low high.
        let e = entry_of_lem m low high in
        omega (arith, holyc.rsp_popped (entry_of func n m) (omega (arith, e.1)), e.1);
    mem_kept = λ m a low high from to.
        let e = entry_of_lem m low high in
        holyc.mem_kept (entry_of func n m) a (omega (arith, e.1)) (omega (arith, e.1))
          (omega (arith, e.1))
        ∙ e.2 a from;
  }

  export_body_reg :
      (m : Machine) (r : ℕ)
      → 8 * n ≤ m.rsp
      → m.rsp < 2 ^ 64
      → r < 16
      → r ≢ 4
      → guest_keeps r ≡ true
      → (export_body func n m).reg r ≡ m.reg r
  unfolding export_body entry_of
  export_body_reg m r low high is_reg ne k =
      holyc.registers (entry_of func n m) r is_reg ne k
      ∙ ap (λ (f : ℕ → ℕ). f r) (entry_of_lem m low high).0

-- The call from C: it returns with the stack pointer as the convention wants it, the registers that
-- a callee saves as they were, and in rax what the guest's function returned that was entered in a
-- state `entry`.
pub record ReturnedToC (func : Machine → Machine) (entry m m' : Machine) : Type 0 where
  pub returns : m'.rip ≡ m.mem m.rsp
  pub pops : m'.rsp ≡ m.rsp + 8
  pub restores : (x : ℕ) → In x callee_saved → m'.reg x ≡ m.reg x
  pub result : m'.reg rax ≡ (func entry).reg rax

callee_saved-guest_keeps :
    (r : ℕ) → In r callee_saved → r ≢ rbx → (r < 16) × (r ≢ 4) × (guest_keeps r ≡ true)
unfolding In guest_keeps
callee_saved-guest_keeps r (inl e) ne = absurd (ne e)
callee_saved-guest_keeps r (inr (inl e)) ne = rw e (omega arith, λ h. omega arith, refl)
callee_saved-guest_keeps r (inr (inr (inl e))) ne = rw e (omega arith, λ h. omega arith, refl)
callee_saved-guest_keeps r (inr (inr (inr (inl e)))) ne = rw e (omega arith, λ h. omega arith, refl)
callee_saved-guest_keeps r (inr (inr (inr (inr (inl e))))) ne =
    rw e (omega arith, λ h. omega arith, refl)
callee_saved-guest_keeps r (inr (inr (inr (inr (inr (inl e)))))) ne =
    rw e (omega arith, λ h. omega arith, refl)
callee_saved-guest_keeps r (inr (inr (inr (inr (inr (inr e)))))) ne = absurd e

no_rax : ¬ (In rax (rbx ∷ []))
unfolding In
no_rax i = ground arith

first_argument :
    (func : Machine → Machine) (n : ℕ) (m : Machine)
    → 1 ≤ n
    → (entry_of func n m).mem (entry_of func n m).rsp ≡ m.reg rdi
unfolding entry_of step
first_argument func zero m h = absurd (omega arith)
first_argument func (suc zero) m h = ground arith
first_argument func (suc (suc n)) m h = ground arith

second_argument :
    (func : Machine → Machine) (n : ℕ) (m : Machine)
    → 2 ≤ n
    → n ≤ 2
    → 8 * n ≤ m.rsp
    → m.rsp < 2 ^ 64
    → (entry_of func n m).mem ((entry_of func n m).rsp + 8) ≡ m.reg rsi
unfolding entry_of step
second_argument func zero m h small low high = absurd (omega arith)
second_argument func (suc zero) m h small low high = absurd (omega arith)
second_argument func (suc (suc n)) m h small low high = ground arith

module _ (func : Machine → Machine) (n : ℕ) (small : n ≤ 2) (holyc : IsHolyC n func) (m : Machine)
    (low : 8 + 8 * n ≤ m.rsp) (high : m.rsp + 8 + 0 < 2 ^ 64) where
  abbrev body : Machine → Machine
  body = export_body func n

  abbrev frame : Frames (8 * n) 16 body
  frame = export_body-Frames func n small holyc

  back : Machine
  back = step func (retq 0) (savings func (rbx ∷ []) body m)

  restored : (x : ℕ) → In x callee_saved → back.reg x ≡ m.reg x
  unfolding back In step
  restored x c = elim (Bool-cases (x == rbx)) [
    | inl same ↦ back_saved func (rbx ∷ []) body 0 (8 * n) frame m low high x (inl (ground arith))
    | inr other ↦
        let ne : x ≢ rbx = λ e. ground arith in
        let k = callee_saved-guest_keeps x c ne in
        back_other func (rbx ∷ []) body 0 (8 * n) frame m low high x
          (λ i. elim i [ inl e ↦ ne e | inr bad ↦ bad ])
        ∙ export_body_reg func n small holyc (step func (push rbx) m) x (omega arith) (omega arith)
            k.0 k.1 k.2
  ]

  back_to_c : ReturnedToC func (entry_of func n (step func (push rbx) m)) m back
  unfolding back export_body entry_of step
  back_to_c = record {
    returns = back_returns func (rbx ∷ []) body 0 (8 * n) frame m low high;
    pops = omega (arith, back_pops func (rbx ∷ []) body 0 (8 * n) frame m low high);
    restores = restored;
    result = back_other func (rbx ∷ []) body 0 (8 * n) frame m low high rax no_rax;
  }

-- If a function of the guest's convention takes `n` arguments and the export thunk for `n` is
-- written, then with room for `n + 1` words on the stack, through the thunk the function is entered
-- with the arguments of rdi and rsi on the stack, and returns to its C caller with the stack pointer
-- behind the return address and the registers that a callee saves as they were.
pub export_thunk-ReturnedToC :
    (func : Machine → Machine) (n : ℕ) (thunk : List Instr) (m : Machine)
    → IsHolyC n func
    → make_export_thunk n ≡ some thunk
    → 8 + 8 * n ≤ m.rsp
    → m.rsp + 8 < 2 ^ 64
    → (entry : Machine) × (1 ≤ n → entry.mem entry.rsp ≡ m.reg rdi)
      × (2 ≤ n → entry.mem (entry.rsp + 8) ≡ m.reg rsi)
      × ReturnedToC func entry m (run func thunk m)
unfolding step back
export_thunk-ReturnedToC func n thunk m holyc written low high = (
  entry_of func n (step func (push rbx) m),
  λ h. first_argument func n (step func (push rbx) m) h,
  λ h. second_argument func n (step func (push rbx) m) h small (omega arith) (omega arith),
  rw (run-export func n thunk m written).1
      (back_to_c func n small holyc m (omega arith) (omega arith)),
)
  where
    small : n ≤ 2
    small = (run-export func n thunk m written).0

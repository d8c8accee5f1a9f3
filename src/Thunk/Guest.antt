-- ===== src/Thunk/Guest.antt =====
-- The guest's side of a system call, `_VSYSCALL` of HolyCRT/VSysCall.HC: it moves the five
-- arguments that HolyC passes on the stack to the registers of the host's convention and calls the
-- address that the loader has put at `_VSYSCALL_DISPATCHER`; and the registers that the guest's
-- compiler uses (REGG_ of HolyCRT/KernelA.HH). The call through rax is a function on the machine
-- for each address.
use templeos_loader.Prelude.{
  ℕ, zero, suc, ◌+◌, ◌*◌, ◌/◌, ◌%◌, ◌^◌, ◌≤◌, ◌<◌, ◌≡◌, ◌≢◌, ◌⊎◌, ◌==◌, ◌||◌, Bool, true, false,
  not, ◌&&◌, Bool-cases, inl, inr, refl, arith, ap, ◌∙◌, subst, sym, List, [], ◌∷◌, length,
}
use templeos_loader.Thunk.{
  Machine, Instr, push, pop, mov_from_stack, mov_from, call, retq, step, run, up, down, rax, rcx,
  rdx, rsi, rdi, r8, r10, r11,
}
use templeos_loader.Thunk.Saves.{Frames, In, pushes, pushes_lem, set_at_other}
use templeos_loader.Thunk.Returns.{IsSysV, Returned, callee_saved, back-Returned}

-- The registers that `_VSYSCALL` saves.
abbrev pub vsyscall_saved : List ℕ
vsyscall_saved = rdi ∷ rsi ∷ rdx ∷ rcx ∷ r10 ∷ r11 ∷ []

abbrev pub guest_vsyscall : ℕ → List Instr
guest_vsyscall dispatcher =
    push rdi
    ∷ push rsi
    ∷ push rdx
    ∷ push rcx
    ∷ push r10
    ∷ push r11
    ∷ mov_from_stack 56 rdi
    ∷ mov_from_stack 64 rsi
    ∷ mov_from_stack 72 rdx
    ∷ mov_from_stack 80 rcx
    ∷ mov_from_stack 88 r8
    ∷ mov_from dispatcher rax
    ∷ call
    ∷ pop r11
    ∷ pop r10
    ∷ pop rcx
    ∷ pop rdx
    ∷ pop rsi
    ∷ pop rdi
    ∷ retq 40
    ∷ []

-- CALL RAX
abbrev pub call_rax : (ℕ → Machine → Machine) → Machine → Machine
call_rax code m = code (m.reg rax) m

-- REGG_LOCAL_VARS, REGG_LOCAL_NON_PTR_VARS and REGG_SAVED
abbrev pub regg_local_vars : ℕ
regg_local_vars = 0xCCC0

abbrev pub regg_local_non_ptr_vars : ℕ
regg_local_non_ptr_vars = 0x3000

abbrev pub regg_saved : ℕ
regg_saved = 0x0030

abbrev in_mask : ℕ → ℕ → Bool
in_mask mask r = mask / 2 ^ r % 2 == 1

-- The registers in which a function of the guest expects its values after a call.
unfoldable pub guest_keeps : ℕ → Bool
guest_keeps r =
    in_mask regg_local_vars r || in_mask regg_local_non_ptr_vars r || in_mask regg_saved r

all_below : (ℕ → Bool) → ℕ → Bool
all_below p zero = true
all_below p (suc n) = p n && all_below p n

all_below_lem : (p : ℕ → Bool) (n r : ℕ) → all_below p n ≡ true → r < n → p r ≡ true
unfolding all_below
all_below_lem p zero r h low = absurd (omega arith)
all_below_lem p (suc n) r h low = elim (Bool-cases (r == n)) [
  | inl same ↦ let here : r ≡ n = ground arith in rw here (ground arith)
  | inr other ↦ all_below_lem p n r (ground arith) (ground arith)
]

is_in : ℕ → List ℕ → Bool
is_in x [] = false
is_in x (r ∷ rs) = x == r || is_in x rs

is_in-In : (x : ℕ) (rs : List ℕ) → is_in x rs ≡ true → In x rs
unfolding is_in In
is_in-In x [] h = absurd (ground arith)
is_in-In x (r ∷ rs) h = elim (Bool-cases (x == r)) [
  | inl same ↦ inl (ground arith)
  | inr other ↦ inr (is_in-In x rs (ground arith))
]

-- The stack pointer, 4, is among them and stands apart.
abbrev covered : ℕ → Bool
covered r = not (guest_keeps r) || (is_in r vsyscall_saved || (is_in r callee_saved || r == 4))

guest_keeps-In :
    (r : ℕ) → r < 16 → r ≢ 4 → guest_keeps r ≡ true → In r vsyscall_saved ⊎ In r callee_saved
unfolding guest_keeps is_in all_below
guest_keeps-In r low ne k = elim (Bool-cases (is_in r vsyscall_saved)) [
  | inl saved ↦ inl (is_in-In r vsyscall_saved saved)
  | inr other ↦
      inr (is_in-In r callee_saved (ground (arith, other, all_below_lem covered 16 r refl low)))
]

vsyscall_apart : (x : ℕ) → In x callee_saved ⊎ (x ≡ rax) → ¬ (In x vsyscall_saved)
unfolding In
vsyscall_apart x c s = ground arith

-- Below the words that are pushed, memory is as before.
pushes_below :
    (func : Machine → Machine) (rs : List ℕ) (m : Machine) (a : ℕ)
    → 8 * length rs ≤ m.rsp
    → m.rsp < 2 ^ 64
    → a + 8 + 8 * length rs ≤ m.rsp
    → (pushes func rs m).mem a ≡ m.mem a
unfolding step
pushes_below func [] m a low high below = refl
pushes_below func (r ∷ rs) m a low high below =
    pushes_below func rs (step func (push r) m) a (omega arith) (omega arith) (omega arith)
    ∙ set_at_other (down m.rsp) (m.reg r) a m.mem (λ e. omega arith)

-- The arguments of a call, from the stack above the return address.
pub record HasArguments (m entry : Machine) : Type 0 where
  pub number : entry.reg rdi ≡ m.mem (m.rsp + 8)
  pub arg1 : entry.reg rsi ≡ m.mem (m.rsp + 16)
  pub arg2 : entry.reg rdx ≡ m.mem (m.rsp + 24)
  pub arg3 : entry.reg rcx ≡ m.mem (m.rsp + 32)
  pub arg4 : entry.reg r8 ≡ m.mem (m.rsp + 40)

module _ (code : ℕ → Machine → Machine) (dispatcher : ℕ) (m : Machine) where
  abbrev func : Machine → Machine
  func = code (m.mem dispatcher)

  abbrev moves : Machine → Machine
  moves n = step func (mov_from dispatcher rax) (
      step func (mov_from_stack 88 r8) (
        step func (mov_from_stack 80 rcx) (
          step func (mov_from_stack 72 rdx)
            (step func (mov_from_stack 64 rsi) (step func (mov_from_stack 56 rdi) n)))))

  moves_callee : (n : Machine) (r : ℕ) → In r callee_saved → (moves n).reg r ≡ n.reg r
  unfolding step In
  moves_callee n r c = ground arith

  body-Frames : IsSysV func → Frames 0 56 (λ n. func (moves n))
  unfolding step
  body-Frames sysv = record {
    rsp_kept = λ n. sysv.frame.rsp_kept (moves n);
    mem_kept = λ n a low high from to. sysv.frame.mem_kept (moves n) a low high from (omega arith);
  }

  module _ (low : 48 ≤ m.rsp) (high : m.rsp + 48 < 2 ^ 64) where
    abbrev pushed : Machine
    pushed = pushes func vsyscall_saved m

    pushed_mem : (k : ℕ) → k < 40 → pushed.mem (up pushed.rsp (56 + k)) ≡ m.mem (m.rsp + (8 + k))
    pushed_mem k small =
        ap pushed.mem (omega (arith, (pushes_lem func vsyscall_saved m low (omega arith)).1))
        ∙ (pushes_lem func vsyscall_saved m low (omega arith)).2 (m.rsp + (8 + k)) (omega arith)

    moves-HasArguments : HasArguments m (moves pushed)
    unfolding step
    moves-HasArguments = record {
      number = pushed_mem 0 (omega arith);
      arg1 = pushed_mem 8 (omega arith);
      arg2 = pushed_mem 16 (omega arith);
      arg3 = pushed_mem 24 (omega arith);
      arg4 = pushed_mem 32 (omega arith);
    }

    rax_lem :
        (dispatcher + 56 ≤ m.rsp) ⊎ (m.rsp ≤ dispatcher) → (moves pushed).reg rax ≡ m.mem dispatcher
    unfolding step
    rax_lem (inl below) =
        pushes_below func vsyscall_saved m dispatcher low (omega arith) (omega arith)
    rax_lem (inr above) = (pushes_lem func vsyscall_saved m low (omega arith)).2 dispatcher above

  abbrev after_call : List Instr
  after_call = pop r11 ∷ pop r10 ∷ pop rcx ∷ pop rdx ∷ pop rsi ∷ pop rdi ∷ retq 40 ∷ []

  -- If the word at `_VSYSCALL_DISPATCHER` is the address of a function of the System V convention
  -- and does not lie in the 48 bytes below the stack pointer, and these are there, then through
  -- `_VSYSCALL` that function is entered with the number and the four arguments of the guest's
  -- stack, and returns to the guest, with the 40 bytes of arguments taken from the stack, its result
  -- in rax, and every register in which the guest's compiler keeps values over a call as it was.
  pub guest_vsyscall-Returned :
      IsSysV (code (m.mem dispatcher))
      → 48 ≤ m.rsp
      → m.rsp + 48 < 2 ^ 64
      → (dispatcher + 56 ≤ m.rsp) ⊎ (m.rsp ≤ dispatcher)
      → let m' = run (call_rax code) (guest_vsyscall dispatcher) m in
        (entry : Machine) × HasArguments m entry
        × Returned (code (m.mem dispatcher)) vsyscall_saved 40 entry m m'
        × ((r : ℕ) → r < 16 → r ≢ 4 → guest_keeps r ≡ true → m'.reg r ≡ m.reg r)
  unfolding run step
  guest_vsyscall-Returned sysv low high place =
      let same =
        ap (λ d. run func after_call (code d (moves (pushed low high)))) (rax_lem low high place) in
      let back =
        back-Returned func vsyscall_saved vsyscall_apart (λ n. func (moves n)) 40 (body-Frames sysv)
          (λ n r c. sysv.registers (moves n) r c ∙ moves_callee n r c) m low (omega arith)
          (moves (pushed low high)) refl in
      let there =
        subst (Returned func vsyscall_saved 40 (moves (pushed low high)) m) (sym same) back in
      (
        moves (pushed low high),
        moves-HasArguments low high,
        there,
        λ r small ne k. there.restores r (guest_keeps-In r small ne k),
      )

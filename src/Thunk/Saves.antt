-- ===== src/Thunk/Saves.antt =====
-- What a thunk keeps: a body between a push and the pop of the same register.
use templeos_loader.Prelude.{
  ℕ, ◌+◌, ◌^◌, ◌≤◌, ◌<◌, ◌≡◌, ◌≢◌, refl, arith, ap, ◌∙◌, sym, ◌==◌, List, [], ◌∷◌, ◌*◌, length,
  subst, ◌⊎◌, Bool-cases, true, false, inl, inr,
}
use templeos_loader.Thunk.{Machine, push, pop, step, set_at, down}

-- From a stack pointer of at least `k`, the code leaves the stack pointer, and the `n` bytes above
-- it, as they are.
pub record Frames (k n : ℕ) (body : Machine → Machine) : Type 0 where
  pub rsp_kept : (m : Machine) → k ≤ m.rsp → m.rsp < 2 ^ 64 → (body m).rsp ≡ m.rsp
  pub mem_kept :
      (m : Machine) (a : ℕ)
      → k ≤ m.rsp
      → m.rsp < 2 ^ 64
      → m.rsp ≤ a
      → a < m.rsp + n
      → (body m).mem a ≡ m.mem a

set_at_here : (p v : ℕ) (f : ℕ → ℕ) → set_at p v f p ≡ v
set_at_here p v f = ground arith

pub set_at_other : (p v q : ℕ) (f : ℕ → ℕ) → q ≢ p → set_at p v f q ≡ f q
set_at_other p v q f ne = ground arith

unfoldable pub In : ℕ → List ℕ → Type 0
In x [] = ⊥
In x (r ∷ rs) = (x ≡ r) ⊎ In x rs

module _ (func : Machine → Machine) where
  abbrev pushed : ℕ → Machine → Machine
  pushed r m = step func (push r) m

  abbrev saving : ℕ → (Machine → Machine) → Machine → Machine
  saving r body m = step func (pop r) (body (pushed r m))

  module _ (r k n : ℕ) (body : Machine → Machine) (keeps : Frames k (8 + n) body) where
    saving_rsp : (m : Machine) → 8 + k ≤ m.rsp → m.rsp < 2 ^ 64 → (saving r body m).rsp ≡ m.rsp
    unfolding step
    saving_rsp m low high = omega (arith, keeps.rsp_kept (pushed r m) (omega arith) (omega arith))

    saving_mem :
        (m : Machine) (a : ℕ)
        → 8 + k ≤ m.rsp
        → m.rsp < 2 ^ 64
        → m.rsp ≤ a
        → a < m.rsp + n
        → (saving r body m).mem a ≡ m.mem a
    unfolding step
    saving_mem m a low high from to =
        keeps.mem_kept (pushed r m) a (omega arith) (omega arith) (omega arith) (omega arith)
        ∙ ground arith

    saving_reg : (m : Machine) → 8 + k ≤ m.rsp → m.rsp < 2 ^ 64 → (saving r body m).reg r ≡ m.reg r
    unfolding step
    saving_reg m low high =
        set_at_here r _ (body (pushed r m)).reg
        ∙ ap (body (pushed r m)).mem (keeps.rsp_kept (pushed r m) (omega arith) (omega arith))
        ∙ keeps.mem_kept (pushed r m) (down m.rsp) (omega arith) (omega arith) (omega arith)
            (omega arith)
        ∙ set_at_here (down m.rsp) (m.reg r) m.mem

    saving_other :
        (m : Machine) (x : ℕ) → x ≢ r → (saving r body m).reg x ≡ (body (pushed r m)).reg x
    unfolding step
    saving_other m x ne = set_at_other r _ x (body (pushed r m)).reg ne

    pub saving-Frames : Frames (8 + k) n (saving r body)
    saving-Frames = record { rsp_kept = saving_rsp; mem_kept = saving_mem }

  abbrev pub savings : List ℕ → (Machine → Machine) → Machine → Machine
  savings [] body = body
  savings (r ∷ rs) body = saving r (savings rs body)

  abbrev pub pushes : List ℕ → Machine → Machine
  pushes [] m = m
  pushes (r ∷ rs) m = pushes rs (pushed r m)

  module _ (body : Machine → Machine) (k : ℕ) where
    pub savings-Frames :
        (rs : List ℕ) (n : ℕ)
        → Frames k (8 * length rs + n) body
        → Frames (8 * length rs + k) n (savings rs body)
    savings-Frames [] n keeps =
        subst (λ j. Frames j n body) (omega arith)
          (subst (λ j. Frames k j body) (omega arith) keeps)
    savings-Frames (r ∷ rs) n keeps =
        subst (λ j. Frames j n (savings (r ∷ rs) body)) (omega arith)
          (saving-Frames r (8 * length rs + k) n (savings rs body)
            (savings-Frames rs (8 + n) (subst (λ j. Frames k j body) (omega arith) keeps)))

    -- The registers on the list are restored.
    pub savings_saved :
        (rs : List ℕ) (n : ℕ) (m : Machine) (x : ℕ)
        → Frames k (8 * length rs + n) body
        → In x rs
        → 8 * length rs + k ≤ m.rsp
        → m.rsp < 2 ^ 64
        → (savings rs body m).reg x ≡ m.reg x
    unfolding In step
    savings_saved [] n m x keeps i low high = absurd i
    savings_saved (r ∷ rs) n m x keeps i low high = elim (Bool-cases (x == r)) [
      | inl same ↦
          subst (λ y. (saving r (savings rs body) m).reg y ≡ m.reg y) (sym (is_same same))
            (saving_reg r (8 * length rs + k) n (savings rs body) inner m (omega arith) high)
      | inr other ↦
          saving_other r (8 * length rs + k) n (savings rs body) inner m x (is_other other)
          ∙ savings_saved rs (8 + n) (pushed r m) x moved (behind i other) (omega arith)
              (omega arith)
    ]
      where
        moved : Frames k (8 * length rs + (8 + n)) body
        moved = subst (λ j. Frames k j body) (omega arith) keeps

        inner : Frames (8 * length rs + k) (8 + n) (savings rs body)
        inner = savings-Frames rs (8 + n) moved

        is_same : (x == r) ≡ true → x ≡ r
        is_same h = ground arith

        is_other : (x == r) ≡ false → x ≢ r
        is_other h = λ e. ground arith

        behind : In x (r ∷ rs) → (x == r) ≡ false → In x rs
        behind (inl e) h = absurd (ground arith)
        behind (inr j) h = j

    -- The others are those that the code between has left.
    pub savings_other :
        (rs : List ℕ) (m : Machine) (x : ℕ)
        → ¬ (In x rs)
        → (savings rs body m).reg x ≡ (body (pushes rs m)).reg x
    unfolding In step
    savings_other [] m x out = refl
    savings_other (r ∷ rs) m x out =
        set_at_other r _ x (savings rs body (pushed r m)).reg (λ e. out (inl e))
        ∙ savings_other rs (pushed r m) x (λ j. out (inr j))

  -- Before the code between, the registers are as before, and so is memory from the stack pointer
  -- on, which is lower.
  pub pushes_lem :
      (rs : List ℕ) (m : Machine)
      → 8 * length rs ≤ m.rsp
      → m.rsp < 2 ^ 64
      → ((pushes rs m).reg ≡ m.reg)
        × ((pushes rs m).rsp + 8 * length rs ≡ m.rsp)
        × ((a : ℕ) → m.rsp ≤ a → (pushes rs m).mem a ≡ m.mem a)
  unfolding step
  pushes_lem [] m low high = (refl, omega arith, λ a from. refl)
  pushes_lem (r ∷ rs) m low high =
      let rest = pushes_lem rs (pushed r m) (omega arith) (omega arith) in
      (
        rest.0,
        omega (arith, rest.1),
        λ a from.
            rest.2 a (omega arith) ∙ set_at_other (down m.rsp) (m.reg r) a m.mem (λ e. omega arith),
      )

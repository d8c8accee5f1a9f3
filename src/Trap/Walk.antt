-- ===== src/Trap/Walk.antt =====
-- The walk over the guest's stack.
use templeos_loader.Prelude.{
  ℕ, zero, suc, ◌+◌, ◌<◌, ◌≡◌, ◌↔◌, ◌∙◌, refl, arith, ap, Bool, true, false, List, [], ◌∷◌, length,
  Bool-cases, inl, inr,
}
use templeos_loader.Symtable.{Table}
use templeos_loader.LoadKernel.Memory.{Mem, load}
use templeos_loader.Trap.{Line, line, walk}

module _ (readable : ℕ → ℕ → Bool) (syms : Table) (m : Mem) where
  -- Frames from one on that can be read, with the return addresses that they hold, and the frame
  -- behind them.
  unfoldable pub Linked : ℕ → List (ℕ × ℕ) → ℕ → Type 0
  Linked frame [] last = frame ≡ last
  Linked frame ((next, addr) ∷ rest) last =
      (readable frame 16 ≡ true)
      × (load 8 frame m ≡ next)
      × (load 8 (frame + 8) m ≡ addr)
      × Linked next rest last

  -- A chain that ends at a frame that cannot be read.
  abbrev pub IsChain : ℕ → List (ℕ × ℕ) → Type 0
  IsChain frame chain = (last : ℕ) × Linked frame chain last × (readable last 16 ≡ false)

  abbrev pub lines_of : ℕ → ℕ → List (ℕ × ℕ) → List Line
  lines_of frame addr [] = line syms frame addr ∷ []
  lines_of frame addr ((next, addr') ∷ rest) = line syms frame addr ∷ lines_of next addr' rest

  step :
      (room frame addr next addr' : ℕ)
      → readable frame 16 ≡ true
      → load 8 frame m ≡ next
      → load 8 (frame + 8) m ≡ addr'
      → walk readable syms m (suc room) frame addr ≡ (
        line syms frame addr ∷ (walk readable syms m room next addr').0,
        (walk readable syms m room next addr').1,
      )
  unfolding walk
  step room frame addr next addr' can e e' = rw (walk, can, e, e') refl

  ends :
      (room frame addr : ℕ)
      → readable frame 16 ≡ false
      → walk readable syms m (suc room) frame addr ≡ (line syms frame addr ∷ [], true)
  unfolding walk
  ends room frame addr cannot = rw (walk, cannot) refl

  pub walk-lines_of :
      (room frame addr : ℕ) (chain : List (ℕ × ℕ))
      → length chain < room
      → IsChain frame chain
      → walk readable syms m room frame addr ≡ (lines_of frame addr chain, true)
  unfolding Linked
  walk-lines_of zero frame addr chain lt c = absurd (omega arith)
  walk-lines_of (suc room) frame addr [] lt (last, same, cannot) =
      ends room frame addr (rw same cannot)
  walk-lines_of (suc room) frame addr ((next, addr') ∷ rest) lt (last, linked, cannot) =
      step room frame addr next addr' linked.0 linked.1 linked.2
      ∙ ap (λ (r : List Line × Bool). (line syms frame addr ∷ r.0, r.1))
          (walk-lines_of room next addr' rest (omega arith) (last, linked.3, cannot))

  walk-IsChain :
      (room frame addr : ℕ)
      → (walk readable syms m room frame addr).1 ≡ true
      → (chain : List (ℕ × ℕ)) × (length chain < room) × IsChain frame chain
  unfolding walk Linked
  walk-IsChain zero frame addr e = absurd (ground arith)
  walk-IsChain (suc room) frame addr e = elim (Bool-cases (readable frame 16)) [
    | inl can ↦
        let (chain, less, ended) =
          walk-IsChain room (load 8 frame m) (load 8 (frame + 8) m) (rw (walk, can) at e) in
        (
          (load 8 frame m, load 8 (frame + 8) m) ∷ chain,
          omega (arith, less),
          (ended.0, (can, refl, refl, ended.1), ended.2),
        )
    | inr cannot ↦ ([], omega arith, (frame, refl, cannot))
  ]

  -- Bugcheck ends exactly if the guest's frames form a chain that ends at a frame that cannot be
  -- read and that has fewer frames than the pipe has room for probes; else a write into the pipe,
  -- which nothing reads, blocks.
  pub walk_ends_iff :
      (room frame addr : ℕ)
      → ((walk readable syms m room frame addr).1 ≡ true)
        ↔ ((chain : List (ℕ × ℕ)) × (length chain < room) × IsChain frame chain)
  walk_ends_iff room frame addr = (
    walk-IsChain room frame addr,
    λ (chain, less, c).
        ap (λ (r : List Line × Bool). r.1) (walk-lines_of room frame addr chain less c),
  )

  -- Where the first frames, as many as the pipe has room for probes, can all be read, bugcheck
  -- prints a line for each of them and for the one behind them, and then blocks.
  pub walk_blocks :
      (room frame addr last : ℕ) (frames : List (ℕ × ℕ))
      → length frames ≡ room
      → Linked frame frames last
      → walk readable syms m room frame addr ≡ (lines_of frame addr frames, false)
  unfolding walk Linked
  walk_blocks zero frame addr last [] len linked = refl
  walk_blocks zero frame addr last (f ∷ rest) len linked = absurd (omega arith)
  walk_blocks (suc room) frame addr last [] len linked = absurd (omega arith)
  walk_blocks (suc room) frame addr last ((next, addr') ∷ rest) len linked =
      step room frame addr next addr' linked.0 linked.1 linked.2
      ∙ ap (λ (r : List Line × Bool). (line syms frame addr ∷ r.0, r.1))
          (walk_blocks room next addr' last rest (omega (arith, len)) linked.3)

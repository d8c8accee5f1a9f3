-- ===== src/Guest/Places.antt =====
-- Members do not overlap, in either layout.
use native.Mathlib.Nat.{one-le-pow}
use templeos_loader.Prelude.{ℕ, ◌+◌, ◌^◌, ◌≤◌, arith, List, [], ◌∷◌}
use templeos_loader.Guest.Layout.{
  Members, nil, ◌▸◌, member, align_to, assert_aligned, assert_offset, size, after, end_from, Place,
  places, round_up,
}

-- The places follow one another between two offsets.
abbrev pub InOrder : ℕ → List Place → ℕ → Type 0
InOrder o [] e = o ≤ e
InOrder o (p ∷ ps) e = (o ≤ p.offset) × InOrder (p.offset + p.bytes) ps e

InOrder-le : (o o' e : ℕ) (ps : List Place) → o' ≤ o → InOrder o ps e → InOrder o' ps e
InOrder-le o o' e [] h s = omega arith
InOrder-le o o' e (p ∷ ps) h s = (omega arith, s.1)

le-round_up : (o n : ℕ) → 1 ≤ n → o ≤ round_up o n
le-round_up o n h = grind arith

-- For every class, HolyC gives the members places that follow one another without overlap in the
-- order of the declarations, all of them within the size of the class.
pub places-InOrder : (o : ℕ) (ms : Members) → InOrder o (places o ms) (end_from o ms)
unfolding places end_from after
places-InOrder o nil = omega arith
places-InOrder o (member name t ▸ ms) = (omega arith, places-InOrder (o + size t) ms)
places-InOrder o (align_to k ▸ ms) =
    InOrder-le (round_up o (2 ^ k)) o _ _ (le-round_up o (2 ^ k) (one-le-pow k 2 (omega arith)))
      (places-InOrder (round_up o (2 ^ k)) ms)
places-InOrder o (assert_aligned k ▸ ms) = places-InOrder o ms
places-InOrder o (assert_offset at ▸ ms) = places-InOrder o ms

-- ===== src/MemoryMap/Align.antt =====
-- Rounding to pages.
use Prim.Native.Nat.{min, digits, bit_and-bitwise}
use native.Mathlib.Nat.{le_refl, pow-suc, one-le-pow}
use templeos_loader.Prelude.{
  ℕ, zero, suc, ◌+◌, ◌-◌, ◌*◌, ◌/◌, ◌%◌, ◌^◌, ◌≤◌, ◌<◌, ◌≡◌, refl, ap, arith,
}
use templeos_loader.MemoryMap.{page_size, align_down, align_up}

-- A mask of `k` ones keeps a number that fits in `k` bits, given one round for each of its digits.
masked_low : (fuel k x : ℕ) → x ≤ fuel → x < 2 ^ k → digits (λ y. 0) min fuel x (2 ^ k - 1) ≡ x
masked_low zero k zero h lt = refl
masked_low zero k (suc x) h lt = absurd (omega arith)
masked_low (suc fuel) k zero h lt = refl
masked_low (suc fuel) zero (suc x) h lt = absurd (omega arith)
masked_low (suc fuel) (suc k) (suc x) h lt =
    ground (arith, pow-suc 2 k, one-le-pow k 2, rounds, masked_low fuel k (suc x / 2))
  where
    rounds : (2 ^ suc k - 1) / 2 ≡ 2 ^ k - 1
    rounds = omega (arith, pow-suc 2 k, one-le-pow k 2)

double_mask : (m k : ℕ) → m * 2 ^ suc k ≡ 2 * (m * 2 ^ k)
double_mask m k = omega (arith, ap (λ (t : ℕ). m * t) (pow-suc 2 k))

-- A mask of `j` ones above `k` zeros clears the low `k` bits and keeps the next `j`.
masked_high :
    (fuel j k q r x : ℕ)
    → x ≤ fuel
    → x ≡ q * 2 ^ k + r
    → q < 2 ^ j
    → r < 2 ^ k
    → digits (λ y. 0) min fuel x ((2 ^ j - 1) * 2 ^ k) ≡ q * 2 ^ k
masked_high zero j k q r zero h e q_lt r_lt = omega (arith, one-le-pow k 2)
masked_high zero j k q r (suc x) h e q_lt r_lt = absurd (omega arith)
masked_high (suc fuel) j k q r zero h e q_lt r_lt = omega (arith, one-le-pow k 2)
masked_high (suc fuel) j zero q r (suc x) h e q_lt r_lt =
    ground (arith, masked_low (suc fuel) j (suc x))
masked_high (suc fuel) j (suc k) q r (suc x) h e q_lt r_lt = ground (
  arith,
  double_mask q k,
  double_mask (2 ^ j - 1) k,
  pow-suc 2 k,
  masked_high fuel j k q (r / 2) (suc x / 2),
)

-- `align_down` is the multiple of the page size at or below its argument.
pub align_down_lem : (x : ℕ) → x < 2 ^ 64 → align_down x ≡ x / page_size * page_size
unfolding align_down
align_down_lem x h = omega (
  arith,
  bit_and-bitwise x (2 ^ 64 - 4096),
  masked_high x 52 12 (x / 4096) (x % 4096) x (le_refl x) (omega arith) (omega arith) (omega arith),
)

-- `align_up` is the multiple of the page size at or above an argument below the last page.
pub align_up_lem :
    (x : ℕ) → x + page_size ≤ 2 ^ 64 → align_up x ≡ (x + page_size - 1) / page_size * page_size
unfolding align_up
align_up_lem x h = omega (arith, align_down_lem ((x + page_size - 1) % 2 ^ 64) (omega arith))

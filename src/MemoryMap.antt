-- ===== src/MemoryMap.antt =====
-- memory_map.c: the areas that the loader maps before anything else.
pub mod Align
pub mod Areas
mod Tests
use Prim.Native.Nat.{bit_and}
use templeos_loader.Prelude.{
  ℕ, ◌+◌, ◌-◌, ◌%◌, ◌^◌, Bool, true, false, not, ◌&&◌, ◌||◌, Option, none, some, List, [], ◌∷◌,
  ◌==◌, ltb, leb, if◌then◌else◌, ℤ, pos, minus_one,
}

abbrev pub page_size : ℕ
page_size = 4096

abbrev pub sys_fixed_area_start : ℕ
sys_fixed_area_start = 0x100000

abbrev pub sys_fixed_area_size : ℕ
sys_fixed_area_size = 0x4000

abbrev pub flat_start : ℕ
flat_start = 0x1000000

abbrev pub flat_size : ℕ
flat_size = 0x20001000

abbrev pub int32_max : ℕ
int32_max = 2 ^ 31 - 1

-- `x & ~(PAGE_SIZE - 1)` on 64 bits.
unfoldable pub align_down : ℕ → ℕ
align_down x = bit_and x (2 ^ 64 - page_size)

-- `(x + PAGE_SIZE - 1) & ~(PAGE_SIZE - 1)`, the sum modulo 2 ^ 64.
unfoldable pub align_up : ℕ → ℕ
unfolding align_down
align_up x = align_down ((x + page_size - 1) % 2 ^ 64)

-- The arguments of `mmap` that differ between the calls.
pub record Request : Type 0 where
  pub hint : ℕ
  pub size : ℕ
  pub exec : Bool
  pub map_32bit : Bool
  pub map_fixed : Bool

-- The return value, the stores through `kernel_out`, and the areas mapped, the last one first.
pub record Outcome : Type 0 where
  pub rc : ℤ
  pub kernel_out : Option ℕ
  pub mapped : List (Request × ℕ)

abbrev pub kernel_request : ℕ → ℕ → Request
kernel_request start reserve = record {
  hint = align_down start;
  size = (align_up ((start + reserve) % 2 ^ 64) + 2 ^ 64 - align_down start) % 2 ^ 64;
  exec = true;
  map_32bit = true;
  map_fixed = false;
}

abbrev pub flat_request : Request
flat_request = record {
  hint = flat_start;
  size = flat_size;
  exec = true;
  map_32bit = false;
  map_fixed = true;
}

abbrev pub fixed_area_request : Request
fixed_area_request = record {
  hint = sys_fixed_area_start;
  size = sys_fixed_area_size;
  exec = false;
  map_32bit = false;
  map_fixed = false;
}

-- `mmap` answers from the areas mapped so far and the request: none for MAP_FAILED.
abbrev pub Mmap : Type 0
Mmap = List (Request × ℕ) → Request → Option ℕ

-- The test on the address of the kernel area; the difference is one of `size_t`.
unfoldable pub kernel_misplaced : (start reserve p : ℕ) → Bool
kernel_misplaced start reserve p =
    (not (align_down start == 0) && ltb (align_down start) p)
    || leb ((int32_max + 2 ^ 64 - reserve) % 2 ^ 64) p

-- The mappings behind the kernel area.
unfoldable pub map_areas : Mmap → Option ℕ → List (Request × ℕ) → Outcome
map_areas mmap kernel_out mapped = elim (mmap mapped flat_request) [
  | none ↦ record { rc = minus_one; kernel_out = kernel_out; mapped = mapped }
  | some flat ↦
      let mapped' : List (Request × ℕ) = (flat_request, flat) ∷ mapped in
      elim (mmap mapped' fixed_area_request) [
        | none ↦ record { rc = minus_one; kernel_out = kernel_out; mapped = mapped' }
        | some p ↦
            let all : List (Request × ℕ) = (fixed_area_request, p) ∷ mapped' in
            if p == sys_fixed_area_start
            then record { rc = pos 0; kernel_out = kernel_out; mapped = all }
            else record { rc = minus_one; kernel_out = kernel_out; mapped = all }
      ]
]

-- `wants_out` says whether the caller passed a `kernel_out`.
unfoldable pub init_memory_map : Mmap → (start reserve : ℕ) → (wants_out : Bool) → Outcome
unfolding kernel_misplaced map_areas
init_memory_map mmap start reserve wants_out =
    if reserve == 0 then map_areas mmap none [] else elim (mmap [] (kernel_request start reserve)) [
      | none ↦ record { rc = minus_one; kernel_out = none; mapped = [] }
      | some p ↦
          let mapped : List (Request × ℕ) = (kernel_request start reserve, p) ∷ [] in
          let out : Option ℕ =
            if wants_out then some (if align_down start == 0 then p else start) else none in
          if kernel_misplaced start reserve p
          then record { rc = minus_one; kernel_out = none; mapped = mapped }
          else map_areas mmap out mapped
    ]

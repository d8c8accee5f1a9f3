-- ===== src/MemoryMap/Areas.antt =====
-- What `init_memory_map` asks for, when it succeeds, and what it then returns.
use templeos_loader.Prelude.{
  ℕ, ◌+◌, ◌*◌, ◌%◌, ◌^◌, ◌≤◌, ◌<◌, ◌≡◌, ◌↔◌, ◌⊎◌, arith, Bool, true, false, Option, none, some,
  List, [], ◌∷◌, ◌==◌, if◌then◌else◌, pos, Option-cases, inl, inr, Bool-cases, minus_one, sym, ap,
  ◌∙◌,
}
use templeos_loader.MemoryMap.{
  page_size, sys_fixed_area_start, int32_max, align_down, Request, Outcome, kernel_request,
  flat_request, fixed_area_request, Mmap, kernel_misplaced, map_areas, init_memory_map,
}
use templeos_loader.MemoryMap.Align.{align_down_lem, align_up_lem}

-- The request for the kernel is of whole pages, holds the asked-for range, and is less than two
-- pages longer, if the range ends a page before the end of the address space.
pub kernel_request-covers :
    (start reserve : ℕ)
    → start + reserve + page_size ≤ 2 ^ 64
    → let r = kernel_request start reserve in
      (r.hint % page_size ≡ 0)
      × (r.size % page_size ≡ 0)
      × (r.hint ≤ start)
      × (start + reserve ≤ r.hint + r.size)
      × (r.size < reserve + 2 * page_size)
kernel_request-covers start reserve h = omega (
  arith,
  align_down_lem start (omega arith),
  align_up_lem ((start + reserve) % 2 ^ 64) (omega arith),
)

-- The run with a kernel area succeeded: `mmap` gave the three areas, the kernel's at `p`, below
-- the limit and not above the hint, and the fixed one at its place.
pub record Succeeds (mmap : Mmap) (start reserve : ℕ) (wants_out : Bool) (o : Outcome)
    : Type 0 where
  pub p : ℕ
  pub flat : ℕ
  pub kernel_at : mmap [] (kernel_request start reserve) ≡ some p
  pub flat_at : mmap ((kernel_request start reserve, p) ∷ []) flat_request ≡ some flat
  pub fixed_at :
      mmap ((flat_request, flat) ∷ (kernel_request start reserve, p) ∷ []) fixed_area_request
      ≡ some sys_fixed_area_start
  pub low : p + reserve < int32_max
  pub not_above : (align_down start ≡ 0) ⊎ (p ≤ align_down start)
  pub result : o ≡ record {
    rc = pos 0;
    kernel_out = if wants_out then some (if align_down start == 0 then p else start) else none;
    mapped =
        (fixed_area_request, sys_fixed_area_start)
        ∷ (flat_request, flat)
        ∷ (kernel_request start reserve, p)
        ∷ [];
  }

-- What a success of the two mappings behind the kernel area means.
abbrev AreasMapped : Mmap → Option ℕ → List (Request × ℕ) → Type 0
AreasMapped mmap out mapped =
    (flat : ℕ) × (mmap mapped flat_request ≡ some flat)
    × (mmap ((flat_request, flat) ∷ mapped) fixed_area_request ≡ some sys_fixed_area_start)
    × (map_areas mmap out mapped ≡ record {
      rc = pos 0;
      kernel_out = out;
      mapped = (fixed_area_request, sys_fixed_area_start) ∷ (flat_request, flat) ∷ mapped;
    })

map_areas-AreasMapped :
    (mmap : Mmap) (out : Option ℕ) (mapped : List (Request × ℕ))
    → (map_areas mmap out mapped).rc ≡ pos 0
    → AreasMapped mmap out mapped
unfolding map_areas
map_areas-AreasMapped mmap out mapped h = elim (Option-cases (mmap mapped flat_request)) [
  | inl e ↦ absurd (ground arith)
  | inr (flat, e) ↦ elim (Option-cases (mmap ((flat_request, flat) ∷ mapped) fixed_area_request)) [
    | inl e' ↦ absurd (ground arith)
    | inr (p, e') ↦ (flat, e, ground arith, ground arith)
  ]
]

not_misplaced :
    (start reserve p : ℕ)
    → 0 < reserve
    → reserve ≤ int32_max
    → (kernel_misplaced start reserve p ≡ false)
      ↔ ((p + reserve < int32_max) × ((align_down start ≡ 0) ⊎ (p ≤ align_down start)))
unfolding kernel_misplaced
not_misplaced start reserve p h bound = ground arith

module _ (mmap : Mmap) (start reserve : ℕ) (wants_out : Bool) (some_reserved : 0 < reserve)
    (bound : reserve ≤ int32_max) where
  abbrev run : Outcome
  run = init_memory_map mmap start reserve wants_out

  abbrev out : ℕ → Option ℕ
  out p = if wants_out then some (if align_down start == 0 then p else start) else none

  -- The run once the kernel area is at `p`.
  enters :
      (p : ℕ)
      → mmap [] (kernel_request start reserve) ≡ some p
      → kernel_misplaced start reserve p ≡ false
      → run ≡ map_areas mmap (out p) ((kernel_request start reserve, p) ∷ [])
  unfolding init_memory_map
  enters p e ok =
      let some_pages : (reserve == 0) ≡ false = ground arith in
      rw (some_pages, e, ok, init_memory_map)

  refused :
      (p : ℕ)
      → mmap [] (kernel_request start reserve) ≡ some p
      → kernel_misplaced start reserve p ≡ true
      → run.rc ≡ minus_one
  unfolding init_memory_map
  refused p e bad =
      let some_pages : (reserve == 0) ≡ false = ground arith in
      rw (some_pages, e, bad, init_memory_map)

  failed : mmap [] (kernel_request start reserve) ≡ none → run.rc ≡ minus_one
  unfolding init_memory_map
  failed e =
      let some_pages : (reserve == 0) ≡ false = ground arith in rw (some_pages, e, init_memory_map)

  Succeeds-at :
      (p : ℕ)
      → mmap [] (kernel_request start reserve) ≡ some p
      → kernel_misplaced start reserve p ≡ false
      → run.rc ≡ pos 0
      → Succeeds mmap start reserve wants_out run
  Succeeds-at p e ok h =
      let step = enters p e ok in
      let rest =
        map_areas-AreasMapped mmap (out p) ((kernel_request start reserve, p) ∷ [])
          (ap (λ o. o.rc) (sym step) ∙ h) in
      let place = (not_misplaced start reserve p some_reserved bound).0 ok in
      record {
        p = p;
        flat = rest.0;
        kernel_at = e;
        flat_at = rest.1;
        fixed_at = rest.2;
        low = place.0;
        not_above = place.1;
        result = step ∙ rest.3;
      }

  to_Succeeds : run.rc ≡ pos 0 → Succeeds mmap start reserve wants_out run
  to_Succeeds h = elim (Option-cases (mmap [] (kernel_request start reserve))) [
    | inl e ↦ absurd (ground (arith, failed e))
    | inr (p, e) ↦ elim (Bool-cases (kernel_misplaced start reserve p)) [
      | inl bad ↦ absurd (ground (arith, refused p e bad))
      | inr ok ↦ Succeeds-at p e ok h
    ]
  ]

  -- `init_memory_map` with a kernel area of at most `INT32_MAX` bytes returns 0 exactly if `mmap`
  -- gives the kernel's area with its end below `INT32_MAX` and, unless the rounded hint is 0, not
  -- above that hint, then the flat area, then the fixed area at its address. It then has stored
  -- through `kernel_out` the area's address for the hint 0, and otherwise the given start.
  pub init_memory_map-Succeeds : (run.rc ≡ pos 0) ↔ Succeeds mmap start reserve wants_out run
  init_memory_map-Succeeds = (to_Succeeds, λ s. ap (λ o. o.rc) s.result)

-- If `mmap` places the kernel's area wholly below the page of the start that was asked for, which
-- is not in page 0, and the other areas as usual, `init_memory_map` still returns 0 and hands out the start, which then lies
-- outside of the area.
pub kernel_out_unmapped :
    (mmap : Mmap) (start reserve p flat : ℕ)
    → 0 < reserve
    → p + reserve < int32_max
    → p + (kernel_request start reserve).size ≤ align_down start
    → page_size ≤ start
    → start < 2 ^ 64
    → mmap [] (kernel_request start reserve) ≡ some p
    → mmap ((kernel_request start reserve, p) ∷ []) flat_request ≡ some flat
    → mmap ((flat_request, flat) ∷ (kernel_request start reserve, p) ∷ []) fixed_area_request
      ≡ some sys_fixed_area_start
    → ((init_memory_map mmap start reserve true).rc ≡ pos 0)
      × ((init_memory_map mmap start reserve true).kernel_out ≡ some start)
      × (p + (kernel_request start reserve).size ≤ start)
unfolding map_areas
kernel_out_unmapped mmap start reserve p flat some_reserved low below page fits e e' e'' =
    let rounded = align_down_lem start fits in
    let bound : reserve ≤ int32_max = omega arith in
    let placed : kernel_misplaced start reserve p ≡ false =
      (not_misplaced start reserve p some_reserved bound).1 (low, inr (omega arith)) in
    let step = enters mmap start reserve true some_reserved bound p e placed in
    let not_zero : (align_down start == 0) ≡ false = ground arith in
    (rw (step, e', e'', map_areas), rw (step, e', e'', not_zero, map_areas), omega arith)

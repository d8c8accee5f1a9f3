-- ===== src/LoadKernel/Patch.antt =====
-- The patches of LoadOneImport as an instruction reads them.
use templeos_loader.Prelude.{
  ℕ, ◌+◌, ◌-◌, ◌*◌, subst, sym, ◌%◌, ◌^◌, ◌<◌, ◌≡◌, ◌≢◌, ◌⊎◌, ◌==◌, inl, inr, arith, Bool-cases,
}
use templeos_loader.LoadKernel.Memory.{Mem, load, load-store}
use templeos_loader.LoadKernel.Defs.{patch, patch_width, patch_value}

-- The types that patch a distance.
abbrev pub IsRelative : ℕ → Type 0
IsRelative etype = (etype ≡ 4) ⊎ (etype ≡ 6) ⊎ (etype ≡ 8) ⊎ (etype ≡ 10)

patched :
    (etype ptr2 i : ℕ) (m : Mem)
    → i ≢ 0
    → load (patch_width etype) ptr2 (patch etype ptr2 i m)
      ≡ patch_value etype ptr2 i % 256 ^ patch_width etype
unfolding patch
patched etype ptr2 i m ne = elim (Bool-cases (i == 0)) [
  | inl e ↦ absurd (ground arith)
  | inr e ↦ rw (e) (load-store (patch_width etype) ptr2 (patch_value etype ptr2 i) m)
]

-- A distance that the end of the word and the symbol determine closes the gap between them.
abbrev Closes : ℕ → ℕ → ℕ → ℕ → Type 0
Closes w ptr2 i x =
    x ≡ (i + 2 * 2 ^ 64 - ptr2 - w) % 2 ^ 64 % 256 ^ w → (ptr2 + w + x) % 256 ^ w ≡ i % 256 ^ w

Closes-all :
    (ptr2 i x : ℕ)
    → ptr2 < 2 ^ 64
    → Closes 1 ptr2 i x × (Closes 2 ptr2 i x × (Closes 4 ptr2 i x × Closes 8 ptr2 i x))
Closes-all ptr2 i x lt =
    (λ h. omega arith, (λ h. omega arith, (λ h. omega arith, λ h. omega arith)))

-- A relative patch with an address that is not NULL, at a 64-bit address: the end of the patched
-- word plus the number that is then stored in the word is the address, modulo the word's width.
pub patch-leads :
    (etype ptr2 i : ℕ) (m : Mem)
    → IsRelative etype
    → i ≢ 0
    → ptr2 < 2 ^ 64
    → (ptr2 + patch_width etype + load (patch_width etype) ptr2 (patch etype ptr2 i m))
        % 256 ^ patch_width etype
      ≡ i % 256 ^ patch_width etype
patch-leads etype ptr2 i m rel ne lt = elim rel [
  | inl e ↦ subst Leads (sym e) ((Closes-all ptr2 i _ lt).0 (patched 4 ptr2 i m ne))
  | inr (inl e) ↦ subst Leads (sym e) ((Closes-all ptr2 i _ lt).1.0 (patched 6 ptr2 i m ne))
  | inr (inr (inl e)) ↦ subst Leads (sym e) ((Closes-all ptr2 i _ lt).1.1.0 (patched 8 ptr2 i m ne))
  | inr (inr (inr e)) ↦
      subst Leads (sym e) ((Closes-all ptr2 i _ lt).1.1.1 (patched 10 ptr2 i m ne))
]
  where
    Leads : ℕ → Type 0
    Leads t =
        (ptr2 + patch_width t + load (patch_width t) ptr2 (patch t ptr2 i m)) % 256 ^ patch_width t
        ≡ i % 256 ^ patch_width t

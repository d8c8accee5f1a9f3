-- ===== src/Guest/Natural.antt =====
-- Declarations that need no padding: where each member is aligned as it stands, C and HolyC agree.
use templeos_loader.Prelude.{ℕ, ◌+◌, ◌*◌, ◌≡◌, refl, ap, ◌∙◌, ◌∷◌}
use templeos_loader.Guest.Layout.{
  Ty, u0, i8, u8, boolean, i16, u16, i32, u32, i64, u64, f64, ptr, array, struct, Decl, Members,
  nil, ◌▸◌, member, align_to, assert_aligned, assert_offset, size, after, end_from, places,
  round_up, c_align, c_size, c_after, c_end_from, c_places, c_align_members,
}

-- No padding is due in a type, or from an offset on.
unfoldable mutual
  unfolding size after c_align c_align_members

  pub IsNatural : Ty → Type 0
  IsNatural u0 = Unit
  IsNatural i8 = Unit
  IsNatural u8 = Unit
  IsNatural boolean = Unit
  IsNatural i16 = Unit
  IsNatural u16 = Unit
  IsNatural i32 = Unit
  IsNatural u32 = Unit
  IsNatural i64 = Unit
  IsNatural u64 = Unit
  IsNatural f64 = Unit
  IsNatural ptr = Unit
  IsNatural (array t n) = IsNatural t
  IsNatural (struct ms) =
      AreNatural 0 ms × (round_up (end_from 0 ms) (c_align_members ms) ≡ end_from 0 ms)

  pub AreNatural : ℕ → Members → Type 0
  AreNatural o nil = Unit
  AreNatural o (d ▸ ms) = IsNaturalAt o d × AreNatural (after o d) ms

  pub IsNaturalAt : ℕ → Decl → Type 0
  IsNaturalAt o (member name t) = IsNatural t × (round_up o (c_align t) ≡ o)
  IsNaturalAt o (align_to k) = ⊥
  IsNaturalAt o (assert_aligned k) = Unit
  IsNaturalAt o (assert_offset at) = Unit

mutual
  unfolding IsNatural size after end_from c_align c_align_members c_size c_after c_end_from

  c_size-eq : (t : Ty) → IsNatural t → c_size t ≡ size t
  c_size-eq u0 h = refl
  c_size-eq i8 h = refl
  c_size-eq u8 h = refl
  c_size-eq boolean h = refl
  c_size-eq i16 h = refl
  c_size-eq u16 h = refl
  c_size-eq i32 h = refl
  c_size-eq u32 h = refl
  c_size-eq i64 h = refl
  c_size-eq u64 h = refl
  c_size-eq f64 h = refl
  c_size-eq ptr h = refl
  c_size-eq (array t n) h = ap (λ k. n * k) (c_size-eq t h)
  c_size-eq (struct ms) h = ap (λ e. round_up e (c_align_members ms)) (c_end_from-eq 0 ms h.0) ∙ h.1

  c_after-eq : (o : ℕ) (d : Decl) → IsNaturalAt o d → c_after o d ≡ after o d
  c_after-eq o (member name t) h = λ i. h.1 i + c_size-eq t h.0 i
  c_after-eq o (align_to k) h = absurd h
  c_after-eq o (assert_aligned k) h = refl
  c_after-eq o (assert_offset at) h = refl

  c_end_from-eq : (o : ℕ) (ms : Members) → AreNatural o ms → c_end_from o ms ≡ end_from o ms
  c_end_from-eq o nil h = refl
  c_end_from-eq o (d ▸ ms) h =
      ap (λ e. c_end_from e ms) (c_after-eq o d h.0) ∙ c_end_from-eq (after o d) ms h.1

-- Where no padding is due from an offset on, C places the members as HolyC does.
pub c_places-places : (o : ℕ) (ms : Members) → AreNatural o ms → c_places o ms ≡ places o ms
unfolding c_places places IsNatural
c_places-places o nil h = refl
c_places-places o (member name t ▸ ms) h = λ i.
    record { name = name; offset = h.0.1 i; bytes = c_size-eq t h.0.0 i }
    ∷ (ap (λ e. c_places e ms) (c_after-eq o (member name t) h.0)
          ∙ c_places-places (after o (member name t)) ms h.1)
        i
c_places-places o (align_to k ▸ ms) h = absurd h.0
c_places-places o (assert_aligned k ▸ ms) h = c_places-places o ms h.1
c_places-places o (assert_offset at ▸ ms) h = c_places-places o ms h.1

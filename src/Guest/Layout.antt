-- ===== src/Guest/Layout.antt =====
-- How HolyC and C lay out the members of a class or a structure. HolyC puts each member directly
-- behind the one before; C pads, on x86-64, to the alignment of the member's type, and the
-- structure's end to the largest one.
use templeos_loader.Prelude.{
  ℕ, ◌+◌, ◌-◌, ◌*◌, ◌/◌, ◌%◌, ◌^◌, ◌==◌, leb, if◌then◌else◌, Bool, true, ◌&&◌, Option, none, some,
  List, [], ◌∷◌, text, str_eq,
}
use Prim.Native.String.{String}

infixr 20 ◌▸◌
-- The types, the declarations in a class, and lists of these. `align_to k` is
-- `$$=($$+n-1)&-n` for the k-th power of two n, `assert_aligned k` is `#assert !($$&(n-1))`, and
-- `assert_offset` is `#assert $$==o`.
mutual
  pub data Ty : Type 0 where
    u0 : Ty
    i8 : Ty
    u8 : Ty
    boolean : Ty
    i16 : Ty
    u16 : Ty
    i32 : Ty
    u32 : Ty
    i64 : Ty
    u64 : Ty
    f64 : Ty
    ptr : Ty
    array : Ty → ℕ → Ty
    struct : Members → Ty

  pub data Decl : Type 0 where
    member : String → Ty → Decl
    align_to : ℕ → Decl
    assert_aligned : ℕ → Decl
    assert_offset : ℕ → Decl

  pub data Members : Type 0 where
    nil : Members
    ◌▸◌ : Decl → Members → Members

-- The members of a class behind those of its base.
unfoldable pub inherit : Members → Members → Members
inherit nil ms = ms
inherit (d ▸ base) ms = d ▸ inherit base ms

-- The next multiple of a number that is not 0.
abbrev pub round_up : ℕ → ℕ → ℕ
round_up o n = (o + n - 1) / n * n

unfoldable mutual
  -- The size of a HolyC type.
  pub size : Ty → ℕ
  size u0 = 0
  size i8 = 1
  size u8 = 1
  size boolean = 1
  size i16 = 2
  size u16 = 2
  size i32 = 4
  size u32 = 4
  size i64 = 8
  size u64 = 8
  size f64 = 8
  size ptr = 8
  size (array t n) = n * size t
  size (struct ms) = end_from 0 ms

  -- The offset behind one declaration.
  pub after : ℕ → Decl → ℕ
  after o (member name t) = o + size t
  after o (align_to k) = round_up o (2 ^ k)
  after o (assert_aligned k) = o
  after o (assert_offset at) = o

  -- The offset behind the members, from the offset of the first.
  pub end_from : ℕ → Members → ℕ
  end_from o nil = o
  end_from o (d ▸ ms) = end_from (after o d) ms

-- Where a member lies in its class.
pub record Place : Type 0 where
  pub name : String
  pub offset : ℕ
  pub bytes : ℕ

unfoldable pub places : ℕ → Members → List Place
unfolding size after
places o nil = []
places o (member name t ▸ ms) =
    record { name = name; offset = o; bytes = size t } ∷ places (o + size t) ms
places o (align_to k ▸ ms) = places (after o (align_to k)) ms
places o (assert_aligned k ▸ ms) = places o ms
places o (assert_offset at ▸ ms) = places o ms

-- `offset(C.name)`
unfoldable pub find_place : String → List Place → Option ℕ
find_place name [] = none
find_place name (p ∷ ps) =
    if str_eq (text p.name) (text name) then some p.offset else find_place name ps

-- The assertions of a class, as the compiler evaluates them.
unfoldable pub asserts : ℕ → Members → Bool
unfolding after
asserts o nil = true
asserts o (member name t ▸ ms) = asserts (after o (member name t)) ms
asserts o (align_to k ▸ ms) = asserts (after o (align_to k)) ms
asserts o (assert_aligned k ▸ ms) = o % 2 ^ k == 0 && asserts o ms
asserts o (assert_offset at ▸ ms) = o == at && asserts o ms

abbrev pub max : ℕ → ℕ → ℕ
max a b = if leb a b then b else a

unfoldable mutual
  -- C's alignment, size and layout of the same declarations; a structure of C has no other
  -- declarations than members.
  pub c_align : Ty → ℕ
  c_align u0 = 1
  c_align i8 = 1
  c_align u8 = 1
  c_align boolean = 1
  c_align i16 = 2
  c_align u16 = 2
  c_align i32 = 4
  c_align u32 = 4
  c_align i64 = 8
  c_align u64 = 8
  c_align f64 = 8
  c_align ptr = 8
  c_align (array t n) = c_align t
  c_align (struct ms) = c_align_members ms

  pub c_align_decl : Decl → ℕ
  c_align_decl (member name t) = c_align t
  c_align_decl (align_to k) = 1
  c_align_decl (assert_aligned k) = 1
  c_align_decl (assert_offset at) = 1

  pub c_align_members : Members → ℕ
  c_align_members nil = 1
  c_align_members (d ▸ ms) = max (c_align_decl d) (c_align_members ms)

unfoldable mutual
  pub c_size : Ty → ℕ
  c_size u0 = 0
  c_size i8 = 1
  c_size u8 = 1
  c_size boolean = 1
  c_size i16 = 2
  c_size u16 = 2
  c_size i32 = 4
  c_size u32 = 4
  c_size i64 = 8
  c_size u64 = 8
  c_size f64 = 8
  c_size ptr = 8
  c_size (array t n) = n * c_size t
  c_size (struct ms) = round_up (c_end_from 0 ms) (c_align_members ms)

  pub c_after : ℕ → Decl → ℕ
  c_after o (member name t) = round_up o (c_align t) + c_size t
  c_after o (align_to k) = o
  c_after o (assert_aligned k) = o
  c_after o (assert_offset at) = o

  pub c_end_from : ℕ → Members → ℕ
  c_end_from o nil = o
  c_end_from o (d ▸ ms) = c_end_from (c_after o d) ms

unfoldable pub c_places : ℕ → Members → List Place
unfolding c_size c_after c_align
c_places o nil = []
c_places o (member name t ▸ ms) =
    record { name = name; offset = round_up o (c_align t); bytes = c_size t }
    ∷ c_places (c_after o (member name t)) ms
c_places o (align_to k ▸ ms) = c_places o ms
c_places o (assert_aligned k ▸ ms) = c_places o ms
c_places o (assert_offset at ▸ ms) = c_places o ms

-- ===== src/Datetime.antt =====
-- datetime.c: a time as the `CDateStruct` of TempleOS (templeos.h). `localtime_r` is the C
-- library's: a function from the seconds to a broken-down time, or none where it fails.
pub mod Fields
mod Tests
use templeos_loader.Prelude.{ℕ, Option, none, some, ℤ, pos, ◌+ℤ◌, quot, rem, unsigned, to_int}

-- `struct tm`, as far as it is read.
pub record Tm : Type 0 where
  pub tm_sec : ℤ
  pub tm_min : ℤ
  pub tm_hour : ℤ
  pub tm_wday : ℤ
  pub tm_mday : ℤ
  pub tm_mon : ℤ
  pub tm_year : ℤ

-- Eight `uint8_t` and the `int32_t` year.
pub record CDateStruct : Type 0 where
  pub sec10000 : ℕ
  pub sec100 : ℕ
  pub sec : ℕ
  pub min : ℕ
  pub hour : ℕ
  pub day_of_week : ℕ
  pub day_of_mon : ℕ
  pub mon : ℕ
  pub year : ℤ

-- `memset(ds_out, 0, sizeof(*ds_out))`
abbrev pub zeroed : CDateStruct
zeroed = record {
  sec10000 = 0;
  sec100 = 0;
  sec = 0;
  min = 0;
  hour = 0;
  day_of_week = 0;
  day_of_mon = 0;
  mon = 0;
  year = pos 0;
}

-- The stores of a time that `localtime_r` has broken down.
unfoldable pub broken_down : Tm → ℤ → CDateStruct
broken_down tm tv_nsec =
    let sec10000 = to_int (quot tv_nsec 100) in
    record {
      sec10000 = unsigned 8 (rem sec10000 100);
      sec100 = unsigned 8 (quot sec10000 100);
      sec = unsigned 8 tm.tm_sec;
      min = unsigned 8 tm.tm_min;
      hour = unsigned 8 tm.tm_hour;
      day_of_week = unsigned 8 tm.tm_wday;
      day_of_mon = unsigned 8 tm.tm_mday;
      mon = unsigned 8 (pos 1 +ℤ tm.tm_mon);
      year = to_int (pos 1900 +ℤ tm.tm_year);
    }

unfoldable pub timespec_to_CDateStruct_local : (ℤ → Option Tm) → ℤ → ℤ → CDateStruct
unfolding broken_down
timespec_to_CDateStruct_local localtime_r tv_sec tv_nsec = elim (localtime_r tv_sec) [
  | none ↦ zeroed
  | some tm ↦ broken_down tm tv_nsec
]

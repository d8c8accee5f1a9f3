-- ===== src/Datetime/Fields.antt =====
-- What the fields of the converted time hold.
use templeos_loader.Prelude.{ℕ, ◌+◌, ◌/◌, ◌%◌, ◌^◌, ◌≤◌, ◌<◌, ◌≡◌, ◌≢◌, arith, Option, some, ℤ, pos}
use templeos_loader.Datetime.{Tm, timespec_to_CDateStruct_local}

-- A broken-down time in the ranges that the C standard gives for `struct tm`, from the year 1900.
pub record Ranges : Type 0 where
  pub sec : ℕ
  pub min : ℕ
  pub hour : ℕ
  pub wday : ℕ
  pub mday : ℕ
  pub mon : ℕ
  pub year : ℕ
  pub sec_le : sec ≤ 60
  pub min_le : min ≤ 59
  pub hour_le : hour ≤ 23
  pub wday_le : wday ≤ 6
  pub mday_le : mday ≤ 31
  pub mon_le : mon ≤ 11
  pub year_le : 1900 + year < 2 ^ 31

abbrev pub tm_of : Ranges → Tm
tm_of r = record {
  tm_sec = pos r.sec;
  tm_min = pos r.min;
  tm_hour = pos r.hour;
  tm_wday = pos r.wday;
  tm_mday = pos r.mday;
  tm_mon = pos r.mon;
  tm_year = pos r.year;
}

-- For a broken-down time in its ranges and nanoseconds below a second, no field from the seconds
-- up is cut by its type: the date is the one of `localtime_r`, with the month from 1 and the
-- year from 0. Below the second, the fields hold a hundredth of the nanoseconds: `sec10000` is
-- its last two digits, and `sec100` the digits above them, reduced modulo 256.
pub timespec_to_CDateStruct_local_fields :
    (localtime_r : ℤ → Option Tm) (tv_sec : ℤ) (n : ℕ) (r : Ranges)
    → n < 10 ^ 9
    → localtime_r tv_sec ≡ some (tm_of r)
    → timespec_to_CDateStruct_local localtime_r tv_sec (pos n) ≡ record {
      sec10000 = n / 100 % 100;
      sec100 = n / 10000 % 256;
      sec = r.sec;
      min = r.min;
      hour = r.hour;
      day_of_week = r.wday;
      day_of_mon = r.mday;
      mon = r.mon + 1;
      year = pos (1900 + r.year);
    }
unfolding timespec_to_CDateStruct_local
timespec_to_CDateStruct_local_fields localtime_r tv_sec n r h e =
    rw (e, timespec_to_CDateStruct_local) (ground arith)

-- Between ten microseconds and 2.56 milliseconds after the full second, `sec100` is not the
-- number of hundredths of a second: those are 0, and the field is not.
pub sec100_wrong :
    (localtime_r : ℤ → Option Tm) (tv_sec : ℤ) (n : ℕ) (r : Ranges)
    → 10000 ≤ n
    → n < 2560000
    → localtime_r tv_sec ≡ some (tm_of r)
    → (timespec_to_CDateStruct_local localtime_r tv_sec (pos n)).sec100 ≢ n / 10 ^ 7
sec100_wrong localtime_r tv_sec n r lo hi e =
    rw (timespec_to_CDateStruct_local_fields localtime_r tv_sec n r (omega arith) e) (omega arith)

-- ===== src/Datetime/Tests.antt =====
-- The conversion at a concrete time.
use templeos_loader.Prelude.{◌/◌, ◌^◌, ◌≡◌, ◌≢◌, refl, arith, Option, none, some, ℤ, pos, negsuc}
use templeos_loader.Datetime.{Tm, zeroed, timespec_to_CDateStruct_local}
use templeos_loader.Datetime.Fields.{
  Ranges, tm_of, timespec_to_CDateStruct_local_fields, sec100_wrong,
}

-- 2019-10-26 12:34:56, a Saturday.
abbrev noon : Ranges
noon = record {
  sec = 56;
  min = 34;
  hour = 12;
  wday = 6;
  mday = 26;
  mon = 9;
  year = 119;
  sec_le = omega arith;
  min_le = omega arith;
  hour_le = omega arith;
  wday_le = omega arith;
  mday_le = omega arith;
  mon_le = omega arith;
  year_le = omega arith;
}

-- A `localtime_r` that knows this time only.
abbrev clock : ℤ → Option Tm
clock (pos n) = some (tm_of noon)
clock (negsuc n) = none

half_second : (timespec_to_CDateStruct_local clock (pos 1572093296) (pos 500000000)).sec100 ≡ 80
unfolding timespec_to_CDateStruct_local
half_second = refl

before_epoch : timespec_to_CDateStruct_local clock (negsuc 0) (pos 0) ≡ zeroed
unfolding timespec_to_CDateStruct_local
before_epoch = refl

timespec_to_CDateStruct_local_fields_example :
    timespec_to_CDateStruct_local clock (pos 0) (pos 500000123) ≡ record {
      sec10000 = 1;
      sec100 = 80;
      sec = 56;
      min = 34;
      hour = 12;
      day_of_week = 6;
      day_of_mon = 26;
      mon = 10;
      year = pos 2019;
    }
timespec_to_CDateStruct_local_fields_example =
    timespec_to_CDateStruct_local_fields clock (pos 0) 500000123 noon (omega arith) refl

sec100_wrong_example :
    (timespec_to_CDateStruct_local clock (pos 0) (pos 10000)).sec100 ≢ 10000 / 10 ^ 7
sec100_wrong_example = sec100_wrong clock (pos 0) 10000 noon (omega arith) (omega arith) refl

-- ===== src/FatTime/Examples.antt =====
-- A clock for which each time is a second of one minute.
use net_mount.Base.{ℕ, ◌≡◌, refl, arith}
use net_mount.FatTime.{Tm, tm_to_fat, time_to_fat, fat_to_time, pack, push}
use net_mount.FatTime.RoundTrip.{InRange, fat_to_time-time_to_fat}

-- 2024-05-06 07:08
abbrev clock : ℕ → Tm
clock t = record { tm_sec = t; tm_min = 8; tm_hour = 7; tm_mday = 6; month = 5; tm_year = 124 }

abbrev seconds : Tm → ℕ
seconds t = t.tm_sec

pack_test : tm_to_fat (clock 10) ≡ 0x58a63905
unfolding tm_to_fat pack push
pack_test = refl

clock-InRange : InRange (clock 10)
clock-InRange = record {
  sec = omega arith;
  min = omega arith;
  hour = omega arith;
  mday = omega arith;
  month = omega arith;
}

fat_to_time-time_to_fat_example : fat_to_time seconds (time_to_fat clock 10) ≡ 10
fat_to_time-time_to_fat_example =
    fat_to_time-time_to_fat clock seconds 10 refl clock-InRange (omega arith) (omega arith) refl

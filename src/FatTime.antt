-- ===== src/FatTime.antt =====
-- netmount-server/fs.cpp, the time stamps of files: `time_to_fat` and `fat_to_time`.
-- `localtime` and `mktime` are arguments. In their `struct tm` the month is kept as the source
-- stores it in a time stamp, one more than `tm_mon`, and the year counts from 1900; no file has an
-- earlier year.
pub mod RoundTrip
mod Examples
use net_mount.Base.{ℕ, ◌+◌, ◌-◌, ◌*◌, ◌/◌, ◌^◌, ltb, if◌then◌else◌, bit_and, bit_or}
use net_mount.Bytes.{u32}

pub record Tm : Type 0 where
  pub tm_sec : ℕ
  pub tm_min : ℕ
  pub tm_hour : ℕ
  pub tm_mday : ℕ
  pub month : ℕ
  pub tm_year : ℕ

-- `res <<= k; res |= v;`
unfoldable pub push : ℕ → ℕ → ℕ → ℕ
push res k v = bit_or (u32 (res * 2 ^ k)) v

unfoldable pub pack : Tm → ℕ
pack t =
    push (push (push (push (push (t.tm_year - 80) 4 t.month) 5 t.tm_mday) 5 t.tm_hour) 6 t.tm_min) 5
      (t.tm_sec / 2)

-- 1980-01-01 00:00:00 and 2107-12-31 23:59:58.
abbrev pub fat_min : ℕ
fat_min = (1 * 2 ^ 5 + 1) * 2 ^ 16

abbrev pub fat_max : ℕ
fat_max = (0x7f * 2 ^ 9 + 12 * 2 ^ 5 + 31) * 2 ^ 16 + 23 * 2 ^ 11 + 59 * 2 ^ 5 + 58 / 2

unfoldable pub tm_to_fat : Tm → ℕ
tm_to_fat t = if ltb t.tm_year 80 then fat_min else if ltb 207 t.tm_year then fat_max else pack t

unfoldable pub time_to_fat : (ℕ → Tm) → ℕ → ℕ
time_to_fat localtime t = tm_to_fat (localtime t)

unfoldable pub fat_to_tm : ℕ → Tm
fat_to_tm date_time =
    let from_min = date_time / 2 ^ 5 in
    let from_hour = from_min / 2 ^ 6 in
    let from_mday = from_hour / 2 ^ 5 in
    let from_month = from_mday / 2 ^ 5 in
    record {
      tm_sec = bit_and date_time 0x1f * 2;
      tm_min = bit_and from_min 0x3f;
      tm_hour = bit_and from_hour 0x1f;
      tm_mday = bit_and from_mday 0x1f;
      month = bit_and from_month 0x0f;
      tm_year = from_month / 2 ^ 4 + 80;
    }

unfoldable pub fat_to_time : (Tm → ℕ) → ℕ → ℕ
fat_to_time mktime date_time = mktime (fat_to_tm date_time)

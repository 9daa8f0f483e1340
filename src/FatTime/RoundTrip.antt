-- ===== src/FatTime/RoundTrip.antt =====
-- A time stamp holds the time to two seconds, and the order of times.
use net_mount.Base.{
  ℕ, ◌+◌, ◌-◌, ◌*◌, ◌/◌, ◌%◌, ◌^◌, ◌≤◌, ◌<◌, ◌≡◌, ap, ◌∙◌, arith, ltb, bit_and, bit_or_disjoint,
  bit_and_ones, Bool-cases, inl, inr,
}
use net_mount.Bytes.{u32}
use net_mount.FatTime.{
  Tm, push, pack, fat_min, fat_max, tm_to_fat, time_to_fat, fat_to_tm, fat_to_time,
}

-- The fields are in the ranges of a calendar.
pub record InRange (t : Tm) : Type 0 where
  pub sec : t.tm_sec < 60
  pub min : t.tm_min < 60
  pub hour : t.tm_hour < 24
  pub mday : (1 ≤ t.tm_mday) × (t.tm_mday ≤ 31)
  pub month : (1 ≤ t.month) × (t.month ≤ 12)

push-value : (res k v : ℕ) → v < 2 ^ k → res * 2 ^ k < 2 ^ 32 → push res k v ≡ res * 2 ^ k + v
unfolding push
push-value res k v h fits =
    let whole : u32 (res * 2 ^ k) ≡ res * 2 ^ k = omega arith in
    rw whole (bit_or_disjoint k res v h)

-- The number that a time stamp is.
abbrev pub fat_value : Tm → ℕ
fat_value t =
    ((((t.tm_year - 80) * 16 + t.month) * 32 + t.tm_mday) * 32 + t.tm_hour) * 2048
    + t.tm_min * 32
    + t.tm_sec / 2

pub pack-value : (t : Tm) → InRange t → t.tm_year ≤ 207 → pack t ≡ fat_value t
unfolding pack
pack-value t r year =
    let y : ℕ = t.tm_year - 80 in
    let small : y ≤ 127 = omega arith in
    let e1 = push-value y 4 t.month (omega (arith, r.month)) (omega (arith, small)) in
    let v1 : ℕ = y * 16 + t.month in
    let e2 = push-value v1 5 t.tm_mday (omega (arith, r.mday)) (omega (arith, small, r.month)) in
    let v2 : ℕ = v1 * 32 + t.tm_mday in
    let e3 =
      push-value v2 5 t.tm_hour (omega (arith, r.hour)) (omega (arith, small, r.month, r.mday)) in
    let v3 : ℕ = v2 * 32 + t.tm_hour in
    let e4 =
      push-value v3 6 t.tm_min (omega (arith, r.min))
        (omega (arith, small, r.month, r.mday, r.hour)) in
    let v4 : ℕ = v3 * 64 + t.tm_min in
    let e5 =
      push-value v4 5 (t.tm_sec / 2) (omega (arith, r.sec))
        (omega (arith, small, r.month, r.mday, r.hour, r.min)) in
    rw (e1, e2, e3, e4, e5) (omega arith)

fields :
    (v : ℕ) (t : Tm)
    → bit_and v 0x1f * 2 ≡ t.tm_sec
    → bit_and (v / 2 ^ 5) 0x3f ≡ t.tm_min
    → bit_and (v / 2 ^ 5 / 2 ^ 6) 0x1f ≡ t.tm_hour
    → bit_and (v / 2 ^ 5 / 2 ^ 6 / 2 ^ 5) 0x1f ≡ t.tm_mday
    → bit_and (v / 2 ^ 5 / 2 ^ 6 / 2 ^ 5 / 2 ^ 5) 0x0f ≡ t.month
    → v / 2 ^ 5 / 2 ^ 6 / 2 ^ 5 / 2 ^ 5 / 2 ^ 4 + 80 ≡ t.tm_year
    → fat_to_tm v ≡ t
unfolding fat_to_tm
fields v t s mi h d m y = λ i. record {
  tm_sec = s i;
  tm_min = mi i;
  tm_hour = h i;
  tm_mday = d i;
  month = m i;
  tm_year = y i;
}

-- A time stamp gives back the time that it was made from, at an even second. The fields are in
-- range, and the year is 1980 to 2107.
pub fat_to_tm-tm_to_fat :
    (t : Tm)
    → InRange t
    → 80 ≤ t.tm_year
    → t.tm_year ≤ 207
    → fat_to_tm (tm_to_fat t) ≡ record t { tm_sec = t.tm_sec / 2 * 2 }
unfolding tm_to_fat
fat_to_tm-tm_to_fat t r lo hi =
    let packed : tm_to_fat t ≡ fat_value t = ground (arith, lo, hi, pack-value t r hi) in
    let v : ℕ = fat_value t in
    rw packed (
      fields v (record t { tm_sec = t.tm_sec / 2 * 2 }) (omega (arith, bit_and_ones 5 v, r.sec))
        (omega (arith, bit_and_ones 6 (v / 2 ^ 5), r.sec, r.min))
        (omega (arith, bit_and_ones 5 (v / 2 ^ 5 / 2 ^ 6), r.sec, r.min, r.hour))
        (omega (arith, bit_and_ones 5 (v / 2 ^ 5 / 2 ^ 6 / 2 ^ 5), r.sec, r.min, r.hour, r.mday))
        (omega (
          arith,
          bit_and_ones 4 (v / 2 ^ 5 / 2 ^ 6 / 2 ^ 5 / 2 ^ 5),
          r.sec,
          r.min,
          r.hour,
          r.mday,
          r.month,
        ))
        (omega (arith, r.sec, r.min, r.hour, r.mday, r.month, lo, hi)))

-- Every time stamp lies between those of the first and the last time that DOS knows.
pub tm_to_fat_bounds : (t : Tm) → InRange t → (fat_min ≤ tm_to_fat t) × (tm_to_fat t ≤ fat_max)
unfolding tm_to_fat
tm_to_fat_bounds t r = elim (Bool-cases (ltb t.tm_year 80)) [
  | inl early ↦ rw early (omega arith)
  | inr begun ↦ elim (Bool-cases (ltb 207 t.tm_year)) [
    | inl late ↦ rw (begun, late) (omega arith)
    | inr in_time ↦
        let lo : 80 ≤ t.tm_year = ground (arith, begun) in
        let hi : t.tm_year ≤ 207 = ground (arith, in_time) in
        rw (begun, in_time)
          (omega (arith, pack-value t r hi, r.sec, r.min, r.hour, r.mday, r.month, lo))
  ]
]

-- A file's time is set and read back: the time stamp of a time on an even second, between 1980 and
-- 2107, is turned back into that time, where `mktime` inverts `localtime` there.
pub fat_to_time-time_to_fat :
    (localtime : ℕ → Tm) (mktime : Tm → ℕ) (t : ℕ)
    → mktime (localtime t) ≡ t
    → InRange (localtime t)
    → 80 ≤ (localtime t).tm_year
    → (localtime t).tm_year ≤ 207
    → (localtime t).tm_sec % 2 ≡ 0
    → fat_to_time mktime (time_to_fat localtime t) ≡ t
unfolding fat_to_time time_to_fat
fat_to_time-time_to_fat localtime mktime t inverse r lo hi even =
    let whole : (localtime t).tm_sec / 2 * 2 ≡ (localtime t).tm_sec = omega (arith, even) in
    ap mktime (
      fat_to_tm-tm_to_fat (localtime t) r lo hi
      ∙ ap (λ (n : ℕ). record (localtime t) { tm_sec = n }) whole)
    ∙ inverse

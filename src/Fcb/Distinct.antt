-- ===== src/Fcb/Distinct.antt =====
-- The numbers that `file_name_to_83` tries give different names.
use net_mount.Base.{
  ℕ, zero, suc, ◌+◌, ◌-◌, ◌*◌, ◌/◌, ◌%◌, ◌≤◌, ◌<◌, ◌≡◌, refl, ◌∙◌, List, [], ◌∷◌, ◌++◌, ◌&&◌, leb,
  ◌==◌, arith, length, length-append, take, drop, if◌then◌else◌,
}
use net_mount.Fcb.{decimal, counter_len, with_suffix}
use net_mount.Fcb.Legal.{AreBlank}

-- The number behind the last `~` of a name; `n` is what has been read so far.
abbrev pub read_number : ℕ → List ℕ → ℕ
read_number n [] = n
read_number n (c ∷ cs) =
    read_number
      (if c == b'~' then 0 else if leb b'0' c && leb c b'9' then 10 * n + (c - b'0') else n) cs

read_number-append :
    (xs ys : List ℕ) (n : ℕ) → read_number n (xs ++ ys) ≡ read_number (read_number n xs) ys
read_number-append [] ys n = refl
read_number-append (x ∷ xs) ys n =
    read_number-append xs ys
      (if x == b'~' then 0 else if leb b'0' x && leb x b'9' then 10 * n + (x - b'0') else n)

read_number_digit : (n d : ℕ) → d < 10 → read_number n ((b'0' + d) ∷ []) ≡ 10 * n + d
read_number_digit n d h = ground arith

-- How many numbers `k` digits can write.
abbrev power : ℕ → ℕ
power zero = 1
power (suc k) = 10 * power k

read_number-decimal : (k c : ℕ) → c < power k → read_number 0 (decimal k c) ≡ c
unfolding decimal
read_number-decimal zero c h = omega arith
read_number-decimal (suc k) c h =
    read_number-append (decimal k (c / 10)) ((b'0' + c % 10) ∷ []) 0
    ∙ rw (read_number-decimal k (c / 10) (omega arith))
        (read_number_digit (c / 10) (c % 10) (omega arith) ∙ omega arith)

read_number-AreBlank : (n : ℕ) (xs : List ℕ) → AreBlank xs → read_number n xs ≡ n
read_number-AreBlank n [] h = refl
read_number-AreBlank n (x ∷ xs) (e, h) = rw e (read_number-AreBlank n xs h)

pub length-decimal : (k c : ℕ) → length (decimal k c) ≡ k
unfolding decimal
length-decimal zero c = refl
length-decimal (suc k) c =
    omega
      (arith, length-append (decimal k (c / 10)) ((b'0' + c % 10) ∷ []), length-decimal k (c / 10))

counter_len-power : (c : ℕ) → c < 10000 → c < power (counter_len c)
unfolding counter_len
counter_len-power c h = ground arith

pub counter_len-le : (c : ℕ) → (1 ≤ counter_len c) × (counter_len c ≤ 4)
unfolding counter_len
counter_len-le c = ground arith

pub counter_len_mono : (c : ℕ) → counter_len c ≤ counter_len (suc c)
unfolding counter_len
counter_len_mono c = ground arith

-- Where the buffer is blank behind the number, the name shows the number.
pub read_number-with_suffix :
    (c base_len : ℕ) (name : List ℕ)
    → c < 10000
    → AreBlank (drop (base_len + suc (counter_len c)) name)
    → read_number 0 (with_suffix c base_len name) ≡ c
unfolding with_suffix
read_number-with_suffix c base_len name h blank =
    let size : length (decimal (counter_len c) c) ≡ counter_len c =
      length-decimal (counter_len c) c in
    rw (size) (
      read_number-append (take base_len name) _ 0
      ∙ read_number-append (decimal (counter_len c) c) _ 0
      ∙ rw (read_number-decimal (counter_len c) c (counter_len-power c h))
          (read_number-AreBlank c _ blank))

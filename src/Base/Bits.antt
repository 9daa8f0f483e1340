-- ===== src/Base/Bits.antt =====
-- Laws of `bit_or` and `bit_and` at variables, from the digit recursion that they stand for.
use Prim.Native.Nat.{
  ℕ, zero, suc, ◌+◌, ◌-◌, ◌*◌, ◌/◌, ◌%◌, ◌^◌, ◌≤◌, ◌<◌, min, max, bit_and, bit_or, digits, bitwise,
  bit_and-bitwise, bit_or-bitwise,
}
use mathlib.Core.Path.{◌≡◌, refl, sym, ap, ◌∙◌}
use native.Mathlib.Nat.{
  pow-suc, one-le-pow, mod-lt, mod-eq_of_lt, div-add-mod, add-mul-mod_self_left, div-div-eq-div-mul,
}
use native.Mathlib.Omega.{arith}

digits_none : (base : ℕ → ℕ) (op : ℕ → ℕ → ℕ) (fuel y : ℕ) → digits base op fuel 0 y ≡ base y
digits_none base op zero y = refl
digits_none base op (suc fuel) y = refl

-- With as much fuel as the first operand, any extra fuel changes nothing.
digits_extra :
    (base : ℕ → ℕ) (op : ℕ → ℕ → ℕ) (fuel extra x y : ℕ)
    → x ≤ fuel
    → digits base op (extra + fuel) x y ≡ digits base op fuel x y
digits_extra base op fuel extra zero y enough =
    digits_none base op (extra + fuel) y ∙ sym (digits_none base op fuel y)
digits_extra base op zero extra (suc x) y enough = absurd (omega arith)
digits_extra base op (suc fuel) extra (suc x) y enough =
    let carried : extra + suc fuel ≡ suc (extra + fuel) = omega arith in
    rw carried (
      ap (λ (t : ℕ). t * 2 + op (suc x % 2) (y % 2))
        (digits_extra base op fuel extra (suc x / 2) (y / 2) (omega arith)))

-- The lowest digit of a result, and the rest.
digits_lowest :
    (base : ℕ → ℕ) (op : ℕ → ℕ → ℕ) (x y : ℕ)
    → bitwise base op (suc x) y ≡ bitwise base op (suc x / 2) (y / 2) * 2 + op (suc x % 2) (y % 2)
digits_lowest base op x y =
    let spare : x - suc x / 2 + suc x / 2 ≡ x = omega arith in
    let same = digits_extra base op (suc x / 2) (x - suc x / 2) (suc x / 2) (y / 2) (omega arith) in
    let fits = ap (λ (t : ℕ). digits base op t (suc x / 2) (y / 2)) spare in
    omega (arith, same, fits)

pub bit_and_step : (x y : ℕ) → bit_and x y ≡ bit_and (x / 2) (y / 2) * 2 + min (x % 2) (y % 2)
bit_and_step (suc x) y = simp bit_and-bitwise (digits_lowest (λ t. 0) min x y)
bit_and_step zero y = simp bit_and-bitwise (omega arith)

pub bit_or_step : (x y : ℕ) → bit_or x y ≡ bit_or (x / 2) (y / 2) * 2 + max (x % 2) (y % 2)
bit_or_step (suc x) y = simp bit_or-bitwise (digits_lowest (λ t. t) max x y)
bit_or_step zero y = simp bit_or-bitwise (omega arith)

pub bit_or-half : (a b : ℕ) → bit_or a b / 2 ≡ bit_or (a / 2) (b / 2)
bit_or-half a b = omega (arith, bit_or_step a b)

pub bit_or-low : (a b : ℕ) → bit_or a b % 2 ≡ max (a % 2) (b % 2)
bit_or-low a b = omega (arith, bit_or_step a b)

pub bit_and-half : (a b : ℕ) → bit_and a b / 2 ≡ bit_and (a / 2) (b / 2)
bit_and-half a b = omega (arith, bit_and_step a b)

pub bit_and-low : (a b : ℕ) → bit_and a b % 2 ≡ min (a % 2) (b % 2)
bit_and-low a b = omega (arith, bit_and_step a b)

-- A number is its half and its lowest digit.
pub eq_of_digits : (a b : ℕ) → a / 2 ≡ b / 2 → a % 2 ≡ b % 2 → a ≡ b
eq_of_digits a b h l = omega arith

zero-or_fuel : (n b : ℕ) → b ≤ n → bit_or 0 b ≡ b
zero-or_fuel n zero h = refl
zero-or_fuel zero (suc b) h = absurd (omega arith)
zero-or_fuel (suc n) (suc b) h =
    omega (arith, bit_or_step 0 (suc b), zero-or_fuel n (suc b / 2) (omega arith))

pub zero-bit_or : (b : ℕ) → bit_or 0 b ≡ b
zero-bit_or b = zero-or_fuel b b (omega arith)

or-zero_fuel : (n b : ℕ) → b ≤ n → bit_or b 0 ≡ b
or-zero_fuel n zero h = refl
or-zero_fuel zero (suc b) h = absurd (omega arith)
or-zero_fuel (suc n) (suc b) h =
    omega (arith, bit_or_step (suc b) 0, or-zero_fuel n (suc b / 2) (omega arith))

pub bit_or-zero : (b : ℕ) → bit_or b 0 ≡ b
bit_or-zero b = or-zero_fuel b b (omega arith)

-- `|` of a multiple of a power of two and a number below it is their sum.
pub bit_or_disjoint : (k q r : ℕ) → r < 2 ^ k → bit_or (q * 2 ^ k) r ≡ q * 2 ^ k + r
bit_or_disjoint zero q r h = ground (arith, bit_or-zero q)
bit_or_disjoint (suc k) q r h =
    let shift : q * 2 ^ suc k ≡ 2 * (q * 2 ^ k) =
      omega (arith, ap (λ (t : ℕ). q * t) (pow-suc 2 k)) in
    ground (
      arith,
      bit_or_step (q * 2 ^ suc k) r,
      shift,
      pow-suc 2 k,
      bit_or_disjoint k q (r / 2) (omega (arith, pow-suc 2 k)),
    )

-- `|` of numbers of `k` digits has `k` digits.
pub bit_or-lt : (k a b : ℕ) → a < 2 ^ k → b < 2 ^ k → bit_or a b < 2 ^ k
bit_or-lt zero a b h g = ground (arith, zero-bit_or b)
bit_or-lt (suc k) a b h g = omega (
  arith,
  bit_or_step a b,
  pow-suc 2 k,
  bit_or-lt k (a / 2) (b / 2) (omega (arith, pow-suc 2 k)) (omega (arith, pow-suc 2 k)),
)

-- Every step leaves a zero digit.
and-zero_below : (bound a : ℕ) → a < bound → bit_and a 0 ≡ 0
and-zero_below zero a small = absurd (omega arith)
and-zero_below (suc bound) zero small = refl
and-zero_below (suc bound) (suc a) small =
    omega (arith, and-zero_below bound (suc a / 2) (omega arith), bit_and_step (suc a) 0)

pub bit_and-zero : (a : ℕ) → bit_and a 0 ≡ 0
bit_and-zero a = and-zero_below (suc a) a (omega arith)

-- The remainder by an even number, digit by digit.
mod_double : (a p : ℕ) → 0 < p → a % (2 * p) ≡ 2 * (a / 2 % p) + a % 2
mod_double a p pos =
    let r : ℕ = 2 * (a / 2 % p) + a % 2 in
    let q : ℕ = a / 2 / p in
    let split : a ≡ r + 2 * p * q = omega (arith, div-add-mod (a / 2) p) in
    ap (λ (t : ℕ). t % (2 * p)) split
    ∙ add-mul-mod_self_left r (2 * p) q
    ∙ mod-eq_of_lt (omega (arith, mod-lt (a / 2) pos))

-- A mask of `k` ones keeps the low `k` digits.
pub bit_and_ones : (k a : ℕ) → bit_and a (2 ^ k - 1) ≡ a % 2 ^ k
bit_and_ones zero a = omega (arith, bit_and-zero a)
bit_and_ones (suc k) a =
    let e : 2 ^ suc k ≡ 2 * 2 ^ k = omega (arith, pow-suc 2 k) in
    let half : (2 * 2 ^ k - 1) / 2 ≡ 2 ^ k - 1 = omega (arith, one-le-pow k 2) in
    let rest : bit_and (a / 2) ((2 * 2 ^ k - 1) / 2) ≡ a / 2 % 2 ^ k =
      rw half (bit_and_ones k (a / 2)) in
    rw e (
      omega (
        arith,
        bit_and_step a (2 * 2 ^ k - 1),
        rest,
        one-le-pow k 2,
        mod_double a (2 ^ k) (one-le-pow k 2 (omega arith)),
      ))

-- A mask with `k` zeros below it leaves the low `k` digits out.
pub bit_and_shifted : (k a m : ℕ) → bit_and a (m * 2 ^ k) ≡ bit_and (a / 2 ^ k) m * 2 ^ k
bit_and_shifted zero a m = ground arith
bit_and_shifted (suc k) a m =
    let e : 2 ^ suc k ≡ 2 * 2 ^ k = omega (arith, pow-suc 2 k) in
    let shift : m * (2 * 2 ^ k) ≡ 2 * (m * 2 ^ k) = omega arith in
    let half : m * (2 * 2 ^ k) / 2 ≡ m * 2 ^ k = omega (arith, shift) in
    let rest : bit_and (a / 2) (m * (2 * 2 ^ k) / 2) ≡ bit_and (a / 2 / 2 ^ k) m * 2 ^ k =
      rw half (bit_and_shifted k (a / 2) m) in
    rw e (
      omega (
        arith,
        bit_and_step a (m * (2 * 2 ^ k)),
        rest,
        ap (λ (t : ℕ). bit_and t m * 2 ^ k) (div-div-eq-div-mul a 2 (2 ^ k)),
      ))

-- Set two fields, then mask.
abbrev pub or_or_and : ℕ → ℕ → ℕ → ℕ → ℕ
or_or_and x a b m = bit_and (bit_or (bit_or x a) b) m

or_or_and-half : (x a b m : ℕ) → or_or_and x a b m / 2 ≡ or_or_and (x / 2) (a / 2) (b / 2) (m / 2)
or_or_and-half x a b m = rw (bit_and-half, bit_or-half, bit_or-half)

or_or_and-low :
    (x a b m : ℕ) → or_or_and x a b m % 2 ≡ min (max (max (x % 2) (a % 2)) (b % 2)) (m % 2)
or_or_and-low x a b m = rw (bit_and-low, bit_or-low, bit_or-low)

or_or_and_fuel :
    (n x a b m : ℕ)
    → x ≤ n
    → a ≤ n
    → b ≤ n
    → m ≤ n
    → or_or_and (or_or_and x a b m) a b m ≡ or_or_and x a b m
or_or_and_fuel zero zero zero zero zero p q r s = refl
or_or_and_fuel zero (suc x) a b m p q r s = absurd (omega arith)
or_or_and_fuel zero zero (suc a) b m p q r s = absurd (omega arith)
or_or_and_fuel zero zero zero (suc b) m p q r s = absurd (omega arith)
or_or_and_fuel zero zero zero zero (suc m) p q r s = absurd (omega arith)
or_or_and_fuel (suc n) x a b m p q r s =
    eq_of_digits _ _
      (rw (or_or_and-half (or_or_and x a b m) a b m, or_or_and-half x a b m)
        (or_or_and_fuel n (x / 2) (a / 2) (b / 2) (m / 2) (omega arith) (omega arith) (omega arith)
          (omega arith)))
      (omega (arith, or_or_and-low (or_or_and x a b m) a b m, or_or_and-low x a b m))

-- Doing it again changes nothing.
pub or_or_and_twice : (x a b m : ℕ) → or_or_and (or_or_and x a b m) a b m ≡ or_or_and x a b m
or_or_and_twice x a b m =
    or_or_and_fuel (x + a + b + m) x a b m (omega arith) (omega arith) (omega arith) (omega arith)

-- Set three fields.
abbrev pub or_or_or : ℕ → ℕ → ℕ → ℕ → ℕ
or_or_or x a b c = bit_or (bit_or (bit_or x a) b) c

or_or_or-half : (x a b c : ℕ) → or_or_or x a b c / 2 ≡ or_or_or (x / 2) (a / 2) (b / 2) (c / 2)
or_or_or-half x a b c = rw (bit_or-half, bit_or-half, bit_or-half)

or_or_or-low :
    (x a b c : ℕ) → or_or_or x a b c % 2 ≡ max (max (max (x % 2) (a % 2)) (b % 2)) (c % 2)
or_or_or-low x a b c = rw (bit_or-low, bit_or-low, bit_or-low)

or_or_or_fuel :
    (n x a b c : ℕ)
    → x ≤ n
    → a ≤ n
    → b ≤ n
    → c ≤ n
    → or_or_or (or_or_or x a b c) a b c ≡ or_or_or x a b c
or_or_or_fuel zero zero zero zero zero p q r s = refl
or_or_or_fuel zero (suc x) a b c p q r s = absurd (omega arith)
or_or_or_fuel zero zero (suc a) b c p q r s = absurd (omega arith)
or_or_or_fuel zero zero zero (suc b) c p q r s = absurd (omega arith)
or_or_or_fuel zero zero zero zero (suc c) p q r s = absurd (omega arith)
or_or_or_fuel (suc n) x a b c p q r s =
    eq_of_digits _ _
      (rw (or_or_or-half (or_or_or x a b c) a b c, or_or_or-half x a b c)
        (or_or_or_fuel n (x / 2) (a / 2) (b / 2) (c / 2) (omega arith) (omega arith) (omega arith)
          (omega arith)))
      (omega (arith, or_or_or-low (or_or_or x a b c) a b c, or_or_or-low x a b c))

-- Doing it again changes nothing.
pub or_or_or_twice : (x a b c : ℕ) → or_or_or (or_or_or x a b c) a b c ≡ or_or_or x a b c
or_or_or_twice x a b c =
    or_or_or_fuel (x + a + b + c) x a b c (omega arith) (omega arith) (omega arith) (omega arith)

-- `&` does not make a number larger.
and-le_fuel : (n a b : ℕ) → a ≤ n → bit_and a b ≤ a
and-le_fuel n zero b h = omega (arith, bit_and-bitwise zero b)
and-le_fuel zero (suc a) b h = absurd (omega arith)
and-le_fuel (suc n) (suc a) b h =
    omega (arith, bit_and_step (suc a) b, and-le_fuel n (suc a / 2) (b / 2) (omega arith))

pub bit_and-le : (a b : ℕ) → bit_and a b ≤ a
bit_and-le a b = and-le_fuel a a b (omega arith)

bit_or_comm_fuel : (n a b : ℕ) → a < n → b < n → bit_or a b ≡ bit_or b a
bit_or_comm_fuel zero a b p q = absurd (omega arith)
bit_or_comm_fuel (suc zero) zero zero p q = refl
bit_or_comm_fuel (suc zero) (suc a) b p q = absurd (omega arith)
bit_or_comm_fuel (suc zero) zero (suc b) p q = absurd (omega arith)
bit_or_comm_fuel (suc (suc n)) a b p q = omega (
  arith,
  bit_or_step a b,
  bit_or_step b a,
  bit_or_comm_fuel (suc n) (a / 2) (b / 2) (omega arith) (omega arith),
)

pub bit_or_comm : (a b : ℕ) → bit_or a b ≡ bit_or b a
bit_or_comm a b = bit_or_comm_fuel (a + b + 1) a b (omega arith) (omega arith)

-- ===== src/Udp/Checksum.antt =====
-- The Internet checksum: the fold ends, and a block that holds its own checksum sums to zero.
use net_mount.Base.{
  ℕ, ◌+◌, ◌-◌, ◌*◌, ◌/◌, ◌%◌, ◌^◌, ◌≤◌, ◌<◌, ◌≡◌, ◌≢◌, ◌↔◌, refl, ◌∙◌, List, [], ◌∷◌, ◌++◌, arith,
  length, length-append, All, All-append,
}
use net_mount.Bytes.{Endian, little, big, u16, u32, load16, store16}
use native.Mathlib.Nat.{zero-add}
use net_mount.Udp.{sum_words, fold_sum, internet_checksum}

-- The sum of the words with no bound on its size.
word_sum : Endian → List ℕ → ℕ
word_sum e [] = 0
word_sum e (a ∷ []) = a
word_sum e (a ∷ b ∷ rest) = load16 e (a ∷ b ∷ []) 0 + word_sum e rest

abbrev pub AreBytes : List ℕ → Type 0
AreBytes = All (λ b. b < 256)

load16-lt : (e : Endian) (a b : ℕ) → a < 256 → b < 256 → load16 e (a ∷ b ∷ []) 0 < 2 ^ 16
unfolding load16
load16-lt little a b p q = omega arith
load16-lt big a b p q = omega arith

-- Short blocks do not wrap the 32-bit sum.
sum_words-eq :
    (e : Endian) (m : List ℕ) (acc : ℕ)
    → AreBytes m
    → acc + 65536 * length m < 2 ^ 32
    → sum_words e m acc ≡ acc + word_sum e m
unfolding sum_words word_sum
sum_words-eq e [] acc h g = omega arith
sum_words-eq e (a ∷ []) acc h g = omega arith
sum_words-eq e (a ∷ b ∷ rest) acc h g =
    let w : ℕ = load16 e (a ∷ b ∷ []) 0 in
    let lw : w < 2 ^ 16 = load16-lt e a b h.0 h.1.0 in
    let small : u32 (acc + w) ≡ acc + w = omega arith in
    rw small (omega (arith, sum_words-eq e rest (acc + w) h.1.1 (omega arith)))

word_sum-lt : (e : Endian) (m : List ℕ) → AreBytes m → word_sum e m ≤ 65536 * length m
unfolding word_sum
word_sum-lt e [] h = omega arith
word_sum-lt e (a ∷ []) h = omega arith
word_sum-lt e (a ∷ b ∷ rest) h = omega (arith, load16-lt e a b h.0 h.1.0, word_sum-lt e rest h.1.1)

fold_once :
    (sum : ℕ) → sum < 2 ^ 32 → u32 (sum % 2 ^ 16 + sum / 2 ^ 16) ≡ sum % 2 ^ 16 + sum / 2 ^ 16
fold_once sum h = omega arith

-- Two rounds fold any 32-bit sum; the value modulo 65535 stays, and only zero folds to zero.
fold_sum_lem :
    (sum : ℕ)
    → sum < 2 ^ 32
    → (fold_sum 3 sum < 2 ^ 16)
      × (fold_sum 3 sum % 65535 ≡ sum % 65535)
      × (fold_sum 3 sum ≡ 0 → sum ≡ 0)
      × (sum ≡ 0 → fold_sum 3 sum ≡ 0)
unfolding fold_sum
fold_sum_lem sum h = ground arith

load16-store16 :
    (e : Endian) (v : ℕ) (rest : List ℕ) → word_sum e (store16 e v ++ rest) ≡ v + word_sum e rest
unfolding word_sum store16 load16
load16-store16 little v rest = omega arith
load16-store16 big v rest = omega arith

-- A word at an even offset adds its value to the sum.
word_sum_insert :
    (e : Endian) (xs : List ℕ) (v : ℕ) (ys : List ℕ)
    → length xs % 2 ≡ 0
    → word_sum e (xs ++ (store16 e v ++ ys)) ≡ v + word_sum e (xs ++ ys)
unfolding word_sum
word_sum_insert e [] v ys h = load16-store16 e v ys
word_sum_insert e (a ∷ []) v ys h = absurd (omega arith)
word_sum_insert e (a ∷ b ∷ xs) v ys h = omega (arith, word_sum_insert e xs v ys (omega arith))

store16-AreBytes : (e : Endian) (v : ℕ) → v < 2 ^ 16 → AreBytes (store16 e v)
unfolding store16
store16-AreBytes little v h = omega arith
store16-AreBytes big v h = omega arith

length-store16 : (e : Endian) (v : ℕ) → length (store16 e v) ≡ 2
unfolding store16
length-store16 little v = refl
length-store16 big v = refl

pub internet_checksum-lt : (e : Endian) (m : List ℕ) → internet_checksum e m < 2 ^ 16
unfolding internet_checksum
internet_checksum-lt e m = omega arith

-- The arithmetic of the check: the fold of a sum and of its complement is all ones.
complement_lem :
    (s f c g : ℕ)
    → f < 2 ^ 16
    → f % 65535 ≡ s % 65535
    → (s ≡ 0 → f ≡ 0)
    → c ≡ u16 (2 ^ 32 - 1 - f)
    → g < 2 ^ 16
    → g % 65535 ≡ (c + s) % 65535
    → (g ≡ 0 → c + s ≡ 0)
    → u16 (2 ^ 32 - 1 - g) ≡ 0
complement_lem s f c g hf mf zf hc hg mg zg = grind arith

fold_complement :
    (s : ℕ)
    → s < 2 ^ 32 - 65536
    → u16 (2 ^ 32 - 1 - fold_sum 3 (u16 (2 ^ 32 - 1 - fold_sum 3 s) + s)) ≡ 0
fold_complement s h =
    let c : ℕ = u16 (2 ^ 32 - 1 - fold_sum 3 s) in
    let (lf, mf, _, zf) = fold_sum_lem s (omega arith) in
    let (lg, mg, zg, _) = fold_sum_lem (c + s) (omega arith) in
    complement_lem s (fold_sum 3 s) c (fold_sum 3 (c + s)) lf mf zf refl lg mg zg

module _ (e : Endian) (xs ys : List ℕ) (bx : AreBytes xs) (by : AreBytes ys)
    (short : length xs + length ys < 60000) (even : length xs % 2 ≡ 0) where
  -- The sum of a block in which a word stands between `xs` and `ys`.
  sum-insert :
      (v : ℕ) → v < 2 ^ 16 → sum_words e (xs ++ (store16 e v ++ ys)) 0 ≡ v + word_sum e (xs ++ ys)
  sum-insert v h =
      sum_words-eq e (xs ++ (store16 e v ++ ys)) 0
        (All-append (λ b. b < 256) xs (store16 e v ++ ys) bx
          (All-append (λ b. b < 256) (store16 e v) ys (store16-AreBytes e v h) by))
        (omega (
          arith,
          length-append xs (store16 e v ++ ys),
          length-append (store16 e v) ys,
          length-store16 e v,
        ))
      ∙ omega (arith, word_sum_insert e xs v ys even)

  sum_small : word_sum e (xs ++ ys) < 2 ^ 32 - 65536
  sum_small =
      omega (
        arith,
        word_sum-lt e (xs ++ ys) (All-append (λ b. b < 256) xs ys bx by),
        length-append xs ys,
      )

  -- A block of bytes that holds, at an even offset, the checksum of the block with zero there,
  -- has the checksum zero. The rest of the block has less than 60000 bytes.
  pub internet_checksum-verifies :
      internet_checksum e
        (xs ++ (store16 e (internet_checksum e (xs ++ (store16 e 0 ++ ys))) ++ ys))
      ≡ 0
  unfolding internet_checksum
  internet_checksum-verifies = rw (sum-insert 0 (omega arith)) (
      rw
        (
          sum-insert (u16 (2 ^ 32 - 1 - fold_sum 3 (0 + word_sum e (xs ++ ys)))) (omega arith),
          zero-add,
        )
        (fold_complement (word_sum e (xs ++ ys)) sum_small))

-- The two byte orders give sums that differ by the factor 256, modulo 65535.
swap_sum :
    (m : List ℕ)
    → length m % 2 ≡ 0
    → (k : ℕ) × (256 * word_sum big m ≡ word_sum little m + 65535 * k)
      × (word_sum big m ≤ 256 * word_sum little m)
unfolding word_sum load16
swap_sum [] h = (0, refl, omega arith)
swap_sum (a ∷ []) h = absurd (omega arith)
swap_sum (a ∷ b ∷ rest) h =
    let (k, p, q) = swap_sum rest (omega arith) in (k + a, omega arith, omega arith)

-- A checksum is zero exactly if the sum is a multiple of 65535 and not zero.
checksum_zero :
    (e : Endian) (m : List ℕ)
    → AreBytes m
    → length m < 60000
    → (internet_checksum e m ≡ 0) ↔ ((word_sum e m % 65535 ≡ 0) × (word_sum e m ≢ 0))
unfolding internet_checksum
checksum_zero e m h short =
    let s : ℕ = word_sum e m in
    let small : s < 2 ^ 32 = omega (arith, word_sum-lt e m h) in
    let (lf, mf, zf, zs) = fold_sum_lem s small in
    rw (sum_words-eq e m 0 h (omega arith), zero-add)
      (
        (λ z. (omega (arith, z), λ p. absurd (omega (arith, z, zs p)))),
        λ z. zero_sum s (fold_sum 3 s) lf mf zf z.0 z.1,
      )
  where
    zero_sum :
        (s f : ℕ)
        → f < 2 ^ 16
        → f % 65535 ≡ s % 65535
        → (f ≡ 0 → s ≡ 0)
        → s % 65535 ≡ 0
        → s ≢ 0
        → u16 (2 ^ 32 - 1 - f) ≡ 0
    zero_sum s f lf mf zf zs ns = grind arith

-- A block of bytes, of even length and shorter than 60000, whose checksum is zero on a host of
-- one byte order has the checksum zero on every host.
pub internet_checksum_any_host :
    (e f : Endian) (m : List ℕ)
    → AreBytes m
    → length m < 60000
    → length m % 2 ≡ 0
    → internet_checksum e m ≡ 0
    → internet_checksum f m ≡ 0
internet_checksum_any_host e f m h short even ok =
    (checksum_zero f m h short).1 (move e f ((checksum_zero e m h short).0 ok))
  where
    move :
        (e f : Endian)
        → (word_sum e m % 65535 ≡ 0) × (word_sum e m ≢ 0)
        → (word_sum f m % 65535 ≡ 0) × (word_sum f m ≢ 0)
    move little little z = z
    move big big z = z
    move little big z = let (k, p, r) = swap_sum m even in (omega arith, λ q. z.1 (omega arith))
    move big little z = let (k, p, r) = swap_sum m even in (omega arith, λ q. z.1 (omega arith))

-- ===== src/Proto/Checksum.antt =====
-- `bsd_checksum` tells packets apart that differ in one byte.
use net_mount.Base.{
  ℕ, ◌+◌, ◌*◌, ◌/◌, ◌%◌, ◌^◌, ◌<◌, ◌≡◌, ◌≢◌, List, [], ◌∷◌, ◌++◌, arith, bit_or_disjoint,
}
use net_mount.Proto.{bsd_round, bsd_loop, bsd_checksum}

bsd_round-eq : (r b : ℕ) → r < 2 ^ 16 → bsd_round r b ≡ (r % 2 * 32768 + r / 2 + b) % 65536
unfolding bsd_round
bsd_round-eq r b h = omega (arith, bit_or_disjoint 15 r (r / 2) (omega arith))

bsd_round-lt : (r b : ℕ) → bsd_round r b < 2 ^ 16
unfolding bsd_round
bsd_round-lt r b = omega arith

bsd_loop-lt : (r : ℕ) (m : List ℕ) → r < 2 ^ 16 → bsd_loop r m < 2 ^ 16
unfolding bsd_loop
bsd_loop-lt r [] h = h
bsd_loop-lt r (b ∷ m) h = bsd_loop-lt (bsd_round r b) m (bsd_round-lt r b)

-- A checksum is a 16-bit number.
pub bsd_checksum-lt : (m : List ℕ) → bsd_checksum m < 2 ^ 16
unfolding bsd_checksum
bsd_checksum-lt m = bsd_loop-lt 0 m (omega arith)

bsd_round-injective : (r s b : ℕ) → r < 2 ^ 16 → s < 2 ^ 16 → bsd_round r b ≡ bsd_round s b → r ≡ s
bsd_round-injective r s b h g e = omega (arith, bsd_round-eq r b h, bsd_round-eq s b g)

bsd_loop-injective :
    (m : List ℕ) (r s : ℕ) → r < 2 ^ 16 → s < 2 ^ 16 → bsd_loop r m ≡ bsd_loop s m → r ≡ s
unfolding bsd_loop
bsd_loop-injective [] r s h g e = e
bsd_loop-injective (b ∷ m) r s h g e =
    bsd_round-injective r s b h g
      (bsd_loop-injective m (bsd_round r b) (bsd_round s b) (bsd_round-lt r b) (bsd_round-lt s b) e)

bsd_loop_differs :
    (xs ys : List ℕ) (r b c : ℕ)
    → r < 2 ^ 16
    → b < 256
    → c < 256
    → b ≢ c
    → bsd_loop r (xs ++ b ∷ ys) ≢ bsd_loop r (xs ++ c ∷ ys)
unfolding bsd_loop
bsd_loop_differs [] ys r b c h lb lc ne e = ne (
    omega (
      arith,
      bsd_loop-injective ys (bsd_round r b) (bsd_round r c) (bsd_round-lt r b) (bsd_round-lt r c) e,
      bsd_round-eq r b h,
      bsd_round-eq r c h,
    ))
bsd_loop_differs (x ∷ xs) ys r b c h lb lc ne e =
    bsd_loop_differs xs ys (bsd_round r x) b c (bsd_round-lt r x) lb lc ne e

-- Two packets that differ in exactly one byte have different checksums.
pub bsd_checksum_differs :
    (xs ys : List ℕ) (b c : ℕ)
    → b < 256
    → c < 256
    → b ≢ c
    → bsd_checksum (xs ++ b ∷ ys) ≢ bsd_checksum (xs ++ c ∷ ys)
unfolding bsd_checksum
bsd_checksum_differs xs ys b c lb lc ne = bsd_loop_differs xs ys 0 b c (omega arith) lb lc ne

-- ===== src/Bytes/Wire.antt =====
-- What the conversions of utils.hpp put on the wire, on a host of either byte order.
use net_mount.Base.{
  ℕ, ◌+◌, ◌*◌, ◌/◌, ◌%◌, ◌^◌, ◌<◌, ◌≡◌, refl, ap, List, [], ◌∷◌, arith, bit_and, bit_or_comm,
  bit_or_disjoint, bit_and_ones, bit_and_shifted, ◌∙◌, get_or,
}
use net_mount.Bytes.{
  Endian, little, big, byte_swap16, byte_swap32, to_little16, from_little16, to_big16, from_big16,
  to_little32, to_big32, from_big32, store16, store32, load16, load32, u32,
}

-- A swap of a 16-bit value exchanges its bytes.
pub byte_swap16-bytes : (x : ℕ) → x < 2 ^ 16 → byte_swap16 x ≡ x % 256 * 256 + x / 256
unfolding byte_swap16
byte_swap16-bytes x h =
    omega
      (arith, bit_or_comm (x / 2 ^ 8) (x * 2 ^ 8), bit_or_disjoint 8 x (x / 2 ^ 8) (omega arith))

-- The byte at place `k` of a value, by a mask or by division.
mask_byte2 : (x : ℕ) → bit_and x 0x00ff0000 ≡ x / 65536 % 256 * 65536
mask_byte2 x = bit_and_shifted 16 x 255 ∙ ap (λ (t : ℕ). t * 65536) (bit_and_ones 8 (x / 65536))

mask_byte1 : (x : ℕ) → bit_and x 0x0000ff00 ≡ x / 256 % 256 * 256
mask_byte1 x = bit_and_shifted 8 x 255 ∙ ap (λ (t : ℕ). t * 256) (bit_and_ones 8 (x / 256))

-- A swap of a 32-bit value reverses its four bytes.
pub byte_swap32-bytes :
    (x : ℕ)
    → x < 2 ^ 32
    → byte_swap32 x
      ≡ x % 256 * 16777216 + x / 256 % 256 * 65536 + x / 65536 % 256 * 256 + x / 16777216
unfolding byte_swap32
byte_swap32-bytes x h =
    let b2 : bit_and x 0x00ff0000 / 2 ^ 8 ≡ x / 65536 % 256 * 256 = omega (arith, mask_byte2 x) in
    let b1 : u32 (bit_and x 0x0000ff00 * 2 ^ 8) ≡ x / 256 % 256 * 65536 =
      omega (arith, mask_byte1 x) in
    let b0 : u32 (x * 2 ^ 24) ≡ x % 256 * 16777216 = omega arith in
    rw (b2, b1, b0)
      (rw
        (
          bit_or_comm (x / 2 ^ 24) (x / 65536 % 256 * 256),
          bit_or_disjoint 8 (x / 65536 % 256) (x / 2 ^ 24) (omega arith),
          bit_or_comm (x / 65536 % 256 * 256 + x / 2 ^ 24) (x / 256 % 256 * 65536),
          bit_or_disjoint 16 (x / 256 % 256) (x / 65536 % 256 * 256 + x / 2 ^ 24) (omega arith),
          bit_or_comm (x / 256 % 256 * 65536 + (x / 65536 % 256 * 256 + x / 2 ^ 24))
              (x % 256 * 16777216),
          bit_or_disjoint 24 (x % 256)
              (x / 256 % 256 * 65536 + (x / 65536 % 256 * 256 + x / 2 ^ 24)) (omega arith),
        )
        (omega arith))

-- Network order: a 16-bit field goes out high byte first, on either host.
pub store16-to_big16 :
    (e : Endian) (x : ℕ) → x < 2 ^ 16 → store16 e (to_big16 e x) ≡ x / 256 ∷ x % 256 ∷ []
unfolding store16 to_big16
store16-to_big16 little x h = ground (arith, byte_swap16-bytes x h)
store16-to_big16 big x h = refl

-- Protocol order: a 16-bit value that is converted and stored lies low byte first, on a host of
-- either byte order.
pub store16-to_little16 :
    (e : Endian) (x : ℕ) → x < 2 ^ 16 → store16 e (to_little16 e x) ≡ x % 256 ∷ x / 256 ∷ []
unfolding store16 to_little16
store16-to_little16 little x h = refl
store16-to_little16 big x h = ground (arith, byte_swap16-bytes x h)

pub store32-to_big32 :
    (e : Endian) (x : ℕ)
    → x < 2 ^ 32
    → store32 e (to_big32 e x) ≡ x / 16777216 ∷ x / 65536 % 256 ∷ x / 256 % 256 ∷ x % 256 ∷ []
unfolding store32 to_big32
store32-to_big32 little x h = ground (arith, byte_swap32-bytes x h)
store32-to_big32 big x h = refl

pub store32-to_little32 :
    (e : Endian) (x : ℕ)
    → x < 2 ^ 32
    → store32 e (to_little32 e x) ≡ x % 256 ∷ x / 256 % 256 ∷ x / 65536 % 256 ∷ x / 16777216 ∷ []
unfolding store32 to_little32
store32-to_little32 little x h = refl
store32-to_little32 big x h = ground (arith, byte_swap32-bytes x h)

module _ (e : Endian) (m : List ℕ) (i a b : ℕ) (la : a < 256) (lb : b < 256) (ea : get_or m i 0 ≡ a)
    (eb : get_or m (i + 1) 0 ≡ b) where
  -- A 16-bit field in network order is read back from its two bytes.
  pub from_big16-load16 : from_big16 e (load16 e m i) ≡ 256 * a + b
  unfolding from_big16 load16
  from_big16-load16 = elim e as (λ e. from_big16 e (load16 e m i) ≡ 256 * a + b) [
    | little ↦ rw (ea, eb) (omega (arith, byte_swap16-bytes (a + 256 * b) (omega arith)))
    | big ↦ rw (ea, eb) (omega arith)
  ]

  pub from_little16-load16 : from_little16 e (load16 e m i) ≡ a + 256 * b
  unfolding from_little16 load16
  from_little16-load16 = elim e as (λ e. from_little16 e (load16 e m i) ≡ a + 256 * b) [
    | little ↦ rw (ea, eb) (omega arith)
    | big ↦ rw (ea, eb) (omega (arith, byte_swap16-bytes (256 * a + b) (omega arith)))
  ]

  module _ (c d : ℕ) (lc : c < 256) (ld : d < 256) (ec : get_or m (i + 2) 0 ≡ c)
      (ed : get_or m (i + 3) 0 ≡ d) where
    pub from_big32-load32 : from_big32 e (load32 e m i) ≡ 16777216 * a + 65536 * b + 256 * c + d
    unfolding from_big32 load32
    from_big32-load32 =
        elim e as (λ e. from_big32 e (load32 e m i) ≡ 16777216 * a + 65536 * b + 256 * c + d) [
          | little ↦
              rw (ea, eb, ec, ed)
                (omega
                  (arith, byte_swap32-bytes (a + 256 * b + 65536 * c + 16777216 * d) (omega arith)))
          | big ↦ rw (ea, eb, ec, ed) (omega arith)
        ]

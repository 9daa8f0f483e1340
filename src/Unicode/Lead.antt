-- ===== src/Unicode/Lead.antt =====
-- The first byte of a character in UTF-8, and the code point that its bytes give.
use net_mount.Base.{
  ℕ, ◌+◌, ◌-◌, ◌*◌, ◌/◌, ◌%◌, ◌^◌, ◌<◌, ◌≡◌, refl, ◌∙◌, [], ◌∷◌, true, false, ◌==◌, bit_and, bit_or,
  arith, bit_and_ones, bit_and_shifted, bit_or_disjoint,
}
use net_mount.Unicode.{lead_len, utf8_to_codepoint}

abbrev pub tail_byte : ℕ → ℕ
tail_byte x = 0x80 + x % 64

-- The tests of the first byte read its upper bits.
pub mask_80 : (b : ℕ) → bit_and b 0x80 ≡ b / 128 % 2 * 128
mask_80 b = omega (arith, bit_and_shifted 7 b 1, bit_and_ones 1 (b / 128))

mask_e0 : (b : ℕ) → bit_and b 0xe0 ≡ b / 32 % 8 * 32
mask_e0 b = omega (arith, bit_and_shifted 5 b 7, bit_and_ones 3 (b / 32))

mask_f0 : (b : ℕ) → bit_and b 0xf0 ≡ b / 16 % 16 * 16
mask_f0 b = omega (arith, bit_and_shifted 4 b 15, bit_and_ones 4 (b / 16))

mask_f8 : (b : ℕ) → bit_and b 0xf8 ≡ b / 8 % 32 * 8
mask_f8 b = omega (arith, bit_and_shifted 3 b 31, bit_and_ones 5 (b / 8))

pub lead_len_1 : (c : ℕ) → c < 128 → lead_len c ≡ 1
unfolding lead_len
lead_len_1 c h = ground (arith, mask_80 c, h)

pub lead_len_2 : (h : ℕ) → h < 32 → lead_len (0xc0 + h) ≡ 2
unfolding lead_len
lead_len_2 h lt = ground (arith, mask_80 (0xc0 + h), mask_e0 (0xc0 + h), lt)

pub lead_len_3 : (h : ℕ) → h < 16 → lead_len (0xe0 + h) ≡ 3
unfolding lead_len
lead_len_3 h lt = ground (arith, mask_80 (0xe0 + h), mask_e0 (0xe0 + h), mask_f0 (0xe0 + h), lt)

pub lead_len_4 : (h : ℕ) → h < 8 → lead_len (0xf0 + h) ≡ 4
unfolding lead_len
lead_len_4 h lt =
    ground
      (arith, mask_80 (0xf0 + h), mask_e0 (0xf0 + h), mask_f0 (0xf0 + h), mask_f8 (0xf0 + h), lt)

join_tail : (high x : ℕ) → bit_or (high * 2 ^ 6) (bit_and (tail_byte x) 0x3f) ≡ high * 64 + x % 64
join_tail high x =
    let low : bit_and (tail_byte x) 0x3f ≡ x % 64 = omega (arith, bit_and_ones 6 (tail_byte x)) in
    rw low (bit_or_disjoint 6 high (x % 64) (omega arith))

low_bits : (k b h : ℕ) → b % 2 ^ k ≡ h → bit_and b (2 ^ k - 1) ≡ h
low_bits k b h e = bit_and_ones k b ∙ e

pub codepoint_2 :
    (h x : ℕ) → h < 32 → utf8_to_codepoint ((0xc0 + h) ∷ tail_byte x ∷ []) ≡ (h * 64 + x % 64, true)
unfolding utf8_to_codepoint
codepoint_2 h x lt =
    let test : (bit_and (0xc0 + h) 0xe0 == 0xc0) ≡ true = ground (arith, mask_e0 (0xc0 + h), lt) in
    let low : bit_and (0xc0 + h) 0x1f ≡ h = low_bits 5 (0xc0 + h) h (omega (arith, lt)) in
    rw (test, low, join_tail h x) refl

pub codepoint_3 :
    (h x y : ℕ)
    → h < 16
    → utf8_to_codepoint ((0xe0 + h) ∷ tail_byte x ∷ tail_byte y ∷ [])
      ≡ ((h * 64 + x % 64) * 64 + y % 64, true)
unfolding utf8_to_codepoint
codepoint_3 h x y lt =
    let not_two : (bit_and (0xe0 + h) 0xe0 == 0xc0) ≡ false =
      ground (arith, mask_e0 (0xe0 + h), lt) in
    let test : (bit_and (0xe0 + h) 0xf0 == 0xe0) ≡ true = ground (arith, mask_f0 (0xe0 + h), lt) in
    let low : bit_and (0xe0 + h) 0x0f ≡ h = low_bits 4 (0xe0 + h) h (omega (arith, lt)) in
    rw (not_two, test, low, join_tail h x, join_tail (h * 64 + x % 64) y) refl

pub codepoint_4 :
    (h x y z : ℕ)
    → h < 8
    → utf8_to_codepoint ((0xf0 + h) ∷ tail_byte x ∷ tail_byte y ∷ tail_byte z ∷ [])
      ≡ (((h * 64 + x % 64) * 64 + y % 64) * 64 + z % 64, true)
unfolding utf8_to_codepoint
codepoint_4 h x y z lt =
    let not_two : (bit_and (0xf0 + h) 0xe0 == 0xc0) ≡ false =
      ground (arith, mask_e0 (0xf0 + h), lt) in
    let not_three : (bit_and (0xf0 + h) 0xf0 == 0xe0) ≡ false =
      ground (arith, mask_f0 (0xf0 + h), lt) in
    let test : (bit_and (0xf0 + h) 0xf8 == 0xf0) ≡ true = ground (arith, mask_f8 (0xf0 + h), lt) in
    let low : bit_and (0xf0 + h) 0x07 ≡ h = low_bits 3 (0xf0 + h) h (omega (arith, lt)) in
    rw
      (
        not_two,
        not_three,
        test,
        low,
        join_tail h x,
        join_tail (h * 64 + x % 64) y,
        join_tail ((h * 64 + x % 64) * 64 + y % 64) z,
      )
      refl

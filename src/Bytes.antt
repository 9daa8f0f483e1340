-- ===== src/Bytes.antt =====
-- netmount-server/utils.hpp: ASCII case, byte swaps and the conversions between host and wire
-- order. The byte order of the host (`std::endian::native`) is an argument of each conversion.
-- A byte is a number below 256; `store16` and `load16` are what a 16-bit object in memory holds.
pub mod Wire
mod Examples
use net_mount.Base.{
  ℕ, ◌+◌, ◌-◌, ◌*◌, ◌/◌, ◌%◌, ◌^◌, List, [], ◌∷◌, bit_or, bit_and, ◌&&◌, leb, if◌then◌else◌, get_or,
}

unfoldable pub ascii_to_upper : ℕ → ℕ
ascii_to_upper c = if leb b'a' c && leb c b'z' then c - (b'a' - b'A') else c

unfoldable pub ascii_to_lower : ℕ → ℕ
ascii_to_lower c = if leb b'A' c && leb c b'Z' then c + (b'a' - b'A') else c

abbrev pub u16 : ℕ → ℕ
u16 x = x % 2 ^ 16

abbrev pub u32 : ℕ → ℕ
u32 x = x % 2 ^ 32

unfoldable pub byte_swap16 : ℕ → ℕ
byte_swap16 x = u16 (bit_or (x / 2 ^ 8) (x * 2 ^ 8))

unfoldable pub byte_swap32 : ℕ → ℕ
byte_swap32 x =
    bit_or
      (bit_or (bit_or (x / 2 ^ 24) (bit_and x 0x00ff0000 / 2 ^ 8))
        (u32 (bit_and x 0x0000ff00 * 2 ^ 8)))
      (u32 (x * 2 ^ 24))

pub data Endian : Type 0 where
  little big : Endian

unfoldable pub to_little16 : Endian → ℕ → ℕ
to_little16 little x = x
to_little16 big x = byte_swap16 x

unfoldable pub to_little32 : Endian → ℕ → ℕ
to_little32 little x = x
to_little32 big x = byte_swap32 x

unfoldable pub from_little16 : Endian → ℕ → ℕ
from_little16 little x = x
from_little16 big x = byte_swap16 x

unfoldable pub from_little32 : Endian → ℕ → ℕ
from_little32 little x = x
from_little32 big x = byte_swap32 x

unfoldable pub to_big16 : Endian → ℕ → ℕ
to_big16 little x = byte_swap16 x
to_big16 big x = x

unfoldable pub to_big32 : Endian → ℕ → ℕ
to_big32 little x = byte_swap32 x
to_big32 big x = x

unfoldable pub from_big16 : Endian → ℕ → ℕ
from_big16 little x = byte_swap16 x
from_big16 big x = x

unfoldable pub from_big32 : Endian → ℕ → ℕ
from_big32 little x = byte_swap32 x
from_big32 big x = x

-- The bytes of a 16-bit and of a 32-bit object, by address.
unfoldable pub store16 : Endian → ℕ → List ℕ
store16 little x = x % 256 ∷ x / 256 ∷ []
store16 big x = x / 256 ∷ x % 256 ∷ []

unfoldable pub store32 : Endian → ℕ → List ℕ
store32 little x = x % 256 ∷ x / 256 % 256 ∷ x / 65536 % 256 ∷ x / 16777216 ∷ []
store32 big x = x / 16777216 ∷ x / 65536 % 256 ∷ x / 256 % 256 ∷ x % 256 ∷ []

-- The 16-bit and the 32-bit object that lies at index `i`.
unfoldable pub load16 : Endian → List ℕ → ℕ → ℕ
load16 little m i = get_or m i 0 + 256 * get_or m (i + 1) 0
load16 big m i = 256 * get_or m i 0 + get_or m (i + 1) 0

unfoldable pub load32 : Endian → List ℕ → ℕ → ℕ
load32 little m i =
    get_or m i 0
    + 256 * get_or m (i + 1) 0
    + 65536 * get_or m (i + 2) 0
    + 16777216 * get_or m (i + 3) 0
load32 big m i =
    16777216 * get_or m i 0
    + 65536 * get_or m (i + 1) 0
    + 256 * get_or m (i + 2) 0
    + get_or m (i + 3) 0

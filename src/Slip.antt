-- ===== src/Slip.antt =====
-- netmount-server/slip_udp_serial.cpp, the SLIP framing: the constants, `encode_slip_block`,
-- `encode_slip` and `SlipUdpSerial::recv_decode_slip`.
-- The serial line is the list of the answers that `serial.read_byte` will give: `byte b` where it
-- returns 1, `timeout` where it returns anything else. At the end of the list no byte comes any
-- more. The bytes that lie in `rx_buffer` below `len` are the list `buf`, so `len` is its length.
pub mod RoundTrip
mod Examples
use net_mount.Base.{
  ℕ, List, [], ◌∷◌, ◌++◌, Bool, true, false, ◌&&◌, leb, ◌==◌, if◌then◌else◌, length,
}

abbrev pub mtu : ℕ
mtu = 1500

abbrev pub slip_end : ℕ
slip_end = 0xc0

abbrev pub slip_esc : ℕ
slip_esc = 0xdb

abbrev pub slip_esc_end : ℕ
slip_esc_end = 0xdc

abbrev pub slip_esc_esc : ℕ
slip_esc_esc = 0xdd

-- What one byte of data adds to `dest`.
unfoldable pub escape : ℕ → List ℕ
escape b =
    if b == slip_end
    then slip_esc ∷ slip_esc_end ∷ []
    else if b == slip_esc
    then slip_esc ∷ slip_esc_esc ∷ []
    else b ∷ []

-- The bytes written to `dest`; the length returned is theirs.
unfoldable pub encode_slip_block : List ℕ → List ℕ
encode_slip_block [] = []
encode_slip_block (b ∷ bs) = escape b ++ encode_slip_block bs

unfoldable pub encode_slip : List ℕ → List ℕ → List ℕ
encode_slip headers payload =
    slip_end ∷ (encode_slip_block headers ++ (encode_slip_block payload ++ slip_end ∷ []))

pub data Event : Type 0 where
  byte : ℕ → Event
  timeout : Event

-- What the byte after an escape character adds to `rx_buffer`.
unfoldable pub unescape : ℕ → List ℕ
unescape c =
    if c == slip_esc_end then slip_end ∷ [] else if c == slip_esc_esc then slip_esc ∷ [] else []

-- The loop of `recv_decode_slip`, and the part behind its inner `read_byte`: the bytes received
-- and the events that were not read. A frame that is too long gives no bytes (`return 0`).
unfoldable mutual
  pub decode : Bool → List ℕ → List Event → List ℕ × List Event
  decode started buf [] = (buf, [])
  decode started buf (timeout ∷ es) = (buf, es)
  decode started buf (byte b ∷ es) = elim (b == slip_end) [
    | true ↦ elim (started && leb 1 (length buf)) [ true ↦ (buf, es) | false ↦ decode true buf es ]
    | false ↦ elim started [
      | false ↦ decode false buf es
      | true ↦ elim (length buf == mtu) [
        | true ↦ ([], es)
        | false ↦ elim (b == slip_esc) [
          | true ↦ after_escape buf es
          | false ↦ decode true (buf ++ b ∷ []) es
        ]
      ]
    ]
  ]

  pub after_escape : List ℕ → List Event → List ℕ × List Event
  after_escape buf [] = (buf, [])
  after_escape buf (timeout ∷ es) = (buf, es)
  after_escape buf (byte c ∷ es) = decode true (buf ++ unescape c) es

unfoldable pub recv_decode_slip : List Event → List ℕ × List Event
recv_decode_slip = decode false []

-- ===== src/Server.antt =====
-- netmount-server/netmount-server.cpp: the reply cache (`ReplyCache`), the part of
-- `process_request` that uses it, and the main loop's handling of one received packet.
-- The arrays of a `ReplyInfo` are lists: what lies in them from their start. `world` is what the
-- handlers of the requests work on, the drives and the files; they are an argument `handle`, which
-- answers a request, or gives nothing where `process_request` returns -1.
-- Writing more than the 1500 bytes that an array holds is the outcome `fault`.
pub mod Cache
pub mod Lookup
pub mod Sane
pub mod Once
pub mod Fault
mod Examples
use net_mount.Base.{
  bytes_eq, ℕ, zero, suc, ◌+◌, ◌^◌, List, [], ◌∷◌, Bool, true, false, ◌&&◌, ltb, leb, ◌==◌,
  if◌then◌else◌, length, take, get_elem?, set, bit_and, Option, none, some,
}
use net_mount.Bytes.{Endian}
use net_mount.Proto.{Answer, hdr_size, hdr_at, check_request, reply_packet, finish_reply}

abbrev pub packet_capacity : ℕ
packet_capacity = 1500

abbrev pub reply_cache_size : ℕ
reply_cache_size = 16

pub record ReplyInfo : Type 0 where
  pub recv_packet : List ℕ
  pub send_packet : List ℕ
  pub recv_len : ℕ
  pub send_len : ℕ
  pub ipv4_addr : ℕ
  pub udp_port : ℕ
  pub timestamp : ℕ

-- The cache is a global object, so its arrays and numbers start at zero.
abbrev pub blank_info : ReplyInfo
blank_info = record {
  recv_packet = [];
  send_packet = [];
  recv_len = 0;
  send_len = 0;
  ipv4_addr = 0;
  udp_port = 0;
  timestamp = 0;
}

-- Where the loop of `get_reply_info` ends: at an item of the client, or behind the last one.
pub data Found : Type 0 where
  hit : ℕ → Found
  reuse : ℕ → Found

abbrev pub owns : ℕ → ℕ → ReplyInfo → Bool
owns ip port item = item.ipv4_addr == ip && item.udp_port == port

-- The loop, at index `i`; `oldest` is the index of `oldest_item`, and `age` its timestamp.
unfoldable pub find_item : ℕ → ℕ → ℕ → ℕ → ℕ → List ReplyInfo → Found
find_item ip port i oldest age [] = reuse oldest
find_item ip port i oldest age (item ∷ items) =
    let older = find_item ip port (suc i) i item.timestamp items in
    let same = find_item ip port (suc i) oldest age items in
    if owns ip port item then hit i else if ltb item.timestamp age then older else same

abbrev pub claim : ℕ → ℕ → ReplyInfo → ReplyInfo
claim ip port item = record item { recv_len = 0; send_len = 0; ipv4_addr = ip; udp_port = port }

unfoldable pub item_at : List ReplyInfo → ℕ → ReplyInfo
item_at [] i = blank_info
item_at (x ∷ xs) zero = x
item_at (x ∷ xs) (suc i) = item_at xs i

-- What `get_reply_info` does to the array, with the index of the item that it returns.
abbrev pub settle : ℕ → ℕ → List ReplyInfo → Found → ℕ × List ReplyInfo
settle ip port items (hit i) = (i, items)
settle ip port items (reuse i) = (i, set items i (claim ip port (item_at items i)))

unfoldable pub get_reply_info : ℕ → ℕ → List ReplyInfo → ℕ × List ReplyInfo
get_reply_info ip port items =
    settle ip port items (find_item ip port 0 0 (item_at items 0).timestamp items)

-- The test of `process_request` for a request that is in the cache already.
unfoldable pub is_cached : Endian → ReplyInfo → List ℕ → Bool
is_cached e info request =
    ltb 0 info.recv_len
    && ((hdr_at e info.recv_packet).sequence == (hdr_at e request).sequence
        && (info.recv_len == length request
            && bytes_eq (take (length request) info.recv_packet) request))

pub data Outcome : Type 0 where
  ignored fault : Outcome
  replied : List ℕ → Outcome

pub record Server (W : Type 0) : Type 0 where
  pub cache : List ReplyInfo
  pub world : W

module _ {W : Type 0} where
  -- What becomes of the answer of a handler. Nothing reads `send_packet` while its length is 0, so
  -- what a refused request leaves there is left out.
  unfoldable pub packet_for : Endian → ReplyInfo → List ℕ → W × Option Answer → W × List ℕ × ℕ
  packet_for e info request (w, none) = (w, info.send_packet, 0)
  packet_for e info request (w, some a) =
      let reply = reply_packet e request a in (w, reply, length reply)

  -- The new world, the bytes that lie in `send_packet`, and the length that is returned, 0 for -1.
  unfoldable pub process_request :
      Endian → (W → List ℕ → W × Option Answer) → W → ReplyInfo → List ℕ → W × List ℕ × ℕ
  process_request e handle w info request =
      if ltb (length request) hdr_size
      then (w, info.send_packet, 0)
      else if is_cached e info request
      then (w, info.send_packet, if ltb 0 info.send_len then info.send_len else 0)
      else packet_for e info request (handle w request)

  -- The cache entry is updated, the reply is finished and sent.
  unfoldable pub answer_request :
      Endian
      → (W → ℕ → Bool)
      → ℕ
      → ℕ
      → List ReplyInfo
      → List ℕ
      → Bool
      → W × List ℕ × ℕ
      → Outcome × Server W
  answer_request e is_read_only now i items request checksum_present (w, packet, len) =
      let info = record (item_at items i) {
        recv_packet = request;
        recv_len = length request;
        send_packet = packet;
        send_len = len;
        timestamp = now;
      } in
      let reply =
        finish_reply e (is_read_only w (bit_and (hdr_at e request).drive 0x1f)) checksum_present
          (take len packet) in
      if ltb packet_capacity (length request)
      then (fault, record { cache = items; world = w })
      else if ltb packet_capacity len
      then (fault, record { cache = items; world = w })
      else if ltb 0 len
      then (
        replied reply,
        record { cache = set items i (record info { send_packet = reply }); world = w },
      )
      else (ignored, record { cache = set items i info; world = w })

  -- What the main loop does with a packet once it has been checked.
  unfoldable pub receive_checked :
      Endian
      → (W → List ℕ → W × Option Answer)
      → (W → ℕ → Bool)
      → ℕ
      → ℕ
      → ℕ
      → Server W
      → Option (List ℕ × Bool)
      → Outcome × Server W
  unfolding answer_request
  receive_checked e handle is_read_only now ip port s none = (ignored, s)
  receive_checked e handle is_read_only now ip port s (some (request, checksum_present)) =
      let (i, items) = get_reply_info ip port s.cache in
      answer_request e is_read_only now i items request checksum_present
        (process_request e handle s.world (item_at items i) request)

  -- The main loop's work on one packet from the client `ip`, `port`.
  unfoldable pub receive_packet :
      Endian
      → (W → List ℕ → W × Option Answer)
      → (W → ℕ → Bool)
      → ℕ
      → ℕ
      → ℕ
      → List ℕ
      → Server W
      → Outcome × Server W
  unfolding receive_checked
  receive_packet e handle is_read_only now ip port packet s =
      receive_checked e handle is_read_only now ip port s (check_request e packet)

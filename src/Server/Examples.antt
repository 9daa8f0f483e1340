-- ===== src/Server/Examples.antt =====
-- A server with one handler and a cache of 16 items.
use net_mount.Base.{
  ℕ, zero, suc, ◌≤◌, ◌≡◌, ◌≢◌, inl, refl, List, [], ◌∷◌, arith, Option, some, Bool, false,
  replicate, All,
}
use net_mount.Bytes.{little, load16, store16, to_little16, from_little16}
use net_mount.Proto.{Answer, check_request, hdr_at, reply_packet, hdr_bytes, finish_reply}
use net_mount.Server.Cache.{IsFirst}
use net_mount.Server.Lookup.{get_reply_info-IsFirst, get_reply_info_oldest, get_reply_info_others}
use net_mount.Server.Sane.{IsSane, receive_packet-IsSane}
use net_mount.Server.Once.{receive_packet_twice}
use net_mount.Server.{
  ReplyInfo, blank_info, get_reply_info, item_at, fault, replied, Server, receive_packet,
  process_request, is_cached, find_item, packet_for,
}

-- The world counts the requests that are handled.
abbrev count : ℕ → List ℕ → ℕ × Option Answer
count w request =
    (suc w, some (record { extended_features = false; return_code = 0; content = 42 ∷ [] }))

abbrev writable : ℕ → ℕ → Bool
writable w drive = false

abbrev request : List ℕ
request = 1 ∷ 8 ∷ 0 ∷ 0x24 ∷ 0x95 ∷ 5 ∷ 2 ∷ 0x23 ∷ []

abbrev server : Server ℕ
server = record { cache = replicate 16 blank_info; world = 0 }

-- Two clients, the one with address 7 served before the one with address 8.
abbrev two_items : List ReplyInfo
two_items =
    record blank_info { ipv4_addr = 7; udp_port = 1; timestamp = 3 }
    ∷ record blank_info { ipv4_addr = 8; udp_port = 1; timestamp = 5 }
    ∷ []

abbrev after : Server ℕ
after = (receive_packet little count writable 3 7 1 request server).1

server-IsSane : (n : ℕ) → IsSane little (replicate n blank_info)
server-IsSane zero = tt
server-IsSane (suc n) = (inl refl, server-IsSane n)

served :
    (receive_packet little count writable 3 7 1 request server).0
    ≡ replied (1 ∷ 9 ∷ 0 ∷ 0x24 ∷ 0x95 ∷ 5 ∷ 0 ∷ 0 ∷ 42 ∷ [])
unfolding receive_packet check_request hdr_at to_little16 from_little16 load16 store16
    process_request is_cached item_at get_reply_info find_item packet_for reply_packet hdr_bytes
    finish_reply
served = refl

no_fault : (receive_packet little count writable 3 7 1 request server).0 ≢ fault
no_fault = ground (arith, served)

receive_packet_twice_example :
    ((receive_packet little count writable 4 7 1 request after).0
      ≡ (receive_packet little count writable 3 7 1 request server).0)
    × ((receive_packet little count writable 4 7 1 request after).1.world ≡ after.world)
receive_packet_twice_example =
    receive_packet_twice little count writable 7 1 3 4 request server (omega arith) (ground arith)
      (server-IsSane 16) no_fault

receive_packet-IsSane_example : IsSane little after.cache
receive_packet-IsSane_example =
    receive_packet-IsSane little count writable 3 7 1 request server (ground arith)
      (server-IsSane 16)

get_reply_info-IsFirst_example :
    IsFirst 9 1 (get_reply_info 9 1 two_items).1 (get_reply_info 9 1 two_items).0
get_reply_info-IsFirst_example = get_reply_info-IsFirst 9 1 two_items (omega arith)

get_reply_info_oldest_example :
    All
      (λ item. (item_at two_items (get_reply_info 9 1 two_items).0).timestamp ≤ item.timestamp)
      two_items
get_reply_info_oldest_example = get_reply_info_oldest 9 1 two_items (ground arith)

reused : (get_reply_info 9 1 two_items).0 ≢ 1
unfolding get_reply_info find_item item_at
reused = ground arith

second_item : IsFirst 8 1 two_items 1
unfolding item_at
second_item = ground arith

get_reply_info_others_example :
    IsFirst 8 1 (get_reply_info 9 1 two_items).1 1
    × (item_at (get_reply_info 9 1 two_items).1 1 ≡ item_at two_items 1)
get_reply_info_others_example =
    get_reply_info_others 9 1 two_items 8 1 1 (inl (omega arith)) second_item reused

-- ===== src/Server/Fault.antt =====
-- When every answer leaves room for its header, no packet makes the server write beyond its arrays.
use net_mount.Base.{
  ℕ, zero, suc, ◌≤◌, ◌≡◌, ◌≢◌, refl, List, [], ◌∷◌, Bool, false, arith, length, set, ltb, inl, inr,
  All, Option, none, some, Bool-cases,
}
use net_mount.Bytes.{Endian}
use net_mount.Proto.{Answer, check_request, reply_packet, reply_header}
use net_mount.Proto.Header.{length-hdr_bytes}
use net_mount.Server.{
  ReplyInfo, item_at, claim, settle, get_reply_info, Found, hit, reuse, Server, packet_for,
  process_request, answer_request, receive_packet, receive_checked, is_cached, find_item, fault,
  packet_capacity, Outcome, ignored, replied,
}
use net_mount.Server.Sane.{IsChecked, check_request-IsChecked}

-- Room for the data of a reply.
abbrev pub content_capacity : ℕ
content_capacity = 1492

abbrev pub HasRoom : Option Answer → Type 0
HasRoom none = Unit
HasRoom (some a) = length a.content ≤ content_capacity

-- The replies of the cache fit their arrays.
abbrev pub AreStored : List ReplyInfo → Type 0
AreStored = All (λ (item : ReplyInfo). item.send_len ≤ packet_capacity)

set-AreStored :
    (items : List ReplyInfo) (i : ℕ) (x : ReplyInfo)
    → AreStored items
    → x.send_len ≤ packet_capacity
    → AreStored (set items i x)
set-AreStored [] i x h g = tt
set-AreStored (y ∷ ys) zero x h g = (g, h.1)
set-AreStored (y ∷ ys) (suc i) x h g = (h.0, set-AreStored ys i x h.1 g)

item_at-AreStored :
    (items : List ReplyInfo) (i : ℕ)
    → AreStored items
    → (item_at items i).send_len ≤ packet_capacity
unfolding item_at
item_at-AreStored [] i h = omega arith
item_at-AreStored (x ∷ xs) zero h = h.0
item_at-AreStored (x ∷ xs) (suc i) h = item_at-AreStored xs i h.1

get_reply_info-AreStored :
    (ip port : ℕ) (items : List ReplyInfo)
    → AreStored items
    → AreStored (get_reply_info ip port items).1
unfolding get_reply_info
get_reply_info-AreStored ip port items h =
    by_found (find_item ip port 0 0 (item_at items 0).timestamp items)
  where
    by_found : (r : Found) → AreStored (settle ip port items r).1
    by_found (hit i) = h
    by_found (reuse i) = set-AreStored items i (claim ip port (item_at items i)) h (omega arith)

-- No fault, and the cache stays so.
abbrev pub IsSafe : {W : Type 0} → Outcome × Server W → Type 0
IsSafe r = (r.0 ≢ fault) × AreStored r.1.cache

module _ {W : Type 0} (e : Endian) where
  abbrev Fits : W × List ℕ × ℕ → Type 0
  Fits (w, p, len) = len ≤ packet_capacity

  packet_for-Fits :
      (info : ReplyInfo) (request : List ℕ) (r : W × Option Answer)
      → HasRoom r.1
      → Fits (packet_for e info request r)
  unfolding packet_for reply_packet
  packet_for-Fits info request (w, none) h = omega arith
  packet_for-Fits info request (w, some a) h =
      omega (arith, h, length-hdr_bytes e (reply_header e request a) a.content)

  process_request-Fits :
      (handle : W → List ℕ → W × Option Answer) (w : W) (info : ReplyInfo) (request : List ℕ)
      → info.send_len ≤ packet_capacity
      → HasRoom (handle w request).1
      → Fits (process_request e handle w info request)
  unfolding process_request
  process_request-Fits handle w info request stored h = elim (Bool-cases (ltb (length request) 8)) [
    | inl short ↦ rw short (omega arith)
    | inr long ↦ elim (Bool-cases (is_cached e info request)) [
      | inl old ↦ rw (long, old) (ground (arith, stored))
      | inr fresh ↦ rw (long, fresh) (packet_for-Fits info request (handle w request) h)
    ]
  ]

  answer_request-IsSafe :
      (ro : W → ℕ → Bool) (now i : ℕ) (items : List ReplyInfo) (request : List ℕ) (ck : Bool)
      (r : W × List ℕ × ℕ)
      → AreStored items
      → length request ≤ packet_capacity
      → Fits r
      → IsSafe (answer_request e ro now i items request ck r)
  unfolding answer_request
  answer_request-IsSafe ro now i items request ck (w, p, len) h small g =
      let fits : ltb packet_capacity (length request) ≡ false = ground (arith, small) in
      let room : ltb packet_capacity len ≡ false = ground (arith, g) in
      elim (Bool-cases (ltb 0 len)) [
        | inl full ↦ rw (fits, room, full) (replied_ne, set-AreStored items i _ h g)
        | inr empty ↦ rw (fits, room, empty) (ignored_ne, set-AreStored items i _ h g)
      ]
    where
      replied_ne : {p : List ℕ} → replied p ≢ fault
      replied_ne q = cc

      ignored_ne : ignored ≢ fault
      ignored_ne q = cc

  receive_checked-IsSafe :
      (handle : W → List ℕ → W × Option Answer) (ro : W → ℕ → Bool) (now ip port : ℕ)
      (packet : List ℕ) (s : Server W) (c : Option (List ℕ × Bool))
      → length packet ≤ packet_capacity
      → AreStored s.cache
      → IsChecked packet c
      → ((request : List ℕ) (ck : Bool)
          → c ≡ some (request, ck)
          → HasRoom (handle s.world request).1)
      → IsSafe (receive_checked e handle ro now ip port s c)
  unfolding receive_checked
  receive_checked-IsSafe handle ro now ip port packet s none small h k room = (λ q. cc, h)
  receive_checked-IsSafe handle ro now ip port packet s (some (request, ck)) small h (_, cut, _)
        room =
      let stored = get_reply_info-AreStored ip port s.cache h in
      let (i, items) = get_reply_info ip port s.cache in
      answer_request-IsSafe ro now i items request ck
        (process_request e handle s.world (item_at items i) request) stored
        (omega (arith, cut, small))
        (process_request-Fits handle s.world (item_at items i) request
          (item_at-AreStored items i stored) (room request ck refl))

  pub served-IsSafe :
      (handle : W → List ℕ → W × Option Answer) (ro : W → ℕ → Bool) (now ip port : ℕ)
      (packet : List ℕ) (s : Server W)
      → length packet ≤ packet_capacity
      → AreStored s.cache
      → ((request : List ℕ) (ck : Bool)
          → check_request e packet ≡ some (request, ck)
          → HasRoom (handle s.world request).1)
      → IsSafe (receive_packet e handle ro now ip port packet s)
  unfolding receive_packet
  served-IsSafe handle ro now ip port packet s small h room =
      receive_checked-IsSafe handle ro now ip port packet s (check_request e packet) small h
        (check_request-IsChecked e packet) room

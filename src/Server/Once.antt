-- ===== src/Server/Once.antt =====
-- A request that arrives twice: the second time it is answered from the cache.
use net_mount.Base.{
  bytes_eq_refl, ℕ, ◌≤◌, ◌<◌, ◌≡◌, ◌≢◌, refl, ap, sym, subst, ◌∙◌, List, Bool, true, arith, length,
  take, take-length, set, ltb, inl, inr, Option, none, some, bit_and, Bool-cases,
}
use net_mount.Bytes.{Endian}
use net_mount.Udp.Checksum.{AreBytes}
use net_mount.Proto.{Answer, hdr_at, check_request, finish_reply}
use net_mount.Proto.Reply.{finish_reply_twice}
use net_mount.Server.Cache.{IsFirst, IsFirst-set, item_at-set}
use net_mount.Server.Lookup.{get_reply_info-IsFirst, get_reply_info-known}
use net_mount.Server.Sane.{
  IsPacket, IsReply, IsSane, IsChecked, check_request-IsChecked, get_reply_info-IsSane,
  item_at-IsReply, process_request-Returns, Returns, IsPacket-finish_reply,
}
use net_mount.Server.{
  ReplyInfo, owns, item_at, get_reply_info, Outcome, fault, replied, Server, process_request,
  answer_request, receive_packet, receive_checked, is_cached,
}

finish_again :
    (e : Endian) (ro ck : Bool) (p : List ℕ) (len : ℕ)
    → IsPacket e p len
    → finish_reply e ro ck (take len (finish_reply e ro ck (take len p)))
      ≡ finish_reply e ro ck (take len p)
finish_again e ro ck p len k =
    let done = IsPacket-finish_reply e ro ck p len k in
    let all = take-length len (finish_reply e ro ck (take len p)) done.size in
    let whole = take-length len p k.size ∙ k.shape in
    rw all (rw whole (finish_reply_twice e ro ck k.header k.rest k.flags k.sum))

module _ {W : Type 0} (e : Endian) (handle : W → List ℕ → W × Option Answer) (ro : W → ℕ → Bool)
    (ip port : ℕ) where
  process_request-cached :
      (w : W) (x : ReplyInfo)
      → 8 ≤ length x.recv_packet
      → x.recv_len ≡ length x.recv_packet
      → process_request e handle w x x.recv_packet ≡ (w, x.send_packet, x.send_len)
  unfolding process_request is_cached
  process_request-cached w x long size = ground (
    arith,
    long,
    size,
    take-length (length x.recv_packet) x.recv_packet refl,
    bytes_eq_refl x.recv_packet,
  )

  -- Serving again a request that the item `i` holds already.
  receive_checked-cached :
      (now i : ℕ) (items : List ReplyInfo) (w : W) (ck : Bool) (x : ReplyInfo)
      → IsFirst ip port items i
      → item_at items i ≡ x
      → 8 ≤ length x.recv_packet
      → x.recv_len ≡ length x.recv_packet
      → receive_checked e handle ro now ip port
          (record { cache = items; world = w })
          (some (x.recv_packet, ck))
        ≡ answer_request e ro now i items x.recv_packet ck (w, x.send_packet, x.send_len)
  unfolding receive_checked
  receive_checked-cached now i items w ck x first item long size =
      rw (get_reply_info-known ip port items i first, item, process_request-cached w x long size)

  -- The same, right after the item has been written.
  receive_checked-stored :
      (now i : ℕ) (items : List ReplyInfo) (w : W) (ck : Bool) (x : ReplyInfo)
      → IsFirst ip port items i
      → owns ip port x ≡ true
      → 8 ≤ length x.recv_packet
      → x.recv_len ≡ length x.recv_packet
      → receive_checked e handle ro now ip port
          (record { cache = set items i x; world = w })
          (some (x.recv_packet, ck))
        ≡ answer_request e ro now i (set items i x) x.recv_packet ck (w, x.send_packet, x.send_len)
  receive_checked-stored now i items w ck x (lt, before, _) own =
      receive_checked-cached now i (set items i x) w ck x
        (IsFirst-set ip port items i x lt before own) (item_at-set items i x lt)

  abbrev Repeats : ℕ → List ℕ → Bool → W → Outcome × Server W → Type 0
  Repeats now request ck w first =
      let second = receive_checked e handle ro now ip port first.1 (some (request, ck)) in
      (second.0 ≡ first.0) × (second.1.world ≡ w)

  answer_request-Repeats :
      (now now' i : ℕ) (items : List ReplyInfo) (request : List ℕ) (ck : Bool) (w : W) (p : List ℕ)
      (len : ℕ)
      → IsFirst ip port items i
      → 8 ≤ length request
      → IsReply e p len
      → (answer_request e ro now i items request ck (w, p, len)).0 ≢ fault
      → Repeats now' request ck w (answer_request e ro now i items request ck (w, p, len))
  unfolding answer_request
  answer_request-Repeats now now' i items request ck w p len first long reply =
      elim (Bool-cases (ltb 1500 (length request))) [
        | inl over ↦ rw over (λ ne. absurd (ne refl))
        | inr fits ↦ elim (Bool-cases (ltb 1500 len)) [
          | inl over ↦ rw (fits, over) (λ ne. absurd (ne refl))
          | inr room ↦ elim (Bool-cases (ltb 0 len)) [
            | inl full ↦
                rw (fits, room, full)
                  (λ ne.
                    rw
                      (receive_checked-stored now' i items w ck (stored replied_packet) first
                        first.2 long refl)
                      (rw (fits, room, full) (ap replied (again reply full), refl)))
            | inr empty ↦
                rw (fits, room, empty)
                  (λ ne.
                    rw (receive_checked-stored now' i items w ck (stored p) first first.2 long refl)
                      (rw (fits, room, empty) (refl, refl)))
          ]
        ]
      ]
    where
      replied_packet : List ℕ
      replied_packet = finish_reply e (ro w (bit_and (hdr_at e request).drive 0x1f)) ck (take len p)

      stored : List ℕ → ReplyInfo
      stored packet = record (item_at items i) {
        recv_packet = request;
        recv_len = length request;
        send_packet = packet;
        send_len = len;
        timestamp = now;
      }

      again :
          IsReply e p len
          → ltb 0 len ≡ true
          → finish_reply e
              (ro w (bit_and (hdr_at e request).drive 0x1f))
              ck
              (take len replied_packet)
            ≡ replied_packet
      again (inl none_there) full = absurd (ground arith)
      again (inr k) full = finish_again e _ ck p len k

  returned-Repeats :
      (now now' i : ℕ) (items : List ReplyInfo) (request : List ℕ) (ck : Bool) (r : W × List ℕ × ℕ)
      → IsFirst ip port items i
      → 8 ≤ length request
      → Returns e r
      → (answer_request e ro now i items request ck r).0 ≢ fault
      → Repeats now' request ck
          (answer_request e ro now i items request ck r).1.world
          (answer_request e ro now i items request ck r)
  unfolding answer_request
  returned-Repeats now now' i items request ck (w, p, len) first long reply ok =
      let same_world : (answer_request e ro now i items request ck (w, p, len)).1.world ≡ w =
        ground arith in
      subst
        (λ v. Repeats now' request ck v (answer_request e ro now i items request ck (w, p, len)))
        (sym same_world)
        (answer_request-Repeats now now' i items request ck w p len first long reply ok)

  checked-Repeats :
      (now now' : ℕ) (packet : List ℕ) (s : Server W) (c : Option (List ℕ × Bool))
      → 0 < length s.cache
      → AreBytes packet
      → IsSane e s.cache
      → IsChecked packet c
      → (receive_checked e handle ro now ip port s c).0 ≢ fault
      → ((receive_checked e handle ro now' ip port
            (receive_checked e handle ro now ip port s c).1
            c).0
          ≡ (receive_checked e handle ro now ip port s c).0)
        × ((receive_checked e handle ro now' ip port
              (receive_checked e handle ro now ip port s c).1
              c).1.world
            ≡ (receive_checked e handle ro now ip port s c).1.world)
  unfolding receive_checked
  checked-Repeats now now' packet s none pos bytes sane k ok = (refl, refl)
  checked-Repeats now now' packet s (some (request, ck)) pos bytes sane (long, _, k) ok =
      let (i, items) = get_reply_info ip port s.cache in
      let settled = get_reply_info-IsSane e ip port s.cache sane in
      returned-Repeats now now' i items request ck
        (process_request e handle s.world (item_at items i) request)
        (get_reply_info-IsFirst ip port s.cache pos) long
        (process_request-Returns e handle s.world (item_at items i) request
          (item_at-IsReply e items i settled) (k bytes))
        ok

  -- A packet of bytes that has been served, whatever came of it but the fault, and arrives again
  -- from the same client at any time, has the same outcome, a reply byte for byte, and leaves the
  -- drives and files as the first left them. Before, the cache is not empty, and each of its
  -- entries has no reply or a whole packet.
  pub receive_packet_twice :
      (now now' : ℕ) (packet : List ℕ) (s : Server W)
      → 0 < length s.cache
      → AreBytes packet
      → IsSane e s.cache
      → (receive_packet e handle ro now ip port packet s).0 ≢ fault
      → ((receive_packet e handle ro now' ip port packet
            (receive_packet e handle ro now ip port packet s).1).0
          ≡ (receive_packet e handle ro now ip port packet s).0)
        × ((receive_packet e handle ro now' ip port packet
              (receive_packet e handle ro now ip port packet s).1).1.world
            ≡ (receive_packet e handle ro now ip port packet s).1.world)
  unfolding receive_packet
  receive_packet_twice now now' packet s pos bytes sane ok =
      checked-Repeats now now' packet s (check_request e packet) pos bytes sane
        (check_request-IsChecked e packet) ok

-- ===== src/Server/Sane.antt =====
-- The replies that lie in the cache are whole packets, and every packet that arrives keeps it so.
use net_mount.Base.{
  ℕ, zero, suc, ◌^◌, ◌≤◌, ◌<◌, ◌≡◌, ◌⊎◌, refl, ap, ◌∙◌, List, [], ◌∷◌, ◌++◌, Bool, true, false, not,
  arith, length, take, take-length, set, get_or, ltb, ◌==◌, if◌then◌else◌, inl, inr, All, Option,
  none, some, bit_and, Bool-cases, if_cases,
}
use net_mount.Bytes.{Endian, little, big, load16, from_little16}
use net_mount.Udp.Checksum.{AreBytes}
use net_mount.Proto.{
  DriveProtoHdr, Answer, hdr_at, hdr_bytes, check_request, reply_packet, reply_header, finish_reply,
  flag_extended_features, bsd_checksum, summed, drive_proto_magic,
}
use net_mount.Proto.Header.{length-hdr_bytes}
use net_mount.Proto.Reply.{finished, finish_reply-hdr_bytes, flags-lt, finished_checksum-lt}
use net_mount.Server.{
  ReplyInfo, item_at, claim, settle, get_reply_info, Found, hit, reuse, Server, packet_for,
  process_request, answer_request, receive_packet, receive_checked, is_cached, find_item,
}

get_or-lt : (m : List ℕ) (i : ℕ) → AreBytes m → get_or m i 0 < 256
get_or-lt [] i h = omega arith
get_or-lt (x ∷ xs) zero h = h.0
get_or-lt (x ∷ xs) (suc i) h = get_or-lt xs i h.1

-- The checksum field of bytes is a 16-bit number.
pub hdr_checksum-lt : (e : Endian) (m : List ℕ) → AreBytes m → (hdr_at e m).checksum < 2 ^ 16
unfolding hdr_at load16
hdr_checksum-lt little m h = omega (arith, get_or-lt m 3 h, get_or-lt m 4 h)
hdr_checksum-lt big m h = omega (arith, get_or-lt m 3 h, get_or-lt m 4 h)

-- A packet with a header of 16-bit fields, and its length.
pub record IsPacket (e : Endian) (p : List ℕ) (len : ℕ) : Type 0 where
  pub header : DriveProtoHdr
  pub rest : List ℕ
  pub flags : header.length_flags < 2 ^ 16
  pub sum : header.checksum < 2 ^ 16
  pub shape : p ≡ hdr_bytes e header ++ rest
  pub size : len ≡ length p

-- No reply, or a whole packet.
abbrev pub IsReply : Endian → List ℕ → ℕ → Type 0
IsReply e p len = (len ≡ 0) ⊎ IsPacket e p len

abbrev pub IsSane : Endian → List ReplyInfo → Type 0
IsSane e = All (λ item. IsReply e item.send_packet item.send_len)

pub IsPacket-finish_reply :
    (e : Endian) (ro ck : Bool) (p : List ℕ) (len : ℕ)
    → IsPacket e p len
    → IsPacket e (finish_reply e ro ck (take len p)) len
IsPacket-finish_reply e ro ck p len k =
    let whole : take len p ≡ hdr_bytes e k.header ++ k.rest = take-length len p k.size ∙ k.shape in
    let done : finish_reply e ro ck (take len p)
        ≡ hdr_bytes e (finished e ro ck k.header k.rest) ++ k.rest =
      rw whole (finish_reply-hdr_bytes e ro ck k.header k.rest k.flags k.sum) in
    record {
      header = finished e ro ck k.header k.rest;
      rest = k.rest;
      flags = flags-lt e ro ck k.header k.rest k.flags k.sum;
      sum = finished_checksum-lt e ck _;
      shape = done;
      size = omega (
        arith,
        k.size,
        ap length k.shape,
        ap length done,
        length-hdr_bytes e k.header k.rest,
        length-hdr_bytes e (finished e ro ck k.header k.rest) k.rest,
      );
    }

IsPacket-reply_packet :
    (e : Endian) (request : List ℕ) (a : Answer)
    → AreBytes request
    → IsPacket e (reply_packet e request a) (length (reply_packet e request a))
unfolding reply_packet
IsPacket-reply_packet e request a h = record {
  header = reply_header e request a;
  rest = a.content;
  flags = flag_value a.extended_features;
  sum = hdr_checksum-lt e request h;
  shape = refl;
  size = refl;
}
  where
    flag_value : (x : Bool) → (if x then flag_extended_features else 0) < 2 ^ 16
    flag_value true = omega arith
    flag_value false = omega arith

All-take : (n : ℕ) (m : List ℕ) → AreBytes m → AreBytes (take n m)
All-take zero m h = tt
All-take (suc n) [] h = tt
All-take (suc n) (x ∷ xs) h = (h.0, All-take n xs h.1)

length-take-le : (n : ℕ) (m : List ℕ) → n ≤ length m → length (take n m) ≡ n
length-take-le zero m h = refl
length-take-le (suc n) [] h = absurd (omega arith)
length-take-le (suc n) (x ∷ xs) h = ap suc (length-take-le n xs (omega arith))

-- What the checks leave of a packet.
abbrev pub IsCut : List ℕ → List ℕ → Type 0
IsCut m request =
    (8 ≤ length request) × (length request ≤ length m) × (AreBytes m → AreBytes request)

abbrev pub IsChecked : List ℕ → Option (List ℕ × Bool) → Type 0
IsChecked m none = Unit
IsChecked m (some (request, ck)) = IsCut m request

IsChecked-if :
    (m request : List ℕ) (present right magic : Bool)
    → IsCut m request
    → IsChecked m (
        if present
        then (if right then some (request, true) else none)
        else if magic
        then some (request, false)
        else none)
IsChecked-if m request true true magic h = h
IsChecked-if m request true false magic h = tt
IsChecked-if m request false right true h = h
IsChecked-if m request false right false h = tt

pub check_request-IsChecked : (e : Endian) (m : List ℕ) → IsChecked m (check_request e m)
unfolding check_request
check_request-IsChecked e m =
    let n = bit_and (from_little16 e (hdr_at e m).length_flags) 0x7ff in
    elim (Bool-cases (ltb (length m) 8)) [
      | inl short ↦ rw short tt
      | inr long ↦ elim (Bool-cases (not ((hdr_at e m).version == 1))) [
        | inl other ↦ rw (long, other) tt
        | inr ours ↦ elim (Bool-cases (ltb n 8)) [
          | inl small ↦ rw (long, ours, small) tt
          | inr enough ↦ elim (Bool-cases (ltb (length m) n)) [
            | inl cut ↦ rw (long, ours, enough, cut) tt
            | inr whole ↦
                rw (long, ours, enough, whole)
                  (IsChecked-if m (take n m)
                    (not (bit_and (from_little16 e (hdr_at e m).length_flags) 0x8000 == 0))
                    (bsd_checksum (summed (take n m)) == from_little16 e (hdr_at e m).checksum)
                    (from_little16 e (hdr_at e m).checksum == drive_proto_magic)
                    (cut_at n enough whole))
          ]
        ]
      ]
    ]
  where
    cut_at : (n : ℕ) → ltb n 8 ≡ false → ltb (length m) n ≡ false → IsCut m (take n m)
    cut_at n enough whole =
        let size : length (take n m) ≡ n = length-take-le n m (ground arith) in
        (ground (arith, size), ground (arith, size), All-take n m)

module _ (e : Endian) where
  All-set :
      (items : List ReplyInfo) (i : ℕ) (x : ReplyInfo)
      → IsSane e items
      → IsReply e x.send_packet x.send_len
      → IsSane e (set items i x)
  All-set [] i x h g = tt
  All-set (y ∷ ys) zero x h g = (g, h.1)
  All-set (y ∷ ys) (suc i) x h g = (h.0, All-set ys i x h.1 g)

  pub item_at-IsReply :
      (items : List ReplyInfo) (i : ℕ)
      → IsSane e items
      → IsReply e (item_at items i).send_packet (item_at items i).send_len
  unfolding item_at
  item_at-IsReply [] i h = inl refl
  item_at-IsReply (x ∷ xs) zero h = h.0
  item_at-IsReply (x ∷ xs) (suc i) h = item_at-IsReply xs i h.1

  pub get_reply_info-IsSane :
      (ip port : ℕ) (items : List ReplyInfo)
      → IsSane e items
      → IsSane e (get_reply_info ip port items).1
  unfolding get_reply_info
  get_reply_info-IsSane ip port items h =
      by_found (find_item ip port 0 0 (item_at items 0).timestamp items)
    where
      by_found : (r : Found) → IsSane e (settle ip port items r).1
      by_found (hit i) = h
      by_found (reuse i) = All-set items i (claim ip port (item_at items i)) h (inl refl)

module _ {W : Type 0} (e : Endian) where
  -- The bytes and the length that `process_request` returns are no reply or a whole packet.
  abbrev pub Returns : W × List ℕ × ℕ → Type 0
  Returns (w, p, len) = IsReply e p len

  packet_for-Returns :
      (info : ReplyInfo) (request : List ℕ) (r : W × Option Answer)
      → AreBytes request
      → Returns (packet_for e info request r)
  unfolding packet_for
  packet_for-Returns info request (w, none) bytes = inl refl
  packet_for-Returns info request (w, some a) bytes = inr (IsPacket-reply_packet e request a bytes)

  replayed-Returns :
      (w : W) (info : ReplyInfo)
      → IsReply e info.send_packet info.send_len
      → Returns (w, info.send_packet, if ltb 0 info.send_len then info.send_len else 0)
  replayed-Returns w info (inl empty) = inl (ground arith)
  replayed-Returns w info (inr k) =
      if_cases (λ len. IsReply e info.send_packet len) (ltb 0 info.send_len) info.send_len 0
        (λ _. inr k) (λ _. inl refl)

  pub process_request-Returns :
      (handle : W → List ℕ → W × Option Answer) (w : W) (info : ReplyInfo) (request : List ℕ)
      → IsReply e info.send_packet info.send_len
      → AreBytes request
      → Returns (process_request e handle w info request)
  unfolding process_request
  process_request-Returns handle w info request sane bytes =
      elim (Bool-cases (ltb (length request) 8)) [
        | inl short ↦ rw short (inl refl)
        | inr long ↦ elim (Bool-cases (is_cached e info request)) [
          | inl old ↦ rw (long, old) (replayed-Returns w info sane)
          | inr fresh ↦ rw (long, fresh) (packet_for-Returns info request (handle w request) bytes)
        ]
      ]

  answer_request-IsSane :
      (ro : W → ℕ → Bool) (now i : ℕ) (items : List ReplyInfo) (request : List ℕ) (ck : Bool)
      → (r : W × List ℕ × ℕ) → IsSane e items
      → Returns r
      → IsSane e (answer_request e ro now i items request ck r).1.cache
  unfolding answer_request
  answer_request-IsSane ro now i items request ck (w, p, len) h g =
      elim (Bool-cases (ltb 1500 (length request))) [
        | inl over ↦ rw over h
        | inr fits ↦ elim (Bool-cases (ltb 1500 len)) [
          | inl over ↦ rw (fits, over) h
          | inr room ↦ elim (Bool-cases (ltb 0 len)) [
            | inl full ↦ rw (fits, room, full) (All-set e items i _ h (finished_reply g))
            | inr empty ↦ rw (fits, room, empty) (All-set e items i _ h g)
          ]
        ]
      ]
    where
      finished_reply :
          IsReply e p len
          → IsReply e
              (finish_reply e (ro w (bit_and (hdr_at e request).drive 0x1f)) ck (take len p))
              len
      finished_reply (inl e) = inl e
      finished_reply (inr k) = inr (IsPacket-finish_reply e _ ck p len k)

  receive_checked-IsSane :
      (handle : W → List ℕ → W × Option Answer) (ro : W → ℕ → Bool) (now ip port : ℕ)
      (packet : List ℕ) (s : Server W) (c : Option (List ℕ × Bool))
      → AreBytes packet
      → IsSane e s.cache
      → IsChecked packet c
      → IsSane e (receive_checked e handle ro now ip port s c).1.cache
  unfolding receive_checked
  receive_checked-IsSane handle ro now ip port packet s none bytes h k = h
  receive_checked-IsSane handle ro now ip port packet s (some (request, ck)) bytes h (_, _, k) =
      let sane = get_reply_info-IsSane e ip port s.cache h in
      let (i, items) = get_reply_info ip port s.cache in
      answer_request-IsSane ro now i items request ck
        (process_request e handle s.world (item_at items i) request) sane
        (process_request-Returns handle s.world (item_at items i) request
          (item_at-IsReply e items i sane) (k bytes))

  -- Whatever packet of bytes arrives, and whatever the handlers answer: if each entry of the
  -- cache has no reply or a whole packet of the length that it notes, then the same holds
  -- afterwards.
  pub receive_packet-IsSane :
      (handle : W → List ℕ → W × Option Answer) (ro : W → ℕ → Bool) (now ip port : ℕ)
      (packet : List ℕ) (s : Server W)
      → AreBytes packet
      → IsSane e s.cache
      → IsSane e (receive_packet e handle ro now ip port packet s).1.cache
  unfolding receive_packet
  receive_packet-IsSane handle ro now ip port packet s bytes h =
      receive_checked-IsSane handle ro now ip port packet s (check_request e packet) bytes h
        (check_request-IsChecked e packet)

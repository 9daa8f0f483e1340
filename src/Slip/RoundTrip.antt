-- ===== src/Slip/RoundTrip.antt =====
-- A frame that `encode_slip` writes is what `recv_decode_slip` reads.
use net_mount.Base.{
  ℕ, ◌+◌, ◌*◌, ◌≤◌, ◌<◌, ◌≡◌, ◌≢◌, All, refl, ap, sym, ◌∙◌, List, [], ◌∷◌, ◌++◌, map, append_assoc,
  append-nil, true, false, arith, length, length-append, ◌==◌, Bool-cases, inl, inr,
}
use mathlib.Core.List.{map-append}
use net_mount.Slip.{
  mtu, slip_end, escape, encode_slip_block, encode_slip, Event, byte, decode, after_escape,
  unescape, recv_decode_slip,
}

-- The events by which bytes arrive.
abbrev pub arriving : List ℕ → List Event
arriving = map byte

decode-escape :
    (b : ℕ) (buf : List ℕ) (es : List Event)
    → length buf < mtu
    → decode true buf (arriving (escape b) ++ es) ≡ decode true (buf ++ b ∷ []) es
unfolding decode after_escape escape unescape
decode-escape b buf es h = ground arith

decode-encode_slip_block :
    (bs buf : List ℕ) (es : List Event)
    → length buf + length bs ≤ mtu
    → decode true buf (arriving (encode_slip_block bs) ++ es) ≡ decode true (buf ++ bs) es
unfolding encode_slip_block
decode-encode_slip_block [] buf es h = rw append-nil
decode-encode_slip_block (b ∷ bs) buf es h =
    rw (map-append, append_assoc)
      (decode-escape b buf (arriving (encode_slip_block bs) ++ es) (omega arith)
        ∙ decode-encode_slip_block bs (buf ++ b ∷ []) es (omega (arith, length-append buf (b ∷ [])))
        ∙ ap (λ l. decode true l es) (append_assoc buf (b ∷ []) bs))

-- Bytes of noise before the first END are skipped.
decode_noise :
    (noise : List ℕ) (es : List Event)
    → All (λ b. b ≢ slip_end) noise
    → decode false [] (arriving noise ++ es) ≡ decode false [] es
unfolding decode
decode_noise [] es h = refl
decode_noise (b ∷ bs) es h = ground (arith, decode_noise bs es h.1)

decode_closed :
    (buf : List ℕ) (es : List Event)
    → 0 < length buf
    → decode true buf (byte slip_end ∷ es) ≡ (buf, es)
unfolding decode
decode_closed [] es h = absurd (omega arith)
decode_closed (b ∷ bs) es h = ground arith

decode_opened : (es : List Event) → decode false [] (byte slip_end ∷ es) ≡ decode true [] es
unfolding decode
decode_opened es = refl

pub encode_slip_block-append :
    (xs ys : List ℕ) → encode_slip_block (xs ++ ys) ≡ encode_slip_block xs ++ encode_slip_block ys
unfolding encode_slip_block
encode_slip_block-append [] ys = refl
encode_slip_block-append (x ∷ xs) ys =
    ap (λ l. escape x ++ l) (encode_slip_block-append xs ys)
    ∙ sym (append_assoc (escape x) (encode_slip_block xs) (encode_slip_block ys))

encode_slip-append :
    (hs bs : List ℕ)
    → encode_slip hs bs ≡ slip_end ∷ (encode_slip_block (hs ++ bs) ++ slip_end ∷ [])
unfolding encode_slip
encode_slip-append hs bs =
    ap (λ l. slip_end ∷ l)
      (sym (append_assoc (encode_slip_block hs) (encode_slip_block bs) (slip_end ∷ []))
        ∙ ap (λ l. l ++ slip_end ∷ []) (sym (encode_slip_block-append hs bs)))

arriving_frame :
    (hs bs : List ℕ) (es : List Event)
    → arriving (encode_slip hs bs) ++ es
      ≡ byte slip_end ∷ (arriving (encode_slip_block (hs ++ bs)) ++ byte slip_end ∷ es)
arriving_frame hs bs es = rw (encode_slip-append hs bs) (
    ap (λ l. byte slip_end ∷ l)
      (ap (λ l. l ++ es) (map-append byte (encode_slip_block (hs ++ bs)) (slip_end ∷ []))
        ∙ append_assoc (arriving (encode_slip_block (hs ++ bs))) (byte slip_end ∷ []) es))

-- A frame of 1 to 1500 bytes that arrives behind bytes of noise other than END is received whole,
-- whatever bytes it holds, the noise is dropped, and what follows the frame is left on the line.
pub recv_decode_slip-encode_slip :
    (noise headers payload : List ℕ) (es : List Event)
    → All (λ b. b ≢ slip_end) noise
    → 0 < length headers + length payload
    → length headers + length payload ≤ mtu
    → recv_decode_slip (arriving noise ++ (arriving (encode_slip headers payload) ++ es))
      ≡ (headers ++ payload, es)
unfolding recv_decode_slip
recv_decode_slip-encode_slip noise hs bs es quiet pos fits =
    decode_noise noise _ quiet
    ∙ rw (arriving_frame hs bs es) (
        decode_opened _
        ∙ decode-encode_slip_block (hs ++ bs) [] (byte slip_end ∷ es)
            (omega (arith, length-append hs bs))
        ∙ decode_closed (hs ++ bs) es (omega (arith, length-append hs bs)))

decode_full :
    (b : ℕ) (buf : List ℕ) (es : List Event)
    → length buf ≡ mtu
    → (decode true buf (arriving (escape b) ++ es)).0 ≡ []
unfolding decode escape
decode_full b buf es h = ground arith

decode_overlong :
    (bs buf : List ℕ) (es : List Event)
    → length buf ≤ mtu
    → mtu < length buf + length bs
    → (decode true buf (arriving (encode_slip_block bs) ++ es)).0 ≡ []
unfolding encode_slip_block
decode_overlong [] buf es h g = absurd (omega arith)
decode_overlong (b ∷ bs) buf es h g = elim (Bool-cases (length buf == mtu)) [
  | inl full ↦
      rw (map-append, append_assoc)
        (decode_full b buf (arriving (encode_slip_block bs) ++ es) (ground arith))
  | inr room ↦
      rw (map-append, append_assoc)
        (ap (λ r. r.0) (decode-escape b buf (arriving (encode_slip_block bs) ++ es) (ground arith))
          ∙ decode_overlong bs (buf ++ b ∷ []) es (ground (arith, length-append buf (b ∷ [])))
              (omega (arith, length-append buf (b ∷ []))))
]

-- A frame of more than 1500 bytes gives no packet.
pub recv_decode_slip_overlong :
    (headers payload : List ℕ) (es : List Event)
    → mtu < length headers + length payload
    → (recv_decode_slip (arriving (encode_slip headers payload) ++ es)).0 ≡ []
unfolding recv_decode_slip
recv_decode_slip_overlong hs bs es long = rw (arriving_frame hs bs es) (
    ap (λ r. r.0) (decode_opened _)
    ∙ decode_overlong (hs ++ bs) [] (byte slip_end ∷ es) (omega arith)
        (omega (arith, length-append hs bs)))

-- A frame takes at most two bytes for each byte that it carries, and two END bytes.
pub length-encode_slip_block : (bs : List ℕ) → length (encode_slip_block bs) ≤ 2 * length bs
unfolding encode_slip_block escape
length-encode_slip_block [] = omega arith
length-encode_slip_block (b ∷ bs) =
    ground (arith, length-append (escape b) (encode_slip_block bs), length-encode_slip_block bs)

pub length-encode_slip :
    (hs bs : List ℕ) → length (encode_slip hs bs) ≤ 2 + 2 * (length hs + length bs)
length-encode_slip hs bs = rw (encode_slip-append hs bs) (
    omega (
      arith,
      length-append (encode_slip_block (hs ++ bs)) (slip_end ∷ []),
      length-encode_slip_block (hs ++ bs),
      length-append hs bs,
    ))

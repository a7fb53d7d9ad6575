-- ===== src/Server/Packets/Frames.antt =====
-- A channel that received whole packets, and perhaps the beginning of one more: `handlePackets`
-- hands over each packet, in order, and keeps the rest.
use echo_frame.Base.{
  ℕ, zero, suc, ◌-◌, ◌<◌, ◌≡◌, ◌⊎◌, inl, inr, refl, ap, ap₂, ◌∙◌, subst, Option, none, some, List,
  [], ◌∷◌, ◌++◌, map, take, drop, length, length-append, take-append_le, take_all, drop-append_ge,
  arith, true, false, ne→==, lt→leb, le→leb,
}
use echo_frame.Base.Bytes.{of_bytes}
use echo_frame.Buffer.Memory.{Malloc}
use echo_frame.Buffer.SkBuffer.{SkBuffer}
use echo_frame.Buffer.SkBuffer.Valid.{content}
use echo_frame.Buffer.IoBuf.{done}
use echo_frame.Buffer.IoBuf.Fifo.{Holds}
use echo_frame.Protocol.Framing.{complete, get_packet_length, is_packet_complete}
use echo_frame.Protocol.Stream.{magic_codec, look-Holds, look_empty, rounds}
use echo_frame.Server.Channel.{fetch_packet, fetch_packet-Holds}
use echo_frame.Server.Packets.{
  Action, handle, remove_channel, handle_close, on_read_complete, packet_round, handle_packets,
}

-- A whole packet: more than its length field, which spells its length.
pub record IsFrame (f : List ℕ) : Type 0 where
  pub longer : 4 < length f
  pub spelled : of_bytes (take 4 f) ≡ length f

abbrev pub All {ℓ κ} : {A : Type ℓ} → (A → Type κ) → List A → Type κ
All P [] = Unit
All P (x ∷ xs) = P x × All P xs

-- What has arrived of the next packet: nothing, or more than its length field and less than that
-- length.
abbrev pub IsPending : List ℕ → Type 0
IsPending rest = (rest ≡ []) ⊎ ((4 < length rest) × (length rest < of_bytes (take 4 rest)))

-- The bytes of the packets one after the other, and then the rest.
abbrev pub stream : List (List ℕ) → List ℕ → List ℕ
stream [] rest = rest
stream (f ∷ fs) rest = f ++ stream fs rest

-- The bytes that an action hands over, if it hands over a packet.
abbrev pub delivered : Action → Option (List ℕ)
delivered (handle p) = some (content p)
delivered remove_channel = none
delivered handle_close = none

pub take_exact : (f more : List ℕ) → take (length f) (f ++ more) ≡ f
take_exact f more =
    take-append_le (length f) f more (omega arith) ∙ take_all (length f) f (omega arith)

pub drop_exact : (f more : List ℕ) → drop (length f) (f ++ more) ≡ more
drop_exact f more =
    let none_left : length f - length f ≡ 0 = omega arith in
    drop-append_ge (length f) f more (omega arith) ∙ ap (λ n. drop n more) none_left

-- The codec's answers at a whole packet with whatever follows it.
codec_frame :
    (f more : List ℕ)
    → IsFrame f
    → (is_packet_complete (some (f ++ more)) (length (f ++ more)) ≡ complete)
      × (get_packet_length (some (f ++ more)) (length (f ++ more)) ≡ length f)
unfolding is_packet_complete
codec_frame f more v =
    rw
      (
        take-append_le 4 f more (omega (arith, v)),
        v.spelled,
        lt→leb (length (f ++ more)) 4 (omega (arith, v, length-append f more)),
        le→leb (length f) (length (f ++ more)) (omega (arith, length-append f more)),
      )
      (refl, refl)

-- A round in which the packet is complete and could be fetched.
packet_round_fetched :
    (m : Malloc) (n : ℕ) {capacity : ℕ} {b : SkBuffer} {xs : List ℕ} (p t : SkBuffer)
    → Holds capacity b xs
    → 0 < length xs
    → is_packet_complete (some xs) (length xs) ≡ complete
    → get_packet_length (some xs) (length xs) ≡ n
    → 0 < n
    → fetch_packet m n b ≡ done p t
    → packet_round m magic_codec b ≡ done (true, handle p ∷ []) t
unfolding packet_round on_read_complete
packet_round_fetched m n p t h pos e e' some_bytes fetched =
    rw (look-Holds h pos, e, e', ne→== n 0 (omega arith), fetched)

packet_round_frame :
    (m : Malloc) (f more : List ℕ) {capacity : ℕ} {b : SkBuffer}
    → IsFrame f
    → Holds capacity b (f ++ more)
    → (p : SkBuffer) × (t : SkBuffer) × (packet_round m magic_codec b
        ≡ done (true, handle p ∷ []) t)
      × Holds (length f) p f
      × Holds capacity t more
packet_round_frame m f more {capacity} {b} v h =
    let (e, n) = codec_frame f more v in
    let (p, t, e', hp, ht) =
      fetch_packet-Holds m (length f) h (omega (arith, v)) (omega (arith, length-append f more)) in
    (
      p,
      t,
      packet_round_fetched m (length f) p t h (omega (arith, v, length-append f more)) e n
          (omega (arith, v)) e',
      subst (Holds (length f) p) (take_exact f more) hp,
      subst (Holds capacity t) (drop_exact f more) ht,
    )

packet_round_rest :
    (m : Malloc) (rest : List ℕ) {capacity : ℕ} {b : SkBuffer}
    → IsPending rest
    → Holds capacity b rest
    → packet_round m magic_codec b ≡ done (false, []) b
unfolding packet_round is_packet_complete
packet_round_rest m rest {capacity} {b} (inl e) h =
    rw (look_empty {b = b} (subst (Holds capacity b) e h))
packet_round_rest m rest (inr (longer, more)) h = rw (
  look-Holds h (omega arith),
  lt→leb (length rest) 4 longer,
  lt→leb (of_bytes (take 4 rest)) (length rest) more,
)

-- The actions hand over these packets, each in a buffer of its own, and do nothing else.
pub data Hands : List Action → List (List ℕ) → Type 0 where
  no_more : Hands [] []
  and_then_hands :
      {p : SkBuffer} {f : List ℕ} {acts : List Action} {fs : List (List ℕ)}
      → Holds (length f) p f
      → Hands acts fs
      → Hands (handle p ∷ acts) (f ∷ fs)

pub Hands-delivered :
    {acts : List Action} {fs : List (List ℕ)} → Hands acts fs → map delivered acts ≡ map some fs
Hands-delivered no_more = refl
Hands-delivered (and_then_hands h hs) = ap₂ (λ x xs. some x ∷ xs) h.bytes (Hands-delivered hs)

pub Hands-append :
    {acts more : List Action} {fs gs : List (List ℕ)}
    → Hands acts fs
    → Hands more gs
    → Hands (acts ++ more) (fs ++ gs)
Hands-append no_more ks = ks
Hands-append (and_then_hands h hs) ks = and_then_hands h (Hands-append hs ks)

pub handle_packets-Hands :
    (m : Malloc) (frames : List (List ℕ)) (rest : List ℕ) (fuel : ℕ) {capacity : ℕ} {b : SkBuffer}
    → All IsFrame frames
    → IsPending rest
    → Holds capacity b (stream frames rest)
    → length frames < fuel
    → (acts : List Action) × (t : SkBuffer) × (handle_packets m magic_codec fuel b
        ≡ some (done acts t))
      × Hands acts frames
      × Holds capacity t rest
unfolding handle_packets rounds
handle_packets-Hands m frames rest zero vs p h more = absurd (omega arith)
handle_packets-Hands m [] rest (suc fuel) {b = b} vs p h more =
    ([], b, rw (packet_round_rest m rest p h), no_more, h)
handle_packets-Hands m (f ∷ fs) rest (suc fuel) (v, vs) p h more =
    let (packet, t, e, same, ht) = packet_round_frame m f (stream fs rest) v h in
    let (acts, u, e', all, hu) = handle_packets-Hands m fs rest fuel vs p ht (omega arith) in
    (handle packet ∷ acts, u, rw (e, e'), and_then_hands same all, hu)

-- Over MyMagicCodec: if a valid read buffer holds whole packets, each longer than four bytes and
-- with its length in the first four, followed by nothing or by a part of the next packet that
-- has more than its length field, that is at least five bytes, then the packets are handed over one by one and in order, nothing else
-- is done, and the part stays in the buffer. One round for each packet and one more is enough.
pub handle_packets-stream :
    (m : Malloc) (frames : List (List ℕ)) (rest : List ℕ) (fuel : ℕ) {capacity : ℕ} {b : SkBuffer}
    → All IsFrame frames
    → IsPending rest
    → Holds capacity b (stream frames rest)
    → length frames < fuel
    → (acts : List Action) × (t : SkBuffer) × (handle_packets m magic_codec fuel b
        ≡ some (done acts t))
      × (map delivered acts ≡ map some frames)
      × Holds capacity t rest
handle_packets-stream m frames rest fuel vs p h more =
    let (acts, t, e, all, ht) = handle_packets-Hands m frames rest fuel vs p h more in
    (acts, t, e, Hands-delivered all, ht)

-- ===== src/Server/Udp/Queue.antt =====
-- What a UDP channel sends of the packets that wait in its write buffer.
use echo_frame.Base.{
  ℕ, zero, suc, ◌+◌, ◌-◌, ◌^◌, ◌≤◌, ◌<◌, ◌≡◌, refl, ap, ◌∙◌, sym, subst, true, Option, some, List,
  [], ◌∷◌, ◌++◌, ap₂, min, take-append-drop, length-take, length-drop, length, take, drop,
  length-append, take-append_le, take_all, drop-append_ge, append_assoc, arith, le→leb, lt→leb,
  le→ltb, ne→==,
}
use echo_frame.Base.Bytes.{to_bytes, length-to_bytes, of_bytes-to_bytes}
use echo_frame.Buffer.Memory.{Malloc, Result, ok}
use echo_frame.Buffer.SkBuffer.{SkBuffer, u32, move_readable, get_readable_length}
use echo_frame.Buffer.IoBuf.{done}
use echo_frame.Buffer.IoBuf.Fifo.{Holds, Holds-length, take-Holds, write_bytes-Holds}
use echo_frame.Server.Packets.Frames.{All, take_exact, drop_exact}
use echo_frame.Server.Udp.{
  Written, after_packet, queue_response, bytes_of, by_readable, by_length, send_packet,
  sent_datagrams, send_queue, first_answers, later_answers,
}

-- The bytes of packets that wait, each behind its length.
abbrev pub queued : List (List ℕ) → List ℕ
queued [] = []
queued (p ∷ ps) = (to_bytes 4 (length p) ++ p) ++ queued ps

abbrev pub joined : List (List ℕ) → List ℕ
joined [] = []
joined (d ∷ ds) = d ++ joined ds

-- The bytes that the first call takes, and the call behind the first ones fails.
abbrev pub first_taken : List ℕ → ℕ
first_taken [] = 0
first_taken (a ∷ more) = a

abbrev pub FailsBehind : ℕ → List ℕ → Type 0
FailsBehind zero [] = Unit {0}
FailsBehind zero (a ∷ more) = a ≡ 0
FailsBehind (suc n) [] = suc n ≡ 0
FailsBehind (suc n) (a ∷ more) = FailsBehind n more

-- The datagrams have the bytes that the calls take, one call for each, of so many bytes at most as
-- are left.
abbrev pub TakenBy : List ℕ → ℕ → List (List ℕ) → Type 0
TakenBy answers left [] = Unit {0}
TakenBy [] left (d ∷ ds) = length d ≡ 0
TakenBy (a ∷ answers) left (d ∷ ds) = (length d ≡ min a left) × TakenBy answers (left - length d) ds

-- The datagrams of one packet: each is what one call takes, none is empty, one behind the other they are its first bytes, what is
-- lost behind them is lost to a call that fails, and a packet that the first call takes whole is one
-- datagram.
pub record Parts (answers p : List ℕ) (ds : List (List ℕ)) : Type 0 where
  pub lost : List ℕ
  pub in_order : joined ds ++ lost ≡ p
  pub taken : TakenBy answers (length p) ds
  pub not_empty : All (λ d. 0 < length d) ds
  pub stopped : 0 < length lost → FailsBehind (length ds) answers
  pub whole : 0 < length p → length p ≤ first_taken answers → ds ≡ p ∷ []

-- The datagrams of all the packets, in their order.
pub data Datagrams : List (List ℕ) → List (List ℕ) → List (List ℕ) → Type 0 where
  no_packets : {answers : List (List ℕ)} → Datagrams answers [] []
  next_packet :
      {answers ps ds more : List (List ℕ)} {p : List ℕ}
      → Parts (first_answers answers) p ds
      → Datagrams (later_answers answers) ps more
      → Datagrams answers (p ∷ ps) (ds ++ more)

sent_datagrams_whole :
    (n : ℕ) (answers xs : List ℕ)
    → length xs ≤ n
    → (take n xs ≡ xs) × (sent_datagrams answers (drop n xs) ≡ [])
unfolding sent_datagrams
sent_datagrams_whole zero answers [] h = (refl, refl)
sent_datagrams_whole (suc n) answers [] h = (refl, refl)
sent_datagrams_whole zero answers (x ∷ xs) h = absurd (omega arith)
sent_datagrams_whole (suc n) answers (x ∷ xs) h =
    let (e, f) = sent_datagrams_whole n answers xs (omega arith) in (ap (◌∷◌ x) e, f)

taken_first :
    (n x : ℕ) (answers xs : List ℕ) (ds : List (List ℕ))
    → TakenBy answers (length (drop n xs)) ds
    → TakenBy (suc n ∷ answers) (suc (length xs)) ((x ∷ take n xs) ∷ ds)
taken_first n x answers xs ds h = (
  omega (arith, length-take n xs),
  subst (λ k. TakenBy answers k ds) (omega (arith, length-take n xs, length-drop n xs)) h,
)

sent_datagrams-Parts : (answers p : List ℕ) → Parts answers p (sent_datagrams answers p)
unfolding sent_datagrams
sent_datagrams-Parts answers [] = record {
  lost = [];
  in_order = refl;
  taken = tt;
  not_empty = tt;
  stopped = λ h. absurd (omega arith);
  whole = λ h k. absurd (omega arith);
}
sent_datagrams-Parts [] (x ∷ xs) = record {
  lost = x ∷ xs;
  in_order = refl;
  taken = tt;
  not_empty = tt;
  stopped = λ h. tt;
  whole = λ h k. absurd (omega arith);
}
sent_datagrams-Parts (zero ∷ answers) (x ∷ xs) = record {
  lost = x ∷ xs;
  in_order = refl;
  taken = tt;
  not_empty = tt;
  stopped = λ h. refl;
  whole = λ h k. absurd (omega arith);
}
sent_datagrams-Parts (suc n ∷ answers) (x ∷ xs) =
    let rest = sent_datagrams-Parts answers (drop n xs) in
    record {
      lost = rest.lost;
      in_order = ap (◌∷◌ x) (
          append_assoc (take n xs) (joined (sent_datagrams answers (drop n xs))) rest.lost
          ∙ ap (λ t. take n xs ++ t) rest.in_order
          ∙ take-append-drop n xs);
      taken = taken_first n x answers xs _ rest.taken;
      not_empty = (omega arith, rest.not_empty);
      stopped = rest.stopped;
      whole = λ h k.
          let (e, f) = sent_datagrams_whole n answers xs (omega arith) in
          ap₂ (λ d ds. (x ∷ d) ∷ ds) e f;
    }

-- A packet that is not empty and whose length fits its field.
abbrev pub IsPacket : List ℕ → Type 0
IsPacket p = (0 < length p) × (length p < 2 ^ 32)

module _ {capacity : ℕ} {b : SkBuffer} {xs : List ℕ} (h : Holds capacity b xs) (n : ℕ) (pos : 0 < n)
    (enough : n ≤ length xs) where
  -- Looking at the front of a buffer, and then moving behind it.
  bytes_of-Holds : bytes_of n b ≡ ok (take n xs)
  bytes_of-Holds =
      let (e, e', ht) = take-Holds h n pos enough in
      rw (
        le→leb b.readable_at b.writeable_at h.valid.ordered,
        ne→== (b.writeable_at - b.readable_at) 0 (omega (arith, Holds-length h)),
        le→ltb (b.writeable_at - b.readable_at) n (omega (arith, Holds-length h)),
        e',
      )

  move_readable-Holds : Holds capacity (move_readable n b) (drop n xs)
  move_readable-Holds =
      let (e, e', ht) = take-Holds h n pos enough in
      subst (λ k. Holds capacity (record b { readable_at = k }) (drop n xs)) (sym no_wrap) ht
    where
      no_wrap : u32 (b.readable_at + n) ≡ b.readable_at + n
      no_wrap = omega (arith, h.valid, Holds-length h)

-- With room for its bytes and for four more in a valid buffer, `sendResponse` queues a packet behind its
-- length, after what waited there, and returns that length.
pub queue_response-Holds :
    (m : Malloc) (p : List ℕ) {capacity : ℕ} {b : SkBuffer} {xs : List ℕ}
    → Holds capacity b xs
    → length xs + 4 + length p ≤ capacity
    → (t : SkBuffer) × (queue_response m p b ≡ done (length p) t)
      × Holds capacity t (xs ++ (to_bytes 4 (length p) ++ p))
unfolding queue_response
queue_response-Holds m p h room =
    let (t, e, ht) =
      write_bytes-Holds h m (to_bytes 4 (length p) ++ p)
        (omega (arith, length-append (to_bytes 4 (length p)) p, length-to_bytes 4 (length p))) in
    (t, rw e refl, ht)

field_first :
    (p rest : List ℕ) → take 4 ((to_bytes 4 (length p) ++ p) ++ rest) ≡ to_bytes 4 (length p)
field_first p rest =
    let f = to_bytes 4 (length p) in
    take-append_le 4 (f ++ p) rest (omega (arith, length-append f p, length-to_bytes 4 (length p)))
    ∙ take-append_le 4 f p (omega (arith, length-to_bytes 4 (length p)))
    ∙ take_all 4 f (omega (arith, length-to_bytes 4 (length p)))

packet_next : (p rest : List ℕ) → drop 4 ((to_bytes 4 (length p) ++ p) ++ rest) ≡ p ++ rest
packet_next p rest =
    let f = to_bytes 4 (length p) in
    let none_left : 4 - length f ≡ 0 = omega (arith, length-to_bytes 4 (length p)) in
    ap (drop 4) (append_assoc f p rest)
    ∙ drop-append_ge 4 f (p ++ rest) (omega (arith, length-to_bytes 4 (length p)))
    ∙ ap (λ n. drop n (p ++ rest)) none_left

-- One round with a packet at the front sends it and goes on behind it.
module _ (p rest : List ℕ) (pos : 0 < length p) (small : length p < 2 ^ 32) {capacity : ℕ}
    {b : SkBuffer} (h : Holds capacity b ((to_bytes 4 (length p) ++ p) ++ rest)) where
  abbrev behind_field : SkBuffer
  behind_field = move_readable 4 b

  size : length ((to_bytes 4 (length p) ++ p) ++ rest) ≡ 4 + length p + length rest
  size = omega (
    arith,
    length-append (to_bytes 4 (length p) ++ p) rest,
    length-append (to_bytes 4 (length p)) p,
    length-to_bytes 4 (length p),
  )

  behind_field-Holds : Holds capacity behind_field (p ++ rest)
  behind_field-Holds =
      subst (Holds capacity behind_field) (packet_next p rest)
        (move_readable-Holds h 4 (omega arith) (omega (arith, size)))

  behind_packet-Holds : Holds capacity (move_readable (length p) behind_field) rest
  behind_packet-Holds =
      subst (Holds capacity (move_readable (length p) behind_field)) (drop_exact p rest) (
        move_readable-Holds behind_field-Holds (length p) pos (omega (arith, length-append p rest)))

  field_read : bytes_of 4 b ≡ ok (to_bytes 4 (length p))
  field_read = bytes_of-Holds h 4 (omega arith) (omega (arith, size)) ∙ ap ok (field_first p rest)

  packet_read : bytes_of (length p) behind_field ≡ ok p
  packet_read =
      bytes_of-Holds behind_field-Holds (length p) pos (omega (arith, length-append p rest))
      ∙ ap ok (take_exact p rest)

  length_read : get_readable_length b ≡ ok (b.writeable_at - b.readable_at)
  length_read = rw (le→leb b.readable_at b.writeable_at h.valid.ordered)

  round_sends :
      (answers : List ℕ) (next : SkBuffer → Option (Result Written))
      → by_readable answers b (get_readable_length b) next
        ≡ after_packet (sent_datagrams answers p) (next (move_readable (length p) behind_field))
  round_sends answers next =
      ap (λ r. by_readable answers b r next) length_read
      ∙ rw (lt→leb (b.writeable_at - b.readable_at) 4 (omega (arith, Holds-length h, size))) refl
      ∙ ap (λ r. by_length answers (b.writeable_at - b.readable_at) b r next) field_read
      ∙ rw
          (
            of_bytes-to_bytes 4 (length p) (omega arith),
            le→ltb (b.writeable_at - b.readable_at - 4) (length p)
                (omega (arith, Holds-length h, size)),
          )
          refl
      ∙ ap (λ r. send_packet answers (length p) behind_field r next) packet_read

-- `onWrite` of a valid buffer in which packets wait, each with at least one byte and behind its
-- length, returns 0 and leaves the buffer empty. What it sends is, packet after packet, datagrams that
-- hold the packet's first bytes in order, none of them empty: one for each call of `writeTo` that
-- does not fail, with the bytes that the call takes, at most those that are left. A packet that the
-- first call takes whole is one datagram, and bytes are lost only behind a call that fails. One round
-- for each packet and one more is enough.
pub send_queue-Holds :
    (answers ps : List (List ℕ)) (fuel : ℕ) {capacity : ℕ} {b : SkBuffer}
    → All IsPacket ps
    → Holds capacity b (queued ps)
    → length ps < fuel
    → (sent : List (List ℕ)) × (t : SkBuffer) × (send_queue fuel answers b
        ≡ some (ok (true, sent, t)))
      × Datagrams answers ps sent
      × Holds capacity t []
unfolding send_queue
send_queue-Holds answers ps zero v h more = absurd (omega arith)
send_queue-Holds answers [] (suc fuel) {b = b} v h more = (
  [],
  b,
  rw
      (
        le→leb b.readable_at b.writeable_at h.valid.ordered,
        le→leb (b.writeable_at - b.readable_at) 4 (omega (arith, Holds-length h)),
      )
      refl,
  no_packets,
  h,
)
send_queue-Holds answers (p ∷ ps) (suc fuel) {capacity} {b} ((pos, small), v) h more =
    let (sent, t, e, all, ht) =
      send_queue-Holds (later_answers answers) ps fuel v
        (behind_packet-Holds p (queued ps) pos small h) (omega arith) in
    (
      sent_datagrams (first_answers answers) p ++ sent,
      t,
      round_sends p (queued ps) pos small h (first_answers answers) _
          ∙ ap (after_packet (sent_datagrams (first_answers answers) p)) e,
      next_packet (sent_datagrams-Parts (first_answers answers) p) all,
      ht,
    )

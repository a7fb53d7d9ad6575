-- ===== src/Client/Packets.antt =====
-- MyProxy::onRead (net/client/MyProxy.cc) from the point where bytes have been read: how a proxy
-- cuts the bytes of a client into packets. `handlePacket`, which is virtual, is a parameter: it is
-- called in the loop, and where it throws, as `decode` does on a packet that is shorter than its head,
-- the exception leaves the loop. What else is done outside the read buffer is an action.
-- The codec's answers are those of MyMagicProxy's codec where one is named.
use echo_frame.Base.{
  ℕ, zero, suc, ◌≤◌, ◌<◌, ◌≡◌, inl, inr, refl, true, false, Option, some, List, [], ◌∷◌, ◌++◌, ◌==◌,
  if◌then◌else◌, length, take, drop, length-drop, take-append-drop, ◌⊎◌, arith, Bool-cases, ne→==,
  leb, leb→le, append_assoc, ap, ◌∙◌,
}
use echo_frame.Buffer.Memory.{Malloc, Fault}
use echo_frame.Buffer.SkBuffer.{SkBuffer, get_readable_length}
use echo_frame.Buffer.SkBuffer.Valid.{content}
use echo_frame.Buffer.IoBuf.{Step, done, thrown, crashed, and_then}
use echo_frame.Buffer.IoBuf.Fifo.{Holds}
use echo_frame.Protocol.Framing.{
  PacketStatus, incomplete, complete, error, get_packet_length, is_packet_complete,
}
use echo_frame.Protocol.Stream.{
  Codec, Round, magic_codec, look, look-Holds, look_empty, rounds, prepend,
}
use echo_frame.Server.Channel.{fetch_packet, fetch_packet-Holds}

pub data ClientAction : Type 0 where
  handle_packet : SkBuffer → ClientAction
  disconnect : ClientAction

-- What `handlePacket` does with a packet.
abbrev pub Handler : Type 0
Handler = SkBuffer → Step (Unit {0})

-- Behind `handlePacket`, with the read buffer as the packet left it.
abbrev handled : SkBuffer → SkBuffer → Step (Unit {0}) → Step (Round ClientAction)
handled p t (done _ _) = done (true, handle_packet p ∷ []) t
handled p t (thrown _) = thrown t
handled p t (crashed e) = crashed e

module _ (m : Malloc) (c : Codec) (handler : Handler) where
  -- A complete packet of length zero ends the loop.
  abbrev fetch_next : Option (List ℕ) → ℕ → SkBuffer → Step (Round ClientAction)
  fetch_next buf len b =
      let n = c.packet_length buf len in
      if n == 0
      then done (false, []) b
      else and_then (fetch_packet m n b) λ packet t. handled packet t (handler packet)

  abbrev pub by_status : SkBuffer → Option (List ℕ) → ℕ → PacketStatus → Step (Round ClientAction)
  by_status b buf len incomplete = done (false, []) b
  by_status b buf len error = done (false, disconnect ∷ []) b
  by_status b buf len complete = fetch_next buf len b

  -- The body of the loop of `onRead`.
  unfoldable pub read_round : SkBuffer → Step (Round ClientAction)
  read_round b =
      look b (λ buf len. by_status b buf len (c.is_complete buf len)) (get_readable_length b)

  unfoldable pub read_packets : ℕ → SkBuffer → Option (Step (List ClientAction))
  read_packets = rounds read_round

-- The bytes that the actions hand over, one packet after the other.
abbrev pub handed : List ClientAction → List ℕ
handed [] = []
handed (handle_packet p ∷ acts) = content p ++ handed acts
handed (disconnect ∷ acts) = handed acts

-- Every packet of the actions was handed over to a call that returned.
abbrev pub Returned : Handler → List ClientAction → Type 0
Returned handler [] = Unit {0}
Returned handler (handle_packet p ∷ acts) =
    ((u : SkBuffer) × (handler p ≡ done tt u)) × Returned handler acts
Returned handler (disconnect ∷ acts) = Returned handler acts

-- How a read ends over MyMagicCodec: it returns, with the packets that it handed over and the bytes
-- that stay, or `handlePacket` threw or ended the process at a packet, which stands behind bytes of
-- packets that were handed over. No byte is lost.
pub data Reads (handler : Handler) (capacity : ℕ) (xs : List ℕ)
    : Option (Step (List ClientAction)) → Type 0 where
  returned :
      {acts : List ClientAction} {t : SkBuffer} (rest : List ℕ)
      → Returned handler acts
      → Holds capacity t rest
      → handed acts ++ rest ≡ xs
      → Reads handler capacity xs (some (done acts t))
  threw :
      {t : SkBuffer} (acts : List ClientAction) (p u : SkBuffer) (rest : List ℕ)
      → Returned handler acts
      → handler p ≡ thrown u
      → Holds capacity t rest
      → handed acts ++ (content p ++ rest) ≡ xs
      → Reads handler capacity xs (some (thrown t))
  ended :
      {e : Fault} (acts : List ClientAction) (p : SkBuffer) (rest : List ℕ)
      → Returned handler acts
      → handler p ≡ crashed e
      → handed acts ++ (content p ++ rest) ≡ xs
      → Reads handler capacity xs (some (crashed e))

-- A round over MyMagicCodec either ends the loop and leaves the bytes, or takes a packet off.
abbrev RoundCase : Malloc → Handler → ℕ → SkBuffer → List ℕ → Type 0
RoundCase m handler capacity b xs =
    (read_round m magic_codec handler b ≡ done (false, []) b)
    ⊎ ((p : SkBuffer) × (t : SkBuffer) × (n : ℕ) × (0 < n)
        × (n ≤ length xs)
        × (read_round m magic_codec handler b ≡ handled p t (handler p))
        × (content p ≡ take n xs)
        × Holds capacity t (drop n xs))

round_empty :
    (m : Malloc) (handler : Handler) {capacity : ℕ} {b : SkBuffer}
    → Holds capacity b []
    → read_round m magic_codec handler b ≡ done (false, []) b
unfolding read_round
round_empty m handler {b = b} h = rw (look_empty {b = b} h)

module _ (m : Malloc) (handler : Handler) {capacity : ℕ} {b : SkBuffer} {xs : List ℕ}
    (h : Holds capacity b xs) (pos : 0 < length xs) where
  round_stops :
      (is_packet_complete (some xs) (length xs) ≡ incomplete)
        ⊎ ((is_packet_complete (some xs) (length xs) ≡ complete)
            × (get_packet_length (some xs) (length xs) ≡ 0))
      → read_round m magic_codec handler b ≡ done (false, []) b
  unfolding read_round
  round_stops (inl e) = rw (look-Holds h pos, e)
  round_stops (inr (e, z)) = rw (look-Holds h pos, e, z)

  round_takes :
      (n : ℕ)
      → is_packet_complete (some xs) (length xs) ≡ complete
      → get_packet_length (some xs) (length xs) ≡ n
      → 0 < n
      → n ≤ length xs
      → RoundCase m handler capacity b xs
  unfolding read_round
  round_takes n e e' some_bytes enough =
      let (p, t, fetched, hp, ht) = fetch_packet-Holds m n h some_bytes enough in
      inr (
        p,
        t,
        n,
        some_bytes,
        enough,
        rw (look-Holds h pos, e, e', ne→== n 0 (omega arith), fetched),
        hp.bytes,
        ht,
      )

  complete_cases :
      (is_packet_complete (some xs) (length xs) ≡ incomplete)
      ⊎ ((is_packet_complete (some xs) (length xs) ≡ complete)
          × (get_packet_length (some xs) (length xs) ≤ length xs))
  unfolding is_packet_complete
  complete_cases = elim (Bool-cases (leb (get_packet_length (some xs) (length xs)) (length xs))) [
    | inl e ↦ inr (rw e refl, leb→le _ _ e)
    | inr e ↦ inl (rw e refl)
  ]

  round_cases : RoundCase m handler capacity b xs
  round_cases = elim complete_cases [
    | inl e ↦ inl (round_stops (inl e))
    | inr (e, enough) ↦ elim (Bool-cases (get_packet_length (some xs) (length xs) == 0)) [
      | inl z ↦ inl (round_stops (inr (e, ground (arith, z))))
      | inr nz ↦
          round_takes (get_packet_length (some xs) (length xs)) e refl (ground (arith, nz)) enough
    ]
  ]

-- A packet that was handed over stands before the bytes of the later ones.
Reads-later :
    (m : Malloc) (handler : Handler) {capacity : ℕ} {xs ys : List ℕ} {p u : SkBuffer}
    → handler p ≡ done tt u
    → content p ++ ys ≡ xs
    → (r : Option (Step (List ClientAction))) → Reads handler capacity ys r
    → Reads handler capacity xs (prepend (handle_packet p ∷ []) r)
Reads-later m handler {p = p} {u = u} e same _ (returned {acts} rest all h f) =
    returned rest ((u, e), all) h
      (append_assoc (content p) (handed acts) rest ∙ ap (λ t. content p ++ t) f ∙ same)
Reads-later m handler {p = p} {u = u} e same _ (threw acts q v rest all g h f) =
    threw (handle_packet p ∷ acts) q v rest ((u, e), all) g h
      (append_assoc (content p) (handed acts) (content q ++ rest)
        ∙ ap (λ t. content p ++ t) f
        ∙ same)
Reads-later m handler {p = p} {u = u} e same _ (ended acts q rest all g f) =
    ended (handle_packet p ∷ acts) q rest ((u, e), all) g
      (append_assoc (content p) (handed acts) (content q ++ rest)
        ∙ ap (λ t. content p ++ t) f
        ∙ same)

handler_cases :
    (s : Step (Unit {0}))
    → ((u : SkBuffer) × (s ≡ done tt u))
      ⊎ (((u : SkBuffer) × (s ≡ thrown u)) ⊎ ((e : Fault) × (s ≡ crashed e)))
handler_cases (done tt u) = inl (u, refl)
handler_cases (thrown u) = inr (inl (u, refl))
handler_cases (crashed e) = inr (inr (e, refl))

-- With a valid read buffer the loop of `onRead` over MyMagicCodec ends whatever bytes have arrived,
-- with at most one round for each byte and one more. It returns, or it throws or ends the process
-- only where the call of `handlePacket` for a packet does. No byte is lost: the packets for which
-- `handlePacket` returned, in order, then the one at which it did not, if any, and then the bytes that
-- stay are the bytes that had arrived. Where the loop returns or throws, the buffer holds those that
-- stay.
pub read_packets-returns :
    (m : Malloc) (handler : Handler) (xs : List ℕ) (fuel : ℕ) {capacity : ℕ} {b : SkBuffer}
    → Holds capacity b xs
    → length xs < fuel
    → Reads handler capacity xs (read_packets m magic_codec handler fuel b)
unfolding read_packets rounds
read_packets-returns m handler xs zero h more = absurd (omega arith)
read_packets-returns m handler [] (suc fuel) {b = b} h more =
    rw (round_empty m handler h) (returned [] tt h refl)
read_packets-returns m handler (x ∷ xs) (suc fuel) {b = b} h more =
    elim (round_cases m handler h (omega arith)) [
      | inl e ↦ rw e (returned (x ∷ xs) tt h refl)
      | inr (p, t, n, pos, enough, e, same, ht) ↦
          let whole : content p ++ drop n (x ∷ xs) ≡ x ∷ xs =
            ap (λ s. s ++ drop n (x ∷ xs)) same ∙ take-append-drop n (x ∷ xs) in
          elim (handler_cases (handler p)) [
            | inl (u, g) ↦
                let rest =
                  read_packets-returns m handler (drop n (x ∷ xs)) fuel ht
                    (omega (arith, length-drop n (x ∷ xs))) in
                rw (e, g) (Reads-later m handler g whole _ rest)
            | inr (inl (u, g)) ↦ rw (e, g) (threw [] p u (drop n (x ∷ xs)) tt g ht whole)
            | inr (inr (f, g)) ↦ rw (e, g) (ended [] p (drop n (x ∷ xs)) tt g whole)
          ]
    ]

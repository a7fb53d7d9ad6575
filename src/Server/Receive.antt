-- ===== src/Server/Receive.antt =====
-- MyServant::onRead over MyTcpServant::doRead (net/server/MyServant.cc), for a channel that is
-- registered: what the socket has is read into the read buffer and cut into packets, again and
-- again as the socket becomes readable.
pub mod Messages
use echo_frame.Base.{
  ℕ, ◌+◌, ◌≤◌, ◌<◌, ◌≡◌, refl, sym, ap, ap₂, ◌∙◌, subst, Bool, true, false, Option, none, some,
  List, [], ◌∷◌, ◌++◌, if◌then◌else◌, length, map,
}
use echo_frame.Buffer.Memory.{Malloc, Result, ok, fault}
use echo_frame.Buffer.SkBuffer.{SkBuffer}
use echo_frame.Buffer.IoBuf.{Step, done, thrown, crashed}
use echo_frame.Buffer.IoBuf.Fifo.{Holds}
use echo_frame.Protocol.Stream.{Codec, magic_codec}
use echo_frame.Server.Packets.{Action, on_read_error, handle_packets}
use echo_frame.Server.Packets.Frames.{
  All, IsFrame, IsPending, stream, Hands, no_more, Hands-append, handle_packets-Hands,
}
use echo_frame.Server.Tcp.{ReadEnd, closed, failed, on_read}
use echo_frame.Server.Tcp.Receiving.{received, IsChunk, on_read-Holds}

-- What one event finds: the stretches of bytes that the socket has, how the last read ends, and
-- whether `errno` is EAGAIN then.
pub record Arrival : Type 0 where
  pub chunks : List (List ℕ)
  pub end : ReadEnd
  pub again : Bool

module _ (m : Malloc) (c : Codec) (fuel : ℕ) where
  -- `doRead` from the channel's `onRead` on: whether a channel is returned, and the actions.
  abbrev pub do_read : Bool → ReadEnd → Bool × List Action
  do_read again failed = (again, if again then [] else on_read_error m c)
  do_read again closed = (false, on_read_error m c)

  abbrev pub after_read : SkBuffer → Bool × List Action → Option (Step (List Action))
  after_read t (true, acts) = handle_packets m c fuel t
  after_read t (false, acts) = some (done acts t)

  abbrev pub received_or : Bool → Result (ReadEnd × SkBuffer) → Option (Step (List Action))
  received_or again (fault e) = some (crashed e)
  received_or again (ok (end, t)) = after_read t (do_read again end)

  -- `onRead`
  unfoldable pub servant_on_read : Arrival → SkBuffer → Option (Step (List Action))
  servant_on_read a b = received_or a.again (on_read m a.chunks a.end b)

  abbrev pub and_more : List Action → Option (Step (List Action)) → Option (Step (List Action))
  and_more acts none = none
  and_more acts (some (done more t)) = some (done (acts ++ more) t)
  and_more acts (some (thrown t)) = some (thrown t)
  and_more acts (some (crashed e)) = some (crashed e)

  abbrev pub then_on :
      Option (Step (List Action))
      → (SkBuffer → Option (Step (List Action)))
      → Option (Step (List Action))
  then_on none go = none
  then_on (some (done acts t)) go = and_more acts (go t)
  then_on (some (thrown t)) go = some (thrown t)
  then_on (some (crashed e)) go = some (crashed e)

  -- One event after the other.
  unfoldable pub all_events : List Arrival → SkBuffer → Option (Step (List Action))
  all_events [] b = some (done [] b)
  all_events (a ∷ arrivals) b = then_on (servant_on_read a b) (all_events arrivals)

-- An event with the packets that it completes and what it leaves of the next one.
pub record Part : Type 0 where
  pub arrival : List (List ℕ)
  pub frames : List (List ℕ)
  pub rest : List ℕ

-- The event: all is read, and the socket would block.
abbrev pub event_of : Part → Arrival
event_of p = record { chunks = p.arrival; end = failed; again = true }

abbrev pub frames_of : List Part → List (List ℕ)
frames_of [] = []
frames_of (p ∷ ps) = p.frames ++ frames_of ps

abbrev pub left_of : List ℕ → List Part → List ℕ
left_of held [] = held
left_of held (p ∷ ps) = left_of p.rest ps

-- A part that continues the bytes that are held, within a capacity and a number of rounds.
pub record IsPart (capacity fuel : ℕ) (held : List ℕ) (p : Part) : Type 0 where
  pub cut : held ++ received p.arrival ≡ stream p.frames p.rest
  pub whole : All IsFrame p.frames
  pub pending : IsPending p.rest
  pub small : All IsChunk p.arrival
  pub room : length held + length (received p.arrival) + 1024 ≤ capacity
  pub enough : length p.frames < fuel

abbrev pub ArePart : ℕ → ℕ → List ℕ → List Part → Type 0
ArePart capacity fuel held [] = Unit {0}
ArePart capacity fuel held (p ∷ ps) = IsPart capacity fuel held p × ArePart capacity fuel p.rest ps

one_event :
    (m : Malloc) {capacity : ℕ} (fuel : ℕ) {b : SkBuffer} (held : List ℕ) (p : Part)
    → Holds capacity b held
    → IsPart capacity fuel held p
    → (acts : List Action) × (t : SkBuffer) × (servant_on_read m magic_codec fuel (event_of p) b
        ≡ some (done acts t))
      × Hands acts p.frames
      × Holds capacity t p.rest
unfolding servant_on_read
one_event m {capacity} fuel held p h v =
    let (u, e, hu) = on_read-Holds m p.arrival failed h v.small v.room in
    let (acts, t, e', all, ht) =
      handle_packets-Hands m p.frames p.rest fuel v.whole v.pending
        (subst (Holds capacity u) v.cut hu) v.enough in
    (acts, t, rw e e', all, ht)

-- However the packets of a stream are divided among events, and the bytes of an event among reads,
-- they are handed over whole and in order.
pub all_events-Hands :
    (m : Malloc) {capacity : ℕ} (fuel : ℕ) {b : SkBuffer} (held : List ℕ) (ps : List Part)
    → Holds capacity b held
    → ArePart capacity fuel held ps
    → (acts : List Action) × (t : SkBuffer) × (all_events m magic_codec fuel (map event_of ps) b
        ≡ some (done acts t))
      × Hands acts (frames_of ps)
      × Holds capacity t (left_of held ps)
unfolding all_events
all_events-Hands m fuel {b = b} held [] h v = ([], b, refl, no_more, h)
all_events-Hands m fuel {b = b} held (p ∷ ps) h (v, vs) =
    let (acts, t, e, all, ht) = one_event m fuel held p h v in
    let (more, u, e', all_more, hu) = all_events-Hands m fuel {b = t} p.rest ps ht vs in
    (acts ++ more, u, rw (e, e') refl, Hands-append all all_more, hu)

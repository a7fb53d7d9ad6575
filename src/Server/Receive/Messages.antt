-- ===== src/Server/Receive/Messages.antt =====
-- The messages that arrive on a TCP channel.
use echo_frame.Base.{ℕ, ◌≡◌, subst, List, [], ◌∷◌, some, map}
use echo_frame.Buffer.Memory.{Malloc}
use echo_frame.Buffer.SkBuffer.{SkBuffer}
use echo_frame.Buffer.IoBuf.{done}
use echo_frame.Buffer.IoBuf.Fifo.{Holds}
use echo_frame.Protocol.Stream.{magic_codec}
use echo_frame.Protocol.Message.{MagicMessage, blank, decode}
use echo_frame.Protocol.Message.RoundTrip.{IsEncodable, wire, Decoded, decode_lem}
use echo_frame.Server.Packets.{Action, handle}
use echo_frame.Server.Packets.Frames.{All, Hands, no_more, and_then_hands}
use echo_frame.Server.Receive.{
  Part, ArePart, event_of, frames_of, left_of, all_events, all_events-Hands,
}

-- The actions hand over packets that decode to these messages, and do nothing else.
pub data Receives (m : Malloc) : List Action → List MagicMessage → Type 0 where
  no_message : Receives m [] []
  message :
      {p u : SkBuffer} {msg got : MagicMessage} {acts : List Action} {msgs : List MagicMessage}
      → decode m blank p ≡ done got u
      → Decoded msg got
      → Receives m acts msgs
      → Receives m (handle p ∷ acts) (msg ∷ msgs)

Hands-Receives :
    (m : Malloc) (acts : List Action) (msgs : List MagicMessage)
    → All IsEncodable msgs
    → Hands acts (map wire msgs)
    → Receives m acts msgs
Hands-Receives m acts [] v no_more = no_message
Hands-Receives m acts (msg ∷ msgs) (v, vs) (and_then_hands {acts = more} h hs) =
    let (got, u, e, d) = decode_lem m msg v h in message e d (Hands-Receives m more msgs vs hs)

-- Over MyMagicCodec, for a channel whose read buffer is valid: however the bytes of messages are
-- divided among events, and the bytes of an event among reads, what is done is to hand over one
-- packet for each message, in order, and each decodes to its message, the head the same and the
-- payload with the same bytes. Each message fits its encoding. For each event, what was held and
-- what arrives is whole packets followed by nothing or by a part of the next one that has more than
-- its length field, that is at least five bytes; the stretches have at most 1024 bytes, all the bytes and 1024 more fit the buffer, the
-- rounds are more than the packets, and the last read would block.
pub all_events-messages :
    (m : Malloc) {capacity : ℕ} (fuel : ℕ) {b : SkBuffer} (held : List ℕ) (ps : List Part)
    (msgs : List MagicMessage)
    → Holds capacity b held
    → ArePart capacity fuel held ps
    → frames_of ps ≡ map wire msgs
    → All IsEncodable msgs
    → (acts : List Action) × (t : SkBuffer) × (all_events m magic_codec fuel (map event_of ps) b
        ≡ some (done acts t))
      × Receives m acts msgs
      × Holds capacity t (left_of held ps)
all_events-messages m fuel held ps msgs h v e vs =
    let (acts, t, e', all, ht) = all_events-Hands m fuel held ps h v in
    (acts, t, e', Hands-Receives m acts msgs vs (subst (Hands acts) e all), ht)

-- ===== src/Server/Packets/Stuck.antt =====
-- A packet length of zero: the loop of `handlePackets` comes back to the same bytes for ever.
use echo_frame.Base.{
  ℕ, zero, suc, ◌≤◌, ◌<◌, ◌≡◌, refl, none, some, List, [], ◌∷◌, take, length, arith, ◌⊎◌, true,
}
use echo_frame.Base.Bytes.{of_bytes}
use echo_frame.Buffer.Memory.{Malloc}
use echo_frame.Buffer.SkBuffer.{SkBuffer}
use echo_frame.Buffer.IoBuf.{done}
use echo_frame.Buffer.IoBuf.Fifo.{Holds}
use echo_frame.Protocol.Framing.{complete, is_packet_complete}
use echo_frame.Protocol.Stream.{Codec, magic_codec, look-Holds, rounds}
use echo_frame.Server.Packets.{remove_channel, on_read_complete, packet_round, handle_packets}

-- One round removes the channel, leaves the bytes, and goes on.
packet_round_again :
    (m : Malloc) (c : Codec) {capacity : ℕ} {b : SkBuffer} {xs : List ℕ}
    → Holds capacity b xs
    → 0 < length xs
    → c.is_complete (some xs) (length xs) ≡ complete
    → c.packet_length (some xs) (length xs) ≡ 0
    → packet_round m c b ≡ done (true, remove_channel ∷ []) b
unfolding packet_round on_read_complete
packet_round_again m c h pos e z = rw (look-Holds h pos, e, z)

-- A codec that reports a complete packet of length zero keeps the loop running: no number of
-- rounds is enough.
pub handle_packets_stuck :
    (m : Malloc) (c : Codec) {capacity : ℕ} {b : SkBuffer} {xs : List ℕ}
    → Holds capacity b xs
    → 0 < length xs
    → c.is_complete (some xs) (length xs) ≡ complete
    → c.packet_length (some xs) (length xs) ≡ 0
    → (fuel : ℕ) → handle_packets m c fuel b ≡ none
unfolding handle_packets rounds
handle_packets_stuck m c h pos e z zero = refl
handle_packets_stuck m c h pos e z (suc fuel) =
    rw (packet_round_again m c h pos e z, handle_packets_stuck m c h pos e z fuel)

-- `handlePackets` over MyMagicCodec never returns where one to four bytes are in a valid read
-- buffer, whatever they are, nor where the length field that stands first in it is zero.
pub stalled_never_returns :
    (m : Malloc) {capacity : ℕ} {b : SkBuffer} {xs : List ℕ}
    → Holds capacity b xs
    → 0 < length xs
    → (length xs ≤ 4) ⊎ (of_bytes (take 4 xs) ≡ 0)
    → (fuel : ℕ) → handle_packets m magic_codec fuel b ≡ none
unfolding is_packet_complete
stalled_never_returns m {xs = xs} h pos stalled =
    handle_packets_stuck m magic_codec h pos (ground arith) (ground arith)

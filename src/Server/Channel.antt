-- ===== src/Server/Channel.antt =====
-- class MyChannel (net/server/MyChannel.h, net/server/MyChannel.cc): what it does with its read
-- buffer. The client's MyClient::fetchPayload (net/client/MyClient.cc) has the same body.
use echo_frame.Base.{ℕ, ◌≤◌, ◌<◌, ◌≡◌, Option, List, take, drop, length, arith, length-take}
use echo_frame.Buffer.Memory.{Malloc, Result, ok, fault}
use echo_frame.Buffer.SkBuffer.{SkBuffer, get_readable_and_move}
use echo_frame.Buffer.IoBuf.{Step, done, thrown, crashed, Io, write_bytes, create}
use echo_frame.Protocol.Stream.{bytes_at}
use echo_frame.Buffer.IoBuf.Fifo.{
  Holds, write_bytes-Holds, take-Holds, taken, Holds-length, create-Holds,
}

abbrev packed : SkBuffer → Step (Unit {0}) → Step SkBuffer
packed t (done _ p) = done p t
packed t (thrown p) = thrown t
packed t (crashed e) = crashed e

abbrev pack : Malloc → ℕ → SkBuffer → Result (List ℕ) → Step SkBuffer
pack m got t (ok src) = packed t (write_bytes m src (create m got))
pack m got t (fault e) = crashed e

abbrev fetched : Malloc → Result (Option ℕ × ℕ × SkBuffer) → Step SkBuffer
fetched m (ok (at, got, t)) = pack m got t (bytes_at at got t)
fetched m (fault e) = crashed e

-- `fetchPacket`: the packet, in a buffer of its own; the state is that of the read buffer.
unfoldable pub fetch_packet : Malloc → ℕ → Io SkBuffer
fetch_packet m n b = fetched m (get_readable_and_move n b)

-- A packet that is there whole is taken off the read buffer.
pub fetch_packet-Holds :
    (m : Malloc) (n : ℕ) {capacity : ℕ} {b : SkBuffer} {xs : List ℕ}
    → Holds capacity b xs
    → 0 < n
    → n ≤ length xs
    → (p : SkBuffer) × (t : SkBuffer) × (fetch_packet m n b ≡ done p t)
      × Holds n p (take n xs)
      × Holds capacity t (drop n xs)
unfolding fetch_packet
fetch_packet-Holds m n {capacity} {b} {xs} h pos enough =
    let (e, e', ht) = take-Holds h n pos enough in
    let (p, e'', hp) =
      write_bytes-Holds (create-Holds m n (omega (arith, Holds-length h, h.valid, h.cap))) m
        (take n xs) (omega (arith, length-take n xs)) in
    (p, taken n b, rw (e, e', e''), hp, ht)

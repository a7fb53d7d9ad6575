-- ===== src/Server/Udp/Sending.antt =====
-- What a UDP channel is given to send, and what then goes to the socket.
use echo_frame.Base.{
  ℕ, ◌+◌, ◌≤◌, ◌<◌, ◌≡◌, refl, sym, subst, true, some, List, [], ◌∷◌, ◌++◌, length, length-append,
  append-nil, append_assoc, arith,
}
use echo_frame.Base.Bytes.{to_bytes, length-to_bytes}
use echo_frame.Buffer.Memory.{Malloc, ok}
use echo_frame.Buffer.SkBuffer.{SkBuffer}
use echo_frame.Buffer.IoBuf.{Io, and_then, done}
use echo_frame.Buffer.IoBuf.Fifo.{Holds}
use echo_frame.Server.Packets.Frames.{All}
use echo_frame.Server.Udp.{queue_response, send_queue}
use echo_frame.Server.Udp.Queue.{
  queued, IsPacket, Datagrams, queue_response-Holds, send_queue-Holds,
}

-- `sendResponse` for one packet after the other.
unfoldable pub queue_all : Malloc → List (List ℕ) → Io (Unit {0})
queue_all m [] b = done tt b
queue_all m (p ∷ ps) b = and_then (queue_response m p b) λ _ t. queue_all m ps t

queue_all-Holds :
    (m : Malloc) (ps : List (List ℕ)) {capacity : ℕ} {b : SkBuffer} {xs : List ℕ}
    → Holds capacity b xs
    → length xs + length (queued ps) ≤ capacity
    → (t : SkBuffer) × (queue_all m ps b ≡ done tt t) × Holds capacity t (xs ++ queued ps)
unfolding queue_all
queue_all-Holds m [] {capacity} {b} {xs} h room =
    (b, refl, subst (Holds capacity b) (sym (append-nil xs)) h)
queue_all-Holds m (p ∷ ps) {capacity} {b} {xs} h room =
    let packet = to_bytes 4 (length p) ++ p in
    let size : length packet ≡ 4 + length p =
      omega (arith, length-append (to_bytes 4 (length p)) p, length-to_bytes 4 (length p)) in
    let (t, e, ht) =
      queue_response-Holds m p h (omega (arith, size, length-append packet (queued ps))) in
    let (u, f, hu) =
      queue_all-Holds m ps ht
        (omega (arith, size, length-append packet (queued ps), length-append xs packet)) in
    (u, rw (e, f) refl, subst (Holds capacity u) (append_assoc xs packet (queued ps)) hu)

-- Packets with at least one byte that are given to `sendResponse` one after the other, on a channel
-- whose valid write buffer is empty and has room for them and for four bytes more for each: every
-- call returns, and `onWrite` then returns 0, leaves the buffer empty and sends, packet after packet,
-- one datagram for each call of `writeTo` that does not fail, with the bytes that it takes. A packet
-- that the first call takes whole is one datagram, and bytes are lost only behind a call that fails.
pub queue_all-send_queue :
    (m : Malloc) (answers ps : List (List ℕ)) (fuel : ℕ) {capacity : ℕ} {b : SkBuffer}
    → Holds capacity b []
    → All IsPacket ps
    → length (queued ps) ≤ capacity
    → length ps < fuel
    → (t : SkBuffer) × (sent : List (List ℕ)) × (u : SkBuffer) × (queue_all m ps b ≡ done tt t)
      × (send_queue fuel answers t ≡ some (ok (true, sent, u)))
      × Datagrams answers ps sent
      × Holds capacity u []
queue_all-send_queue m answers ps fuel h v room more =
    let (t, e, ht) = queue_all-Holds m ps h (omega (arith, room)) in
    let (sent, u, f, all, hu) = send_queue-Holds answers ps fuel v ht more in
    (t, sent, u, e, f, all, hu)

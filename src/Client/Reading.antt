-- ===== src/Client/Reading.antt =====
-- onRead of the clients (net/client/MyClient.cc) and the part of MyProxy::onRead (net/client/MyProxy.cc)
-- that looks at its result. MyTcpClient reads as MyTcpChannel does.
use echo_frame.Base.{
  ℕ, ◌+◌, ◌≤◌, ◌<◌, Bool, true, Option, some, List, [], ◌∷◌, ◌++◌, if◌then◌else◌, length,
  length-append, arith,
}
use echo_frame.Buffer.Memory.{Malloc, Result, ok, fault, ◌>>=◌, store}
use echo_frame.Buffer.SkBuffer.{SkBuffer, writeable, move_writeable}
use echo_frame.Buffer.IoBuf.{Step, done, crashed}
use echo_frame.Buffer.IoBuf.Fifo.{Holds}
use echo_frame.Protocol.Stream.{Codec, magic_codec}
use echo_frame.Server.Packets.Frames.{All}
use echo_frame.Server.Tcp.Receiving.{received, IsChunk, on_read-Holds}
use echo_frame.Server.Tcp.{ReadEnd, closed, failed}
use echo_frame.Server.Tcp
use echo_frame.Client.Packets.{
  ClientAction, disconnect, Handler, Reads, read_packets, read_packets-returns,
}

-- `onRead` of a TCP client. The result is 0 where the other side has closed, and -1 otherwise.
unfoldable pub tcp_on_read :
    Malloc → Bool → List (List ℕ) → ReadEnd → SkBuffer → Result (ReadEnd × SkBuffer)
tcp_on_read m connected chunks end b =
    if connected then Tcp.on_read m chunks end b else ok (failed, b)

-- `onRead` of a UDP client, for the datagrams that the socket has; the result is always -1.
unfoldable pub udp_on_read : Malloc → ℕ → List (List ℕ) → SkBuffer → Result (ReadEnd × SkBuffer)
udp_on_read m max [] b = do (at, t) ← writeable m max b; ok (failed, t)
udp_on_read m max (datagram ∷ datagrams) b = do
  (at, t) ← writeable m max b
  mem ← store at datagram t.bytes
  udp_on_read m max datagrams (move_writeable (length datagram) (record t { bytes = mem }))

module _ (m : Malloc) (c : Codec) (handler : Handler) (fuel : ℕ) where
  -- What a proxy does with the result, with whether `errno` is EAGAIN.
  abbrev pub by_result : Bool → ReadEnd → SkBuffer → Option (Step (List ClientAction))
  by_result again closed t = some (done (disconnect ∷ []) t)
  by_result again failed t =
      let packets = read_packets m c handler fuel t in
      if again then packets else some (done (disconnect ∷ []) t)

  abbrev pub proxy_on_read : Bool → Result (ReadEnd × SkBuffer) → Option (Step (List ClientAction))
  proxy_on_read again (fault e) = some (crashed e)
  proxy_on_read again (ok (end, t)) = by_result again end t

-- A proxy whose client reads until it would block loses no byte: what it hands over and what stays
-- in the buffer are the bytes that the buffer held and those that came, in order.
proxy_on_read-Reads :
    (m : Malloc) (handler : Handler) (chunks : List (List ℕ)) (fuel : ℕ) {capacity : ℕ}
    {b : SkBuffer} {xs : List ℕ}
    → Holds capacity b xs
    → All IsChunk chunks
    → length xs + length (received chunks) + 1024 ≤ capacity
    → length xs + length (received chunks) < fuel
    → Reads handler capacity
        (xs ++ received chunks)
        (proxy_on_read m magic_codec handler fuel true (tcp_on_read m true chunks failed b))
unfolding tcp_on_read
proxy_on_read-Reads m handler chunks fuel {xs = xs} h small room more =
    let (u, e, hu) = on_read-Holds m chunks failed h small room in
    rw e (
      read_packets-returns m handler (xs ++ received chunks) fuel hu
        (omega (arith, length-append xs (received chunks))))

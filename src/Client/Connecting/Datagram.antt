-- ===== src/Client/Connecting/Datagram.antt =====
-- The UDP client (net/client/MyClient.cc), which has no connection to wait for, and what a proxy does
-- where a client is disconnected (net/client/MyProxy.cc). The record of a client is that of the TCP
-- client; the UDP client has no watcher for a writable socket.
use echo_frame.Base.{suc, ◌≡◌, refl, Bool, true, false, Option, none, some, if◌then◌else◌}
use echo_frame.Base.Integers.{pos}
use echo_frame.Socket.{Os, MySocket, no_socket, datagram, Address, make_socket, set_non_block}
use echo_frame.Client.Connecting.{
  TcpClient, empty_promise, give_value, closed_client, disconnect_client, reconnect_client,
}

-- The call of a callback that is empty throws.
pub data UdpStart (W : Type 0) : Type 0 where
  null_socket bad_function_call : UdpStart W
  started_on : TcpClient → W → UdpStart W

module _ {W : Type 0} (os : Os W) where
  abbrev called_back : Bool → TcpClient → W → UdpStart W
  called_back false c w = bad_function_call
  called_back true c w =
      started_on
        (record c { callbacks = suc c.callbacks; promise = give_value (pos 0) empty_promise }) w

  abbrev udp_start_on : Option MySocket → TcpClient → W → UdpStart W
  udp_start_on none c w = null_socket
  udp_start_on (some s) c w = called_back c.has_callback c (set_non_block os s w)

  -- `asyncConnect` of the UDP client, on the thread of its loop.
  unfoldable pub udp_async_connect : Address → Bool → TcpClient → W → UdpStart W
  udp_async_connect address callback c w =
      udp_start_on c.socket (record c { address = address; has_callback = callback }) w

  unfoldable pub udp_disconnect : TcpClient → W → TcpClient × W
  udp_disconnect c w =
      (record c { socket = none; read_watcher = false }, closed_client os c.socket w)

  unfoldable pub udp_reconnect : TcpClient → W → UdpStart W
  udp_reconnect c w =
      let (d, v) = udp_disconnect c w in
      let (done, s, u) = make_socket os 2 datagram 0 no_socket v in
      udp_async_connect c.address c.has_callback (record d { socket = some s }) u

  -- `connect` of the UDP client passes no callback.
  unfoldable pub udp_connect : Address → TcpClient → W → UdpStart W
  udp_connect address c w = udp_async_connect address false c w

  -- `connect` of a UDP client with a socket throws: it passes no callback, and the empty one is
  -- called.
  udp_connect-throws :
      (address : Address) (c : TcpClient) (s : MySocket) (w : W)
      → c.socket ≡ some s
      → udp_connect address c w ≡ bad_function_call
  unfolding udp_connect udp_async_connect
  udp_connect-throws address c s w e = rw (e) refl

  -- What `onDisconnect` of a proxy does with a TCP client: it is removed, or disconnected now and
  -- connected again when the timer runs out.
  pub data Disconnected : Type 0 where
    removed : Disconnected
    reconnects_later : TcpClient → W → Disconnected

  unfoldable pub on_disconnect : Bool → TcpClient → W → Disconnected
  on_disconnect auto_reconnect c w =
      if auto_reconnect
      then reconnects_later (disconnect_client os c w).0 (disconnect_client os c w).1
      else removed

  -- The function of the timer.
  abbrev pub when_reconnecting : TcpClient → W → Option (TcpClient × W)
  when_reconnecting c w = reconnect_client os c w

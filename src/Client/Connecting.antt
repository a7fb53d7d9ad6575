-- ===== src/Client/Connecting.antt =====
-- How a TCP client connects: connect, disconnect, reconnect, asyncConnect and onConnect of
-- MyTcpClient (net/client/MyClient.cc). The watcher for a writable socket is in place or not; while it
-- is, the loop calls onConnect. Whether `wait_for` sees the promise in time is the number of events
-- that come before.
pub mod Events
pub mod Datagram
use echo_frame.Base.{
  ℕ, zero, suc, ◌≡◌, refl, sym, ap, ◌∙◌, Bool, true, false, Option, none, some, List, [], ◌∷◌, ◌==◌,
  if◌then◌else◌, Bool-cases, inl, inr,
}
use echo_frame.Base.Integers.{ℤ, pos, negsuc}
use echo_frame.Util.Text.{Text}
use echo_frame.Socket.{
  Os, MySocket, no_socket, stream, Address, set_connected, make_socket, set_non_block, connect_to,
  get_connect_result, close_socket,
}

-- A promise that was given a value twice throws.
pub data Promise : Type 0 where
  no_promise empty_promise : Promise
  kept_promise : ℤ → Promise
  broken_promise : Promise

abbrev pub give_value : ℤ → Promise → Promise
give_value v no_promise = broken_promise
give_value v empty_promise = kept_promise v
give_value v (kept_promise u) = broken_promise
give_value v broken_promise = broken_promise

-- `socket` is null after a disconnect; the calls of the callback are counted, since what it does is
-- the caller's.
pub record TcpClient : Type 0 where
  pub socket : Option MySocket
  pub address : Address
  pub promise : Promise
  pub connect_watcher : Bool
  pub read_watcher : Bool
  pub has_callback : Bool
  pub callbacks : ℕ

abbrev pub connect_result : ℕ → MySocket → MySocket
connect_result err s = if err == 0 then set_connected s else s

abbrev pub after_connect : ℕ → MySocket → TcpClient → TcpClient
after_connect err s c = record c {
  socket = some (connect_result err s);
  promise = give_value (pos err) c.promise;
  connect_watcher = false;
  callbacks = if c.has_callback then suc c.callbacks else c.callbacks;
}

-- The events of the loop: `onConnect` is called only while its watcher is in place.
abbrev pub when_watched : Bool → Option TcpClient → TcpClient → Option TcpClient
when_watched watched next c = if watched then next else some c

abbrev pub then_events : (TcpClient → Option TcpClient) → Option TcpClient → Option TcpClient
then_events go none = none
then_events go (some c) = go c

-- What `connect` returns when the promise has been looked at: -1 for one without a value.
abbrev pub promised : Promise → ℤ
promised no_promise = negsuc 0
promised empty_promise = negsuc 0
promised (kept_promise v) = v
promised broken_promise = negsuc 0

module _ {W : Type 0} (os : Os W) where
  abbrev waits_for : Bool × MySocket × W → TcpClient → TcpClient × W
  waits_for (true, s, w) c = (record c { socket = some s; connect_watcher = true }, w)
  waits_for (false, s, w) c =
      (record c { socket = some s; promise = give_value (negsuc 0) c.promise }, w)

  abbrev start_on : Option MySocket → TcpClient → W → Option (TcpClient × W)
  start_on none c w = none
  start_on (some s) c w = some (waits_for (connect_to os c.address s (set_non_block os s w)) c)

  -- `asyncConnect`; `none` is a null socket.
  unfoldable pub async_connect : Address → Bool → TcpClient → W → Option (TcpClient × W)
  async_connect address callback c w =
      start_on c.socket
        (record c { address = address; has_callback = callback; promise = empty_promise }) w

  abbrev pub closed_client : Option MySocket → W → W
  closed_client none w = w
  closed_client (some s) w = (close_socket os s w).1

  -- `disconnect`: the watcher that waits for the connection stays.
  unfoldable pub disconnect_client : TcpClient → W → TcpClient × W
  disconnect_client c w = (
    record c { socket = none; read_watcher = false; promise = no_promise },
    closed_client c.socket w,
  )

  unfoldable pub reconnect_client : TcpClient → W → Option (TcpClient × W)
  reconnect_client c w =
      let (d, v) = disconnect_client c w in
      let (done, s, u) = make_socket os 2 stream 0 no_socket v in
      async_connect c.address c.has_callback (record d { socket = some s }) u

  abbrev pub connected_on : Option MySocket → TcpClient → W → Option TcpClient
  connected_on none c w = none
  connected_on (some s) c w =
      some (if s.is_connected then c else after_connect (get_connect_result os s w) s c)

  -- `onConnect`
  unfoldable pub on_connect : TcpClient → W → Option TcpClient
  on_connect c w = connected_on c.socket c w

  unfoldable pub connect_events : List W → TcpClient → Option TcpClient
  connect_events [] c = some c
  connect_events (w ∷ ws) c =
      then_events (connect_events ws) (when_watched c.connect_watcher (on_connect c w) c)

-- ===== src/Server/Servants.antt =====
-- How a servant starts, stops and takes connections (net/server/MyServant.cc): startServant of
-- MyTcpServant and MyUdpServant, stopServant and onAccept; and startServer (net/server/MyServer.cc). The loop has the servant's watcher or not.
use echo_frame.Base.{ℕ, Bool, true, false, Option, none, some, List, [], ◌∷◌, if◌then◌else◌}
use echo_frame.Base.Integers.{ℤ, is_zero}
use echo_frame.Util.Text.{Text}
use echo_frame.Socket.{
  Os, MySocket, no_socket, stream, datagram, Address, SocketType, reuse_port, make_socket,
  set_non_block, set_flag_opt, bind_to, listen, accept, close_socket,
}

-- `g_default_listen_backlog` (net/MyGlobal.h)
abbrev pub default_listen_backlog : ℕ
default_listen_backlog = 10

pub record Servant : Type 0 where
  pub address : Address
  pub socket : Option MySocket
  pub read_watcher : Bool

module _ {W : Type 0} (os : Os W) where
  -- The result is true for 0 and false for -1.
  abbrev pub Started : Type 0
  Started = Bool × Servant × W

  abbrev with_watcher : MySocket → Servant → W → Started
  with_watcher t s w = (true, record s { socket = some t; read_watcher = true }, w)

  abbrev refused_start : MySocket → Servant → W → Started
  refused_start t s w = (false, record s { socket = some t }, w)

  abbrev when_listening : ℤ × W → MySocket → Servant → Started
  when_listening (rv, w) t s = if is_zero rv then with_watcher t s w else refused_start t s w

  abbrev when_bound : SocketType → ℤ × MySocket × W → Servant → Started
  when_bound stream (rv, t, w) s =
      if is_zero rv
      then when_listening (listen os default_listen_backlog t w) t s
      else refused_start t s w
  when_bound datagram (rv, t, w) s = if is_zero rv then with_watcher t s w else refused_start t s w

  abbrev with_options : MySocket → W → W
  with_options t w = set_flag_opt os reuse_port true t (set_non_block os t w)

  abbrev when_made : SocketType → Bool × MySocket × W → Servant → Started
  when_made type (true, t, w) s = when_bound type (bind_to os s.address t (with_options t w)) s
  when_made type (false, t, w) s = refused_start t s w

  -- `startServant` of the TCP servant, and of the UDP servant, which does not listen.
  unfoldable pub start_tcp : Servant → W → Started
  start_tcp s w = when_made stream (make_socket os 2 stream 0 no_socket w) s

  unfoldable pub start_udp : Servant → W → Started
  start_udp s w = when_made datagram (make_socket os 2 datagram 0 no_socket w) s

  abbrev stopped_socket : Option MySocket → W → Option MySocket × W
  stopped_socket none w = (none, w)
  stopped_socket (some t) w = let (u, v) = close_socket os t w in (some u, v)

  -- `stopServant`
  unfoldable pub stop_servant : Servant → W → Servant × W
  stop_servant s w =
      let (t, v) = stopped_socket s.socket w in (record s { socket = t; read_watcher = false }, v)

  abbrev accepted_socket : Bool × MySocket × W → Option MySocket × W
  accepted_socket (true, t, w) = (some t, w)
  accepted_socket (false, t, w) = (none, w)

  -- `onAccept`: the socket that a channel is made for; `none` is a servant without a socket, or no
  -- connection.
  abbrev accepting : Option MySocket → W → Option MySocket × W
  accepting none w = (none, w)
  accepting (some t) w = accepted_socket (accept os t no_socket w)

  unfoldable pub on_accept : Servant → W → Option MySocket × W
  on_accept s w = accepting s.socket w

-- `startServer`: every servant that is not a null pointer, whatever its start answers.
module _ {S W : Type 0} (start : S → W → Bool × S × W) where
  abbrev started : Option S → W → Option S × W
  started none w = (none, w)
  started (some s) w = let (done, t, v) = start s w in (some t, v)

  unfoldable pub start_server : List (Text × Option S) → W → List (Text × Option S) × W
  start_server [] w = ([], w)
  start_server ((name, s) ∷ m) w =
      let (t, v) = started s w in let (n, u) = start_server m v in ((name, t) ∷ n, u)

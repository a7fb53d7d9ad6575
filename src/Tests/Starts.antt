-- ===== src/Tests/Starts.antt =====
-- A client whose connection is being made, a server that registers its servants, and a session that
-- is waited for.
use echo_frame.Base.{ℕ, ◌≡◌, refl, true, false, none, some, [], ◌∷◌, suc}
use echo_frame.Base.Integers.{pos, negsuc}
use echo_frame.Persistence.Names.{codes}
use echo_frame.Socket.{Os, MySocket, no_socket, Address, connect_to, set_non_block}
use echo_frame.Client.Connecting.{TcpClient, no_promise, async_connect, connect_events}
use echo_frame.Client.Connecting.Events.{ConnectRun, connect_events-ConnectRun}
use echo_frame.Client.Callbacks.{Callbacks}
use echo_frame.Server.Registration.{Route, ServantMap, wait_server}
use echo_frame.Server.Registration.Rounds.{Rounded, wait_server-Rounded}

-- The state is the error that the socket has; a connection takes time.
abbrev slow : Os ℕ
slow = record {
  os_socket = λ d t p w. (pos 3, w);
  os_bind = λ f d a w. (pos 0, w);
  os_listen = λ f n w. (pos 0, w);
  os_connect = λ f d a w. (negsuc 0, w);
  os_in_progress = λ w. true;
  os_so_error = λ f w. w;
  os_accept = λ f w. (negsuc 0, ([], 0), w);
  os_write = λ f b w. (negsuc 0, w);
  os_send_to = λ f a b w. (negsuc 0, w);
  os_read = λ f n w. (negsuc 0, [], w);
  os_recv_from = λ f n p w. (negsuc 0, ([], 0), [], w);
  os_set_option = λ f o v w. w;
  os_set_linger = λ f b n w. w;
  os_get_flags = λ f w. 0;
  os_set_flags = λ f n w. w;
  os_non_block = λ n. n;
  os_close = λ f w. w;
}

abbrev made : MySocket
made = record no_socket { fd = pos 3 }

abbrev host : Address
host = (codes "h", 80)

abbrev client : TcpClient
client = record {
  socket = some made;
  address = ([], 0);
  promise = no_promise;
  connect_watcher = false;
  read_watcher = false;
  has_callback = false;
  callbacks = 0;
}

abbrev waiting : MySocket
waiting = record made { remote = host }

connect_to-waiting : connect_to slow host made (set_non_block slow made 0) ≡ (true, waiting, 0)
unfolding connect_to
connect_to-waiting = refl

-- The first event finds error 111.
connect_events-ConnectRun_example :
    (d : TcpClient) × (e : TcpClient) × (async_connect slow host true client 0 ≡ some (d, 0))
    × (connect_events slow (111 ∷ 0 ∷ []) d ≡ some e)
    × (d.has_callback ≡ true)
    × ConnectRun slow waiting 111 d e
connect_events-ConnectRun_example =
    connect_events-ConnectRun slow host true client made waiting 111 0 0 (0 ∷ []) refl
      connect_to-waiting

abbrev route_calls : Route ℕ
route_calls = record {
  find_proxy = λ r w. (true, w);
  register = λ n v w. (true, suc w);
  send_heartbeat = λ v w. (true, suc w);
  now = λ w. w;
}

abbrev servants : ServantMap
servants =
    (codes "echo", some record { version = 1; registered = false; last_sync_time = 0 })
    ∷ (codes "none", none)
    ∷ (codes "route", some record { version = 1; registered = false; last_sync_time = 0 })
    ∷ []

wait_server-Rounded_example :
    Rounded
      (codes "route")
      servants
      (wait_server route_calls (codes "route") (false ∷ false ∷ true ∷ []) servants 100).0
wait_server-Rounded_example =
    wait_server-Rounded route_calls (λ r w. refl) (λ n v w. refl) (codes "route")
      (false ∷ true ∷ []) servants 100

abbrev asked : Callbacks ℕ
asked = record {
  is_async = true;
  then_action = none;
  timeout_action = none;
  error_action = none;
  promise = none;
  response = none;
}

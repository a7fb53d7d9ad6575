-- ===== src/Socket.antt =====
-- MySocket (net/socket/MySocket.h, net/socket/MySocket.cc). The calls of the operating system are a
-- record of functions on its state; a call answers with a number, and with -1 where it fails.
use echo_frame.Base.{ℕ, Bool, true, false, ◌&&◌, List, [], if◌then◌else◌}
use echo_frame.Base.Integers.{ℤ, pos, is_zero, is_positive}
use echo_frame.Util.Text.{Text}

pub data SocketType : Type 0 where
  stream datagram : SocketType

pub data SocketOption : Type 0 where
  reuse_addr reuse_port keep_alive broadcast send_buf recv_buf send_low_wait recv_low_wait
        send_timeout recv_timeout :
      SocketOption

-- A host and a port.
abbrev pub Address : Type 0
Address = Text × ℕ

pub record Os (W : Type 0) : Type 0 where
  pub os_socket : ℕ → SocketType → ℕ → W → ℤ × W
  pub os_bind : ℤ → ℕ → Address → W → ℤ × W
  pub os_listen : ℤ → ℕ → W → ℤ × W
  pub os_connect : ℤ → ℕ → Address → W → ℤ × W
  pub os_in_progress : W → Bool
  pub os_so_error : ℤ → W → ℕ
  pub os_accept : ℤ → W → ℤ × Address × W
  pub os_write : ℤ → List ℕ → W → ℤ × W
  pub os_send_to : ℤ → Address → List ℕ → W → ℤ × W
  pub os_read : ℤ → ℕ → W → ℤ × List ℕ × W
  pub os_recv_from : ℤ → ℕ → Bool → W → ℤ × Address × List ℕ × W
  pub os_set_option : ℤ → SocketOption → ℕ → W → W
  pub os_set_linger : ℤ → Bool → ℕ → W → W
  pub os_get_flags : ℤ → W → ℕ
  pub os_set_flags : ℤ → ℕ → W → W
  pub os_non_block : ℕ → ℕ
  pub os_close : ℤ → W → W

pub record MySocket : Type 0 where
  pub fd : ℤ
  pub remote : Address
  pub local : Address
  pub is_connected : Bool
  pub is_closed : Bool
  pub domain : ℕ
  pub type : SocketType
  pub protocol : ℕ

-- A new object.
abbrev pub no_socket : MySocket
no_socket = record {
  fd = pos 0;
  remote = ([], 0);
  local = ([], 0);
  is_connected = false;
  is_closed = true;
  domain = 0;
  type = stream;
  protocol = 0;
}

abbrev is_datagram : SocketType → Bool
is_datagram stream = false
is_datagram datagram = true

abbrev pub set_connected : MySocket → MySocket
set_connected s = record s { is_connected = true; is_closed = false }

abbrev pub set_closed : MySocket → MySocket
set_closed s = record s { is_connected = false; is_closed = true }

abbrev from_flag : Bool → ℕ
from_flag flag = if flag then 1 else 0

module _ {W : Type 0} (os : Os W) where
  -- `socket`
  unfoldable pub make_socket : ℕ → SocketType → ℕ → MySocket → W → Bool × MySocket × W
  make_socket domain type protocol s w =
      let (fd, v) = os.os_socket domain type protocol w in
      (
        is_positive fd,
        record s {
          fd = fd;
          domain = domain;
          type = type;
          protocol = protocol;
          is_connected = is_datagram type && is_positive fd;
        },
        v,
      )

  -- The options that are a number, and those that are a flag.
  abbrev pub set_sock_opt : SocketOption → ℕ → MySocket → W → W
  set_sock_opt option value s w = os.os_set_option s.fd option value w

  abbrev pub set_flag_opt : SocketOption → Bool → MySocket → W → W
  set_flag_opt option flag s w = set_sock_opt option (from_flag flag) s w

  abbrev pub set_linger : Bool → ℕ → MySocket → W → W
  set_linger flag timeout s w = os.os_set_linger s.fd flag timeout w

  abbrev pub set_non_block : MySocket → W → W
  set_non_block s w = os.os_set_flags s.fd (os.os_non_block (os.os_get_flags s.fd w)) w

  -- `bind`: the address is kept, and may be used again.
  unfoldable pub bind_to : Address → MySocket → W → ℤ × MySocket × W
  bind_to address s w =
      let t = record s { local = address } in
      let (rv, v) = os.os_bind t.fd t.domain address (set_flag_opt reuse_addr true t w) in
      (rv, t, v)

  unfoldable pub listen : ℕ → MySocket → W → ℤ × W
  listen backlog s w = os.os_listen s.fd backlog w

  -- `connect`: true stands for 0. An error that says that the connection is being made is none.
  abbrev connecting : Bool → Bool → MySocket → W → Bool × MySocket × W
  connecting true in_progress s w = (true, record s { is_connected = true }, w)
  connecting false true s w = (true, record s { is_connected = false }, w)
  connecting false false s w = (false, s, w)

  unfoldable pub connect_to : Address → MySocket → W → Bool × MySocket × W
  connect_to address s w =
      let (rv, v) = os.os_connect s.fd s.domain address w in
      connecting (is_zero rv) (os.os_in_progress v) (record s { remote = address }) v

  unfoldable pub get_connect_result : MySocket → W → ℕ
  get_connect_result s w = os.os_so_error s.fd w

  -- `accept`: a new socket is refused only if its number is zero.
  unfoldable pub accept : MySocket → MySocket → W → Bool × MySocket × W
  accept s client w =
      let (fd, address, v) = os.os_accept s.fd w in
      if is_zero fd
      then (false, client, v)
      else (true, record client { fd = fd; is_connected = true; remote = address }, v)

  unfoldable pub close_socket : MySocket → W → MySocket × W
  close_socket s w =
      if is_zero s.fd then (s, w) else (record (set_closed s) { fd = pos 0 }, os.os_close s.fd w)

  -- `write`, `writeTo`, `read`, `readFrom` and `peekFrom`
  abbrev pub write_socket : List ℕ → MySocket → W → ℤ × W
  write_socket buffer s w = os.os_write s.fd buffer w

  abbrev pub write_to : Address → List ℕ → MySocket → W → ℤ × W
  write_to address buffer s w = os.os_send_to s.fd address buffer w

  abbrev pub read_socket : ℕ → MySocket → W → ℤ × List ℕ × W
  read_socket size s w = os.os_read s.fd size w

  abbrev pub read_from : ℕ → MySocket → W → ℤ × Address × List ℕ × W
  read_from size s w = os.os_recv_from s.fd size false w

  abbrev pub peek_from : MySocket → W → ℤ × Address × List ℕ × W
  peek_from s w = os.os_recv_from s.fd 1 true w

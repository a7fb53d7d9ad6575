-- ===== src/Client/Clients.antt =====
-- ClientLoop and ClientLoopManager (net/client/ClientLoop.h, net/client/ClientLoop.cc): the clients
-- of all proxies by their uids, divided among the loops; the clients themselves, as far as the
-- registry and the sessions look at them (net/client/MyClient.h, net/client/MyClient.cc); and the
-- update of a servant's clients (net/client/MyProxy.cc). A client is a value, held in its loop.
use echo_frame.Base.{
  ℕ, ◌+◌, ◌-◌, ◌*◌, ◌%◌, ◌^◌, Bool, true, false, ◌&&◌, Option, none, some, List, [], ◌∷◌, ltb, leb,
  ◌==◌, if◌then◌else◌, length,
}
use echo_frame.Base.Loops.{Loop, loop_at, at_loop, index_of, find_entry, add_entry, remove_entry}
use echo_frame.Base.OrdMap.{OrdMap}
use echo_frame.Client.Sessions.{Session}
use echo_frame.Util.Text.{Text}
use echo_frame.Util.PropertyTree.{text_eq}

pub record ClientConfig : Type 0 where
  pub host : Text
  pub port : ℕ
  pub timeout : ℕ
  pub client_type : ℕ
  pub auto_reconnect : Bool
  pub need_heartbeat : Bool
  pub heartbeat_interval : ℕ

pub record NetClient {ℓ} (A : Type ℓ) : Type ℓ where
  pub uid : ℕ
  pub config : ClientConfig
  pub requests : OrdMap (Session A)
  pub last_heartbeat_time : ℕ

-- The uid that a client gives itself; a servant's id has 16 bits, so `|` adds it.
abbrev pub make_uid : ℕ → ℕ → ℕ
make_uid fd servant_id = (fd * 2 ^ 16) % 2 ^ 32 + servant_id

-- `getServantId`, and `uid & 0xFFFF`, which leads to a client's loop.
abbrev pub servant_id : ℕ → ℕ
servant_id uid = uid % 2 ^ 16

abbrev pub ClientLoop {ℓ} : Type ℓ → Type ℓ
ClientLoop A = Loop (NetClient A)

-- The manager's loops.
abbrev pub Clients {ℓ} : Type ℓ → Type ℓ
Clients A = List (ClientLoop A)

abbrev pub has_address : Text → ℕ → ClientConfig → Bool
has_address host port c = text_eq c.host host && c.port == port

unfoldable pub is_listed : ClientConfig → List ClientConfig → Bool
is_listed c [] = false
is_listed c (k ∷ ks) = if has_address c.host c.port k then true else is_listed c ks

module _ {ℓ} {A : Type ℓ} where
  unfoldable pub find_client : ℕ → Clients A → Option (NetClient A)
  find_client uid loops = find_entry servant_id uid loops

  unfoldable pub add_client : NetClient A → Clients A → Clients A
  add_client c loops = add_entry servant_id c.uid c loops

  unfoldable pub remove_client : NetClient A → Clients A → Clients A
  remove_client c loops = remove_entry servant_id c.uid loops

  -- `findClient(host, port)` of a loop.
  unfoldable pub find_by_address : Text → ℕ → OrdMap (NetClient A) → Option (NetClient A)
  find_by_address host port [] = none
  find_by_address host port ((uid, c) ∷ m) =
      if has_address host port c.config then some c else find_by_address host port m

  -- `needSendHeartbeat`
  abbrev pub need_send_heartbeat : ℕ → NetClient A → Bool
  need_send_heartbeat now c =
      c.config.need_heartbeat
      && leb ((c.last_heartbeat_time + c.config.heartbeat_interval) % 2 ^ 32) now

  -- `onHeartbeat` of each client of a loop.
  abbrev pub heartbeats : (NetClient A → NetClient A) → OrdMap (NetClient A) → OrdMap (NetClient A)
  heartbeats on_heartbeat [] = []
  heartbeats on_heartbeat ((uid, c) ∷ m) = (uid, on_heartbeat c) ∷ heartbeats on_heartbeat m

  -- `onIdle` of a loop; the difference of the times wraps.
  unfoldable pub on_idle : (NetClient A → NetClient A) → ℕ → ClientLoop A → Bool × ClientLoop A
  on_idle on_heartbeat now l =
      if ltb ((now + 2 ^ 32 - l.last_check_time) % 2 ^ 32) 1
      then (false, l)
      else (true, record { entries = heartbeats on_heartbeat l.entries; last_check_time = now })

  -- The first half of `initialize` of a servant's proxy: the loop's clients that no configuration
  -- lists are taken out, whichever servant they belong to.
  unfoldable pub keep_listed : List ClientConfig → OrdMap (NetClient A) → OrdMap (NetClient A)
  keep_listed configs [] = []
  keep_listed configs ((uid, c) ∷ m) =
      let kept = keep_listed configs m in
      if is_listed c.config configs then (uid, c) ∷ kept else kept

  abbrev entries_of : Option (ClientLoop A) → OrdMap (NetClient A)
  entries_of none = []
  entries_of (some l) = l.entries

  abbrev add_unless :
      Option (NetClient A)
      → (ClientConfig → Clients A → NetClient A)
      → ClientConfig
      → Clients A
      → Clients A
  add_unless (some c) connect config loops = loops
  add_unless none connect config loops =
      if leb config.client_type 1 then add_client (connect config loops) loops else loops

  -- The second half: a client is opened for each configuration that no client of the loop has.
  unfoldable pub add_missing :
      (ClientConfig → Clients A → NetClient A) → ℕ → List ClientConfig → Clients A → Clients A
  add_missing connect i [] loops = loops
  add_missing connect i (config ∷ configs) loops =
      let found = find_by_address config.host config.port (entries_of (loop_at i loops)) in
      add_missing connect i configs (add_unless found connect config loops)

  -- `initialize` of a servant's proxy: the loop is that of the whole hash of the servant's name, the
  -- clients are added to the loops of their uids.
  unfoldable pub update_clients :
      (ClientConfig → Clients A → NetClient A)
      → ℕ
      → List ClientConfig
      → Clients A
      → Option (Clients A)
  update_clients connect hash configs loops =
      let i = index_of hash loops in
      if length loops == 0
      then none
      else some (
          add_missing connect i configs
            (at_loop i (λ l. record l { entries = keep_listed configs l.entries }) loops))

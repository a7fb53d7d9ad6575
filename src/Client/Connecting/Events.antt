-- ===== src/Client/Connecting/Events.antt =====
-- What the events of the loop leave of a TCP client that connects (net/client/MyClient.cc).
use echo_frame.Base.{
  suc, ◌≡◌, refl, ap, ◌∙◌, Bool, true, false, Option, some, List, [], ◌∷◌, if◌then◌else◌,
  Bool-cases, inl, inr,
}
use echo_frame.Base.Integers.{pos, negsuc}
use echo_frame.Socket.{Os, MySocket, Address, set_non_block, connect_to, get_connect_result}
use echo_frame.Client.Connecting.{
  empty_promise, kept_promise, give_value, TcpClient, async_connect, connect_result, after_connect,
  connected_on, on_connect, when_watched, then_events, connect_events, promised,
}

module _ {W : Type 0} (os : Os W) where
  -- What the events leave of a client whose socket is connected, or is being connected, when the
  -- first of them comes.
  pub data ConnectRun (s : MySocket) (u : W) (c : TcpClient) : TcpClient → Type 0 where
    at_once : s.is_connected ≡ true → promised c.promise ≡ negsuc 0 → ConnectRun s u c c
    in_progress :
        {d : TcpClient}
        → s.is_connected ≡ false
        → d.promise ≡ kept_promise (pos (get_connect_result os s u))
        → d.socket ≡ some (connect_result (get_connect_result os s u) s)
        → d.connect_watcher ≡ false
        → d.callbacks ≡ (if c.has_callback then suc c.callbacks else c.callbacks)
        → ConnectRun s u c d

  unwatched :
      (b : Bool) (o : Option TcpClient) (c : TcpClient) → b ≡ false → when_watched b o c ≡ some c
  unwatched b o c h = rw (h) refl

  watched : (b : Bool) (o : Option TcpClient) (c : TcpClient) → b ≡ true → when_watched b o c ≡ o
  watched b o c h = rw (h) refl

  unmoved :
      (b : Bool) (o : Option TcpClient) (c : TcpClient) → o ≡ some c → when_watched b o c ≡ some c
  unmoved true o c h = h
  unmoved false o c h = refl

  connect_events-unwatched :
      (us : List W) (c : TcpClient) → c.connect_watcher ≡ false → connect_events os us c ≡ some c
  unfolding connect_events
  connect_events-unwatched [] c h = refl
  connect_events-unwatched (u ∷ us) c h =
      ap (then_events (connect_events os us)) (unwatched c.connect_watcher (on_connect os c u) c h)
      ∙ connect_events-unwatched us c h

  if_true : {A : Type 0} (b : Bool) (x y : A) → b ≡ true → (if b then x else y) ≡ x
  if_true b x y h = rw (h) refl

  if_false : {A : Type 0} (b : Bool) (x y : A) → b ≡ false → (if b then x else y) ≡ y
  if_false b x y h = rw (h) refl

  connected-unmoved :
      (o : Option MySocket) (s : MySocket) (c : TcpClient) (u : W)
      → o ≡ some s
      → s.is_connected ≡ true
      → connected_on os o c u ≡ some c
  connected-unmoved o s c u e h = rw (e) (ap some (if_true s.is_connected c _ h))

  connected-after :
      (o : Option MySocket) (s : MySocket) (c : TcpClient) (u : W)
      → o ≡ some s
      → s.is_connected ≡ false
      → connected_on os o c u ≡ some (after_connect (get_connect_result os s u) s c)
  connected-after o s c u e h = rw (e) (ap some (if_false s.is_connected c _ h))

  connect_events-connected :
      (us : List W) (s : MySocket) (c : TcpClient)
      → c.socket ≡ some s
      → s.is_connected ≡ true
      → connect_events os us c ≡ some c
  unfolding connect_events on_connect
  connect_events-connected [] s c e h = refl
  connect_events-connected (u ∷ us) s c e h =
      ap (then_events (connect_events os us))
        (unmoved c.connect_watcher (on_connect os c u) c (connected-unmoved c.socket s c u e h))
      ∙ connect_events-connected us s c e h

  connect_events-waiting :
      (u : W) (us : List W) (s : MySocket) (c : TcpClient)
      → c.socket ≡ some s
      → c.connect_watcher ≡ true
      → s.is_connected ≡ false
      → connect_events os (u ∷ us) c ≡ some (after_connect (get_connect_result os s u) s c)
  unfolding connect_events on_connect
  connect_events-waiting u us s c e h n =
      ap (then_events (connect_events os us))
        (watched c.connect_watcher (on_connect os c u) c h ∙ connected-after c.socket s c u e n)
      ∙ connect_events-unwatched us (after_connect (get_connect_result os s u) s c) refl

  connecting_run :
      (u : W) (us : List W) (s : MySocket) (c : TcpClient)
      → c.socket ≡ some s
      → c.connect_watcher ≡ true
      → c.promise ≡ empty_promise
      → (d : TcpClient) × (connect_events os (u ∷ us) c ≡ some d) × ConnectRun s u c d
  connecting_run u us s c e h p = elim (Bool-cases s.is_connected) [
    | inl now ↦ (c, connect_events-connected (u ∷ us) s c e now, at_once now (ap promised p))
    | inr later ↦ (
      after_connect (get_connect_result os s u) s c,
      connect_events-waiting u us s c e h later,
      in_progress later (ap (give_value (pos (get_connect_result os s u))) p) refl refl refl,
    )
  ]

  -- If `connect` of the socket answers 0, `asyncConnect` waits, and any events of the loop that
  -- follow, one at least, leave the client in one of two ways. Where the connection is being made,
  -- the first event gives the promise the error that the socket then has, once, marks the socket
  -- connected if there is none, takes the watcher out and calls the callback once, if there is one.
  -- Where the socket was connected at once, no event changes the client, and the promise never gets
  -- a value, so that `connect` returns -1.
  pub connect_events-ConnectRun :
      (address : Address) (callback : Bool) (c : TcpClient) (s t : MySocket) (u v w : W)
      (us : List W)
      → c.socket ≡ some s
      → connect_to os address s (set_non_block os s w) ≡ (true, t, v)
      → (d : TcpClient) × (e : TcpClient) × (async_connect os address callback c w ≡ some (d, v))
        × (connect_events os (u ∷ us) d ≡ some e)
        × (d.has_callback ≡ callback)
        × ConnectRun t u d e
  unfolding async_connect
  connect_events-ConnectRun address callback c s t u v w us e f =
      let d : TcpClient = record c {
        address = address;
        has_callback = callback;
        promise = empty_promise;
        socket = some t;
        connect_watcher = true;
      } in
      let (x, g, r) = connecting_run u us t d refl refl refl in (d, x, rw (e, f) refl, g, refl, r)

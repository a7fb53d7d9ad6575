-- ===== src/Client/Requests/Delivery.antt =====
-- Which session a packet is handed to, and when heartbeats are sent.
use echo_frame.Base.{
  ℕ, Bool, true, false, ◌&&◌, lt→leb, ◌+◌, ◌%◌, ◌^◌, ◌<◌, ◌≡◌, refl, ap, none, some, length, arith,
  eq→==,
}
use echo_frame.Base.Loops.{find_entry-add_entry, add_entry-loops}
use echo_frame.Base.OrdMap.{OrdMap, lookup-set, lookup-erase}
use echo_frame.Buffer.Memory.{Malloc}
use echo_frame.Buffer.SkBuffer.{SkBuffer}
use echo_frame.Buffer.IoBuf.{done}
use echo_frame.Protocol.Message.{MagicMessage, blank, decode}
use echo_frame.Client.Sessions.{
  Session, new_session, make_request_id, add_session, remove_session, find_session,
}
use echo_frame.Client.Clients.{NetClient, Clients, servant_id, find_client}
use echo_frame.Client.Requests.{
  client_of, put_client, start_session, heartbeat, job_for, deliver, handle_packet,
}

and_false : (x y : Bool) → (x && (y && false)) ≡ false
and_false true true = refl
and_false true false = refl
and_false false y = refl

client_of_id :
    (uid now : ℕ) → uid < 2 ^ 32 → now < 2 ^ 32 → client_of (make_request_id uid now) ≡ uid
unfolding make_request_id
client_of_id uid now hu hn = omega arith

module _ {ℓ} {A : Type ℓ} where
  -- After a heartbeat none is sent until the interval is over, as long as its end does not wrap.
  heartbeat_waits :
      (connected : Bool) (now later : ℕ) (a : A) (c : NetClient A)
      → later < now + c.config.heartbeat_interval
      → now + c.config.heartbeat_interval < 2 ^ 32
      → heartbeat connected later a (record c { last_heartbeat_time = now })
        ≡ (none, record c { last_heartbeat_time = now })
  unfolding heartbeat
  heartbeat_waits connected now later a c early fits =
      rw
        (
          lt→leb ((now + c.config.heartbeat_interval) % 2 ^ 32) later (omega arith),
          and_false connected c.config.need_heartbeat,
        )
        refl

  deliver_found :
      (msg : MagicMessage) (id uid : ℕ) (loops : Clients A) (c : NetClient A) (s : Session A)
      → msg.request_id ≡ id
      → client_of id ≡ uid
      → find_client uid loops ≡ some c
      → find_session id c.requests ≡ some s
      → deliver msg loops ≡ (
        job_for msg s,
        put_client uid (record c { requests = remove_session id c.requests }) loops,
      )
  unfolding deliver
  deliver_found msg id uid loops c s same of found waits = rw (same, of, found, waits, of) refl

  deliver_missing :
      (msg : MagicMessage) (id uid : ℕ) (loops : Clients A) (c : NetClient A)
      → msg.request_id ≡ id
      → client_of id ≡ uid
      → find_client uid loops ≡ some c
      → find_session id c.requests ≡ none
      → deliver msg loops ≡ (none, loops)
  unfolding deliver
  deliver_missing msg id uid loops c same of found gone = rw (same, of, found, gone) refl

  find_session-add :
      (s : Session A) (m : OrdMap (Session A))
      → find_session s.request_id (add_session s m) ≡ some s
  unfolding find_session add_session
  find_session-add s m =
      rw (lookup-set s.request_id s.request_id s m, eq→== s.request_id s.request_id refl) refl

  find_session-remove :
      (id : ℕ) (m : OrdMap (Session A)) → find_session id (remove_session id m) ≡ none
  unfolding find_session remove_session
  find_session-remove id m = rw (lookup-erase id id m, eq→== id id refl) refl

  put_client-loops :
      (uid : ℕ) (c : NetClient A) (loops : Clients A)
      → length (put_client uid c loops) ≡ length loops
  put_client-loops uid c loops = add_entry-loops servant_id uid c loops

  find-put :
      (uid : ℕ) (c : NetClient A) (loops : Clients A)
      → 0 < length loops
      → find_client uid (put_client uid c loops) ≡ some c
  unfolding find_client
  find-put uid c loops pos =
      rw (find_entry-add_entry servant_id uid uid c loops pos, eq→== uid uid refl) refl

  -- For a client with a uid of 32 bits, in a registry with a loop, and a time of 32 bits: after a
  -- session is added, the first packet that decodes to a message with the session's request id is
  -- handed to that session if its flag is that of a heartbeat or of data, and to none otherwise; and
  -- a later packet with the request id, of whatever flag, is handed to no session and changes
  -- nothing.
  pub handle_packet-once :
      (m : Malloc) (now : ℕ) (a : A) (c : NetClient A) (loops : Clients A) (msg late : MagicMessage)
      (iobuf t iobuf_late t_late : SkBuffer)
      → 0 < length loops
      → c.uid < 2 ^ 32
      → now < 2 ^ 32
      → msg.request_id ≡ make_request_id c.uid now
      → late.request_id ≡ make_request_id c.uid now
      → decode m blank iobuf ≡ done msg t
      → decode m blank iobuf_late ≡ done late t_late
      → (after : Clients A) × (handle_packet m iobuf
            (put_client c.uid (start_session now a c) loops)
          ≡ done (job_for msg (new_session c.uid now a), after) t)
        × (handle_packet m iobuf_late after ≡ done (none, after) t_late)
  unfolding handle_packet
  handle_packet-once m now a c loops msg late iobuf t iobuf_late t_late pos hu hn same same_late
        decoded decoded_late =
      (
        after,
        rw decoded (ap (λ r. done r t) first),
        rw decoded_late (ap (λ r. done r t_late) second),
      )
    where
      id : ℕ
      id = make_request_id c.uid now

      s : Session A
      s = new_session c.uid now a

      waiting : Clients A
      waiting = put_client c.uid (start_session now a c) loops

      left : NetClient A
      left = record (start_session now a c) {
        requests = remove_session id (start_session now a c).requests;
      }

      after : Clients A
      after = put_client c.uid left waiting

      first : deliver msg waiting ≡ (job_for msg s, after)
      first =
          deliver_found msg id c.uid waiting (start_session now a c) s same
            (client_of_id c.uid now hu hn) (find-put c.uid (start_session now a c) loops pos)
            (find_session-add s c.requests)

      second : deliver late after ≡ (none, after)
      second =
          deliver_missing late id c.uid after left same_late (client_of_id c.uid now hu hn)
            (find-put c.uid left waiting
              (omega (arith, put_client-loops c.uid (start_session now a c) loops)))
            (find_session-remove id (start_session now a c).requests)

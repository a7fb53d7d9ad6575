-- ===== src/Client/Requests.antt =====
-- buildSession and handlePacket of ServantProxy (net/client/MyProxy.h, net/client/MyProxy.cc): from a
-- request to the session that waits for its response. Encoding and decoding of the payload's own
-- message are virtual.
pub mod Delivery
use echo_frame.Base.{
  ℕ, Bool, true, false, ◌&&◌, lt→leb, ◌+◌, ◌/◌, ◌%◌, ◌^◌, ◌<◌, ◌≡◌, refl, ap, Option, none, some,
  ◌==◌, if◌then◌else◌, length, arith, eq→==,
}
use echo_frame.Base.Loops.{add_entry, find_entry-add_entry, add_entry-loops}
use echo_frame.Base.OrdMap.{OrdMap, lookup-set, lookup-erase}
use echo_frame.Buffer.Memory.{Malloc}
use echo_frame.Buffer.SkBuffer.{SkBuffer, u32}
use echo_frame.Buffer.IoBuf.{Step, done, and_then}
use echo_frame.Protocol.Message.{MagicMessage, blank, head_len, flag_data, flag_heartbeat, decode}
use echo_frame.Client.Sessions.{
  Session, new_session, make_request_id, add_session, remove_session, find_session,
}
use echo_frame.Client.Clients.{NetClient, Clients, servant_id, find_client, need_send_heartbeat}
use echo_frame.Client.Callbacks.{Callbacks, Answered, answered, do_success_action, result_fail}

-- The message of a request, around a payload of so many bytes.
abbrev pub request_message : ℕ → SkBuffer → ℕ → MagicMessage
request_message id payload n = record blank {
  length = u32 (head_len + n);
  flag = flag_data;
  version = 1;
  is_request = 1;
  request_id = id;
  server_number = 0;
  payload = some payload;
}

-- The message of a heartbeat.
abbrev pub heartbeat_message : ℕ → MagicMessage
heartbeat_message id = record blank {
  length = head_len;
  flag = flag_heartbeat;
  version = 1;
  is_request = 1;
  request_id = id;
  server_number = 0;
}

-- What the handlers' threads are given.
pub data Job {ℓ} (A : Type ℓ) : Type ℓ where
  heartbeat_came : Session A → Job A
  response_came : Session A → Option SkBuffer → Job A

-- The high half of a request id.
abbrev pub client_of : ℕ → ℕ
client_of id = (id / 2 ^ 32) % 2 ^ 32

module _ {ℓ} {A : Type ℓ} where
  -- A client whose sessions have changed, in its place.
  abbrev pub put_client : ℕ → NetClient A → Clients A → Clients A
  put_client uid c loops = add_entry servant_id uid c loops

  -- `addSession` of a new session.
  abbrev pub start_session : ℕ → A → NetClient A → NetClient A
  start_session now a c = record c { requests = add_session (new_session c.uid now a) c.requests }

  -- The heartbeat function of a client, for a proxy that is there: the message that is sent, and the
  -- client. `a` is what the session does.
  unfoldable pub heartbeat : Bool → ℕ → A → NetClient A → Option MagicMessage × NetClient A
  heartbeat connected now a c =
      if connected && need_send_heartbeat now c
      then (
        some (heartbeat_message (make_request_id c.uid now)),
        record (start_session now a c) { last_heartbeat_time = now },
      )
      else (none, c)

  abbrev pub job_for : MagicMessage → Session A → Option (Job A)
  job_for msg s =
      if msg.flag == flag_heartbeat
      then some (heartbeat_came s)
      else if msg.flag == flag_data
      then some (response_came s msg.payload)
      else none

  abbrev pub to_session :
      MagicMessage → Clients A → NetClient A → Option (Session A) → Option (Job A) × Clients A
  to_session msg loops c none = (none, loops)
  to_session msg loops c (some s) = (
    job_for msg s,
    put_client (client_of msg.request_id)
        (record c { requests = remove_session msg.request_id c.requests }) loops,
  )

  abbrev pub to_client :
      MagicMessage → Clients A → Option (NetClient A) → Option (Job A) × Clients A
  to_client msg loops none = (none, loops)
  to_client msg loops (some c) = to_session msg loops c (find_session msg.request_id c.requests)

  -- `handlePacket` from the point where the message has been decoded.
  unfoldable pub deliver : MagicMessage → Clients A → Option (Job A) × Clients A
  deliver msg loops = to_client msg loops (find_client (client_of msg.request_id) loops)

  -- `handlePacket`
  unfoldable pub handle_packet : Malloc → SkBuffer → Clients A → Step (Option (Job A) × Clients A)
  handle_packet m iobuf loops = and_then (decode m blank iobuf) λ msg t. done (deliver msg loops) t

-- What a handler's thread does with a job; `decode_payload` gives no message where it fails.
abbrev pub with_message {κ} : {P : Type κ} → Session (Callbacks P) → Option P → Answered P
with_message s none = answered result_fail s.action
with_message s (some p) = do_success_action (some p) s.action

abbrev pub run_job {κ} :
    {P : Type κ} → (Option SkBuffer → Option P) → Job (Callbacks P) → Answered P
run_job decode_payload (heartbeat_came s) = do_success_action none s.action
run_job decode_payload (response_came s payload) = with_message s (decode_payload payload)

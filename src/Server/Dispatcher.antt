-- ===== src/Server/Dispatcher.antt =====
-- MyDispatcher::handlePacket (net/server/MyDispatcher.cc), MyMagicDispatcher::dispatchPacket
-- (net/magic/MyMagicDispatcher.cc) and the context's sendPayload and close (net/server/MyContext.cc).
-- `dispatchPayload` is virtual: for the payload of a request it gives its result, a response, and
-- whether the context then wants a response. Without it the context wants one.
pub mod Responses
use echo_frame.Base.{
  ℕ, ◌+◌, ◌^◌, Bool, true, false, Option, none, some, List, [], ◌∷◌, ◌==◌, ltb, if◌then◌else◌,
}
use echo_frame.Buffer.Memory.{Malloc, Result, ok, fault}
use echo_frame.Buffer.SkBuffer.{SkBuffer, u32, get_readable_length}
use echo_frame.Buffer.IoBuf.{Step, done, thrown, crashed, and_then, readable_bytes}
use echo_frame.Protocol.Message.{MagicMessage, blank, head_len, is_heartbeat, encode, decode}

-- `kHandleResultSuccess`
abbrev pub handle_success : ℕ
handle_success = 0

pub record Answer : Type 0 where
  pub result : ℕ
  pub response : Option SkBuffer
  pub need_response : Bool

-- What the dispatcher does with the context.
pub data ContextAction : Type 0 where
  send_payload : List ℕ → ContextAction
  close : ContextAction

-- A response is encoded into a buffer of its own; the state is that of the request's buffer.
abbrev pub encoded : Bool → SkBuffer → Step (Unit {0}) → Step Answer
encoded need t (done _ p) =
    done (record { result = handle_success; response = some p; need_response = need }) t
encoded need t (thrown p) = thrown t
encoded need t (crashed e) = crashed e

-- The head of the response to a request.
abbrev pub response_head : MagicMessage → MagicMessage
response_head msg = record blank {
  request_id = msg.request_id;
  server_number = msg.server_number;
  is_request = 0;
  version = msg.version;
}

module _ (m : Malloc) (dispatch_payload : Option SkBuffer → Answer) where
  abbrev pub respond_with : MagicMessage → SkBuffer → SkBuffer → Result ℕ → Step Answer
  respond_with head t p (fault e) = crashed e
  respond_with head t p (ok n) =
      encoded true t (encode m (record head { length = u32 (head_len + n); payload = some p }))

  abbrev pub respond : MagicMessage → SkBuffer → Option SkBuffer → Step Answer
  respond head t none = encoded true t (encode m (record head { length = head_len }))
  respond head t (some p) = respond_with head t p (get_readable_length p)

  -- What follows `dispatchPayload`.
  abbrev pub after_payload : MagicMessage → SkBuffer → Answer → Step Answer
  after_payload msg t a =
      if a.result == handle_success
      then (if a.need_response
          then respond (response_head msg) t a.response
          else done (record a { response = none }) t)
      else done (record a { response = none }) t

  abbrev pub by_flag : MagicMessage → SkBuffer → Step Answer
  by_flag msg t =
      if is_heartbeat msg
      then encoded true t (encode m (record msg { is_request = 0 }))
      else after_payload msg t (dispatch_payload msg.payload)

  unfoldable pub dispatch_packet : SkBuffer → Step Answer
  dispatch_packet request = and_then (decode m blank request) by_flag

  abbrev sent : ℕ → SkBuffer → Result (List ℕ) → Step (ℕ × List ContextAction)
  sent rv t (fault e) = crashed e
  sent rv t (ok []) = done (rv, []) t
  sent rv t (ok (x ∷ xs)) = done (rv, send_payload (x ∷ xs) ∷ []) t

  abbrev send_response : ℕ → SkBuffer → Option SkBuffer → Step (ℕ × List ContextAction)
  send_response rv t none = done (rv, []) t
  send_response rv t (some p) = sent rv t (readable_bytes p)

  abbrev pub finish : Answer → SkBuffer → Step (ℕ × List ContextAction)
  finish a t =
      if a.result == handle_success
      then (if a.need_response then send_response a.result t a.response else done (a.result, []) t)
      else done (a.result, close ∷ []) t

  -- `handlePacket`: its result, and what it did.
  unfoldable pub handle_packet : SkBuffer → Step (ℕ × List ContextAction)
  handle_packet request = and_then (dispatch_packet request) finish

-- ===== src/Server/Dispatcher/Responses.antt =====
-- What a dispatcher answers to a request that is a whole message.
use echo_frame.Base.{
  ℕ, ◌+◌, ◌^◌, ◌<◌, ◌≤◌, ◌≡◌, ◌≢◌, refl, ap, ap₂, ◌∙◌, sym, Bool, true, false, Option, none, some,
  List, [], ◌∷◌, ◌++◌, arith, ◌==◌, ne→==, eq→==, le→leb,
}
use echo_frame.Base
use echo_frame.Base.Bytes.{to_bytes}
use echo_frame.Buffer.Memory.{Malloc, ok}
use echo_frame.Buffer.SkBuffer.{SkBuffer, u32, get_readable_length}
use echo_frame.Buffer.SkBuffer.Valid.{IsValid, content, length-content}
use echo_frame.Buffer.IoBuf.{done, and_then}
use echo_frame.Buffer.IoBuf.Fifo.{Holds, readable_bytes-Holds}
use echo_frame.Protocol.Message.{MagicMessage, flag_heartbeat}
use echo_frame.Protocol.Message.RoundTrip.{
  IsEncodable, payload_bytes, wire, head_bytes, Decoded, encode_lem, decode_lem,
}
use echo_frame.Server.Dispatcher.{
  Answer, ContextAction, send_payload, close, after_payload, response_head, respond, respond_with,
  finish, handle_success, dispatch_packet, handle_packet,
}

-- A decoded message can be encoded again with another `isRequest`.
answer-IsEncodable :
    (msg got : MagicMessage)
    → IsEncodable msg
    → Decoded msg got
    → IsEncodable (record got { is_request = 0 })
answer-IsEncodable msg got v d =
    let size : got.length ≡ msg.length = ap (λ k. k.length) d.head in
    record {
      fits = record {
        length = omega (arith, size, v.fits);
        flag = rw (ap (λ k. k.flag) d.head) v.fits.flag;
        version = rw (ap (λ k. k.version) d.head) v.fits.version;
        is_request = omega arith;
        request_id = rw (ap (λ k. k.request_id) d.head) v.fits.request_id;
        server_number = rw (ap (λ k. k.server_number) d.head) v.fits.server_number;
      };
      payload_valid = d.valid;
      counted = omega (arith, size, v.counted, ap Base.length d.bytes);
      small = omega (arith, size, v.small);
    }

wire-answer :
    (msg got : MagicMessage)
    → Decoded msg got
    → wire (record got { is_request = 0 }) ≡ wire (record msg { is_request = 0 })
wire-answer msg got d =
    ap₂ (λ k bytes. head_bytes (record k { is_request = 0 }) ++ bytes) d.head d.bytes

-- A buffer that holds a message's bytes is sent.
module _ (m : Malloc) (dispatch_payload : Option SkBuffer → Answer) {capacity : ℕ} {p : SkBuffer}
    (msg : MagicMessage) (hp : Holds capacity p (wire msg)) where
  finish_sends :
      (t : SkBuffer)
      → finish m dispatch_payload
          (record { result = handle_success; response = some p; need_response = true })
          t
        ≡ done (handle_success, send_payload (wire msg) ∷ []) t
  unfolding to_bytes
  finish_sends t = rw (readable_bytes-Holds hp)

-- A heartbeat that is a whole message is answered, without the handler, by a message that has
-- the same head and payload but is no request.
handle_packet-heartbeat :
    (m : Malloc) (dispatch_payload : Option SkBuffer → Answer) (msg : MagicMessage) {capacity : ℕ}
    {request : SkBuffer}
    → IsEncodable msg
    → Holds capacity request (wire msg)
    → msg.flag ≡ flag_heartbeat
    → (t : SkBuffer) × (handle_packet m dispatch_payload request
        ≡ done (handle_success, send_payload (wire (record msg { is_request = 0 })) ∷ []) t)
unfolding handle_packet dispatch_packet
handle_packet-heartbeat m dispatch_payload msg v h beat =
    let (got, t, e, d) = decode_lem m msg v h in
    let again = record got { is_request = 0 } in
    let (p, e', hp) = encode_lem m again (answer-IsEncodable msg got v d) in
    (
      t,
      rw
          (
            e,
            eq→== got.flag flag_heartbeat (ap (λ k. k.flag) d.head ∙ beat),
            e',
            finish_sends m dispatch_payload again hp t,
            wire-answer msg got d,
          )
          refl,
    )

-- The response to a request that carries the bytes of a buffer.
abbrev pub response_to : MagicMessage → SkBuffer → MagicMessage
response_to msg rsp = record (response_head msg) {
  length = 20 + Base.length (content rsp);
  payload = some rsp;
}

response_to-IsEncodable :
    (msg got : MagicMessage) (rsp : SkBuffer)
    → IsEncodable msg
    → Decoded msg got
    → IsValid rsp
    → 20 + Base.length (content rsp) < 2 ^ 31
    → IsEncodable (response_to got rsp)
response_to-IsEncodable msg got rsp v d valid small = record {
  fits = record {
    length = omega (arith, small);
    flag = omega arith;
    version = rw (ap (λ k. k.version) d.head) v.fits.version;
    is_request = omega arith;
    request_id = rw (ap (λ k. k.request_id) d.head) v.fits.request_id;
    server_number = rw (ap (λ k. k.server_number) d.head) v.fits.server_number;
  };
  payload_valid = valid;
  counted = omega arith;
  small = small;
}

respond_sends :
    (m : Malloc) (dispatch_payload : Option SkBuffer → Answer) (got : MagicMessage)
    (t rsp : SkBuffer)
    → IsEncodable (response_to got rsp)
    → and_then
        (respond m dispatch_payload (response_head got) t (some rsp))
        (finish m dispatch_payload)
      ≡ done (handle_success, send_payload (wire (response_to got rsp)) ∷ []) t
respond_sends m dispatch_payload got t rsp v =
    let (p, e, hp) = encode_lem m (response_to got rsp) v in
    ap
      (λ n.
        and_then (respond_with m dispatch_payload (response_head got) t rsp n)
          (finish m dispatch_payload))
      readable_length
    ∙ rw (no_wrap, e, finish_sends m dispatch_payload (response_to got rsp) hp t) refl
  where
    readable_length : get_readable_length rsp ≡ ok (Base.length (content rsp))
    readable_length = rw (
      le→leb rsp.readable_at rsp.writeable_at v.payload_valid.ordered,
      length-content rsp v.payload_valid,
    )

    no_wrap : u32 (20 + Base.length (content rsp)) ≡ 20 + Base.length (content rsp)
    no_wrap = omega (arith, v.small)

-- What is sent where the context wants a response, and where it does not.
abbrev pub if_needed : Bool → MagicMessage → List ContextAction
if_needed true msg = send_payload (wire msg) ∷ []
if_needed false msg = []

data_answered :
    (m : Malloc) (dispatch_payload : Option SkBuffer → Answer) (got : MagicMessage)
    (t rsp : SkBuffer) (need : Bool)
    → IsEncodable (response_to got rsp)
    → and_then
        (after_payload m dispatch_payload got t
          (record { result = handle_success; response = some rsp; need_response = need }))
        (finish m dispatch_payload)
      ≡ done (handle_success, if_needed need (response_to got rsp)) t
data_answered m dispatch_payload got t rsp true v = respond_sends m dispatch_payload got t rsp v
data_answered m dispatch_payload got t rsp false v = refl

-- A request that is a whole message and no heartbeat, to whose payload the handler answers with
-- success and a valid buffer of less than 2 ^ 31 bytes less the head: where the context still wants a
-- response, it is answered by a message with the request's id, server number and version that carries
-- the bytes of that buffer; where the handler has told the context that none is needed, nothing is
-- sent.
pub handle_packet-data :
    (m : Malloc) (dispatch_payload : Option SkBuffer → Answer) (msg : MagicMessage) (rsp : SkBuffer)
    (need : Bool) {capacity : ℕ} {request : SkBuffer}
    → IsEncodable msg
    → Holds capacity request (wire msg)
    → msg.flag ≢ flag_heartbeat
    → IsValid rsp
    → 20 + Base.length (content rsp) < 2 ^ 31
    → ((p : Option SkBuffer)
        → payload_bytes p ≡ payload_bytes msg.payload
        → dispatch_payload p
          ≡ record { result = handle_success; response = some rsp; need_response = need })
    → (t : SkBuffer) × (handle_packet m dispatch_payload request
        ≡ done (handle_success, if_needed need (response_to msg rsp)) t)
unfolding handle_packet dispatch_packet
handle_packet-data m dispatch_payload msg rsp need v h other valid small answers =
    let (got, t, e, d) = decode_lem m msg v h in
    let flag : got.flag ≢ flag_heartbeat = λ k. other (sym (ap (λ k. k.flag) d.head) ∙ k) in
    (
      t,
      rw
          (
            e,
            ne→== got.flag flag_heartbeat flag,
            answers got.payload d.bytes,
            data_answered m dispatch_payload got t rsp need
                (response_to-IsEncodable msg got rsp v d valid small),
          )
          (ap (λ k. done (handle_success, if_needed need (response_to k rsp)) t) d.head),
    )

-- A request that is a whole message and no heartbeat, to whose payload the handler answers with
-- another result than success, is not answered: the connection is closed.
pub handle_packet-failed :
    (m : Malloc) (dispatch_payload : Option SkBuffer → Answer) (msg : MagicMessage) (rv : ℕ)
    {capacity : ℕ} {request : SkBuffer}
    → IsEncodable msg
    → Holds capacity request (wire msg)
    → msg.flag ≢ flag_heartbeat
    → rv ≢ handle_success
    → ((p : Option SkBuffer)
        → payload_bytes p ≡ payload_bytes msg.payload
        → (dispatch_payload p).result ≡ rv)
    → (t : SkBuffer) × (handle_packet m dispatch_payload request ≡ done (rv, close ∷ []) t)
unfolding handle_packet dispatch_packet
handle_packet-failed m dispatch_payload msg rv v h other failed answers =
    let (got, t, e, d) = decode_lem m msg v h in
    let flag : got.flag ≢ flag_heartbeat = λ k. other (sym (ap (λ k. k.flag) d.head) ∙ k) in
    (
      t,
      rw
          (
            e,
            ne→== got.flag flag_heartbeat flag,
            answers got.payload d.bytes,
            ne→== rv handle_success failed,
            ne→== rv handle_success failed,
          )
          refl,
    )

-- ===== src/Protocol/Message.antt =====
-- class MyMagicMessage (net/protocol/MyMessage.h, net/protocol/MyMessage.cc). The payload is a
-- buffer or `nullptr`; a number stands for the bits of its field (`isRequest` is an `int8_t`).
pub mod RoundTrip
use echo_frame.Base.{ℕ, ◌+◌, ◌-◌, ◌%◌, ◌^◌, Bool, Option, none, some, ◌==◌, if◌then◌else◌, ltb}
use echo_frame.Buffer.Memory.{Malloc, Result, ok, fault}
use echo_frame.Buffer.SkBuffer.{SkBuffer, u32, get_readable_length}
use echo_frame.Buffer.IoBuf.{
  Step, done, thrown, crashed, Io, and_then, ◌>>=◌, ◌>>◌, pure, write_number, write_bytes,
  read_number, readable_bytes, create,
}

-- `enumFlag`
abbrev pub flag_data : ℕ
flag_data = 0

abbrev pub flag_heartbeat : ℕ
flag_heartbeat = 1

pub record MagicMessage : Type 0 where
  pub length : ℕ
  pub version : ℕ
  pub flag : ℕ
  pub is_request : ℕ
  pub request_id : ℕ
  pub server_number : ℕ
  pub payload : Option SkBuffer

-- `new MyMagicMessage()`
abbrev pub blank : MagicMessage
blank = record {
  length = 0;
  version = 0;
  flag = 0;
  is_request = 0;
  request_id = 0;
  server_number = 0;
  payload = none;
}

-- The sizes of the fields.
abbrev pub head_len : ℕ
head_len = 4 + 1 + 2 + 1 + 8 + 4

abbrev pub is_heartbeat : MagicMessage → Bool
is_heartbeat msg = msg.flag == flag_heartbeat

-- What is read of a payload that is copied to another buffer.
abbrev pub copied : {A : Type 0} → Result A → (A → Io (Unit {0})) → Io (Unit {0})
copied (ok bs) f b = f bs b
copied (fault e) f b = crashed e

module _ (m : Malloc) where
  -- `write<void*>(payload->readable(), payload->getReadableLength())`
  abbrev pub write_payload : Option SkBuffer → Io (Unit {0})
  write_payload none = pure tt
  write_payload (some p) = copied (readable_bytes p) (write_bytes m)

  abbrev pub write_head : MagicMessage → Io (Unit {0})
  write_head msg = do
    write_number m 4 msg.length
    write_number m 1 msg.flag
    write_number m 2 msg.version
    write_number m 1 msg.is_request
    write_number m 8 msg.request_id
    write_number m 4 msg.server_number

  unfoldable pub encode : MagicMessage → Step (Unit {0})
  encode msg = and_then (write_head msg (create m msg.length)) λ _. write_payload msg.payload

  -- The payload's buffer has the capacity `length - headLen()`, in `uint32_t`.
  abbrev new_payload : MagicMessage → SkBuffer → Step (Unit {0}) → Step MagicMessage
  new_payload msg from (done _ p) = done (record msg { payload = some p }) from
  new_payload msg from (thrown p) = thrown from
  new_payload msg from (crashed e) = crashed e

  abbrev take_payload : MagicMessage → SkBuffer → Result ℕ → Step MagicMessage
  take_payload msg b (fault e) = crashed e
  take_payload msg b (ok n) =
      if ltb 0 n
      then new_payload msg b (
          copied (readable_bytes b) (write_bytes m)
            (create m (u32 (msg.length + 2 ^ 32 - head_len))))
      else done msg b

  abbrev pub read_payload : MagicMessage → Io MagicMessage
  read_payload msg b = take_payload msg b (get_readable_length b)

  abbrev pub read_head : MagicMessage → Io MagicMessage
  read_head old = do
    length ← read_number 4
    flag ← read_number 1
    version ← read_number 2
    is_request ← read_number 1
    request_id ← read_number 8
    server_number ← read_number 4
    pure (record {
      length = length;
      version = version;
      flag = flag;
      is_request = is_request;
      request_id = request_id;
      server_number = server_number;
      payload = old.payload;
    })

  unfoldable pub decode : MagicMessage → Io MagicMessage
  decode old b = and_then (read_head old b) read_payload

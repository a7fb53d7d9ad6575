-- ===== src/Tests/Streams.antt =====
-- Buffers, messages and the packet loops at concrete inputs.
use echo_frame.Base.{
  ℕ, ◌+◌, ◌-◌, ◌^◌, ◌≡◌, refl, inl, inr, none, some, List, [], ◌∷◌, ◌++◌, map, length,
  length-replicate, replicate, arith,
}
use echo_frame.Base.Bytes.{of_bytes}
use echo_frame.Buffer.Memory.{Malloc, ok}
use echo_frame.Buffer.SkBuffer.{SkBuffer, writeable}
use echo_frame.Buffer.SkBuffer.Valid.{IsValid}
use echo_frame.Buffer.SkBuffer.Room.{Ready, writeable-Ready}
use echo_frame.Buffer.IoBuf.{Step, and_then, done, write_bytes, read_bytes}
use echo_frame.Buffer.IoBuf.Fifo.{Holds, write_bytes-Holds, read_bytes-Holds}
use echo_frame.Protocol.Message.{MagicMessage, blank, encode, decode}
use echo_frame.Protocol.Message.RoundTrip.{IsEncodable, Decoded, decode-encode}
use echo_frame.Protocol.Stream.{magic_codec}
use echo_frame.Server.Packets.{Action, handle_packets}
use echo_frame.Server.Packets.Frames.{delivered, handle_packets-stream}
use echo_frame.Server.Packets.Stuck.{stalled_never_returns}
use echo_frame.Client.Packets.{Reads, read_packets, read_packets-returns}

-- A `malloc` whose memory holds sevens.
abbrev sevens : Malloc
sevens = record { alloc = λ n. replicate n 7; length-alloc = λ n. length-replicate {A = ℕ} n 7 }

-- A buffer of 32 bytes with `xs` from offset `r` on.
abbrev filled : ℕ → List ℕ → SkBuffer
filled r xs = record {
  capacity = 32;
  readable_at = r;
  writeable_at = r + length xs;
  min_capacity = 32;
  bytes = replicate r 7 ++ (xs ++ replicate (32 - (r + length xs)) 7);
}

-- A packet of six bytes with its length in front.
abbrev packet : ℕ → ℕ → List ℕ
packet a b = 6 ∷ 0 ∷ 0 ∷ 0 ∷ a ∷ b ∷ []

-- Two packets and the length field of a third with one byte of it.
abbrev arrived : List ℕ
arrived = packet 1 2 ++ (packet 3 4 ++ (9 ∷ 0 ∷ 0 ∷ 0 ∷ 5 ∷ []))

abbrev inbox : SkBuffer
inbox = filled 3 arrived

inbox-Holds : Holds 32 inbox arrived
inbox-Holds = record {
  valid = record { ordered = omega arith; within = omega arith; sized = refl; small = omega arith };
  bytes = refl;
  cap = refl;
}

-- A buffer that holds three bytes of a length field, and one with a length field of zero.
abbrev stub : SkBuffer
stub = filled 0 (9 ∷ 9 ∷ 9 ∷ [])

stub-Holds : Holds 32 stub (9 ∷ 9 ∷ 9 ∷ [])
stub-Holds = record {
  valid = record { ordered = omega arith; within = omega arith; sized = refl; small = omega arith };
  bytes = refl;
  cap = refl;
}

abbrev payload : SkBuffer
payload = filled 0 (1 ∷ 2 ∷ 3 ∷ [])

abbrev message : MagicMessage
message = record {
  length = 23;
  version = 1;
  flag = 0;
  is_request = 1;
  request_id = 2 ^ 40 + 5;
  server_number = 7;
  payload = some payload;
}

message-IsEncodable : IsEncodable message
message-IsEncodable = record {
  fits = record {
    length = omega arith;
    flag = omega arith;
    version = omega arith;
    is_request = omega arith;
    request_id = omega arith;
    server_number = omega arith;
  };
  payload_valid = record {
    ordered = omega arith;
    within = omega arith;
    sized = refl;
    small = omega arith;
  };
  counted = omega arith;
  small = omega arith;
}

decode-encode_example :
    (t : SkBuffer) × (u : SkBuffer) × (got : MagicMessage) × (encode sevens message ≡ done tt t)
    × (decode sevens blank t ≡ done got u)
    × Decoded message got
decode-encode_example = decode-encode sevens message message-IsEncodable

handle_packets-stream_example :
    (acts : List Action) × (t : SkBuffer) × (handle_packets sevens magic_codec 3 inbox
      ≡ some (done acts t))
    × (map delivered acts ≡ some (packet 1 2) ∷ some (packet 3 4) ∷ [])
    × Holds 32 t (9 ∷ 0 ∷ 0 ∷ 0 ∷ 5 ∷ [])
unfolding of_bytes
handle_packets-stream_example =
    handle_packets-stream sevens (packet 1 2 ∷ packet 3 4 ∷ []) (9 ∷ 0 ∷ 0 ∷ 0 ∷ 5 ∷ []) 3
      (
        record { longer = omega arith; spelled = refl },
        (record { longer = omega arith; spelled = refl }, tt),
      )
      (inr (omega arith, omega arith)) inbox-Holds (omega arith)

stalled_never_returns_example : handle_packets sevens magic_codec 1000 stub ≡ none
stalled_never_returns_example =
    stalled_never_returns sevens stub-Holds (omega arith) (inl (omega arith)) 1000

-- A handler that decodes each packet, which throws on those of six bytes.
abbrev decoding : SkBuffer → Step (Unit {0})
decoding p = and_then (decode sevens blank p) λ got t. done tt t

read_packets-returns_example :
    Reads decoding 32 arrived (read_packets sevens magic_codec decoding 20 inbox)
read_packets-returns_example =
    read_packets-returns sevens decoding arrived 20 inbox-Holds (omega arith)

write_bytes-Holds_example :
    (t : SkBuffer) × (write_bytes sevens (8 ∷ 8 ∷ []) stub ≡ done tt t)
    × Holds 32 t (9 ∷ 9 ∷ 9 ∷ 8 ∷ 8 ∷ [])
write_bytes-Holds_example = write_bytes-Holds stub-Holds sevens (8 ∷ 8 ∷ []) (omega arith)

read_bytes-Holds_example :
    (t : SkBuffer) × (read_bytes 2 stub ≡ done (9 ∷ 9 ∷ []) t) × Holds 32 t (9 ∷ [])
read_bytes-Holds_example = read_bytes-Holds stub-Holds 2 (omega arith) (omega arith)

writeable-Ready_example :
    (t : SkBuffer) × (writeable sevens 14 inbox ≡ ok (t.writeable_at, t)) × Ready 14 inbox t
writeable-Ready_example = writeable-Ready sevens 14 inbox inbox-Holds.valid (omega arith)

-- A buffer of 16 bytes that is full.
abbrev full : SkBuffer
full = record {
  capacity = 16;
  readable_at = 0;
  writeable_at = 16;
  min_capacity = 16;
  bytes = 1 ∷ 2 ∷ 3 ∷ 4 ∷ 5 ∷ 6 ∷ 7 ∷ 8 ∷ 9 ∷ 10 ∷ 11 ∷ 12 ∷ 13 ∷ 14 ∷ 15 ∷ 16 ∷ [];
}

full-IsValid : IsValid full
full-IsValid = record {
  ordered = omega arith;
  within = omega arith;
  sized = refl;
  small = omega arith;
}

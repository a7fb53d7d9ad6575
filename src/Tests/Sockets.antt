-- ===== src/Tests/Sockets.antt =====
-- A TCP channel with a socket that takes and gives a few bytes.
use echo_frame.Base.{
  ℕ, ◌≡◌, ◌↔◌, refl, Bool, true, inl, inr, map, none, some, List, [], ◌∷◌, ◌++◌, arith, replicate,
  length-replicate,
}
use echo_frame.Buffer.Memory.{Malloc, ok}
use echo_frame.Buffer.SkBuffer.{SkBuffer}
use echo_frame.Buffer.IoBuf.{done, create}
use echo_frame.Buffer.IoBuf.Fifo.{Holds, create-Holds}
use echo_frame.Server.Tcp.{failed, on_read, on_write, send_response}
use echo_frame.Server.Tcp.Sending.{on_write-Holds, send_response-on_write}
use echo_frame.Server.Tcp.Receiving.{on_read-Holds}
use echo_frame.Base.Bytes.{to_bytes, of_bytes}
use echo_frame.Protocol.Stream.{magic_codec}
use echo_frame.Server.Packets.{Action}
use echo_frame.Server.Receive.{Part, IsPart, event_of, frames_of, left_of, all_events}
use echo_frame.Server.Receive.Messages.{Receives, all_events-messages}
use echo_frame.Protocol.Message.{MagicMessage}
use echo_frame.Protocol.Message.RoundTrip.{IsEncodable, wire}

abbrev memory : Malloc
memory = record { alloc = λ n. replicate n 9; length-alloc = λ n. length-replicate {A = ℕ} n 9 }

-- Three bytes that wait.
abbrev waiting : SkBuffer
waiting = record {
  capacity = 8;
  readable_at = 1;
  writeable_at = 4;
  min_capacity = 8;
  bytes = 0 ∷ 5 ∷ 6 ∷ 7 ∷ 0 ∷ 0 ∷ 0 ∷ 0 ∷ [];
}

waiting-Holds : Holds 8 waiting (5 ∷ 6 ∷ 7 ∷ [])
waiting-Holds = record {
  valid = record { ordered = omega arith; within = omega arith; sized = refl; small = omega arith };
  bytes = refl;
  cap = refl;
}

-- The socket takes two bytes, and then none.
on_write-Holds_example :
    (success : Bool) × (sent : List ℕ) × (lost : List ℕ) × (t : SkBuffer) × (on_write
        (2 ∷ 0 ∷ [])
        waiting
      ≡ ok (success, sent, t))
    × (sent ++ lost ≡ 5 ∷ 6 ∷ 7 ∷ [])
    × Holds 8 t []
    × ((success ≡ true) ↔ (lost ≡ []))
on_write-Holds_example = on_write-Holds (2 ∷ 0 ∷ []) waiting-Holds

send_response-on_write_example :
    (u : SkBuffer) × (success : Bool) × (sent : List ℕ) × (lost : List ℕ) × (t : SkBuffer)
    × (send_response memory (8 ∷ 9 ∷ []) waiting ≡ done 2 u)
    × (on_write (1 ∷ 4 ∷ []) u ≡ ok (success, sent, t))
    × (sent ++ lost ≡ 5 ∷ 6 ∷ 7 ∷ 8 ∷ 9 ∷ [])
    × ((success ≡ true) ↔ (lost ≡ []))
send_response-on_write_example =
    send_response-on_write memory (1 ∷ 4 ∷ []) (8 ∷ 9 ∷ []) waiting-Holds (omega arith)

on_read-Holds_example :
    (t : SkBuffer) × (on_read memory ((1 ∷ 2 ∷ []) ∷ (3 ∷ []) ∷ []) failed (create memory 2048)
      ≡ ok (failed, t))
    × Holds 2048 t (1 ∷ 2 ∷ 3 ∷ [])
on_read-Holds_example =
    on_read-Holds memory ((1 ∷ 2 ∷ []) ∷ (3 ∷ []) ∷ []) failed
      (create-Holds memory 2048 (omega arith)) (omega arith, (omega arith, tt)) (omega arith)

-- A heartbeat, of which seven bytes arrive in two stretches, and then the others.
abbrev beat : MagicMessage
beat = record {
  length = 20;
  version = 1;
  flag = 1;
  is_request = 1;
  request_id = 77;
  server_number = 0;
  payload = none;
}

abbrev beat_start : List ℕ
beat_start = 20 ∷ 0 ∷ 0 ∷ 0 ∷ 1 ∷ 1 ∷ 0 ∷ []

abbrev beat_end : List ℕ
beat_end = 1 ∷ 77 ∷ 0 ∷ 0 ∷ 0 ∷ 0 ∷ 0 ∷ 0 ∷ 0 ∷ 0 ∷ 0 ∷ 0 ∷ 0 ∷ []

abbrev first_part : Part
first_part = record {
  arrival = (20 ∷ 0 ∷ 0 ∷ []) ∷ (0 ∷ 1 ∷ 1 ∷ 0 ∷ []) ∷ [];
  frames = [];
  rest = beat_start;
}

abbrev second_part : Part
second_part = record { arrival = beat_end ∷ []; frames = (beat_start ++ beat_end) ∷ []; rest = [] }

first-IsPart : IsPart 2048 2 [] first_part
unfolding of_bytes
first-IsPart = record {
  cut = refl;
  whole = tt;
  pending = inr (omega arith, omega arith);
  small = (omega arith, (omega arith, tt));
  room = omega arith;
  enough = omega arith;
}

second-IsPart : IsPart 2048 2 beat_start second_part
unfolding of_bytes
second-IsPart = record {
  cut = refl;
  whole = (record { longer = omega arith; spelled = refl }, tt);
  pending = inl refl;
  small = (omega arith, tt);
  room = omega arith;
  enough = omega arith;
}

beat-IsEncodable : IsEncodable beat
beat-IsEncodable = record {
  fits = record {
    length = omega arith;
    flag = omega arith;
    version = omega arith;
    is_request = omega arith;
    request_id = omega arith;
    server_number = omega arith;
  };
  payload_valid = tt;
  counted = omega arith;
  small = omega arith;
}

abbrev both_parts : List Part
both_parts = first_part ∷ second_part ∷ []

both_framed : frames_of both_parts ≡ map wire (beat ∷ [])
unfolding to_bytes
both_framed = refl

all_events-messages_example :
    (acts : List Action) × (t : SkBuffer) × (all_events memory magic_codec 2
        (map event_of both_parts)
        (create memory 2048)
      ≡ some (done acts t))
    × Receives memory acts (beat ∷ [])
    × Holds 2048 t (left_of [] both_parts)
all_events-messages_example =
    all_events-messages memory 2 [] both_parts (beat ∷ []) (create-Holds memory 2048 (omega arith))
      (first-IsPart, (second-IsPart, tt)) both_framed (beat-IsEncodable, tt)

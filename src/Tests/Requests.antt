-- ===== src/Tests/Requests.antt =====
-- A dispatcher's answers at concrete requests.
use echo_frame.Base.{
  ℕ, ◌-◌, ◌≡◌, ◌≢◌, refl, Option, none, some, List, [], ◌∷◌, ◌++◌, arith, length, replicate,
  length-replicate, true,
}
use echo_frame.Base.Bytes.{to_bytes}
use echo_frame.Buffer.Memory.{Malloc}
use echo_frame.Buffer.SkBuffer.{SkBuffer}
use echo_frame.Buffer.SkBuffer.Valid.{IsValid}
use echo_frame.Buffer.IoBuf.{done}
use echo_frame.Buffer.IoBuf.Fifo.{Holds}
use echo_frame.Protocol.Message.{MagicMessage, blank, flag_heartbeat}
use echo_frame.Protocol.Message.RoundTrip.{IsEncodable, wire}
use echo_frame.Server.Dispatcher.{Answer, send_payload, close, handle_success, handle_packet}
use echo_frame.Server.Dispatcher.Responses.{response_to, handle_packet-data, handle_packet-failed}

abbrev memory : Malloc
memory = record { alloc = λ n. replicate n 9; length-alloc = λ n. length-replicate {A = ℕ} n 9 }

-- A buffer of 32 bytes with `xs` at the front.
abbrev holding : List ℕ → SkBuffer
holding xs = record {
  capacity = 32;
  readable_at = 0;
  writeable_at = length xs;
  min_capacity = 32;
  bytes = xs ++ replicate (32 - length xs) 0;
}

-- A request with a payload of two bytes.
abbrev question : MagicMessage
question = record {
  length = 22;
  version = 1;
  flag = 0;
  is_request = 1;
  request_id = 77;
  server_number = 3;
  payload = some (holding (4 ∷ 5 ∷ []));
}

question-IsEncodable : IsEncodable question
question-IsEncodable = record {
  fits = record {
    length = omega arith;
    flag = omega arith;
    version = omega arith;
    is_request = omega arith;
    request_id = omega arith;
    server_number = omega arith;
  };
  payload_valid = record {
    ordered = omega arith;
    within = omega arith;
    sized = refl;
    small = omega arith;
  };
  counted = omega arith;
  small = omega arith;
}

question-Holds : Holds 32 (holding (wire question)) (wire question)
unfolding to_bytes
question-Holds = record {
  valid = record { ordered = omega arith; within = omega arith; sized = refl; small = omega arith };
  bytes = refl;
  cap = refl;
}

abbrev beat : MagicMessage
beat = record blank { length = 20; flag = 1; is_request = 1; request_id = 78 }

beat-IsEncodable : IsEncodable beat
beat-IsEncodable = record {
  fits = record {
    length = omega arith;
    flag = omega arith;
    version = omega arith;
    is_request = omega arith;
    request_id = omega arith;
    server_number = omega arith;
  };
  payload_valid = tt;
  counted = omega arith;
  small = omega arith;
}

beat-Holds : Holds 32 (holding (wire beat)) (wire beat)
unfolding to_bytes
beat-Holds = record {
  valid = record { ordered = omega arith; within = omega arith; sized = refl; small = omega arith };
  bytes = refl;
  cap = refl;
}

-- A handler that answers with three bytes, and one that fails.
abbrev three_bytes : SkBuffer
three_bytes = holding (1 ∷ 2 ∷ 3 ∷ [])

abbrev answering : Option SkBuffer → Answer
answering p = record { result = 0; response = some three_bytes; need_response = true }

abbrev failing : Option SkBuffer → Answer
failing p = record { result = 101; response = none; need_response = true }

three_bytes-IsValid : IsValid three_bytes
three_bytes-IsValid = record {
  ordered = omega arith;
  within = omega arith;
  sized = refl;
  small = omega arith;
}

question_carries_data : question.flag ≢ flag_heartbeat
question_carries_data e = omega arith

failing_fails : (failing none).result ≢ handle_success
failing_fails e = omega arith

handle_packet-data_example :
    (t : SkBuffer) × (handle_packet memory answering (holding (wire question))
      ≡ done (handle_success, send_payload (wire (response_to question three_bytes)) ∷ []) t)
handle_packet-data_example =
    handle_packet-data memory answering question three_bytes true question-IsEncodable
      question-Holds question_carries_data three_bytes-IsValid (omega arith) (λ p e. refl)

handle_packet-failed_example :
    (t : SkBuffer) × (handle_packet memory failing (holding (wire question))
      ≡ done (101, close ∷ []) t)
handle_packet-failed_example =
    handle_packet-failed memory failing question 101 question-IsEncodable question-Holds
      question_carries_data failing_fails (λ p e. refl)

-- ===== src/Tests/Datagrams.antt =====
-- A UDP channel with two packets that wait.
use echo_frame.Base.{
  ◌≤◌, length, ℕ, ◌≡◌, refl, true, some, List, [], ◌∷◌, ◌++◌, arith, replicate, length-replicate,
}
use echo_frame.Base.Bytes.{to_bytes}
use echo_frame.Buffer.Memory.{Malloc, ok}
use echo_frame.Buffer.SkBuffer.{SkBuffer}
use echo_frame.Buffer.IoBuf.{done}
use echo_frame.Buffer.IoBuf.Fifo.{Holds}
use echo_frame.Server.Udp.{send_queue}
use echo_frame.Server.Udp.Sending.{queue_all, queue_all-send_queue}
use echo_frame.Server.Udp.Queue.{queued, Datagrams, send_queue-Holds}

abbrev memory : Malloc
memory = record { alloc = λ n. replicate n 9; length-alloc = λ n. length-replicate {A = ℕ} n 9 }

abbrev packets : List (List ℕ)
packets = (5 ∷ []) ∷ (6 ∷ 7 ∷ []) ∷ []

abbrev waiting : SkBuffer
waiting = record {
  capacity = 20;
  readable_at = 0;
  writeable_at = 11;
  min_capacity = 20;
  bytes = queued packets ++ replicate 9 0;
}

waiting-Holds : Holds 20 waiting (queued packets)
unfolding to_bytes
waiting-Holds = record {
  valid = record { ordered = omega arith; within = omega arith; sized = refl; small = omega arith };
  bytes = refl;
  cap = refl;
}

-- The socket takes the first datagram whole, and one byte of the second.
send_queue-Holds_example :
    (sent : List (List ℕ)) × (t : SkBuffer) × (send_queue 3 ((1 ∷ []) ∷ (1 ∷ 0 ∷ []) ∷ []) waiting
      ≡ some (ok (true, sent, t)))
    × Datagrams ((1 ∷ []) ∷ (1 ∷ 0 ∷ []) ∷ []) packets sent
    × Holds 20 t []
send_queue-Holds_example =
    send_queue-Holds ((1 ∷ []) ∷ (1 ∷ 0 ∷ []) ∷ []) packets 3
      ((omega arith, omega arith), ((omega arith, omega arith), tt)) waiting-Holds (omega arith)

abbrev idle : SkBuffer
idle = record {
  capacity = 20;
  readable_at = 0;
  writeable_at = 0;
  min_capacity = 20;
  bytes = replicate 20 0;
}

idle-Holds : Holds 20 idle []
idle-Holds = record {
  valid = record { ordered = omega arith; within = omega arith; sized = refl; small = omega arith };
  bytes = refl;
  cap = refl;
}

eleven_bytes : length (queued packets) ≤ 20
unfolding to_bytes
eleven_bytes = omega arith

queue_all-send_queue_example :
    (t : SkBuffer) × (sent : List (List ℕ)) × (u : SkBuffer) × (queue_all memory packets idle
      ≡ done tt t)
    × (send_queue 3 ((1 ∷ []) ∷ (1 ∷ 0 ∷ []) ∷ []) t ≡ some (ok (true, sent, u)))
    × Datagrams ((1 ∷ []) ∷ (1 ∷ 0 ∷ []) ∷ []) packets sent
    × Holds 20 u []
queue_all-send_queue_example =
    queue_all-send_queue memory ((1 ∷ []) ∷ (1 ∷ 0 ∷ []) ∷ []) packets 3 idle-Holds
      ((omega arith, omega arith), ((omega arith, omega arith), tt)) eleven_bytes (omega arith)

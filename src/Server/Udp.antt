-- ===== src/Server/Udp.antt =====
-- class MyUdpChannel (net/server/MyChannel.h, net/server/MyChannel.cc): sendResponse, which queues a
-- packet behind its length, and onWrite, which sends the packets in the queue. The socket is a
-- parameter: for each packet a list with its answers to the calls of `writeTo`, each the number of
-- bytes that it takes, never more than it is offered. Zero stands for an error, too, and so does the
-- end of the list. A call that takes bytes sends one datagram with them.
pub mod Queue
pub mod Reading
pub mod Sending
use echo_frame.Base.{
  ℕ, zero, suc, ◌+◌, ◌-◌, Bool, true, false, Option, none, some, List, [], ◌∷◌, ◌++◌, leb, ltb,
  if◌then◌else◌, length, take, drop,
}
use echo_frame.Base.Bytes.{to_bytes, of_bytes}
use echo_frame.Buffer.Memory.{Malloc, Result, ok, fault, ◌>>=◌, load}
use echo_frame.Buffer.SkBuffer.{SkBuffer, readable, move_readable, get_readable_length}
use echo_frame.Buffer.IoBuf.{Io, and_then, done, write_bytes}
use echo_frame.Protocol.Stream.{bytes_at}

-- `sendResponse`: the length and the bytes are put behind one another into space that is taken for both.
unfoldable pub queue_response : Malloc → List ℕ → Io ℕ
queue_response m src b =
    and_then (write_bytes m (to_bytes 4 (length src) ++ src) b) λ _ t. done (length src) t

-- What `onWrite` has of the buffer: whether it returns 0, the datagrams that were sent, the buffer.
abbrev pub Written : Type 0
Written = Bool × List (List ℕ) × SkBuffer

abbrev pub first_answers : List (List ℕ) → List ℕ
first_answers [] = []
first_answers (a ∷ more) = a

abbrev pub later_answers : List (List ℕ) → List (List ℕ)
later_answers [] = []
later_answers (a ∷ more) = more

abbrev pub after_packet : List (List ℕ) → Option (Result Written) → Option (Result Written)
after_packet sent none = none
after_packet sent (some (fault e)) = some (fault e)
after_packet sent (some (ok (success, more, t))) = some (ok (success, sent ++ more, t))

-- The calls of `writeTo` for one packet.
unfoldable pub sent_datagrams : List ℕ → List ℕ → List (List ℕ)
sent_datagrams answers [] = []
sent_datagrams [] (x ∷ xs) = []
sent_datagrams (zero ∷ answers) (x ∷ xs) = []
sent_datagrams (suc n ∷ answers) (x ∷ xs) = (x ∷ take n xs) ∷ sent_datagrams answers (drop n xs)

-- The bytes at a readable offset, up to a wanted length.
abbrev pub bytes_of : ℕ → SkBuffer → Result (List ℕ)
bytes_of wanted b = do (at, got) ← readable wanted b; bytes_at at got b

-- One packet, whose length was just read; `next` is the rest of the loop.
abbrev pub send_packet :
    List ℕ
    → ℕ
    → SkBuffer
    → Result (List ℕ)
    → (SkBuffer → Option (Result Written))
    → Option (Result Written)
send_packet answers n b (fault e) next = some (fault e)
send_packet answers n b (ok bytes) next =
    after_packet (sent_datagrams answers bytes) (next (move_readable (length bytes) b))

abbrev pub by_length :
    List ℕ
    → ℕ
    → SkBuffer
    → Result (List ℕ)
    → (SkBuffer → Option (Result Written))
    → Option (Result Written)
by_length answers len b (fault e) next = some (fault e)
by_length answers len b (ok field) next =
    if ltb (len - 4) (of_bytes field)
    then some (ok (false, [], b))
    else let t = move_readable 4 b in
      send_packet answers (of_bytes field) t (bytes_of (of_bytes field) t) next

abbrev pub by_readable :
    List ℕ → SkBuffer → Result ℕ → (SkBuffer → Option (Result Written)) → Option (Result Written)
by_readable answers b (fault e) next = some (fault e)
by_readable answers b (ok len) next =
    if leb len 4 then some (ok (true, [], b)) else by_length answers len b (bytes_of 4 b) next

-- `onWrite`, with a bound on the number of rounds; `none` where the bound is reached.
unfoldable pub send_queue : ℕ → List (List ℕ) → SkBuffer → Option (Result Written)
send_queue zero answers b = none
send_queue (suc fuel) answers b =
    by_readable (first_answers answers) b (get_readable_length b)
      (λ t. send_queue fuel (later_answers answers) t)

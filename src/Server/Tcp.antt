-- ===== src/Server/Tcp.antt =====
-- class MyTcpChannel (net/server/MyChannel.h, net/server/MyChannel.cc) and its buffers. MyTcpClient's
-- onRead (net/client/MyClient.cc) has the same loop. The socket is a parameter: what it reads, and
-- how much it takes of each write, is a list with one entry for each call.
pub mod Sending
pub mod Receiving
use echo_frame.Base.{
  ℕ, ◌-◌, zero, suc, Bool, true, false, Option, none, some, List, [], ◌∷◌, ◌++◌, ◌==◌, leb,
  if◌then◌else◌, length, take, drop,
}
use echo_frame.Buffer.Memory.{Malloc, Result, ok, fault, ◌>>=◌, store}
use echo_frame.Buffer.SkBuffer.{
  SkBuffer, writeable, move_writeable, move_readable, get_readable_length,
}
use echo_frame.Buffer.IoBuf.{Io, and_then, done, write_bytes, readable_bytes}

-- The loop of `onWrite`: what the socket took of `bytes`. It answers a call with the number of bytes
-- that it takes, never more than it is offered; zero stands for an error, too, and so does the end
-- of the list.
unfoldable pub write_loop : List ℕ → List ℕ → List ℕ
write_loop answers [] = []
write_loop [] (x ∷ xs) = []
write_loop (zero ∷ answers) (x ∷ xs) = []
write_loop (suc n ∷ answers) (x ∷ xs) = x ∷ (take n xs ++ write_loop answers (drop n xs))

-- `onWrite`: whether it returns 0, what was sent, and the buffer.
unfoldable pub on_write : List ℕ → SkBuffer → Result (Bool × List ℕ × SkBuffer)
on_write answers b = do
  len ← get_readable_length b
  bytes ← readable_bytes b
  let sent = write_loop answers bytes in ok (leb len (length sent), sent, move_readable len b)

-- `sendResponse`: the length that it returns. The write watcher is then signalled.
unfoldable pub send_response : Malloc → List ℕ → Io ℕ
send_response m src b = and_then (write_bytes m src b) λ _ t. done (length src) t

-- How a run of reads ends: the other side has closed, or `read` failed, also for want of bytes.
pub data ReadEnd : Type 0 where
  closed failed : ReadEnd

-- `onRead`, for a socket that has these stretches of bytes, each at most 1024: how the last read ended,
-- which is all that the result tells, and the buffer.
unfoldable pub on_read : Malloc → List (List ℕ) → ReadEnd → SkBuffer → Result (ReadEnd × SkBuffer)
on_read m [] end b = do (at, t) ← writeable m 1024 b; ok (end, t)
on_read m (chunk ∷ chunks) end b = do
  (at, t) ← writeable m 1024 b
  mem ← store at chunk t.bytes
  on_read m chunks end (move_writeable (length chunk) (record t { bytes = mem }))

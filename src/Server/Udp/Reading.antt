-- ===== src/Server/Udp/Reading.antt =====
-- onRead of MyUdpChannel (net/server/MyChannel.cc) and doRead of MyUdpServant
-- (net/server/MyServant.cc). `max` is the greatest length of a datagram.
use echo_frame.Base.{ℕ, Bool, true, Option, none, some, List, [], if◌then◌else◌, length}
use echo_frame.Buffer.Memory.{Malloc, Result, ok, ◌>>=◌, store}
use echo_frame.Buffer.SkBuffer.{SkBuffer, writeable, move_writeable}
use echo_frame.Protocol.Stream.{Codec}
use echo_frame.Server.Packets.{Action, on_read_error}

-- What `readFrom` gives: a datagram that is not empty, or a length that is not above zero.
abbrev pub Datagram : Type 0
Datagram = Option (List ℕ)

-- `onRead`: the length, or `none` for -1.
unfoldable pub on_read : Malloc → ℕ → Datagram → SkBuffer → Result (Option ℕ × SkBuffer)
on_read m max none b = do (at, t) ← writeable m max b; ok (none, t)
on_read m max (some bytes) b = do
  (at, t) ← writeable m max b
  mem ← store at bytes t.bytes
  ok (some (length bytes), move_writeable (length bytes) (record t { bytes = mem }))

-- `doRead` from the channel's `onRead` on, with whether `errno` is EAGAIN: whether the channel is
-- returned, and the actions.
abbrev pub do_read : Malloc → Codec → Bool → Option ℕ → Bool × List Action
do_read m c again (some n) = (true, [])
do_read m c again none = (again, if again then [] else on_read_error m c)

-- Which channel a datagram belongs to: that of the sender's uid, or a new one. Without a sender, or
-- without a loop for a new channel, there is none.
abbrev pub found_or_new {ℓ} : {C : Type ℓ} → Option C → Option C → Option C
found_or_new (some channel) created = some channel
found_or_new none created = created

abbrev pub channel_for {ℓ} : {C : Type ℓ} → (ℕ → Option C) → (ℕ → Option C) → Option ℕ → Option C
channel_for find create none = none
channel_for find create (some uid) = found_or_new (find uid) (create uid)

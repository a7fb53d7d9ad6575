-- ===== src/Server/Packets.antt =====
-- MyServant::handlePackets, onReadComplete and onReadError (net/server/MyServant.cc): how a servant
-- cuts the bytes of a channel into packets. What the servant does outside the read buffer is an
-- action: a packet queued for the handler, the channel removed, the close handler called.
-- The dispatcher's codec is a parameter.
pub mod Frames
pub mod Stuck
use echo_frame.Base.{
  ℕ, zero, suc, Bool, true, false, Option, none, some, List, [], ◌∷◌, ◌++◌, ◌==◌, if◌then◌else◌,
}
use echo_frame.Buffer.Memory.{Malloc, Result, ok, fault}
use echo_frame.Buffer.SkBuffer.{SkBuffer, get_readable_length, readable}
use echo_frame.Buffer.IoBuf.{Step, done, thrown, crashed, Io, and_then}
use echo_frame.Protocol.Framing.{
  PacketStatus, incomplete, complete, error, get_packet_length, is_packet_complete,
}
use echo_frame.Protocol.Stream.{Codec, Round, look, rounds}
use echo_frame.Server.Channel.{fetch_packet}

pub data Action : Type 0 where
  handle : SkBuffer → Action
  remove_channel : Action
  handle_close : Action

module _ (m : Malloc) (c : Codec) where
  -- `onReadComplete`: a packet of length zero removes the channel and leaves the bytes.
  unfoldable pub on_read_complete : Option (List ℕ) → ℕ → Io (List Action)
  on_read_complete buf len b =
      let n = c.packet_length buf len in
      if n == 0
      then done (remove_channel ∷ []) b
      else and_then (fetch_packet m n b) λ packet t. done (handle packet ∷ []) t

  -- `onReadError`
  abbrev pub on_read_error : List Action
  on_read_error = handle_close ∷ remove_channel ∷ []

  abbrev pub by_status : SkBuffer → Option (List ℕ) → ℕ → PacketStatus → Step (Round Action)
  by_status b buf len incomplete = done (false, []) b
  by_status b buf len error = done (false, on_read_error) b
  by_status b buf len complete = and_then (on_read_complete buf len b) λ acts t. done (true, acts) t

  -- The body of the loop of `handlePackets`.
  unfoldable pub packet_round : SkBuffer → Step (Round Action)
  packet_round b =
      look b (λ buf len. by_status b buf len (c.is_complete buf len)) (get_readable_length b)

  unfoldable pub handle_packets : ℕ → SkBuffer → Option (Step (List Action))
  handle_packets = rounds packet_round

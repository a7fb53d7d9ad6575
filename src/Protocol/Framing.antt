-- ===== src/Protocol/Framing.antt =====
-- The packet boundary: MyMagicMessage::getPacketLength and isPacketComplete
-- (net/protocol/MyMessage.cc) and PacketStatus (net/MyGlobal.h). A stretch of the read buffer is
-- the list of its bytes with a length; a pointer is `none` where it is `nullptr`.
use echo_frame.Base.{
  ℕ, ◌≤◌, ◌<◌, ◌≡◌, ◌↔◌, Option, none, some, List, take, leb, if◌then◌else◌, arith,
}
use echo_frame.Base.Bytes.{of_bytes}

pub data PacketStatus : Type 0 where
  incomplete complete error : PacketStatus

-- `memcpy` of the first four bytes; the caller's pointer has `len` bytes behind it.
unfoldable pub get_packet_length : Option (List ℕ) → ℕ → ℕ
get_packet_length none len = 0
get_packet_length (some buf) len = if leb len 4 then 0 else of_bytes (take 4 buf)

unfoldable pub is_packet_complete : Option (List ℕ) → ℕ → PacketStatus
unfolding get_packet_length
is_packet_complete buf len = if leb (get_packet_length buf len) len then complete else incomplete

-- With more than four bytes at hand a packet is reported complete exactly when the length that
-- its first four bytes spell is at hand, and that length is reported.
complete_iff :
    (buf : List ℕ) (len : ℕ)
    → 4 < len
    → (get_packet_length (some buf) len ≡ of_bytes (take 4 buf))
      × ((is_packet_complete (some buf) len ≡ complete) ↔ (of_bytes (take 4 buf) ≤ len))
unfolding is_packet_complete
complete_iff buf len h = ground arith

-- With four bytes or less every buffer is reported complete, with a packet of length zero, also
-- one that holds only part of a packet's length field.
pub short_is_complete :
    (buf : Option (List ℕ)) (len : ℕ)
    → len ≤ 4
    → (is_packet_complete buf len ≡ complete) × (get_packet_length buf len ≡ 0)
unfolding is_packet_complete
short_is_complete none len h = ground arith
short_is_complete (some buf) len h = ground arith

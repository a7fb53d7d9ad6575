-- ===== src/Buffer/SkBuffer.antt =====
-- class MySKBuffer (net/buffer/MySKBuffer.h). The block that `head_` points to is a packed header
-- of three `uint32_t` and the data behind it: here the header's fields and the data's bytes.
-- A `char*` into the data is its offset, `nullptr` is `none`. An `uint32_t` wraps at 2 ^ 32.
pub mod Valid
pub mod Room
pub mod Grow
use echo_frame.Base.{
  ℕ, ◌+◌, ◌-◌, ◌*◌, ◌/◌, ◌%◌, ◌^◌, Option, none, some, List, drop, replicate, ltb, leb, ◌==◌,
  if◌then◌else◌, min,
}
use echo_frame.Base.Bytes.{splice}
use echo_frame.Buffer.Memory.{Malloc, Result, ok, ◌>>=◌, ◌>>◌, assert, inside, load, store, clear}

pub record SkBuffer : Type 0 where
  pub capacity : ℕ
  pub readable_at : ℕ
  pub writeable_at : ℕ
  pub min_capacity : ℕ
  pub bytes : List ℕ

abbrev pub u32 : ℕ → ℕ
u32 n = n % 2 ^ 32

-- `sizeof(SKBufferHead)`
abbrev pub head_size : ℕ
head_size = 12

abbrev pub get_readable_length : SkBuffer → Result ℕ
get_readable_length b = do
  assert (leb b.readable_at b.writeable_at)
  ok (b.writeable_at - b.readable_at)

abbrev pub get_writeable_length : SkBuffer → Result ℕ
get_writeable_length b = do
  used ← get_readable_length b
  assert (leb used b.capacity)
  ok (b.capacity - used)

-- The offset to read from, and how much of the wanted length can be read there.
abbrev pub readable : ℕ → SkBuffer → Result (Option ℕ × ℕ)
readable wanted b = do
  len ← get_readable_length b
  if len == 0 then ok (none, 0) else ok (some b.readable_at, if ltb len wanted then len else wanted)

abbrev pub move_readable : ℕ → SkBuffer → SkBuffer
move_readable n b = record b { readable_at = u32 (b.readable_at + n) }

unfoldable pub get_readable_and_move : ℕ → SkBuffer → Result (Option ℕ × ℕ × SkBuffer)
get_readable_and_move wanted b = do
  len ← get_readable_length b
  if len == 0
      then ok (none, 0, b)
      else let taken = if ltb len wanted then len else wanted in
        ok (some b.readable_at, taken, move_readable taken b)

abbrev pub move_writeable : ℕ → SkBuffer → SkBuffer
move_writeable n b = record b { writeable_at = u32 (b.writeable_at + n) }

-- Moves the readable bytes to the front and clears what is behind them.
unfoldable pub sort : SkBuffer → Result SkBuffer
sort b = if b.readable_at == 0 then ok b else do
  len ← get_readable_length b
  src ← load b.readable_at len b.bytes
  moved ← store 0 src b.bytes
  cleared ← clear len (u32 (b.capacity + 2 ^ 32 - len)) moved
  ok (record b { readable_at = 0; writeable_at = len; bytes = cleared })

abbrev pub rewind : SkBuffer → SkBuffer
rewind b =
    if b.readable_at == b.writeable_at then record b { readable_at = 0; writeable_at = 0 } else b

pub reset : SkBuffer → Result SkBuffer
reset b = do
  cleared ← clear 0 b.capacity b.bytes
  ok (record b { readable_at = 0; writeable_at = 0; bytes = cleared })

module _ (m : Malloc) where
  -- The data of a block that `InitHead` made: its `memset` starts at the header, so that the last
  -- `sizeof(SKBufferHead)` bytes of the data are as `malloc` left them.
  unfoldable pub init_head : ℕ → List ℕ
  init_head capacity =
      drop head_size (splice 0 (replicate capacity 0) (m.alloc (capacity + head_size)))

  -- The constructor.
  abbrev pub init : ℕ → SkBuffer
  init capacity = record {
    capacity = capacity;
    readable_at = 0;
    writeable_at = 0;
    min_capacity = capacity;
    bytes = init_head capacity;
  }

  -- `incr` copies `capacity_` bytes from offset 4 of the old block to offset 4 of the new one: the
  -- header's two marks, as far as they lie in those bytes, and then the data. `marks` is the number
  -- that the eight bytes of the two marks spell, lowest byte first.
  unfoldable pub incr : SkBuffer → Result SkBuffer
  incr b =
      let grown = u32 (b.capacity + b.min_capacity) in
      let marks = (b.readable_at + 2 ^ 32 * b.writeable_at) % 256 ^ min b.capacity 8 in
      do
        inside (leb (4 + b.capacity) (grown + head_size))
        kept ← load 0 (b.capacity - 8) b.bytes
        sort (record {
          capacity = grown;
          readable_at = marks % 2 ^ 32;
          writeable_at = marks / 2 ^ 32;
          min_capacity = grown;
          bytes = splice 0 kept (init_head grown);
        })

  unfoldable pub make_room : ℕ → SkBuffer → Result SkBuffer
  make_room n b = do free ← get_writeable_length b; if leb n free then sort b else incr b

  -- The offset to write to; it is the caller who moves the mark behind what was written.
  unfoldable pub writeable : ℕ → SkBuffer → Result (ℕ × SkBuffer)
  writeable n b =
      let start = rewind b in
      do
        ready ←
            if ltb start.capacity (u32 (start.writeable_at + n))
            then make_room n start
            else ok start
        ok (ready.writeable_at, ready)

  unfoldable pub get_writeable_and_move : ℕ → SkBuffer → Result (ℕ × SkBuffer)
  get_writeable_and_move n b = do (at, ready) ← writeable n b; ok (at, move_writeable n ready)

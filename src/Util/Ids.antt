-- ===== src/Util/Ids.antt =====
-- Numbers: MyCast::to between unsigned types and MyCommon::snowflake (util/MyCommon.h,
-- util/MyCommon.cc). The time in milliseconds is an argument.
use echo_frame.Base.{
  ℕ, ◌+◌, ◌*◌, ◌/◌, ◌%◌, ◌^◌, ◌≤◌, ◌<◌, ◌≡◌, ltb, le→ltb, ◌||◌, if◌then◌else◌, arith,
}

-- `MyCast::to<T>` of an unsigned number, for a type whose greatest value is `max`. A number that is
-- not greater is not changed by the cast.
unfoldable pub cast_unsigned : ℕ → ℕ → ℕ
cast_unsigned max v = if ltb max v then 0 else v

-- The worker has ten bits and the sequence twelve; what is shifted does not overlap, so that `|` adds.
unfoldable pub snowflake : ℕ → ℕ → ℕ → ℕ
snowflake now wid sid =
    if ltb 1023 wid || ltb 4095 sid then 0 else (now * 2 ^ 22) % 2 ^ 64 + wid * 2 ^ 12 + sid

-- The cast gives a number that fits, and the number itself if that fits.
pub cast_unsigned_bounds :
    (max v : ℕ) → (cast_unsigned max v ≤ max) × (v ≤ max → cast_unsigned max v ≡ v)
unfolding cast_unsigned
cast_unsigned_bounds max v = ground arith

-- For a time of 42 bits, a worker of ten bits and a sequence of twelve, an id fits 64 bits, and the
-- time, the worker and the sequence can be read from it.
pub snowflake_parts :
    (now wid sid : ℕ)
    → now < 2 ^ 42
    → wid ≤ 1023
    → sid ≤ 4095
    → (snowflake now wid sid < 2 ^ 64)
      × (snowflake now wid sid / 2 ^ 22 ≡ now)
      × (snowflake now wid sid / 2 ^ 12 % 2 ^ 10 ≡ wid)
      × (snowflake now wid sid % 2 ^ 12 ≡ sid)
unfolding snowflake
snowflake_parts now wid sid hn hw hs = rw (le→ltb 1023 wid hw, le→ltb 4095 sid hs) (omega arith)

-- ===== src/Buffer/SkBuffer/Valid.antt =====
-- The invariant of MySKBuffer and the bytes that a reader of it can see, through `sort` and the
-- operations that only move a mark.
use echo_frame.Base.{
  ne→==, eq→==, le→leb, ◌≢◌, ℕ, ◌+◌, ◌-◌, ◌^◌, ◌≤◌, ◌<◌, ◌≡◌, ap, ◌∙◌, inl, inr, List, ◌++◌, take,
  drop, replicate, length, length-append, length-replicate, length-take, length-drop, take_all,
  take-append_le, arith, ◌==◌, Bool-cases, ==_iff,
}
use native.Mathlib.Nat.{sub-zero}
use echo_frame.Base.Bytes.{splice, length-splice}
use echo_frame.Buffer.Memory.{ok, load_inside, store_inside, clear_rest}
use echo_frame.Buffer.SkBuffer.{SkBuffer, u32, sort, rewind}

pub record IsValid (b : SkBuffer) : Type 0 where
  pub ordered : b.readable_at ≤ b.writeable_at
  pub within : b.writeable_at ≤ b.capacity
  pub sized : length b.bytes ≡ b.capacity
  pub small : b.capacity < 2 ^ 31

-- The bytes between the two marks, oldest first.
abbrev pub content : SkBuffer → List ℕ
content b = take (b.writeable_at - b.readable_at) (drop b.readable_at b.bytes)

pub length-content :
    (b : SkBuffer) → IsValid b → length (content b) ≡ b.writeable_at - b.readable_at
length-content b v = omega (
  arith,
  length-take (b.writeable_at - b.readable_at) (drop b.readable_at b.bytes),
  length-drop b.readable_at b.bytes,
)

-- What `sort` does to a valid buffer, written out.
abbrev pub sorted : SkBuffer → SkBuffer
sorted b =
    let len = b.writeable_at - b.readable_at in
    record b {
      readable_at = 0;
      writeable_at = len;
      bytes = content b ++ replicate (b.capacity - len) 0;
    }

pub sort_at_front : (b : SkBuffer) → b.readable_at ≡ 0 → sort b ≡ ok b
unfolding sort
sort_at_front b e = rw (eq→== b.readable_at 0 e)

pub sort-sorted : (b : SkBuffer) → IsValid b → b.readable_at ≢ 0 → sort b ≡ ok (sorted b)
unfolding sort
sort-sorted b v ne = rw (
  ne→== b.readable_at 0 ne,
  le→leb b.readable_at b.writeable_at v.ordered,
  load_inside b.readable_at (b.writeable_at - b.readable_at) b.bytes (omega arith),
  store_inside 0 (content b) b.bytes (omega (arith, length-content b v)),
  clear_rest len (u32 (b.capacity + 2 ^ 32 - len)) moved (omega (arith, length-moved)),
  take-append_le len (content b) (drop (0 + length (content b)) b.bytes) (omega (arith, lc)),
  take_all len (content b) (omega (arith, lc)),
  rest,
)
  where
    len : ℕ
    len = b.writeable_at - b.readable_at

    lc : length (content b) ≡ len
    lc = length-content b v

    moved : List ℕ
    moved = splice 0 (content b) b.bytes

    length-moved : length moved ≡ b.capacity
    length-moved = omega (arith, length-splice 0 (content b) b.bytes (omega (arith, lc)))

    rest : u32 (b.capacity + 2 ^ 32 - len) ≡ b.capacity - len
    rest = omega arith

pub sorted-IsValid : (b : SkBuffer) → IsValid b → IsValid (sorted b)
sorted-IsValid b v = record {
  ordered = omega arith;
  within = omega arith;
  sized = omega (
    arith,
    length-append (content b) (replicate (b.capacity - len) 0),
    length-content b v,
    length-replicate {A = ℕ} (b.capacity - len) 0,
  );
  small = v.small;
}
  where
    len : ℕ
    len = b.writeable_at - b.readable_at

pub content-sorted : (b : SkBuffer) → IsValid b → content (sorted b) ≡ content b
content-sorted b v =
    let len = b.writeable_at - b.readable_at in
    ap (λ k. take k (content b ++ replicate (b.capacity - len) 0)) (sub-zero len)
    ∙ take-append_le len (content b) (replicate (b.capacity - len) 0)
        (omega (arith, length-content b v))
    ∙ take_all len (content b) (omega (arith, length-content b v))

pub rewind-IsValid : (b : SkBuffer) → IsValid b → IsValid (rewind b)
rewind-IsValid b v = ground arith

pub content-rewind : (b : SkBuffer) → content (rewind b) ≡ content b
content-rewind b = elim (Bool-cases (b.readable_at == b.writeable_at)) [
  | inl e ↦
      let same = (==_iff b.readable_at b.writeable_at).0 e in
      let none_left : b.writeable_at - b.readable_at ≡ 0 = omega arith in rw (e, none_left)
  | inr e ↦ rw e
]

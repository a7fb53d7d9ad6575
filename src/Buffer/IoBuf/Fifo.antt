-- ===== src/Buffer/IoBuf/Fifo.antt =====
-- A buffer as a queue of bytes: a write with room appends, a read takes from the front.
use echo_frame.Base.{
  ℕ, ◌+◌, ◌-◌, ◌^◌, ◌≤◌, ◌<◌, ◌≡◌, refl, sym, ap, ◌∙◌, List, [], ◌++◌, length, take, drop,
  length-drop, replicate, length-replicate, arith, some, le→leb, le→ltb, lt→ltb, Bool-cases, ==_iff,
  inl, inr, ne→==, ◌==◌,
}
use echo_frame.Base.Bytes.{splice, length-splice, window-splice, window_front, window_rest}
use echo_frame.Buffer.Memory.{Malloc, ok, load, store_inside, load_inside}
use echo_frame.Buffer.SkBuffer.{
  SkBuffer, u32, get_writeable_and_move, get_readable_and_move, init_head, head_size,
}
use echo_frame.Buffer.SkBuffer.Valid.{IsValid, content, length-content}
use echo_frame.Buffer.SkBuffer.Room.{Ready, writeable-Ready}
use echo_frame.Buffer.IoBuf.{done, thrown, put, write_bytes, read_bytes, readable_bytes, create}

-- A valid buffer of this capacity that holds these bytes.
pub record Holds (capacity : ℕ) (b : SkBuffer) (xs : List ℕ) : Type 0 where
  pub valid : IsValid b
  pub bytes : content b ≡ xs
  pub cap : b.capacity ≡ capacity

-- The state after a write and after a read.
abbrev written : SkBuffer → List ℕ → SkBuffer
written t src = record t {
  writeable_at = t.writeable_at + length src;
  bytes = splice t.writeable_at src t.bytes;
}

abbrev pub taken : ℕ → SkBuffer → SkBuffer
taken n b = record b { readable_at = b.readable_at + n }

pub nothing_left : (b : SkBuffer) → b.writeable_at - b.readable_at ≡ 0 → content b ≡ []
nothing_left b e = rw e

module _ {capacity : ℕ} {b : SkBuffer} {xs : List ℕ} (h : Holds capacity b xs) where
  pub Holds-length : length xs ≡ b.writeable_at - b.readable_at
  Holds-length = ap length (sym h.bytes) ∙ length-content b h.valid

  -- A write of bytes for which a valid buffer has room beside those that it holds appends them, and
  -- leaves the buffer valid and of the same capacity.
  pub write_bytes-Holds :
      (m : Malloc) (src : List ℕ)
      → length xs + length src ≤ capacity
      → (t : SkBuffer) × (write_bytes m src b ≡ done tt t) × Holds capacity t (xs ++ src)
  unfolding put get_writeable_and_move
  write_bytes-Holds m src room =
      let (t, e, r) =
        writeable-Ready m (length src) b h.valid (omega (arith, h.valid, h.cap, Holds-length)) in
      (
        written t src,
        rw (
          e,
          store_inside t.writeable_at src t.bytes (omega (arith, r.valid, r.room)),
          no_wrap t r,
        ),
        appended t r,
      )
    where
      no_wrap :
          (t : SkBuffer)
          → Ready (length src) b t
          → u32 (t.writeable_at + length src) ≡ t.writeable_at + length src
      no_wrap t r = omega (arith, r.valid, r.room)

      appended :
          (t : SkBuffer) → Ready (length src) b t → Holds capacity (written t src) (xs ++ src)
      appended t r = record {
        valid = record {
          ordered = omega (arith, r.valid);
          within = r.room;
          sized =
              length-splice t.writeable_at src t.bytes (omega (arith, r.valid, r.room))
              ∙ r.valid.sized;
          small = r.valid.small;
        };
        bytes =
            window-splice t.readable_at t.writeable_at src t.bytes r.valid.ordered
              (omega (arith, r.valid, r.room))
            ∙ ap (λ k. k ++ src) (r.same ∙ h.bytes);
        cap = r.capacity ∙ h.cap;
      }

  -- Bytes that are there are handed out and taken from the front.
  pub take-Holds :
      (n : ℕ)
      → 0 < n
      → n ≤ length xs
      → (get_readable_and_move n b ≡ ok (some b.readable_at, n, taken n b))
        × (load b.readable_at n b.bytes ≡ ok (take n xs))
        × Holds capacity (taken n b) (drop n xs)
  unfolding get_readable_and_move
  take-Holds n pos enough = (
    rw (
      le→leb b.readable_at b.writeable_at h.valid.ordered,
      ne→== (b.writeable_at - b.readable_at) 0 (omega (arith, Holds-length)),
      le→ltb (b.writeable_at - b.readable_at) n (omega (arith, Holds-length)),
      no_wrap,
    ),
    rw (
      load_inside b.readable_at n b.bytes (omega (arith, h.valid, Holds-length)),
      window_front b.readable_at b.writeable_at n b.bytes (omega (arith, Holds-length)),
      h.bytes,
    ),
    record {
      valid = record {
        ordered = omega (arith, h.valid, Holds-length);
        within = h.valid.within;
        sized = h.valid.sized;
        small = h.valid.small;
      };
      bytes =
          window_rest b.readable_at b.writeable_at n b.bytes (omega (arith, Holds-length))
          ∙ ap (drop n) h.bytes;
      cap = h.cap;
    },
  )
    where
      no_wrap : u32 (b.readable_at + n) ≡ b.readable_at + n
      no_wrap = omega (arith, h.valid, Holds-length)

  -- A read of one or more bytes that are all there returns the first ones, and leaves a valid buffer
  -- that holds the rest.
  pub read_bytes-Holds :
      (n : ℕ)
      → 0 < n
      → n ≤ length xs
      → (t : SkBuffer) × (read_bytes n b ≡ done (take n xs) t) × Holds capacity t (drop n xs)
  unfolding read_bytes
  read_bytes-Holds n pos enough =
      let (e, e', ht) = take-Holds n pos enough in
      (taken n b, rw (e, le→ltb n n (omega arith), e'), ht)

  -- A read of more bytes than a valid buffer holds throws, and has taken those that were there.
  read_bytes_short :
      (n : ℕ) → length xs < n → (t : SkBuffer) × (read_bytes n b ≡ thrown t) × (content t ≡ [])
  unfolding read_bytes get_readable_and_move
  read_bytes_short n short = elim (Bool-cases (b.writeable_at - b.readable_at == 0)) [
    | inl e ↦ (
      b,
      rw (le→leb b.readable_at b.writeable_at h.valid.ordered, e),
      nothing_left b ((==_iff (b.writeable_at - b.readable_at) 0).0 e),
    )
    | inr e ↦ (
      taken (b.writeable_at - b.readable_at) b,
      rw (
        le→leb b.readable_at b.writeable_at h.valid.ordered,
        e,
        lt→ltb (b.writeable_at - b.readable_at) n (omega (arith, Holds-length)),
        all_taken,
        lt→ltb (b.writeable_at - b.readable_at) n (omega (arith, Holds-length)),
      ),
      nothing_left (taken (b.writeable_at - b.readable_at) b) (omega (arith, h.valid)),
    )
  ]
    where
      all_taken :
          u32 (b.readable_at + (b.writeable_at - b.readable_at))
          ≡ b.readable_at + (b.writeable_at - b.readable_at)
      all_taken = omega (arith, h.valid)

  -- The bytes that a caller copies out are those held.
  pub readable_bytes-Holds : readable_bytes b ≡ ok xs
  unfolding readable_bytes
  readable_bytes-Holds = elim (Bool-cases (b.writeable_at - b.readable_at == 0)) [
    | inl e ↦ rw (
      le→leb b.readable_at b.writeable_at h.valid.ordered,
      e,
      ← h.bytes,
      nothing_left b ((==_iff (b.writeable_at - b.readable_at) 0).0 e),
    )
    | inr e ↦ rw (
      le→leb b.readable_at b.writeable_at h.valid.ordered,
      e,
      le→ltb (b.writeable_at - b.readable_at) (b.writeable_at - b.readable_at) (omega arith),
      load_inside b.readable_at (b.writeable_at - b.readable_at) b.bytes (omega (arith, h.valid)),
      h.bytes,
    )
  ]

-- A new buffer is empty.
pub create-Holds : (m : Malloc) (n : ℕ) → n < 2 ^ 31 → Holds n (create m n) []
unfolding init_head
create-Holds m n small = record {
  valid = record {
    ordered = omega arith;
    within = omega arith;
    sized = omega (
      arith,
      length-drop head_size (splice 0 (replicate n 0) (m.alloc (n + head_size))),
      length-splice 0 (replicate n 0) (m.alloc (n + head_size))
          (omega (arith, m.length-alloc (n + head_size), length-replicate {A = ℕ} n 0)),
      m.length-alloc (n + head_size),
    );
    small = small;
  };
  bytes = refl;
  cap = refl;
}

-- ===== src/Buffer/SkBuffer/Grow.antt =====
-- `incr`: what a buffer holds after it was moved to a larger block.
use native.Mathlib.Nat.{min-eq_right, sub-zero, zero-sub, suc-sub-suc}
use echo_frame.Base.{
  ℕ, zero, suc, ◌+◌, ◌-◌, ◌*◌, ◌/◌, ◌%◌, ◌^◌, ◌≤◌, ◌<◌, ◌≡◌, refl, ap, ◌∙◌, List, ◌∷◌, ◌++◌, length,
  take, drop, replicate, length-replicate, length-take, length-drop, take-append_le, drop-append_le,
  drop-drop, arith, le→leb,
}
use echo_frame.Base.Bytes.{splice, length-splice, window_join}
use echo_frame.Buffer.Memory.{Malloc, ok, load_inside}
use echo_frame.Buffer.SkBuffer.{SkBuffer, u32, head_size, init_head, incr, sort}
use echo_frame.Buffer.SkBuffer.Valid.{IsValid, content}
use echo_frame.Buffer.SkBuffer.Room.{sort-Ready}

take-replicate : (j n : ℕ) (v : ℕ) → j ≤ n → take j (replicate n v) ≡ replicate j v
take-replicate zero n v h = refl
take-replicate (suc j) zero v h = absurd (omega arith)
take-replicate (suc j) (suc n) v h = ap (◌∷◌ v) (take-replicate j n v (omega arith))

drop-replicate : (k n : ℕ) (v : ℕ) → drop k (replicate n v) ≡ replicate (n - k) v
drop-replicate zero n v = rw sub-zero
drop-replicate (suc k) zero v = rw zero-sub
drop-replicate (suc k) (suc n) v = rw suc-sub-suc (drop-replicate k n v)

module _ (m : Malloc) where
  pub length-init_head : (c : ℕ) → length (init_head m c) ≡ c
  unfolding init_head
  length-init_head c = omega (
    arith,
    length-drop head_size (splice 0 (replicate c 0) (m.alloc (c + head_size))),
    length-splice 0 (replicate c 0) (m.alloc (c + head_size))
        (omega (arith, m.length-alloc (c + head_size), length-replicate {A = ℕ} c 0)),
    m.length-alloc (c + head_size),
  )

  -- All but the last `sizeof(SKBufferHead)` bytes of a new block's data are zero.
  init_head_zero :
      (c k j : ℕ) → k + j + head_size ≤ c → take j (drop k (init_head m c)) ≡ replicate j 0
  unfolding init_head
  init_head_zero c k j h =
      ap (take j) (drop-drop k head_size (replicate c 0 ++ junk))
      ∙ ap (take j) (
          drop-append_le (head_size + k) (replicate c 0) junk
            (omega (arith, length-replicate {A = ℕ} c 0)))
      ∙ take-append_le j (drop (head_size + k) (replicate c 0)) junk (
          omega (
            arith,
            length-drop (head_size + k) (replicate {A = ℕ} c 0),
            length-replicate {A = ℕ} c 0,
          ))
      ∙ ap (take j) (drop-replicate (head_size + k) c 0)
      ∙ take-replicate j (c - (head_size + k)) 0 (omega arith)
    where
      junk : List ℕ
      junk = drop (0 + length (replicate {A = ℕ} c 0)) (m.alloc (c + head_size))

  module _ (b : SkBuffer) (v : IsValid b) (big : 8 ≤ b.capacity) (step : head_size ≤ b.min_capacity)
      (fits : b.capacity + b.min_capacity < 2 ^ 31) (near : b.readable_at ≤ b.capacity - 8) where
    -- The buffer before the last step of `incr`.
    abbrev moved : SkBuffer
    moved = record {
      capacity = b.capacity + b.min_capacity;
      readable_at = b.readable_at;
      writeable_at = b.writeable_at;
      min_capacity = b.capacity + b.min_capacity;
      bytes = splice 0 (take (b.capacity - 8) b.bytes) (init_head m (b.capacity + b.min_capacity));
    }

    incr_moves : incr m b ≡ sort moved
    unfolding incr
    incr_moves = rw (
      min-eq_right {n = 8} {m = b.capacity} big,
      no_wrap,
      low,
      high,
      le→leb (4 + b.capacity) (b.capacity + b.min_capacity + head_size) (omega arith),
      load_inside 0 (b.capacity - 8) b.bytes (omega (arith, v)),
    )
      where
        no_wrap : u32 (b.capacity + b.min_capacity) ≡ b.capacity + b.min_capacity
        no_wrap = omega arith

        low : (b.readable_at + 2 ^ 32 * b.writeable_at) % 256 ^ 8 % 2 ^ 32 ≡ b.readable_at
        low = omega arith

        high : (b.readable_at + 2 ^ 32 * b.writeable_at) % 256 ^ 8 / 2 ^ 32 ≡ b.writeable_at
        high = omega arith

    moved-IsValid : IsValid moved
    moved-IsValid = record {
      ordered = v.ordered;
      within = omega (arith, v);
      sized =
          length-splice 0 (take (b.capacity - 8) b.bytes)
            (init_head m (b.capacity + b.min_capacity))
            (omega (
              arith,
              length-take (b.capacity - 8) b.bytes,
              length-init_head (b.capacity + b.min_capacity),
            ))
          ∙ length-init_head (b.capacity + b.min_capacity);
      small = fits;
    }

    content-moved :
        content moved
        ≡ take (b.capacity - 8 - b.readable_at) (content b)
          ++ replicate (b.writeable_at - (b.capacity - 8)) 0
    content-moved =
        window_join b.readable_at b.writeable_at (b.capacity - 8) b.bytes _ near (omega (arith, v))
        ∙ ap (◌++◌ (take (b.capacity - 8 - b.readable_at) (content b))) (
            ap
              (λ n.
                take (b.writeable_at - (b.capacity - 8))
                  (drop n (init_head m (b.capacity + b.min_capacity))))
              below_seam
            ∙ init_head_zero (b.capacity + b.min_capacity) (b.capacity - 8)
                (b.writeable_at - (b.capacity - 8)) (omega (arith, v)))
      where
        below_seam : 0 + length (take (b.capacity - 8) b.bytes) ≡ b.capacity - 8
        below_seam = omega (arith, length-take (b.capacity - 8) b.bytes, v)

    -- `incr` of a valid buffer whose capacity is at least eight, whose least capacity is at least
    -- the size of the header, whose capacities add up to less than 2 ^ 31, and whose read mark is
    -- not in the last eight bytes: it succeeds, the capacity is larger by the least capacity, and
    -- the readable bytes below the old capacity less eight are kept. Those above it are zero.
    incr_lem :
        (t : SkBuffer) × (incr m b ≡ ok t)
        × IsValid t
        × (t.capacity ≡ b.capacity + b.min_capacity)
        × (content t
            ≡ take (b.capacity - 8 - b.readable_at) (content b)
              ++ replicate (b.writeable_at - (b.capacity - 8)) 0)
    incr_lem =
        let (t, e, r) = sort-Ready m 0 moved moved-IsValid (omega (arith, v)) in
        (t, incr_moves ∙ e, r.valid, r.capacity, r.same ∙ content-moved)

-- ===== src/Buffer/SkBuffer/Room.antt =====
-- `writeable` where the buffer has room: it may slide the bytes to the front, and hands out an
-- offset behind which the wanted length is free.
use echo_frame.Base.{
  ℕ, ◌+◌, ◌-◌, ◌≤◌, ◌≡◌, refl, ◌∙◌, inl, inr, arith, ltb, ◌==◌, Bool-cases, false, le→leb,
  not_ltb→le, ==_iff,
}
use echo_frame.Buffer.Memory.{Malloc, ok}
use echo_frame.Buffer.SkBuffer.{SkBuffer, u32, sort, rewind, make_room, writeable}
use echo_frame.Buffer.SkBuffer.Valid.{
  IsValid, content, sorted, sort_at_front, sort-sorted, sorted-IsValid, content-sorted,
  rewind-IsValid, content-rewind,
}

-- `t` holds what `s` holds and has room for `n` bytes behind its write mark.
pub record Ready (n : ℕ) (s t : SkBuffer) : Type 0 where
  pub valid : IsValid t
  pub same : content t ≡ content s
  pub room : t.writeable_at + n ≤ t.capacity
  pub capacity : t.capacity ≡ s.capacity

module _ (m : Malloc) (n : ℕ) (b : SkBuffer) (v : IsValid b) where
  pub sort-Ready :
      b.writeable_at - b.readable_at + n ≤ b.capacity
      → (t : SkBuffer) × (sort b ≡ ok t) × Ready n b t
  sort-Ready h = elim (Bool-cases (b.readable_at == 0)) [
    | inl e ↦ (
      b,
      sort_at_front b ((==_iff b.readable_at 0).0 e),
      record { valid = v; same = refl; room = ground arith; capacity = refl },
    )
    | inr e ↦ (
      sorted b,
      sort-sorted b v (ground arith),
      record { valid = sorted-IsValid b v; same = content-sorted b v; room = h; capacity = refl },
    )
  ]

  make_room-Ready :
      b.writeable_at - b.readable_at + n ≤ b.capacity
      → (t : SkBuffer) × (make_room m n b ≡ ok t) × Ready n b t
  unfolding make_room
  make_room-Ready h =
      rw
        (
          le→leb b.readable_at b.writeable_at v.ordered,
          le→leb (b.writeable_at - b.readable_at) b.capacity (omega arith),
          le→leb n (b.capacity - (b.writeable_at - b.readable_at)) (omega arith),
        )
        (sort-Ready h)

-- In a valid buffer with room for `n` more bytes `writeable` keeps the bytes held and the capacity,
-- and there is space for `n` bytes at the offset that it returns.
pub writeable-Ready :
    (m : Malloc) (n : ℕ) (b : SkBuffer)
    → IsValid b
    → b.writeable_at - b.readable_at + n ≤ b.capacity
    → (t : SkBuffer) × (writeable m n b ≡ ok (t.writeable_at, t)) × Ready n b t
unfolding writeable
writeable-Ready m n b v h = elim (Bool-cases (ltb s.capacity (u32 (s.writeable_at + n)))) [
  | inl full ↦
      let (t, e, r) = make_room-Ready m n s sv (ground arith) in (t, rw (full, e), carry t r)
  | inr free ↦
      (s, rw free, record { valid = sv; same = content-rewind b; room = fits free; capacity = sc })
]
  where
    s : SkBuffer
    s = rewind b

    sv : IsValid s
    sv = rewind-IsValid b v

    sc : s.capacity ≡ b.capacity
    sc = ground arith

    fits : ltb s.capacity (u32 (s.writeable_at + n)) ≡ false → s.writeable_at + n ≤ s.capacity
    fits free =
        omega
          (arith, not_ltb→le s.capacity (u32 (s.writeable_at + n)) free, sv.within, sv.small, sc)

    carry : (t : SkBuffer) → Ready n s t → Ready n b t
    carry t r = record {
      valid = r.valid;
      same = r.same ∙ content-rewind b;
      room = r.room;
      capacity = r.capacity ∙ sc;
    }

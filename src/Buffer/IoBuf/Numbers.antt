-- ===== src/Buffer/IoBuf/Numbers.antt =====
-- Numbers in a buffer: MyIOBuf's write<T> and read<T> for a basic type (net/buffer/myIOBuf.h).
use echo_frame.Base.{
  ℕ, ◌+◌, ◌-◌, ◌^◌, ◌≤◌, ◌<◌, ◌≡◌, ap, ◌∙◌, List, ◌++◌, length, take, drop, length-append,
  take-append_le, take_all, drop-append_ge, arith, subst,
}
use echo_frame.Base.Bytes.{to_bytes, length-to_bytes, of_bytes-to_bytes}
use echo_frame.Buffer.Memory.{Malloc}
use echo_frame.Buffer.SkBuffer.{SkBuffer}
use echo_frame.Buffer.IoBuf.{done, write_number, read_number}
use echo_frame.Buffer.IoBuf.Fifo.{Holds, write_bytes-Holds, read_bytes-Holds}

-- A number that is written is read back, if it fits its width.
module _ (w v : ℕ) (fits : v < 256 ^ w) {capacity : ℕ} {b : SkBuffer} where
  pub write_number-Holds :
      (m : Malloc) {xs : List ℕ}
      → Holds capacity b xs
      → length xs + w ≤ capacity
      → (t : SkBuffer) × (write_number m w v b ≡ done tt t) × Holds capacity t (xs ++ to_bytes w v)
  unfolding write_number
  write_number-Holds m h room =
      write_bytes-Holds h m (to_bytes w v) (omega (arith, length-to_bytes w v))

  pub read_number-Holds :
      {rest : List ℕ}
      → 0 < w
      → Holds capacity b (to_bytes w v ++ rest)
      → (t : SkBuffer) × (read_number w b ≡ done v t) × Holds capacity t rest
  unfolding read_number
  read_number-Holds {rest} pos h =
      let (t, e, ht) =
        read_bytes-Holds h w pos
          (omega (arith, length-append (to_bytes w v) rest, length-to_bytes w v)) in
      (t, rw (e, front, of_bytes-to_bytes w v fits), subst (Holds capacity t) back ht)
    where
      front : take w (to_bytes w v ++ rest) ≡ to_bytes w v
      front =
          take-append_le w (to_bytes w v) rest (omega (arith, length-to_bytes w v))
          ∙ take_all w (to_bytes w v) (omega (arith, length-to_bytes w v))

      back : drop w (to_bytes w v ++ rest) ≡ rest
      back =
          let none_left : w - length (to_bytes w v) ≡ 0 = omega (arith, length-to_bytes w v) in
          drop-append_ge w (to_bytes w v) rest (omega (arith, length-to_bytes w v))
          ∙ ap (λ k. drop k rest) none_left

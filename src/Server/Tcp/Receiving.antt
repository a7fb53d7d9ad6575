-- ===== src/Server/Tcp/Receiving.antt =====
-- What `onRead` puts into the read buffer.
use echo_frame.Base.{
  ℕ, ◌+◌, ◌≤◌, ◌≡◌, refl, sym, ap, ◌∙◌, subst, List, [], ◌∷◌, ◌++◌, length, length-append,
  append-nil, append_assoc, arith,
}
use echo_frame.Base.Bytes.{splice, length-splice, window-splice}
use echo_frame.Buffer.Memory.{Malloc, ok, store_inside}
use echo_frame.Buffer.SkBuffer.{SkBuffer, u32, move_writeable}
use echo_frame.Buffer.SkBuffer.Room.{Ready, writeable-Ready}
use echo_frame.Buffer.IoBuf.Fifo.{Holds, Holds-length}
use echo_frame.Server.Packets.Frames.{All}
use echo_frame.Server.Tcp.{ReadEnd, on_read}

-- The bytes of the stretches one after the other.
abbrev pub received : List (List ℕ) → List ℕ
received [] = []
received (c ∷ cs) = c ++ received cs

-- A stretch that one call can read.
abbrev pub IsChunk : List ℕ → Type 0
IsChunk c = length c ≤ 1024

-- The buffer after `chunk` was read to its write mark.
abbrev read_to : SkBuffer → List ℕ → SkBuffer
read_to t chunk =
    move_writeable (length chunk) (record t { bytes = splice t.writeable_at chunk t.bytes })

read_to-Holds :
    {capacity : ℕ} {b t : SkBuffer} {xs : List ℕ} (chunk : List ℕ)
    → Holds capacity b xs
    → Ready 1024 b t
    → IsChunk chunk
    → Holds capacity (read_to t chunk) (xs ++ chunk)
read_to-Holds {capacity} {b} {t} {xs} chunk h r fits =
    subst
      (λ k.
        Holds capacity (record t { writeable_at = k; bytes = splice t.writeable_at chunk t.bytes })
          (xs ++ chunk))
      (sym no_wrap)
      (record {
        valid = record {
          ordered = omega (arith, r.valid);
          within = omega (arith, r.room);
          sized =
              length-splice t.writeable_at chunk t.bytes (omega (arith, r.valid, r.room))
              ∙ r.valid.sized;
          small = r.valid.small;
        };
        bytes =
            window-splice t.readable_at t.writeable_at chunk t.bytes r.valid.ordered
              (omega (arith, r.valid, r.room))
            ∙ ap (λ k. k ++ chunk) (r.same ∙ h.bytes);
        cap = r.capacity ∙ h.cap;
      })
  where
    no_wrap : u32 (t.writeable_at + length chunk) ≡ t.writeable_at + length chunk
    no_wrap = omega (arith, r.valid, r.room)

-- If the read buffer is valid and has room for all the bytes that the socket has, and 1024 more,
-- `onRead` appends these bytes in order, and tells only how the last read ended.
pub on_read-Holds :
    (m : Malloc) (chunks : List (List ℕ)) (end : ReadEnd) {capacity : ℕ} {b : SkBuffer}
    {xs : List ℕ}
    → Holds capacity b xs
    → All IsChunk chunks
    → length xs + length (received chunks) + 1024 ≤ capacity
    → (t : SkBuffer) × (on_read m chunks end b ≡ ok (end, t))
      × Holds capacity t (xs ++ received chunks)
unfolding on_read
on_read-Holds m [] end {capacity} {b} {xs} h small room =
    let (t, e, r) = writeable-Ready m 1024 b h.valid (omega (arith, h.cap, Holds-length h)) in
    (
      t,
      rw e refl,
      record {
        valid = r.valid;
        bytes = r.same ∙ h.bytes ∙ sym (append-nil xs);
        cap = r.capacity ∙ h.cap;
      },
    )
on_read-Holds m (chunk ∷ chunks) end {capacity} {b} {xs} h (fits, small) room =
    let (t, e, r) = writeable-Ready m 1024 b h.valid (omega (arith, h.cap, Holds-length h)) in
    let (u, e', hu) =
      on_read-Holds m chunks end (read_to-Holds chunk h r fits) small
        (omega (arith, length-append xs chunk, length-append chunk (received chunks))) in
    (
      u,
      rw (e, store_inside t.writeable_at chunk t.bytes (omega (arith, r.valid, r.room, fits)), e')
          refl,
      subst (Holds capacity u) (append_assoc xs chunk (received chunks)) hu,
    )

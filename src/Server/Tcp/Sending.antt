-- ===== src/Server/Tcp/Sending.antt =====
-- What `onWrite` sends of the bytes that wait, and what becomes of the rest.
use echo_frame.Base.{
  ℕ, zero, suc, ◌+◌, ◌-◌, ◌≤◌, ◌≡◌, ◌↔◌, refl, ap, ◌∙◌, Bool, true, List, [], ◌∷◌, ◌++◌, length,
  take, drop, leb, length-append, take-append-drop, append_assoc, arith, le→leb, leb→le,
  nil_of_length,
}
use echo_frame.Buffer.Memory.{Malloc, ok}
use echo_frame.Buffer.SkBuffer.{SkBuffer, u32}
use echo_frame.Buffer.IoBuf.{done}
use echo_frame.Buffer.IoBuf.Fifo.{
  Holds, Holds-length, taken, readable_bytes-Holds, write_bytes-Holds, nothing_left,
}
use echo_frame.Server.Tcp.{write_loop, on_write, send_response}

write_loop-prefix :
    (answers bytes : List ℕ) → (rest : List ℕ) × (write_loop answers bytes ++ rest ≡ bytes)
unfolding write_loop
write_loop-prefix answers [] = ([], refl)
write_loop-prefix [] (x ∷ xs) = (x ∷ xs, refl)
write_loop-prefix (zero ∷ answers) (x ∷ xs) = (x ∷ xs, refl)
write_loop-prefix (suc n ∷ answers) (x ∷ xs) =
    let (rest, e) = write_loop-prefix answers (drop n xs) in
    (
      rest,
      ap (◌∷◌ x) (
          append_assoc (take n xs) (write_loop answers (drop n xs)) rest
          ∙ ap (λ k. take n xs ++ k) e
          ∙ take-append-drop n xs),
    )

all_sent :
    (n : ℕ) (sent lost xs : List ℕ)
    → sent ++ lost ≡ xs
    → length xs ≡ n
    → (leb n (length sent) ≡ true) ↔ (lost ≡ [])
all_sent n sent lost xs e size = (
  λ k.
      nil_of_length lost
        (omega (arith, leb→le n (length sent) k, ap length e, length-append sent lost, size)),
  λ k.
      le→leb n (length sent)
        (omega (arith, ap length e, length-append sent lost, size, ap length k)),
)

-- `onWrite` of a valid buffer sends the first bytes of those that wait, in order. The buffer is
-- empty afterwards, also where the socket did not take all of them: the others are lost. It returns
-- 0 exactly when there are no others.
pub on_write-Holds :
    (answers : List ℕ) {capacity : ℕ} {b : SkBuffer} {xs : List ℕ}
    → Holds capacity b xs
    → (success : Bool) × (sent : List ℕ) × (lost : List ℕ) × (t : SkBuffer) × (on_write answers b
        ≡ ok (success, sent, t))
      × (sent ++ lost ≡ xs)
      × Holds capacity t []
      × ((success ≡ true) ↔ (lost ≡ []))
unfolding on_write
on_write-Holds answers {capacity} {b} {xs} h =
    let (lost, e) = write_loop-prefix answers xs in
    (
      leb (b.writeable_at - b.readable_at) (length (write_loop answers xs)),
      write_loop answers xs,
      lost,
      taken (b.writeable_at - b.readable_at) b,
      rw (le→leb b.readable_at b.writeable_at h.valid.ordered, readable_bytes-Holds h, no_wrap),
      e,
      emptied,
      all_sent (b.writeable_at - b.readable_at) (write_loop answers xs) lost xs e (Holds-length h),
    )
  where
    no_wrap :
        u32 (b.readable_at + (b.writeable_at - b.readable_at))
        ≡ b.readable_at + (b.writeable_at - b.readable_at)
    no_wrap = omega (arith, h.valid)

    emptied : Holds capacity (taken (b.writeable_at - b.readable_at) b) []
    emptied = record {
      valid = record {
        ordered = omega (arith, h.valid);
        within = h.valid.within;
        sized = h.valid.sized;
        small = h.valid.small;
      };
      bytes = nothing_left (taken (b.writeable_at - b.readable_at) b) (omega (arith, h.valid));
      cap = h.cap;
    }

-- Bytes that are queued by `sendResponse`, while the write buffer is valid and has room for them,
-- wait behind those that were there: what `onWrite` then sends, and what it loses, are these bytes
-- in this order.
pub send_response-on_write :
    (m : Malloc) (answers src : List ℕ) {capacity : ℕ} {b : SkBuffer} {xs : List ℕ}
    → Holds capacity b xs
    → length xs + length src ≤ capacity
    → (u : SkBuffer) × (success : Bool) × (sent : List ℕ) × (lost : List ℕ) × (t : SkBuffer)
      × (send_response m src b ≡ done (length src) u)
      × (on_write answers u ≡ ok (success, sent, t))
      × (sent ++ lost ≡ xs ++ src)
      × ((success ≡ true) ↔ (lost ≡ []))
unfolding send_response
send_response-on_write m answers src h room =
    let (u, e, hu) = write_bytes-Holds h m src room in
    let (success, sent, lost, t, e', all, ht, exact) = on_write-Holds answers hu in
    (u, success, sent, lost, t, rw e refl, e', all, exact)

-- ===== src/Buffer/IoBuf/Codec.antt =====
-- Writers and readers as wholes: a writer that appends certain bytes to any buffer with room, and
-- a reader that takes them off again. Both compose along `do` blocks.
use echo_frame.Base.{
  ℕ, ◌+◌, ◌^◌, ◌≤◌, ◌<◌, ◌≡◌, refl, subst, List, [], ◌++◌, length, length-append, append_assoc,
  arith,
}
use echo_frame.Base.Bytes.{to_bytes, length-to_bytes}
use echo_frame.Buffer.Memory.{Malloc}
use echo_frame.Buffer.SkBuffer.{SkBuffer}
use echo_frame.Buffer.IoBuf.{Io, done, ◌>>=◌, ◌>>◌, pure, write_number, read_number, write_bytes}
use echo_frame.Buffer.IoBuf.Fifo.{Holds, write_bytes-Holds}
use echo_frame.Buffer.IoBuf.Numbers.{write_number-Holds, read_number-Holds}

abbrev pub Appends : Io (Unit {0}) → List ℕ → Type 0
Appends act src =
    (capacity : ℕ) (b : SkBuffer) (xs : List ℕ)
    → Holds capacity b xs
    → length xs + length src ≤ capacity
    → (t : SkBuffer) × (act b ≡ done tt t) × Holds capacity t (xs ++ src)

abbrev pub Takes : {A : Type 0} → Io A → A → List ℕ → Type 0
Takes act a src =
    (capacity : ℕ) (b : SkBuffer) (rest : List ℕ)
    → Holds capacity b (src ++ rest)
    → (t : SkBuffer) × (act b ≡ done a t) × Holds capacity t rest

pub write_bytes-Appends : (m : Malloc) (src : List ℕ) → Appends (write_bytes m src) src
write_bytes-Appends m src capacity b xs h room = write_bytes-Holds h m src room

pub write_number-Appends :
    (m : Malloc) (w v : ℕ) → v < 256 ^ w → Appends (write_number m w v) (to_bytes w v)
write_number-Appends m w v fits capacity b xs h room =
    write_number-Holds w v fits m h (omega (arith, length-to_bytes w v))

pub seq-Appends :
    (act k : Io (Unit {0})) (src more : List ℕ)
    → Appends act src
    → Appends k more
    → Appends (act >> k) (src ++ more)
seq-Appends act k src more first second capacity b xs h room =
    let (t, e, ht) = first capacity b xs h (omega (arith, length-append src more)) in
    let (u, e', hu) =
      second capacity t (xs ++ src) ht
        (omega (arith, length-append src more, length-append xs src)) in
    (u, rw (e, e'), subst (Holds capacity u) (append_assoc xs src more) hu)

pub read_number-Takes : (w v : ℕ) → v < 256 ^ w → 0 < w → Takes (read_number w) v (to_bytes w v)
read_number-Takes w v fits pos capacity b rest h = read_number-Holds w v fits pos h

pub pure-Takes : {A : Type 0} (a : A) → Takes (pure a) a []
pure-Takes a capacity b rest h = (b, refl, h)

pub bind-Takes :
    {A B : Type 0} (act : Io A) (f : A → Io B) (a : A) (c : B) (src more : List ℕ)
    → Takes act a src
    → Takes (f a) c more
    → Takes (act >>= f) c (src ++ more)
bind-Takes act f a c src more first second capacity b rest h =
    let (t, e, ht) =
      first capacity b (more ++ rest) (subst (Holds capacity b) (append_assoc src more rest) h) in
    let (u, e', hu) = second capacity t rest ht in (u, rw (e, e'), hu)

-- ===== src/Buffer/IoBuf.antt =====
-- class MyIOBuf (net/buffer/myIOBuf.h) with MyWriter and MyReader (net/buffer/MyIOWriter.h,
-- net/buffer/MyIOReader.h). A buffer object is a MySKBuffer, so its state is one. The writers and
-- readers of the C++ templates are told apart by the kind of value: a number of `w` bytes, a
-- string, or a pointer with a length.
-- `writeable` never returns `nullptr`, so the `throw` of the writers is not reached.
pub mod Fifo
pub mod Numbers
pub mod Codec
use echo_frame.Base.{ℕ, ◌-◌, ◌^◌, Option, none, some, List, [], length, ltb, if◌then◌else◌}
use echo_frame.Base.Bytes.{to_bytes, of_bytes}
use echo_frame.Buffer.Memory
use echo_frame.Buffer.Memory.{Malloc, Fault, Result, ok, fault, load, store}
use echo_frame.Buffer.SkBuffer
use echo_frame.Buffer.SkBuffer.{SkBuffer, get_writeable_and_move, get_readable_and_move}

-- A call returns with the buffer's new state, throws a MyException and leaves the buffer in a
-- state, or ends the process.
pub data Step {ℓ} (A : Type ℓ) : Type ℓ where
  done : A → SkBuffer → Step A
  thrown : SkBuffer → Step A
  crashed : Fault → Step A

abbrev pub Io {ℓ} : Type ℓ → Type ℓ
Io A = SkBuffer → Step A

module _ {ℓ κ} {A : Type ℓ} {B : Type κ} where
  abbrev pub and_then : Step A → (A → Io B) → Step B
  and_then (done a b) f = f a b
  and_then (thrown b) f = thrown b
  and_then (crashed e) f = crashed e

  infixl 5 ◌>>=◌
  abbrev pub ◌>>=◌ : Io A → (A → Io B) → Io B
  ◌>>=◌ act f b = and_then (act b) f

infixl 5 ◌>>◌
abbrev pub ◌>>◌ {κ} : {B : Type κ} → Io (Unit {0}) → Io B → Io B
◌>>◌ act k b = and_then (act b) (λ _. k)

abbrev pub pure {ℓ} : {A : Type ℓ} → A → Io A
pure a b = done a b

abbrev of_result {ℓ} : {A : Type ℓ} → Result (A × SkBuffer) → Step A
of_result (ok (a, b)) = done a b
of_result (fault e) = crashed e

-- `write<void*>` and `write<char*>`: room for `len` bytes is taken, `len` bytes of `src` are put.
unfoldable pub put : Malloc → ℕ → List ℕ → Io (Unit {0})
put m len src b = of_result (
    Memory.◌>>=◌ (get_writeable_and_move m len b)
      λ (at, t). Memory.◌>>=◌ (store at src t.bytes) λ mem. ok (tt, record t { bytes = mem }))

abbrev pub write_bytes : Malloc → List ℕ → Io (Unit {0})
write_bytes m src = put m (length src) src

-- `write<T>` for a number of `w` bytes.
unfoldable pub write_number : Malloc → ℕ → ℕ → Io (Unit {0})
write_number m w v = write_bytes m (to_bytes w v)

-- `write<std::string>`: the length goes through `MyCast::to<uint32_t>`, which gives 0 for a value
-- that does not fit, and the copy has the string's own length.
unfoldable pub write_string : Malloc → List ℕ → Io (Unit {0})
write_string m src = put m (if ltb (2 ^ 32 - 1) (length src) then 0 else length src) src

-- `reserve`: the offset of the space set aside.
unfoldable pub reserve : Malloc → ℕ → Io ℕ
reserve m n b = of_result (get_writeable_and_move m n b)

abbrev loaded : SkBuffer → Result (List ℕ) → Step (List ℕ)
loaded t (ok bs) = done bs t
loaded t (fault e) = crashed e

-- What follows the test of the pointer and of the length that were handed out for `n` bytes.
abbrev checked : ℕ → Option ℕ → ℕ → SkBuffer → Step (List ℕ)
checked n none got t = thrown t
checked n (some at) got t = if ltb got n then thrown t else loaded t (load at n t.bytes)

abbrev after_move : ℕ → Result (Option ℕ × ℕ × SkBuffer) → Step (List ℕ)
after_move n (ok (at, got, t)) = checked n at got t
after_move n (fault e) = crashed e

abbrev after_look : ℕ → SkBuffer → Result (Option ℕ × ℕ) → Step (List ℕ)
after_look n b (ok (at, got)) = checked n at got b
after_look n b (fault e) = crashed e

-- `read<void*>`, `read<char*>` and `read<std::string>` of `n` bytes.
unfoldable pub read_bytes : ℕ → Io (List ℕ)
read_bytes n b = after_move n (get_readable_and_move n b)

-- `read<T>` for a number of `w` bytes.
unfoldable pub read_number : ℕ → Io ℕ
read_number w = do bs ← read_bytes w; pure (of_bytes bs)

-- `peek<T>`.
unfoldable pub peek_number : ℕ → Io ℕ
peek_number w b = and_then (after_look w b (SkBuffer.readable w b)) λ bs. pure (of_bytes bs)

-- `readable()` with `getReadableLength()`: the bytes that a caller copies out of a buffer.
unfoldable pub readable_bytes : SkBuffer → Result (List ℕ)
readable_bytes b = Memory.◌>>=◌ (SkBuffer.get_readable_length b) λ len.
    Memory.◌>>=◌ (SkBuffer.readable len b)
      λ (at, got). elim at [ none ↦ ok [] | some off ↦ load off got b.bytes ]

-- `create`.
abbrev pub create : Malloc → ℕ → SkBuffer
create m capacity = SkBuffer.init m capacity

-- ===== src/Buffer/Memory.antt =====
-- What net/buffer/MySKBuffer.h takes from the C library: `malloc`, `memcpy`, `memmove`, `memset`
-- and `assert`. A stretch of memory is the list of its bytes, a pointer into it an offset. A failed
-- assertion and an access out of the allocation end the process: they are faults.
use echo_frame.Base.{
  ℕ, ◌+◌, ◌≤◌, ◌≡◌, ◌++◌, append-nil, drop_all, length-replicate, le→leb, Bool, true, false, List,
  length, take, drop, leb, if◌then◌else◌, arith, replicate,
}
use echo_frame.Base.Bytes.{splice}

-- `malloc` of so many bytes: what stands in them is not determined.
pub record Malloc : Type 0 where
  pub alloc : ℕ → List ℕ
  pub length-alloc : (n : ℕ) → length (alloc n) ≡ n

pub data Fault : Type 0 where
  assertion_failed out_of_bounds : Fault

pub data Result {ℓ} (A : Type ℓ) : Type ℓ where
  ok : A → Result A
  fault : Fault → Result A

infixl 5 ◌>>=◌ ◌>>◌
abbrev pub ◌>>=◌ {ℓ κ} : {A : Type ℓ} {B : Type κ} → Result A → (A → Result B) → Result B
ok a >>= f = f a
fault e >>= f = fault e

abbrev pub ◌>>◌ {ℓ} : {B : Type ℓ} → Result (Unit {0}) → Result B → Result B
m >> k = m >>= λ _. k

abbrev pub assert : Bool → Result (Unit {0})
assert true = ok tt
assert false = fault assertion_failed

-- An access is inside the allocation.
abbrev pub inside : Bool → Result (Unit {0})
inside true = ok tt
inside false = fault out_of_bounds

-- The bytes that a copy reads.
unfoldable pub load : ℕ → ℕ → List ℕ → Result (List ℕ)
load off n mem =
    if leb (off + n) (length mem) then ok (take n (drop off mem)) else fault out_of_bounds

-- `memcpy` and `memmove` to an offset, from bytes that were read.
unfoldable pub store : ℕ → List ℕ → List ℕ → Result (List ℕ)
store off src mem =
    if leb (off + length src) (length mem) then ok (splice off src mem) else fault out_of_bounds

-- `memset` of so many bytes from an offset to zero.
unfoldable pub clear : ℕ → ℕ → List ℕ → Result (List ℕ)
clear off n mem =
    if leb (off + n) (length mem) then ok (splice off (replicate n 0) mem) else fault out_of_bounds

-- Accesses inside the allocation.
pub load_inside :
    (off n : ℕ) (mem : List ℕ) → off + n ≤ length mem → load off n mem ≡ ok (take n (drop off mem))
unfolding load
load_inside off n mem h = rw (le→leb _ _ h)

pub store_inside :
    (off : ℕ) (src mem : List ℕ)
    → off + length src ≤ length mem
    → store off src mem ≡ ok (splice off src mem)
unfolding store
store_inside off src mem h = rw (le→leb _ _ h)

-- Clearing everything from an offset on.
pub clear_rest :
    (off n : ℕ) (mem : List ℕ)
    → off + n ≡ length mem
    → clear off n mem ≡ ok (take off mem ++ replicate n 0)
unfolding clear
clear_rest off n mem h = rw (
  le→leb (off + n) (length mem) (omega arith),
  length-replicate {A = ℕ} n 0,
  drop_all (off + n) mem (omega arith),
  append-nil,
)

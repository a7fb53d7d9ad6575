-- ===== src/Util/ThreadQueue.antt =====
-- MyThreadQueue (util/MyQueue.h). Each operation runs under the queue's lock and is one step; the
-- wait for a signal, which gives the lock up, divides `popFront` into two.
use echo_frame.Base.{
  ℕ, ◌-◌, ◌^◌, Bool, true, false, Option, none, some, List, [], ◌∷◌, ◌++◌, ◌==◌, if◌then◌else◌,
}

-- What a step of `popFront` leads to: the queue, and either the wait or what is returned, `t` where
-- it was written.
pub data Popped {ℓ} (T : Type ℓ) : Type ℓ where
  waits : List T → Popped T
  ended : Bool → Option T → List T → Popped T

module _ {ℓ} {T : Type ℓ} where
  abbrev pub take_front : List T → Popped T
  take_front [] = ended false none []
  take_front (t ∷ queue) = ended true (some t) queue

  abbrev pub wait_if_empty : List T → Popped T
  wait_if_empty [] = waits []
  wait_if_empty (t ∷ queue) = take_front (t ∷ queue)

  -- `popFront` up to the wait. The time -1 is the greatest number of 32 bits.
  unfoldable pub pop_front : ℕ → List T → Popped T
  pop_front millsecond queue =
      if millsecond == 2 ^ 32 - 1
      then wait_if_empty queue
      else if millsecond == 0
      then take_front queue
      else wait_if_empty queue

  -- `popFront` from the wait on, with a signal, true or not, or at the end of the time.
  abbrev pub woken : Bool → List T → Popped T
  woken signalled queue = if signalled then take_front queue else ended false none queue

  abbrev pub push_back : T → List T → List T
  push_back t queue = queue ++ (t ∷ [])

  unfoldable pub push_back_all : List T → List T → List T
  push_back_all [] queue = queue
  push_back_all (t ∷ ts) queue = push_back_all ts (push_back t queue)

  abbrev pub push_front : T → List T → List T
  push_front t queue = t ∷ queue

  unfoldable pub push_front_all : List T → List T → List T
  push_front_all [] queue = queue
  push_front_all (t ∷ ts) queue = push_front_all ts (push_front t queue)

  abbrev pub is_empty : List T → Bool
  is_empty [] = true
  is_empty (t ∷ queue) = false

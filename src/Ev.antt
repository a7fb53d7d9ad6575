-- ===== src/Ev.antt =====
-- MyLoop (net/ev/MyLoop.h): the functions that other threads hand to a loop. The loop's watchers are
-- libev's; what they call is modelled.
use echo_frame.Base.{
  ◌≡◌, refl, ap, Bool, true, false, Option, none, some, List, [], ◌∷◌, ◌++◌, if◌then◌else◌, map,
}
use echo_frame.Util.ThreadQueue.{push_back}

-- The queue, whose functions may be empty ones, the flag, and the functions that the loop's thread
-- has called, in order.
pub record MyLoop {ℓ} (F : Type ℓ) : Type ℓ where
  pub queue : List (Option F)
  pub exit : Bool
  pub calls : List F

module _ {ℓ} {F : Type ℓ} where
  -- The loop of the queue's watcher: what it calls, and what it leaves.
  unfoldable pub call_all : List (Option F) → List F × List (Option F)
  call_all [] = ([], [])
  call_all (none ∷ queue) = ([], queue)
  call_all (some f ∷ queue) = let (fs, left) = call_all queue in (f ∷ fs, left)

  -- What the queue's watcher does when it is signalled, and whether it then breaks the loop.
  unfoldable pub on_signal : MyLoop F → MyLoop F × Bool
  on_signal l =
      let (fs, left) = call_all l.queue in
      (record l { queue = left; calls = l.calls ++ fs }, l.exit)

  -- `RunInThreadOrImmediate`, with whether it is the loop's thread that calls, and whether the watcher
  -- is signalled.
  unfoldable pub run_in_thread_or_immediate : Bool → F → MyLoop F → MyLoop F × Bool
  run_in_thread_or_immediate own f l =
      if own
      then (record l { calls = l.calls ++ (f ∷ []) }, false)
      else (record l { queue = push_back (some f) l.queue }, true)

  -- `stop`, which signals the watcher.
  unfoldable pub stop_loop : MyLoop F → MyLoop F × Bool
  stop_loop l = (record l { exit = true }, true)

  -- One signal is enough for all functions that wait, if none of them is empty.
  call_all-some : (fs : List F) → call_all (map some fs) ≡ (fs, [])
  unfolding call_all
  call_all-some [] = refl
  call_all-some (f ∷ fs) = ap (λ (gs, left). (f ∷ gs, left)) (call_all-some fs)

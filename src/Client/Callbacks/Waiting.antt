-- ===== src/Client/Callbacks/Waiting.antt =====
-- executeAndWait of MySession (net/client/MySession.h): a session that a thread waits for. What the
-- loop makes of the session until the wait is over is a function, or a single event.
use echo_frame.Base.{ℕ, ◌≡◌, refl, Bool, true, false, Option, none, some, ◌==◌, if◌then◌else◌}
use echo_frame.Client.Callbacks.{
  Callbacks, Answered, answered, already_set, result_success, do_success_action, do_timeout_action,
  do_error_action,
}

-- A second `get` of a future throws.
pub data Waited {ℓ} (P : Type ℓ) : Type ℓ where
  received : Option P → Waited P
  future_error : Waited P

-- What may happen to the session before the wait is over.
pub data SessionEvent {ℓ} (P : Type ℓ) : Type ℓ where
  nothing_happens times_out fails : SessionEvent P
  succeeds : Option P → SessionEvent P

module _ {ℓ} {P : Type ℓ} where
  -- The result is read once for the test and, where it is no success, again for the log.
  abbrev by_promise : Option ℕ → Option P → Waited P
  by_promise none response = received none
  by_promise (some code) response =
      if code == result_success then received response else future_error

  -- `alive`: the client is there. Whether the request could be sent changes the log alone.
  unfoldable pub execute_and_wait : Bool → (Callbacks P → Callbacks P) → Callbacks P → Waited P
  execute_and_wait alive until_over s =
      let t = until_over (record s { is_async = false }) in
      if alive then by_promise t.promise t.response else received none

  abbrev session : Answered P → Callbacks P
  session (answered rv s) = s
  session (already_set s) = s

  abbrev pub happens : SessionEvent P → Callbacks P → Callbacks P
  happens nothing_happens s = s
  happens times_out s = session (do_timeout_action s)
  happens fails s = session (do_error_action s)
  happens (succeeds response) s = session (do_success_action response s)

  -- What the caller gets for each of them.
  abbrev pub expected : SessionEvent P → Waited P
  expected nothing_happens = received none
  expected times_out = future_error
  expected fails = future_error
  expected (succeeds response) = received response

  -- On a client that is there, `executeAndWait` of a session whose promise has no value yet returns
  -- the response that comes before the wait is over, and nothing if none comes; if the session
  -- times out or fails before, the caller gets the exception of a future that is read twice.
  execute_and_wait-happens :
      (e : SessionEvent P) (s : Callbacks P)
      → s.promise ≡ none
      → execute_and_wait true (happens e) s ≡ expected e
  unfolding execute_and_wait
  execute_and_wait-happens nothing_happens s h = rw (h) refl
  execute_and_wait-happens times_out s h = rw (h) refl
  execute_and_wait-happens fails s h = rw (h) refl
  execute_and_wait-happens (succeeds response) s h = rw (h) refl

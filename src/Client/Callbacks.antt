-- ===== src/Client/Callbacks.antt =====
-- What a session does when its response comes, its time ends or an error is reported:
-- doSuccessAction, doTimeoutAction and doErrorAction of MySession (net/client/MySession.h).
pub mod Waiting
use echo_frame.Base.{ℕ, Bool, Option, none, some, if◌then◌else◌}

-- `ClientResult` (net/MyGlobal.h)
abbrev pub result_success : ℕ
result_success = 0

abbrev pub result_timeout : ℕ
result_timeout = 1

abbrev pub result_fail : ℕ
result_fail = 100

-- A callback by what it returns; the promise by the value that it was given; the response's message,
-- of a type that each session has.
pub record Callbacks {ℓ} (P : Type ℓ) : Type ℓ where
  pub is_async : Bool
  pub then_action : Option ℕ
  pub timeout_action : Option ℕ
  pub error_action : Option ℕ
  pub promise : Option ℕ
  pub response : Option P

-- What is returned and the session; or the exception of a promise that already has a value.
pub data Answered {ℓ} (P : Type ℓ) : Type ℓ where
  answered : ℕ → Callbacks P → Answered P
  already_set : Callbacks P → Answered P

abbrev pub called : Option ℕ → ℕ
called none = result_success
called (some rv) = rv

module _ {ℓ} {P : Type ℓ} where
  abbrev pub set_promise : ℕ → Callbacks P → Option ℕ → Answered P
  set_promise code s none = answered result_success (record s { promise = some code })
  set_promise code s (some v) = already_set s

  abbrev pub answer : Option ℕ → ℕ → Callbacks P → Answered P
  answer action code s =
      if s.is_async then answered (called action) s else set_promise code s s.promise

  -- With `nullptr` for a heartbeat, whose session keeps no response.
  abbrev pub do_success_action : Option P → Callbacks P → Answered P
  do_success_action response s =
      answer s.then_action result_success (record s { response = response })

  abbrev pub do_timeout_action : Callbacks P → Answered P
  do_timeout_action s = answer s.timeout_action result_timeout s

  abbrev pub do_error_action : Callbacks P → Answered P
  do_error_action s = answer s.error_action result_fail s

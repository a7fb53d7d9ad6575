-- ===== src/Util/ThreadPool.antt =====
-- MyThreadPool (util/MyThreadPool.h). The workers and the caller take turns in any order: an event
-- is one step of one of them. A step is what a thread does between two looks at what others write;
-- the test of the flags and of the number of jobs is one step.
pub mod Fifo
pub mod Draining
use echo_frame.Base.{
  ℕ, zero, suc, Bool, true, false, ◌&&◌, ◌||◌, not, Option, none, some, List, [], ◌∷◌, ◌++◌,
  if◌then◌else◌, map,
}
use echo_frame.Util.ThreadQueue.{Popped, waits, ended, pop_front, woken, push_back, is_empty}

-- Where a worker is in `run`.
pub data Phase {ℓ} (J : Type ℓ) : Type ℓ where
  checks gets waiting gone : Phase J
  runs : J → Phase J

pub record Worker {ℓ} (J : Type ℓ) : Type ℓ where
  pub exit : Bool
  pub exit_after_done : Bool
  pub phase : Phase J

-- `taken` has the jobs that workers took from the queue, in the order in which they took them.
pub record Pool {ℓ} (J : Type ℓ) : Type ℓ where
  pub workers : List (Worker J)
  pub job_queue : List J
  pub taken : List J

-- A worker goes on by one step, where a wait ends by a signal if the argument is true; or its flags
-- are written, `exit_` and `exit_after_done_`.
pub data Action : Type 0 where
  goes_on : Bool → Action
  told_exit told_done : Action

pub data Event {ℓ} (J : Type ℓ) : Type ℓ where
  exec : J → Event J
  acts : ℕ → Action → Event J

-- A worker, the queue that it leaves and the jobs that it took.
abbrev pub After {ℓ} : Type ℓ → Type ℓ
After J = Worker J × List J × List J

module _ {ℓ} {J : Type ℓ} where
  abbrev pub goes : Phase J → Worker J → Worker J
  goes phase w = record w { phase = phase }

  -- `terminate`
  abbrev pub terminate : Worker J → Worker J
  terminate w = record w { exit = true }

  -- `TerminateAfterAllDone`
  abbrev pub terminate_after_all_done : Worker J → Worker J
  terminate_after_all_done w = record w { exit = true; exit_after_done = true }

  abbrev pub may_exit : Worker J → List J → Bool
  may_exit w queue = w.exit && (w.exit_after_done && is_empty queue || not w.exit_after_done)

  -- `stop` and `StopAfterAllDone`, with no worker's step between those of the loop.
  unfoldable pub stop : Pool J → Pool J
  stop p = record p { workers = map terminate p.workers }

  unfoldable pub stop_after_all_done : Pool J → Pool J
  stop_after_all_done p = record p { workers = map terminate_after_all_done p.workers }

  abbrev pub new_worker : Worker J
  new_worker = record { exit = false; exit_after_done = false; phase = checks }

  abbrev pub new_workers : ℕ → List (Worker J)
  new_workers zero = []
  new_workers (suc n) = new_worker ∷ new_workers n

  -- `initialize`: the workers of an earlier call stay in the list.
  unfoldable pub initialize : ℕ → Pool J → Pool J
  initialize num p = record p { workers = (stop p).workers ++ new_workers num; job_queue = [] }

  abbrev pub phase_gone : Phase J → Bool
  phase_gone checks = false
  phase_gone gets = false
  phase_gone waiting = false
  phase_gone gone = true
  phase_gone (runs job) = false

  abbrev pub is_gone : Worker J → Bool
  is_gone w = phase_gone w.phase

  unfoldable pub all_gone : List (Worker J) → Bool
  all_gone [] = true
  all_gone (w ∷ ws) = is_gone w && all_gone ws

  -- `wait`: `none` as long as a thread cannot be joined.
  unfoldable pub wait : Pool J → Option (Pool J)
  wait p = if all_gone p.workers then some (record p { workers = []; job_queue = [] }) else none

-- `valid` tells whether a job is there and can be called.
module _ {ℓ} {J : Type ℓ} (valid : J → Bool) where
  -- `GetJob` and the run of the job.
  abbrev pub with_job : Worker J → Popped J → After J
  with_job w (waits queue) = (goes waiting w, queue, [])
  with_job w (ended rv none queue) = (goes checks w, queue, [])
  with_job w (ended rv (some job) queue) =
      (goes (if valid job then runs job else checks) w, queue, job ∷ [])

  -- `GetJob` up to the wait.
  abbrev pub get_job : Worker J → List J → After J
  get_job w queue = with_job w (pop_front 500 queue)

  -- `run`, from where the worker is.
  abbrev pub in_phase : Phase J → Bool → Worker J → List J → After J
  in_phase checks signalled w queue = (goes (if may_exit w queue then gone else gets) w, queue, [])
  in_phase gets signalled w queue = get_job w queue
  in_phase waiting signalled w queue = with_job w (woken signalled queue)
  in_phase (runs job) signalled w queue = (goes checks w, queue, [])
  in_phase gone signalled w queue = (w, queue, [])

  abbrev pub act : Action → Worker J → List J → After J
  act (goes_on signalled) w queue = in_phase w.phase signalled w queue
  act told_exit w queue = (terminate w, queue, [])
  act told_done w queue = (record w { exit_after_done = true }, queue, [])

  -- The step of the worker at an index.
  unfoldable pub act_at : ℕ → Action → List (Worker J) → List J → List (Worker J) × List J × List J
  act_at n a [] queue = ([], queue, [])
  act_at zero a (w ∷ ws) queue = let (next, left, took) = act a w queue in (next ∷ ws, left, took)
  act_at (suc n) a (w ∷ ws) queue =
      let (rest, left, took) = act_at n a ws queue in (w ∷ rest, left, took)

  unfoldable pub step : Pool J → Event J → Pool J
  step p (exec job) = record p { job_queue = push_back job p.job_queue }
  step p (acts n a) =
      let (ws, left, took) = act_at n a p.workers p.job_queue in
      record { workers = ws; job_queue = left; taken = p.taken ++ took }

  unfoldable pub run : Pool J → List (Event J) → Pool J
  run p [] = p
  run p (e ∷ es) = run (step p e) es

-- ===== src/Util/ThreadPool/Fifo.antt =====
-- The pool as a queue of jobs.
use echo_frame.Base.{
  ℕ, zero, suc, ◌≡◌, refl, sym, ap, ◌∙◌, Bool, true, false, List, [], ◌∷◌, ◌++◌, append-nil,
  append_assoc,
}
use echo_frame.Util.ThreadQueue.{pop_front}
use echo_frame.Util.ThreadPool.{
  Phase, checks, gets, waiting, gone, runs, Worker, Pool, Event, exec, acts, Action, goes_on,
  told_exit, told_done, in_phase, act, act_at, step, run,
}

-- The jobs that a run of events adds.
unfoldable pub accepted {ℓ} : {J : Type ℓ} → List (Event J) → List J
accepted [] = []
accepted (exec job ∷ es) = job ∷ accepted es
accepted (acts n a ∷ es) = accepted es

module _ {ℓ} {J : Type ℓ} (valid : J → Bool) where
  in_phase-keeps :
      (phase : Phase J) (signalled : Bool) (w : Worker J) (queue : List J)
      → (in_phase valid phase signalled w queue).2 ++ (in_phase valid phase signalled w queue).1
        ≡ queue
  unfolding pop_front
  in_phase-keeps checks signalled w queue = refl
  in_phase-keeps gets signalled w [] = refl
  in_phase-keeps gets signalled w (job ∷ queue) = refl
  in_phase-keeps waiting true w [] = refl
  in_phase-keeps waiting true w (job ∷ queue) = refl
  in_phase-keeps waiting false w queue = refl
  in_phase-keeps (runs job) signalled w queue = refl
  in_phase-keeps gone signalled w queue = refl

  act-keeps :
      (a : Action) (w : Worker J) (queue : List J)
      → (act valid a w queue).2 ++ (act valid a w queue).1 ≡ queue
  act-keeps (goes_on signalled) w queue = in_phase-keeps w.phase signalled w queue
  act-keeps told_exit w queue = refl
  act-keeps told_done w queue = refl

  act_at-keeps :
      (n : ℕ) (a : Action) (ws : List (Worker J)) (queue : List J)
      → (act_at valid n a ws queue).2 ++ (act_at valid n a ws queue).1 ≡ queue
  unfolding act_at
  act_at-keeps n a [] queue = refl
  act_at-keeps zero a (w ∷ ws) queue = act-keeps a w queue
  act_at-keeps (suc n) a (w ∷ ws) queue = act_at-keeps n a ws queue

  step-log :
      (p : Pool J) (e : Event J)
      → (step valid p e).taken ++ (step valid p e).job_queue
        ≡ (p.taken ++ p.job_queue) ++ accepted (e ∷ [])
  unfolding step accepted
  step-log p (exec job) = sym (append_assoc p.taken p.job_queue (job ∷ []))
  step-log p (acts n a) =
      append_assoc p.taken (act_at valid n a p.workers p.job_queue).2
        (act_at valid n a p.workers p.job_queue).1
      ∙ ap (λ q. p.taken ++ q) (act_at-keeps n a p.workers p.job_queue)
      ∙ sym (append-nil (p.taken ++ p.job_queue))

  accepted-cons :
      (e : Event J) (es : List (Event J)) → accepted (e ∷ []) ++ accepted es ≡ accepted (e ∷ es)
  unfolding accepted
  accepted-cons (exec job) es = refl
  accepted-cons (acts n a) es = refl

  -- The pool is a queue: whatever the order in which the caller and the workers take their steps, the
  -- jobs that were taken, followed by those that wait, are the jobs that had been taken or waited
  -- before, followed by those that were added since, each once and in their order.
  pub run-log :
      (p : Pool J) (es : List (Event J))
      → (run valid p es).taken ++ (run valid p es).job_queue
        ≡ (p.taken ++ p.job_queue) ++ accepted es
  unfolding run accepted
  run-log p [] = sym (append-nil (p.taken ++ p.job_queue))
  run-log p (e ∷ es) =
      run-log (step valid p e) es
      ∙ ap (λ q. q ++ accepted es) (step-log p e)
      ∙ append_assoc (p.taken ++ p.job_queue) (accepted (e ∷ [])) (accepted es)
      ∙ ap (λ q. (p.taken ++ p.job_queue) ++ q) (accepted-cons e es)

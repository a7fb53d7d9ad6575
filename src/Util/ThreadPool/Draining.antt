-- ===== src/Util/ThreadPool/Draining.antt =====
-- What `StopAfterAllDone` leaves of the jobs that wait.
use echo_frame.Base.{
  ℕ, zero, suc, ◌≡◌, ◌≢◌, ◌⊎◌, inl, inr, refl, sym, ap, ◌∙◌, Bool, true, false, ◌&&◌, List, [], ◌∷◌,
  ◌++◌, if◌then◌else◌, map, append-nil, Bool-cases,
}
use echo_frame.Server.Packets.Frames.{All}
use echo_frame.Util.ThreadQueue.{pop_front, is_empty}
use echo_frame.Util.ThreadPool.{
  Phase, checks, gets, waiting, gone, runs, Worker, Pool, Event, exec, acts, Action, goes_on,
  told_exit, told_done, in_phase, act, act_at, step, run, stop_after_all_done, is_gone, phase_gone,
  all_gone, terminate_after_all_done,
}
use echo_frame.Util.ThreadPool.Fifo.{accepted, run-log}

module _ {ℓ} {J : Type ℓ} (valid : J → Bool) where
  -- Both flags of a worker are set.
  abbrev IsTold : Worker J → Type 0
  IsTold w = (w.exit ≡ true) × (w.exit_after_done ≡ true)

  in_phase-IsTold :
      (phase : Phase J) (signalled : Bool) (w : Worker J) (queue : List J)
      → IsTold w
      → IsTold (in_phase valid phase signalled w queue).0
  unfolding pop_front
  in_phase-IsTold checks signalled w queue t = t
  in_phase-IsTold gets signalled w [] t = t
  in_phase-IsTold gets signalled w (job ∷ queue) t = t
  in_phase-IsTold waiting true w [] t = t
  in_phase-IsTold waiting true w (job ∷ queue) t = t
  in_phase-IsTold waiting false w queue t = t
  in_phase-IsTold (runs job) signalled w queue t = t
  in_phase-IsTold gone signalled w queue t = t

  act-IsTold :
      (a : Action) (w : Worker J) (queue : List J) → IsTold w → IsTold (act valid a w queue).0
  act-IsTold (goes_on signalled) w queue t = in_phase-IsTold w.phase signalled w queue t
  act-IsTold told_exit w queue (e, d) = (refl, d)
  act-IsTold told_done w queue (e, d) = (e, refl)

  act_at-IsTold :
      (n : ℕ) (a : Action) (ws : List (Worker J)) (queue : List J)
      → All IsTold ws
      → All IsTold (act_at valid n a ws queue).0
  unfolding act_at
  act_at-IsTold n a [] queue t = t
  act_at-IsTold zero a (w ∷ ws) queue (t, ts) = (act-IsTold a w queue t, ts)
  act_at-IsTold (suc n) a (w ∷ ws) queue (t, ts) = (t, act_at-IsTold n a ws queue ts)

  both_true : (a b : Bool) → (a && b) ≡ true → (a ≡ true) × (b ≡ true)
  both_true true b e = (refl, e)
  both_true false b e = cc

  no_jobs : (queue : List J) → is_empty queue ≡ true → queue ≡ []
  no_jobs [] e = refl
  no_jobs (job ∷ queue) e = cc

  -- Whether what is gone after a step was gone before it, or went when no job was there.
  abbrev WasGone : Bool → List J → List J → Type ℓ
  WasGone b queue left = ((b ≡ true) × (left ≡ queue)) ⊎ (left ≡ [])

  not_gone : (b : Bool) (job : J) → phase_gone (if b then runs job else checks) ≢ true
  not_gone true job g = cc
  not_gone false job g = cc

  in_phase-gone :
      (phase : Phase J) (signalled : Bool) (w : Worker J) (queue : List J)
      → IsTold w
      → is_gone (in_phase valid phase signalled w queue).0 ≡ true
      → WasGone (phase_gone phase) queue (in_phase valid phase signalled w queue).1
  unfolding pop_front
  in_phase-gone checks signalled w queue (e, d) g = elim (Bool-cases (is_empty queue)) [
    | inl none_left ↦ inr (no_jobs queue none_left)
    | inr some_left ↦ cc (rw (e, d, some_left) at g)
  ]
  in_phase-gone gets signalled w [] t g = inr refl
  in_phase-gone gets signalled w (job ∷ queue) t g = absurd (not_gone (valid job) job g)
  in_phase-gone waiting true w [] t g = inr refl
  in_phase-gone waiting true w (job ∷ queue) t g = absurd (not_gone (valid job) job g)
  in_phase-gone waiting false w queue t g = cc
  in_phase-gone (runs job) signalled w queue t g = cc
  in_phase-gone gone signalled w queue t g = inl (refl, refl)

  act-gone :
      (a : Action) (w : Worker J) (queue : List J)
      → IsTold w
      → is_gone (act valid a w queue).0 ≡ true
      → WasGone (is_gone w) queue (act valid a w queue).1
  act-gone (goes_on signalled) w queue told g = in_phase-gone w.phase signalled w queue told g
  act-gone told_exit w queue told g = inl (g, refl)
  act-gone told_done w queue told g = inl (g, refl)

  act_at-gone :
      (n : ℕ) (a : Action) (ws : List (Worker J)) (queue : List J)
      → All IsTold ws
      → all_gone (act_at valid n a ws queue).0 ≡ true
      → WasGone (all_gone ws) queue (act_at valid n a ws queue).1
  unfolding act_at all_gone
  act_at-gone n a [] queue t g = inl (refl, refl)
  act_at-gone zero a (w ∷ ws) queue (t, ts) g =
      let (here, rest) = both_true (is_gone (act valid a w queue).0) (all_gone ws) g in
      elim (act-gone a w queue t here) [
        | inl (was, same) ↦ inl (rw (was, rest) refl, same)
        | inr e ↦ inr e
      ]
  act_at-gone (suc n) a (w ∷ ws) queue (t, ts) g =
      let (here, rest) = both_true (is_gone w) (all_gone (act_at valid n a ws queue).0) g in
      elim (act_at-gone n a ws queue ts rest) [
        | inl (was, same) ↦ inl (rw (here, was) refl, same)
        | inr e ↦ inr e
      ]

  -- Told workers that are all gone leave no job.
  abbrev IsDrained : Pool J → Type ℓ
  IsDrained p = All IsTold p.workers × (all_gone p.workers ≡ true → p.job_queue ≡ [])

  acts-IsDrained :
      (p : Pool J) (n : ℕ) (a : Action) → IsDrained p → IsDrained (step valid p (acts n a))
  unfolding step
  acts-IsDrained p n a (told, drained) = (
    act_at-IsTold n a p.workers p.job_queue told,
    λ g. elim (act_at-gone n a p.workers p.job_queue told g) [
      | inl (was, same) ↦ same ∙ drained was
      | inr e ↦ e
    ],
  )

  run-IsDrained :
      (p : Pool J) (es : List (Event J))
      → accepted es ≡ []
      → IsDrained p
      → IsDrained (run valid p es)
  unfolding run accepted
  run-IsDrained p [] e d = d
  run-IsDrained p (exec job ∷ es) e d = cc
  run-IsDrained p (acts n a ∷ es) e d =
      run-IsDrained (step valid p (acts n a)) es e (acts-IsDrained p n a d)

  map-IsTold : (ws : List (Worker J)) → All IsTold (map terminate_after_all_done ws)
  map-IsTold [] = tt
  map-IsTold (w ∷ ws) = ((refl, refl), map-IsTold ws)

  all_gone-stop : (ws : List (Worker J)) → all_gone (map terminate_after_all_done ws) ≡ all_gone ws
  unfolding all_gone
  all_gone-stop [] = refl
  all_gone-stop (w ∷ ws) = ap (λ b. is_gone w && b) (all_gone-stop ws)

  -- Where a worker still runs when all of them are told to stop after all is done, no worker goes
  -- between the tellings, and no job is added from then on: when all workers are gone, they have
  -- taken every job that waited, in order.
  pub stop_after_all_done_lem :
      (p : Pool J) (es : List (Event J))
      → all_gone p.workers ≡ false
      → accepted es ≡ []
      → all_gone (run valid (stop_after_all_done p) es).workers ≡ true
      → (run valid (stop_after_all_done p) es).taken ≡ p.taken ++ p.job_queue
  unfolding stop_after_all_done
  stop_after_all_done_lem p es live quiet g =
      let told : Pool J = stop_after_all_done p in
      let start : IsDrained told =
        (map-IsTold p.workers, λ h. cc (h, all_gone-stop p.workers, live)) in
      let empty : (run valid told es).job_queue ≡ [] = (run-IsDrained told es quiet start).1 g in
      sym (append-nil (run valid told es).taken)
      ∙ ap (λ q. (run valid told es).taken ++ q) (sym empty)
      ∙ run-log valid told es
      ∙ ap (λ q. (p.taken ++ p.job_queue) ++ q) quiet
      ∙ append-nil (p.taken ++ p.job_queue)

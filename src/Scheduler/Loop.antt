-- ===== src/Scheduler/Loop.antt =====
-- Scheduler::Loop of lib/scheduler/scheduler.cpp ends with no job that is due.
use arbore_experiment.Base.{
  ℕ, zero, suc, ◌+◌, ◌≤◌, ◌<◌, ◌≡◌, refl, true, false, some, List, [], ◌∷◌, ltb, if◌then◌else◌,
  arith, inl, inr, Bool-cases, ◌∙◌,
}
use arbore_experiment.Scheduler.{
  Job, queue, cancel, Call, call_queue, call_cancel, run_calls, RepeatType, repeat_none,
  repeat_periodic, repeat_less_and_less, repeat, Run, do_start, handle, handle_popped, pop_job,
  next_job_time, get_queue_size, loop,
}
use arbore_experiment.Scheduler.Order.{From, Sorted, From-le, queue-Sorted, run_calls-Sorted}

-- How many jobs are due at a time.
unfoldable pub due : ℕ → List Job → ℕ
due now [] = 0
due now (j ∷ jobs) = (if ltb j.start_time now then 1 else 0) + due now jobs

-- The calls queue no job that is due.
abbrev Quiet : ℕ → List Call → Type 0
Quiet now [] = Unit {0}
Quiet now (call_queue j ∷ calls) = (now ≤ j.start_time) × Quiet now calls
Quiet now (call_cancel a ∷ calls) = Quiet now calls

module _ (now : ℕ) where
  due-queue :
      (job : Job) (jobs : List Job) → now ≤ job.start_time → due now (queue job jobs) ≡ due now jobs
  unfolding due queue
  due-queue job [] h = ground arith
  due-queue job (j ∷ jobs) h = ground (arith, due-queue job jobs)

  due-cancel : (a : ℕ) (jobs : List Job) → due now (cancel a jobs) ≤ due now jobs
  unfolding due cancel
  due-cancel a [] = omega arith
  due-cancel a (j ∷ jobs) = ground (arith, due-cancel a jobs)

  due-run_calls :
      (calls : List Call) (jobs : List Job)
      → Quiet now calls
      → due now (run_calls calls jobs) ≤ due now jobs
  unfolding run_calls
  due-run_calls [] jobs q = omega arith
  due-run_calls (call_queue j ∷ calls) jobs q =
      omega (arith, due-run_calls calls (queue j jobs) q.1, due-queue j jobs q.0)
  due-run_calls (call_cancel a ∷ calls) jobs q =
      omega (arith, due-run_calls calls (cancel a jobs) q, due-cancel a jobs)

  repeat-later :
      (type : RepeatType) (time : ℕ) (job : Job)
      → now ≤ time
      → (repeat type time job).1 ≡ true
      → now ≤ (repeat type time job).0.start_time
  unfolding repeat
  repeat-later repeat_none time job h e = absurd (ground arith)
  repeat-later repeat_periodic time job h e = omega arith
  repeat-later repeat_less_and_less time job h e = omega arith

  -- A job that is started again has a start time that is not due.
  do_start-later :
      (run : Run) (job : Job)
      → now ≤ run.time
      → (do_start run job).1 ≡ true
      → now ≤ (do_start run job).0.start_time
  unfolding do_start
  do_start-later run job h again = ground (arith, repeat-later job.repeat_type run.time job)

module _ (start : ℕ → Job → Run) (now : ℕ) where
  handle-due :
      (n : ℕ) (job : Job) (jobs : List Job)
      → now ≤ (start n job).time
      → Quiet now (start n job).calls
      → due now (handle start n job jobs) ≤ due now jobs
  unfolding handle
  handle-due n job jobs h q = elim (Bool-cases (do_start (start n job) job).1) [
    | inl again ↦ ground (
      arith,
      due-queue now (do_start (start n job) job).0 (run_calls (start n job).calls jobs),
      do_start-later now (start n job) job,
      due-run_calls now (start n job).calls jobs,
    )
    | inr done ↦ ground (arith, due-run_calls now (start n job).calls jobs)
  ]

  handle-Sorted :
      (n : ℕ) (job : Job) (jobs : List Job) → Sorted jobs → Sorted (handle start n job jobs)
  unfolding handle
  handle-Sorted n job jobs s = elim (Bool-cases (do_start (start n job) job).1) [
    | inl again ↦ rw again (
        queue-Sorted (do_start (start n job) job).0 _ (run_calls-Sorted (start n job).calls jobs s))
    | inr done ↦ rw done (run_calls-Sorted (start n job).calls jobs s)
  ]

  loop_due :
      (n : ℕ) (j : Job) (jobs : List Job)
      → ltb j.start_time now ≡ true
      → loop start (suc n) now (j ∷ jobs) ≡ loop start n now (handle start n j jobs)
  unfolding loop handle_popped pop_job next_job_time get_queue_size
  loop_due n j jobs is = ground arith

  loop_later :
      (n : ℕ) (j : Job) (jobs : List Job)
      → ltb j.start_time now ≡ false
      → loop start (suc n) now (j ∷ jobs) ≡ some (j ∷ jobs)
  unfolding loop next_job_time get_queue_size
  loop_later n j jobs is = ground arith

  -- On a sorted queue, if the clock never gives a time before that of the loop and no Start queues
  -- a job that is due at that time, then Scheduler::Loop with more rounds than there are due jobs
  -- ends, and its queue is sorted with no job due.
  pub loop_ends :
      (fuel : ℕ) (jobs : List Job)
      → Sorted jobs
      → ((n : ℕ) (job : Job) → now ≤ (start n job).time)
      → ((n : ℕ) (job : Job) → Quiet now (start n job).calls)
      → due now jobs < fuel
      → (jobs' : List Job) × (loop start fuel now jobs ≡ some jobs') × From now jobs'
  unfolding due
  loop_ends zero jobs s clock quiet h = absurd (omega arith)
  loop_ends (suc n) [] s clock quiet h = ([], unfold loop get_queue_size in refl, tt)
  loop_ends (suc n) (j ∷ jobs) s clock quiet h = elim (Bool-cases (ltb j.start_time now)) [
    | inl is ↦
        let less = handle-due n j jobs (clock n j) (quiet n j) in
        let (jobs', ends, later) =
          loop_ends n (handle start n j jobs)
            (handle-Sorted n j jobs (From-le 0 j.start_time jobs (omega arith) s.1)) clock quiet
            (ground arith) in
        (jobs', loop_due n j jobs is ∙ ends, later)
    | inr later ↦ (j ∷ jobs, loop_later n j jobs later, (ground arith, s.1))
  ]

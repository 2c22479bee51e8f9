-- ===== src/Tests/Schedulers.antt =====
-- Runs of lib/scheduler.
use arbore_experiment.Base.{ℕ, ◌≡◌, refl, arith, List, [], ◌∷◌, ◌++◌, true, some, ◌+◌}
use arbore_experiment.Scheduler.{
  Job, RepeatType, repeat_none, repeat_periodic, repeat_less_and_less, Run, call_queue, call_cancel,
  queue, cancel, pop_job, next_job_time, get_queue_size, repeat, run_calls, do_start, handle,
  handle_popped, loop,
}
use arbore_experiment.Scheduler.Order.{From, Sorted, up_to, after, queue-stable, run_calls-Sorted}
use arbore_experiment.Scheduler.Loop.{due, loop_ends}

program : Unit {0}
unfolding queue cancel pop_job next_job_time get_queue_size repeat run_calls do_start handle
    handle_popped loop due
program = tt

abbrev job : ℕ → ℕ → RepeatType → Job
job address time type = record {
  address = address;
  start_time = time;
  repeat_type = type;
  repeat_delta = 10;
}

abbrev jobs : List Job
jobs = job 1 5 repeat_periodic ∷ job 2 7 repeat_less_and_less ∷ job 3 60 repeat_none ∷ []

jobs-Sorted : Sorted jobs
jobs-Sorted = omega arith

-- Every job wants to run again, and queues a job of its own.
abbrev start : ℕ → Job → Run
start n j = record {
  calls = call_queue (job (100 + n) 70 repeat_none) ∷ call_cancel 3 ∷ [];
  again = true;
  time = 50;
}

behind_equals :
    queue (job 4 7 repeat_none) jobs
    ≡ job 1 5 repeat_periodic
      ∷ job 2 7 repeat_less_and_less
      ∷ job 4 7 repeat_none
      ∷ job 3 60 repeat_none
      ∷ []
unfolding program
behind_equals = refl

round :
    loop start 3 40 jobs
    ≡ some (
        job 1 60 repeat_periodic
        ∷ record (job 2 60 repeat_less_and_less) { repeat_delta = 20 }
        ∷ job 102 70 repeat_none
        ∷ job 101 70 repeat_none
        ∷ [])
unfolding program
round = refl

queue-stable_example :
    queue (job 4 7 repeat_none) jobs ≡ up_to 7 jobs ++ job 4 7 repeat_none ∷ after 7 jobs
queue-stable_example = queue-stable (job 4 7 repeat_none) jobs jobs-Sorted

run_calls_ends : Sorted (run_calls (call_cancel 1 ∷ call_queue (job 4 7 repeat_none) ∷ []) jobs)
run_calls_ends =
    run_calls-Sorted (call_cancel 1 ∷ call_queue (job 4 7 repeat_none) ∷ []) jobs jobs-Sorted

loop_ends_example : (jobs' : List Job) × (loop start 3 40 jobs ≡ some jobs') × From 40 jobs'
unfolding program
loop_ends_example =
    loop_ends start 40 3 jobs jobs-Sorted (λ n j. omega arith) (λ n j. omega arith) (omega arith)

-- ===== src/Scheduler/Order.antt =====
-- The order of the queue of lib/scheduler/scheduler_queue.cpp.
use arbore_experiment.Base.{ℕ, ◌≤◌, ◌<◌, ◌≡◌, refl, List, [], ◌∷◌, ◌++◌, leb, if◌then◌else◌, arith}
use arbore_experiment.Scheduler.{Job, queue, cancel, Call, call_queue, call_cancel, run_calls}

-- Every start time is at least the bound and that of the job before.
abbrev pub From : ℕ → List Job → Type 0
From lo [] = Unit {0}
From lo (j ∷ jobs) = (lo ≤ j.start_time) × From j.start_time jobs

abbrev pub Sorted : List Job → Type 0
Sorted jobs = From 0 jobs

pub From-le : (lo lo' : ℕ) (jobs : List Job) → lo ≤ lo' → From lo' jobs → From lo jobs
From-le lo lo' [] h s = tt
From-le lo lo' (j ∷ jobs) h s = (omega (arith, h, s.0), s.1)

queue-From :
    (lo : ℕ) (job : Job) (jobs : List Job)
    → lo ≤ job.start_time
    → From lo jobs
    → From lo (queue job jobs)
unfolding queue
queue-From lo job [] h s = (h, tt)
queue-From lo job (j ∷ jobs) h s = ground (arith, queue-From j.start_time job jobs)

pub queue-Sorted : (job : Job) (jobs : List Job) → Sorted jobs → Sorted (queue job jobs)
queue-Sorted job jobs s = queue-From 0 job jobs (omega arith) s

cancel-From : (lo a : ℕ) (jobs : List Job) → From lo jobs → From lo (cancel a jobs)
unfolding cancel
cancel-From lo a [] s = tt
cancel-From lo a (j ∷ jobs) s =
    ground (arith, cancel-From j.start_time a jobs, From-le lo j.start_time jobs)

-- Every series of calls of Queue and Cancel keeps a sorted queue sorted.
pub run_calls-Sorted :
    (calls : List Call) (jobs : List Job) → Sorted jobs → Sorted (run_calls calls jobs)
unfolding run_calls
run_calls-Sorted [] jobs s = s
run_calls-Sorted (call_queue j ∷ calls) jobs s =
    run_calls-Sorted calls (queue j jobs) (queue-Sorted j jobs s)
run_calls-Sorted (call_cancel a ∷ calls) jobs s =
    run_calls-Sorted calls (cancel a jobs) (cancel-From 0 a jobs s)

-- The jobs up to a time, and those after it.
unfoldable pub up_to : ℕ → List Job → List Job
up_to t [] = []
up_to t (j ∷ jobs) = let rest = up_to t jobs in if leb j.start_time t then j ∷ rest else rest

unfoldable pub after : ℕ → List Job → List Job
after t [] = []
after t (j ∷ jobs) = let rest = after t jobs in if leb j.start_time t then rest else j ∷ rest

-- Behind a later job there are only later ones.
up_to-From : (t lo : ℕ) (jobs : List Job) → t < lo → From lo jobs → up_to t jobs ≡ []
unfolding up_to
up_to-From t lo [] h s = refl
up_to-From t lo (j ∷ jobs) h s = ground (arith, up_to-From t j.start_time jobs)

after-From : (t lo : ℕ) (jobs : List Job) → t < lo → From lo jobs → after t jobs ≡ jobs
unfolding after
after-From t lo [] h s = refl
after-From t lo (j ∷ jobs) h s = ground (arith, after-From t j.start_time jobs)

queue-stable-From :
    (lo : ℕ) (job : Job) (jobs : List Job)
    → From lo jobs
    → queue job jobs ≡ up_to job.start_time jobs ++ job ∷ after job.start_time jobs
unfolding queue up_to after
queue-stable-From lo job [] s = refl
queue-stable-From lo job (j ∷ jobs) s = ground (
  arith,
  queue-stable-From j.start_time job jobs,
  up_to-From job.start_time j.start_time jobs,
  after-From job.start_time j.start_time jobs,
)

-- On a sorted queue, Queue puts the job behind all jobs with a start time up to its own and before
-- all later ones, both in their order.
pub queue-stable :
    (job : Job) (jobs : List Job)
    → Sorted jobs
    → queue job jobs ≡ up_to job.start_time jobs ++ job ∷ after job.start_time jobs
queue-stable job jobs s = queue-stable-From 0 job jobs s

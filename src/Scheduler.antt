-- ===== src/Scheduler.antt =====
-- lib/scheduler: the queue of jobs (scheduler_queue.cpp), the repetition of a job (job.cpp) and the
-- loop that starts them (scheduler.cpp), for one scheduler thread.
pub mod Order
pub mod Loop
use arbore_experiment.Base.{
  ℕ, zero, suc, ◌+◌, ◌*◌, Bool, true, false, Option, none, some, List, [], ◌∷◌, ◌&&◌, ltb, not,
  ◌==◌, if◌then◌else◌, length,
}

-- repeat_type_t.
pub data RepeatType : Type 0 where
  repeat_none : RepeatType
  repeat_periodic : RepeatType
  repeat_less_and_less : RepeatType

-- A Job, with its address. The times are doubles in the source, which are compared, added and
-- doubled; they count microseconds here.
pub record Job : Type 0 where
  pub address : ℕ
  pub start_time : ℕ
  pub repeat_type : RepeatType
  pub repeat_delta : ℕ

-- SchedulerQueue::Queue.
unfoldable pub queue : Job → List Job → List Job
queue job [] = job ∷ []
queue job (j ∷ jobs) =
    let rest = queue job jobs in
    if ltb job.start_time j.start_time then job ∷ j ∷ jobs else j ∷ rest

-- PopJob.
unfoldable pub pop_job : List Job → Option Job × List Job
pop_job [] = (none, [])
pop_job (j ∷ jobs) = (some j, jobs)

-- Cancel: the first element that is this pointer.
unfoldable pub cancel : ℕ → List Job → List Job
cancel address [] = []
cancel address (j ∷ jobs) =
    let rest = cancel address jobs in if j.address == address then jobs else j ∷ rest

-- NextJobTime, 0 for no job, and GetQueueSize.
unfoldable pub next_job_time : List Job → ℕ
next_job_time [] = 0
next_job_time (j ∷ jobs) = j.start_time

unfoldable pub get_queue_size : List Job → ℕ
get_queue_size jobs = length jobs

-- The switch of DoStart for a job that wants to be started again, at the time that dtime gives.
unfoldable pub repeat : RepeatType → ℕ → Job → Job × Bool
repeat repeat_none time job = (job, false)
repeat repeat_periodic time job = (record job { start_time = time + job.repeat_delta }, true)
repeat repeat_less_and_less time job =
    (record job { start_time = time + job.repeat_delta; repeat_delta = job.repeat_delta * 2 }, true)

-- What a job's Start can do to the queue.
pub data Call : Type 0 where
  call_queue : Job → Call
  call_cancel : ℕ → Call

unfoldable pub run_calls : List Call → List Job → List Job
run_calls [] jobs = jobs
run_calls (call_queue j ∷ calls) jobs = run_calls calls (queue j jobs)
run_calls (call_cancel a ∷ calls) jobs = run_calls calls (cancel a jobs)

-- A run of the virtual Start, which stands in the subclasses: its calls, its answer, and the time
-- that the clock gives behind it.
pub record Run : Type 0 where
  pub calls : List Call
  pub again : Bool
  pub time : ℕ

-- DoStart.
unfoldable pub do_start : Run → Job → Job × Bool
unfolding repeat
do_start run job = if run.again then repeat job.repeat_type run.time job else (job, false)

-- The run of a job, which may differ from call to call: the number tells the calls apart.
module _ (start : ℕ → Job → Run) where
  -- One round of Scheduler::Loop, for the job that was taken out of the queue.
  unfoldable pub handle : ℕ → Job → List Job → List Job
  handle n job jobs =
      let run = start n job in
      let jobs' = run_calls run.calls jobs in
      let (job', again) = do_start run job in if again then queue job' jobs' else jobs'

  unfoldable pub handle_popped : ℕ → Option Job × List Job → List Job
  handle_popped n (none, jobs) = jobs
  handle_popped n (some job, jobs) = handle n job jobs

  -- Scheduler::Loop at a time, with the rounds that are left.
  unfoldable pub loop : ℕ → ℕ → List Job → Option (List Job)
  loop zero now jobs = none
  loop (suc n) now jobs =
      let rest = loop n now (handle_popped n (pop_job jobs)) in
      if not (get_queue_size jobs == 0) && ltb (next_job_time jobs) now then rest else some jobs

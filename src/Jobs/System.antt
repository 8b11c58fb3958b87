-- ===== src/Jobs/System.antt =====
-- One job with the threads that act on it: the workers of the pools, a thread that joins, and callers of
-- the handle. The threads interleave at the critical sections, and the task may answer anything.
use v8app.Base.{ℕ, ◌+◌, ◌≡◌, ◌≤◌, Bool, true, false, List, ◌∷◌, ◌++◌}
use v8app.Jobs.{
  JobState, TaskPriority, new_job, notify_concurrency_increase, can_run_first_task,
  did_run_first_task, join_begin, Opportunity, wait, run_with, finish, wait_for_run_opportunity,
  join_post, cancel, update_priority, post_on_worker_thread, compute_task_to_post,
}

-- Where the joining thread stands: it has not come, waits for the first time, runs the task, waits
-- again, or is done.
pub data Joiner : Type 0 where
  absent first_wait in_task next_wait gone : Joiner

pub record System : Type 0 where
  pub job : JobState
  -- The workers inside the loop of `V8JobTaskWorker::Run`.
  pub running : ℕ
  pub joiner : Joiner

unfoldable pub start : TaskPriority → ℕ → System
start priority workers = record { job = new_job priority workers; running = 0; joiner = absent }

abbrev pub begun : System → Bool × JobState → System
begun s (true, j) = record s { job = j; running = s.running + 1 }
begun s (false, j) = record s { job = j }

abbrev pub ended : System → ℕ → Bool × JobState → System
ended s others (true, j) = record s { job = j }
ended s others (false, j) = record s { job = j; running = others }

abbrev pub first_chance : System → Opportunity × JobState → System
first_chance s (wait, j) = record s { job = j }
first_chance s (run_with n, j) = record s { job = join_post n j; joiner = in_task }
first_chance s (finish, j) = record s { job = j; joiner = gone }

abbrev pub next_chance : System → Opportunity × JobState → System
next_chance s (wait, j) = record s { job = j }
next_chance s (run_with n, j) = record s { job = j; joiner = in_task }
next_chance s (finish, j) = record s { job = j; joiner = gone }

pub data Step (s : System) : System → Type 0 where
  notify :
      (task_max : ℕ → ℕ) → Step s (record s { job = notify_concurrency_increase task_max s.job })
  -- A thread that read the limit and the priority before another step comes to post, which is the end of
  -- `NotifyConcurrencyIncrease` and of `DidRunFirstTask` outside their locks.
  late_post :
      (limit : ℕ) (p : TaskPriority)
      → limit ≤ s.job.num_workers_available
      → Step s (record s {
        job =
            post_on_worker_thread
              (compute_task_to_post limit s.job).0
              p
              (compute_task_to_post limit s.job).1;
      })
  -- A pool takes the worker `p` from among those that were posted, and it begins.
  begin :
      (task_max : ℕ → ℕ) (before after : List TaskPriority) (p : TaskPriority)
      → s.job.posted ≡ before ++ (p ∷ after)
      → Step s (begun s (can_run_first_task task_max (record (s.job) { posted = before ++ after })))
  -- A running worker returns from the task; the others go on.
  return :
      (task_max later_max : ℕ → ℕ) (others : ℕ)
      → s.running ≡ others + 1
      → Step s (ended s others (did_run_first_task task_max later_max s.job))
  join : s.joiner ≡ absent → Step s (record s { job = join_begin s.job; joiner = first_wait })
  first_try :
      (task_max : ℕ → ℕ)
      → s.joiner ≡ first_wait
      → Step s (first_chance s (wait_for_run_opportunity task_max s.job))
  join_return : s.joiner ≡ in_task → Step s (record s { joiner = next_wait })
  next_try :
      (task_max : ℕ → ℕ)
      → s.joiner ≡ next_wait
      → Step s (next_chance s (wait_for_run_opportunity task_max s.job))
  cancels : Step s (record s { job = cancel s.job })
  sets_priority : (p : TaskPriority) → Step s (record s { job = update_priority p s.job })

pub data Reach (s : System) : System → Type 0 where
  here : Reach s s
  next : {t u : System} → Reach s t → Step t u → Reach s u

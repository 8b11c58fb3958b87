-- ===== src/Jobs.antt =====
-- libs/jsRuntime's V8Jobs (include/V8Jobs.h, src/V8Jobs.cc): the state of one V8 job. One function is what
-- a method does when no other thread comes in between. What the job's task answers to `GetMaxConcurrency` at that moment is the
-- argument `task_max`. The workers that were given to the platform and have not begun yet are the list
-- `posted`, with the priority that chose the pool. Counters only grow below the number of workers, so
-- an increment is not reduced modulo 2^64; a decrement is.
pub mod TaskIds
pub mod System
pub mod Invariant
pub mod Reachable
pub mod Delegate
mod Tests
use v8app.Base.{
  ℕ, zero, suc, ◌+◌, ◌-◌, ◌%◌, ◌^◌, ◌≡◌, Bool, true, false, ◌&&◌, ◌||◌, List, [], ◌∷◌, ◌++◌, arith,
  ltb, leb, ◌==◌, if◌then◌else◌, not, min,
}

pub data TaskPriority : Type 0 where
  best_effort user_visible user_blocking : TaskPriority

pub record JobState : Type 0 where
  pub canceled : Bool
  pub priority : TaskPriority
  pub active_tasks : ℕ
  pub pending_tasks : ℕ
  pub num_workers_available : ℕ
  pub posted : List TaskPriority

pub new_job : TaskPriority → ℕ → JobState
new_job priority num_workers = record {
  canceled = false;
  priority = priority;
  active_tasks = 0;
  pending_tasks = 0;
  num_workers_available = num_workers;
  posted = [];
}

-- `n - 1` in `size_t`.
abbrev pub dec : ℕ → ℕ
dec n = if n == 0 then 2 ^ 64 - 1 else n - 1

pub get_max_concurrency : (ℕ → ℕ) → JobState → ℕ → ℕ
get_max_concurrency task_max s worker_count = min (task_max worker_count) s.num_workers_available

pub compute_task_to_post : ℕ → JobState → ℕ × JobState
compute_task_to_post max_concurrency s =
    if ltb (s.active_tasks + s.pending_tasks) max_concurrency
    then (
      max_concurrency - (s.active_tasks + s.pending_tasks),
      record s {
        pending_tasks = s.pending_tasks + (max_concurrency - (s.active_tasks + s.pending_tasks));
      },
    )
    else (0, s)

pub post_on_worker_thread : ℕ → TaskPriority → JobState → JobState
post_on_worker_thread zero priority s = s
post_on_worker_thread (suc n) priority s =
    post_on_worker_thread n priority (record s { posted = s.posted ++ (priority ∷ []) })

pub notify_concurrency_increase : (ℕ → ℕ) → JobState → JobState
unfolding compute_task_to_post get_max_concurrency
notify_concurrency_increase task_max s =
    if s.canceled
    then s
    else let (n, s') = compute_task_to_post (get_max_concurrency task_max s s.active_tasks) s in
      post_on_worker_thread n s.priority s'

pub can_run_first_task : (ℕ → ℕ) → JobState → Bool × JobState
unfolding get_max_concurrency
can_run_first_task task_max s =
    let s' : JobState = record s { pending_tasks = dec s.pending_tasks } in
    if s'.canceled
    then (false, s')
    else if leb (get_max_concurrency task_max s' s'.active_tasks) s'.active_tasks
    then (false, s')
    else (true, record s' { active_tasks = s'.active_tasks + 1 })

-- `later_max` is what the task answers once the lock is released.
pub did_run_first_task : (ℕ → ℕ) → (ℕ → ℕ) → JobState → Bool × JobState
unfolding get_max_concurrency compute_task_to_post
did_run_first_task task_max later_max s =
    if s.canceled || ltb (get_max_concurrency task_max s (dec s.active_tasks)) s.active_tasks
    then (false, record s { active_tasks = dec s.active_tasks })
    else let (n, s') =
        compute_task_to_post (get_max_concurrency later_max s (dec s.active_tasks)) s in
      (true, post_on_worker_thread n s.priority s')

-- The first critical section of `Join`.
pub join_begin : JobState → JobState
join_begin s = record s {
  priority = user_blocking;
  active_tasks = s.active_tasks + 1;
  num_workers_available = s.num_workers_available + 1;
}

-- What one evaluation of the loop in `WaitForRunOpportunity` comes to.
pub data Opportunity : Type 0 where
  wait : Opportunity
  run_with : ℕ → Opportunity
  finish : Opportunity

pub wait_for_run_opportunity : (ℕ → ℕ) → JobState → Opportunity × JobState
unfolding get_max_concurrency
wait_for_run_opportunity task_max s =
    let max_concurrency = get_max_concurrency task_max s (dec s.active_tasks) in
    if ltb max_concurrency s.active_tasks && ltb 1 s.active_tasks
    then (wait, s)
    else if not (max_concurrency == 0)
    then (run_with max_concurrency, s)
    else (finish, record s { active_tasks = 0; canceled = true })

-- What `Join` posts before it runs the task for the first time.
pub join_post : ℕ → JobState → JobState
unfolding compute_task_to_post
join_post max_concurrency s =
    let (n, s') = compute_task_to_post max_concurrency s in post_on_worker_thread n s.priority s'

-- `CancelAndDetach`, and what `CancelAndWait` does before it waits for `active_tasks` to be 0.
pub cancel : JobState → JobState
cancel s = record s { canceled = true }

is_active : (ℕ → ℕ) → JobState → Bool
is_active task_max s = not (task_max s.active_tasks == 0) || not (s.active_tasks == 0)

pub update_priority : TaskPriority → JobState → JobState
update_priority priority s = record s { priority = priority }

-- ===== src/Jobs/Reachable.antt =====
-- What holds in every state that a job's threads can bring about, and after a cancellation.
use v8app.Base.{ℕ, ◌+◌, ◌≡◌, ◌≤◌, refl, true, List, ◌++◌, arith, length}
use v8app.Jobs.{
  JobState, TaskPriority, new_job, dec, get_max_concurrency, compute_task_to_post,
  post_on_worker_thread, notify_concurrency_increase, can_run_first_task, did_run_first_task,
  join_begin, wait_for_run_opportunity, join_post, cancel, update_priority,
}
use v8app.Jobs.System.{
  Joiner, absent, first_wait, in_task, next_wait, gone, System, start, begun, ended, first_chance,
  next_chance, Step, notify, late_post, begin, return, join, first_try, join_return, next_try,
  cancels, sets_priority, Reach, here, next,
}
use v8app.Jobs.Invariant.{Inv, joins, post-Posted, Step-Inv, start-Inv}

-- A job's own worker count grows by the joining thread.
abbrev pub came : Joiner → ℕ
came absent = 0
came first_wait = 1
came in_task = 1
came next_wait = 1
came gone = 1

-- The fields that posting leaves alone.
record SameJob (j k : JobState) : Type 0 where
  workers : k.num_workers_available ≡ j.num_workers_available
  canceled : k.canceled ≡ j.canceled

fill-SameJob :
    (m : ℕ) (p : TaskPriority) (j : JobState)
    → SameJob j (post_on_worker_thread (compute_task_to_post m j).0 p (compute_task_to_post m j).1)
unfolding compute_task_to_post
fill-SameJob m p j =
    let q = post-Posted (compute_task_to_post m j).0 p (compute_task_to_post m j).1 in
    record { workers = ground (arith, q); canceled = ground (arith, q) }

notify-SameJob :
    (task_max : ℕ → ℕ) (j : JobState) → SameJob j (notify_concurrency_increase task_max j)
unfolding notify_concurrency_increase
notify-SameJob task_max j =
    let q = fill-SameJob (get_max_concurrency task_max j j.active_tasks) j.priority j in
    record { workers = ground (arith, q); canceled = ground (arith, q) }

return-workers :
    (task_max later_max : ℕ → ℕ) (s : System) (others : ℕ)
    → (ended s others (did_run_first_task task_max later_max s.job)).job.num_workers_available
      ≡ s.job.num_workers_available
unfolding did_run_first_task
return-workers task_max later_max s others =
    let q =
      fill-SameJob (get_max_concurrency later_max s.job (dec s.job.active_tasks)) s.job.priority
        s.job in
    ground (arith, q)

abbrev Grows : System → System → Type 0
Grows s t =
    t.job.num_workers_available + came s.joiner ≡ s.job.num_workers_available + came t.joiner

first_try-Grows :
    (task_max : ℕ → ℕ) (s : System)
    → s.joiner ≡ first_wait
    → Grows s (first_chance s (wait_for_run_opportunity task_max s.job))
unfolding wait_for_run_opportunity join_post
first_try-Grows task_max s e =
    let limit = get_max_concurrency task_max s.job (dec s.job.active_tasks) in
    ground (arith, fill-SameJob limit s.job.priority s.job)

next_try-Grows :
    (task_max : ℕ → ℕ) (s : System)
    → s.joiner ≡ next_wait
    → Grows s (next_chance s (wait_for_run_opportunity task_max s.job))
unfolding wait_for_run_opportunity
next_try-Grows task_max s e = ground arith

Step-Grows : {s t : System} → Step s t → Grows s t
unfolding can_run_first_task join_begin cancel update_priority
Step-Grows {s} (notify task_max) = let q = notify-SameJob task_max s.job in ground (arith, q)
Step-Grows {s} (late_post m p h) = let q = fill-SameJob m p s.job in ground (arith, q)
Step-Grows (begin task_max before after p e) = ground arith
Step-Grows {s} (return task_max later_max others e) =
    ground (arith, return-workers task_max later_max s others)
Step-Grows (join e) = ground arith
Step-Grows {s} (first_try task_max e) = first_try-Grows task_max s e
Step-Grows (join_return e) = ground arith
Step-Grows {s} (next_try task_max e) = next_try-Grows task_max s e
Step-Grows cancels = refl
Step-Grows (sets_priority p) = refl

Reach-workers :
    (p : TaskPriority) (workers : ℕ) {s : System}
    → Reach (start p workers) s
    → s.job.num_workers_available ≡ workers + came s.joiner
Reach-workers p workers here = unfold start new_job in omega arith
Reach-workers p workers (next r st) = omega (arith, Step-Grows st, Reach-workers p workers r)

Reach-Inv : (p : TaskPriority) (workers : ℕ) {s : System} → Reach (start p workers) s → Inv s
Reach-Inv p workers here = start-Inv p workers
Reach-Inv p workers (next r st) = Step-Inv st (Reach-Inv p workers r)

-- Whatever the threads of a job do and whatever its task answers, the pending tasks are as many as the
-- posted workers that have not begun, the active ones as many as the threads in the task or about to
-- enter it, and both together are no more than the workers that the job was made for and the thread
-- that joined.
pub reach_counts :
    (p : TaskPriority) (workers : ℕ) (s : System)
    → Reach (start p workers) s
    → (s.job.pending_tasks ≡ length s.job.posted)
      × (s.job.active_tasks ≡ s.running + joins s.joiner)
      × (s.job.active_tasks + s.job.pending_tasks ≤ workers + came s.joiner)
reach_counts p workers s r =
    let c = Reach-Inv p workers r in
    (c.pending, c.active, omega (arith, c.bounded, Reach-workers p workers r))

-- The returns of workers from the task along a run.
abbrev returned : {s t : System} → Step s t → ℕ
returned (return m l o e) = 1
returned _ = 0

pub returns : {s t : System} → Reach s t → ℕ
returns here = 0
returns (next r st) = returns r + returned st

-- A step from a canceled job.
abbrev Stays : (s t : System) → ℕ → Type 0
Stays s t n = (t.job.canceled ≡ true) × (t.running + n ≡ s.running)

return-Stays :
    (task_max later_max : ℕ → ℕ) (s : System) (others : ℕ)
    → s.running ≡ others + 1
    → s.job.canceled ≡ true
    → Stays s (ended s others (did_run_first_task task_max later_max s.job)) 1
unfolding did_run_first_task
return-Stays task_max later_max s others e h = ground arith

begin-Stays :
    (task_max : ℕ → ℕ) (s : System) (rest : List TaskPriority)
    → s.job.canceled ≡ true
    → Stays s (begun s (can_run_first_task task_max (record (s.job) { posted = rest }))) 0
unfolding can_run_first_task
begin-Stays task_max s rest h = ground arith

first_try-Stays :
    (task_max : ℕ → ℕ) (s : System)
    → s.job.canceled ≡ true
    → Stays s (first_chance s (wait_for_run_opportunity task_max s.job)) 0
unfolding wait_for_run_opportunity join_post
first_try-Stays task_max s h =
    let limit = get_max_concurrency task_max s.job (dec s.job.active_tasks) in
    ground (arith, fill-SameJob limit s.job.priority s.job)

next_try-Stays :
    (task_max : ℕ → ℕ) (s : System)
    → s.job.canceled ≡ true
    → Stays s (next_chance s (wait_for_run_opportunity task_max s.job)) 0
unfolding wait_for_run_opportunity
next_try-Stays task_max s h = ground arith

Step-Stays : {s t : System} (st : Step s t) → s.job.canceled ≡ true → Stays s t (returned st)
unfolding join_begin cancel update_priority
Step-Stays {s} (notify m) h = let q = notify-SameJob m s.job in ground (arith, q)
Step-Stays {s} (late_post m p l) h = let q = fill-SameJob m p s.job in ground (arith, q)
Step-Stays {s} (begin m b a p e) h = begin-Stays m s (b ++ a) h
Step-Stays {s} (return m l o e) h = return-Stays m l s o e h
Step-Stays (join e) h = ground arith
Step-Stays {s} (first_try m e) h = first_try-Stays m s h
Step-Stays (join_return e) h = ground arith
Step-Stays {s} (next_try m e) h = next_try-Stays m s h
Step-Stays cancels h = ground arith
Step-Stays (sets_priority p) h = ground arith

-- Once a job is canceled it stays so, no worker enters the task any more, and each worker that returns
-- from it leaves: along any run the workers still inside and those that returned are together the
-- workers that were inside at the cancellation.
pub canceled_drains :
    (s t : System) (r : Reach s t)
    → s.job.canceled ≡ true
    → (t.job.canceled ≡ true) × (t.running + returns r ≡ s.running)
unfolding returns
canceled_drains s _ here h = (h, omega arith)
canceled_drains s t (next {t = u} r st) h =
    let (c, n) = canceled_drains s u r h in let (c', n') = Step-Stays st c in (c', omega arith)

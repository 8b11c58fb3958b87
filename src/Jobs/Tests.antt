-- ===== src/Jobs/Tests.antt =====
-- Runs of a job and of its task ids, and their theorems at concrete inputs.
use v8app.Base.{
  ℕ, zero, suc, ◌≡◌, ◌+◌, ◌≤◌, refl, true, false, List, [], ◌∷◌, ◌++◌, arith, length, Bool,
}
use v8app.Jobs.{
  new_job, user_visible, can_run_first_task, notify_concurrency_increase, did_run_first_task,
  cancel, post_on_worker_thread,
}
use v8app.Jobs.System.{
  System, absent, start, begun, ended, Reach, here, next, notify, begin, return, cancels,
}
use v8app.Jobs.Invariant.{joins}
use v8app.Jobs.Reachable.{came, reach_counts, canceled_drains, returns}
use v8app.Jobs.TaskIds.{find_first_free_task_id, with_id, alone, five, entered, returned}
use v8app.Jobs.TaskIds.Race.{interleave, both_choose, duplicate_ids}

abbrev asks_two : ℕ → ℕ
asks_two n = 2

abbrev asks_none : ℕ → ℕ
asks_none n = 0

-- A job for four workers: the task wants two, one of the two posted workers begins, the job is canceled,
-- and the worker returns.
abbrev notified : System
notified = record (start user_visible 4) {
  job = notify_concurrency_increase asks_two (start user_visible 4).job;
}

abbrev working : System
working =
    begun notified
      (can_run_first_task asks_two (record (notified.job) { posted = [] ++ (user_visible ∷ []) }))

abbrev stopped : System
stopped = record working { job = cancel working.job }

abbrev drained : System
drained = ended stopped 0 (did_run_first_task asks_none asks_none stopped.job)

two_posted : notified.job.posted ≡ [] ++ (user_visible ∷ user_visible ∷ [])
unfolding notify_concurrency_increase post_on_worker_thread start new_job
two_posted = refl

one_runs : stopped.running ≡ 0 + 1
unfolding can_run_first_task cancel notify_concurrency_increase start new_job post_on_worker_thread
one_runs = refl

drained_test : drained ≡ record {
  job = record {
    canceled = true;
    priority = user_visible;
    active_tasks = 0;
    pending_tasks = 1;
    num_workers_available = 4;
    posted = user_visible ∷ [];
  };
  running = 0;
  joiner = absent;
}
unfolding notify_concurrency_increase post_on_worker_thread can_run_first_task did_run_first_task
    cancel start new_job
drained_test = refl

abbrev before_cancel : Reach (start user_visible 4) working
before_cancel =
    next (next here (notify asks_two))
      (begin asks_two [] (user_visible ∷ []) user_visible two_posted)

abbrev after_cancel : Reach stopped drained
after_cancel = next here (return asks_none asks_none 0 one_runs)

is_canceled : stopped.job.canceled ≡ true
unfolding cancel
is_canceled = refl

reach_counts_example :
    (drained.job.pending_tasks ≡ length drained.job.posted)
    × (drained.job.active_tasks ≡ drained.running + joins drained.joiner)
    × (drained.job.active_tasks + drained.job.pending_tasks ≤ 4 + came drained.joiner)
reach_counts_example =
    reach_counts user_visible 4 drained
      (next (next before_cancel cancels) (return asks_none asks_none 0 one_runs))

canceled_drains_example :
    (drained.job.canceled ≡ true) × (drained.running + returns after_cancel ≡ stopped.running)
canceled_drains_example = canceled_drains stopped drained after_cancel is_canceled

-- 32 task ids, of which the first is taken.
abbrev free_ids : ℕ → List Bool
free_ids zero = []
free_ids (suc n) = false ∷ free_ids n

abbrev one_taken : List Bool
one_taken = true ∷ free_ids 31

-- The first exchange fails although no other thread is there: the id is handed out unmarked.
unmarked : alone (five true false) one_taken entered ≡ (one_taken, returned 1)
unfolding alone
unmarked = refl

first_free_test : find_first_free_task_id 0 one_taken ≡ 1
unfolding find_first_free_task_id
first_free_test = refl

duplicate_ids_example :
    interleave both_choose (record { word = one_taken; one = entered; other = entered })
    ≡ record { word = with_id one_taken 1; one = returned 1; other = returned 1 }
duplicate_ids_example = duplicate_ids one_taken 1 refl first_free_test refl (omega arith)

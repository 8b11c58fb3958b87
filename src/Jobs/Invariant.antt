-- ===== src/Jobs/Invariant.antt =====
-- What holds of a job whatever its threads do.
use v8app.Base.{
  ℕ, zero, suc, ◌+◌, ◌≡◌, ◌≤◌, refl, Bool, ◌&&◌, ◌||◌, not, List, [], ◌∷◌, ◌++◌, arith, length,
  length-append, ltb, ◌==◌, if_true, if_false, Bool-cases, inl, inr, ap,
}
use v8app.Jobs.{
  JobState, TaskPriority, new_job, dec, get_max_concurrency, compute_task_to_post,
  post_on_worker_thread, notify_concurrency_increase, can_run_first_task, did_run_first_task,
  join_begin, Opportunity, wait, run_with, finish, wait_for_run_opportunity, join_post, cancel,
  update_priority,
}
use v8app.Jobs.System.{
  Joiner, absent, first_wait, in_task, next_wait, gone, System, start, begun, ended, first_chance,
  next_chance, Step, notify, late_post, begin, return, join, first_try, join_return, next_try,
  cancels, sets_priority,
}

-- The joining thread counts as one active task until it is done.
abbrev pub joins : Joiner → ℕ
joins absent = 0
joins first_wait = 1
joins in_task = 1
joins next_wait = 1
joins gone = 0

-- The counters of a job are in order for a number of threads that are in its task or about to enter it:
-- each pending task is a posted worker, each active one such a thread, and together they are no more
-- than the workers.
pub record Counts (threads : ℕ) (j : JobState) : Type 0 where
  pub pending : j.pending_tasks ≡ length j.posted
  pub active : j.active_tasks ≡ threads
  pub bounded : j.active_tasks + j.pending_tasks ≤ j.num_workers_available

abbrev pub Inv : System → Type 0
Inv s = Counts (s.running + joins s.joiner) s.job

-- What posting does.
pub record Posted (n : ℕ) (s t : JobState) : Type 0 where
  pub more : length t.posted ≡ length s.posted + n
  pub canceled : t.canceled ≡ s.canceled
  pub active : t.active_tasks ≡ s.active_tasks
  pub pending : t.pending_tasks ≡ s.pending_tasks
  pub workers : t.num_workers_available ≡ s.num_workers_available

pub post-Posted :
    (n : ℕ) (p : TaskPriority) (s : JobState) → Posted n s (post_on_worker_thread n p s)
unfolding post_on_worker_thread
post-Posted zero p s = record {
  more = omega arith;
  canceled = refl;
  active = refl;
  pending = refl;
  workers = refl;
}
post-Posted (suc n) p s =
    let h = post-Posted n p (record s { posted = s.posted ++ (p ∷ []) }) in
    record {
      more = omega (arith, h.more, length-append s.posted (p ∷ []));
      canceled = h.canceled;
      active = h.active;
      pending = h.pending;
      workers = h.workers;
    }

fill-Counts :
    (threads m : ℕ) (p : TaskPriority) (j : JobState)
    → m ≤ j.num_workers_available
    → Counts threads j
    → Counts threads
        (post_on_worker_thread (compute_task_to_post m j).0 p (compute_task_to_post m j).1)
unfolding compute_task_to_post
fill-Counts threads m p j h c =
    let q = post-Posted (compute_task_to_post m j).0 p (compute_task_to_post m j).1 in
    record { pending = ground (arith, q); active = ground (arith, q); bounded = ground (arith, q) }

max-le :
    (task_max : ℕ → ℕ) (j : JobState) (n : ℕ)
    → get_max_concurrency task_max j n ≤ j.num_workers_available
unfolding get_max_concurrency
max-le task_max j n = omega arith

notify-Counts :
    (task_max : ℕ → ℕ) (threads : ℕ) (j : JobState)
    → Counts threads j
    → Counts threads (notify_concurrency_increase task_max j)
unfolding notify_concurrency_increase
notify-Counts task_max threads j c = elim (Bool-cases j.canceled) [
  | inl off ↦ rw (if_true j.canceled _ _ off) c
  | inr on ↦ rw (if_false j.canceled _ _ on) (
      fill-Counts threads (get_max_concurrency task_max j j.active_tasks) j.priority j
        (max-le task_max j j.active_tasks) c)
]

begin-Inv :
    (task_max : ℕ → ℕ) (s : System) (before after : List TaskPriority) (p : TaskPriority)
    → s.job.posted ≡ before ++ (p ∷ after)
    → Inv s
    → Inv (begun s (can_run_first_task task_max (record (s.job) { posted = before ++ after })))
unfolding can_run_first_task
begin-Inv task_max s before after p e c = record {
  pending =
      ground (arith, ap length e, length-append before (p ∷ after), length-append before after);
  active = ground arith;
  bounded = ground (arith, ap length e, length-append before (p ∷ after));
}

return-Inv :
    (task_max later_max : ℕ → ℕ) (s : System) (others : ℕ)
    → s.running ≡ others + 1
    → Inv s
    → Inv (ended s others (did_run_first_task task_max later_max s.job))
unfolding did_run_first_task
return-Inv task_max later_max s others e c = elim (Bool-cases stops) [
  | inl yes_stop ↦
      rw (if_true stops _ _ yes_stop)
        (record { pending = c.pending; active = ground arith; bounded = ground arith })
  | inr goes_on ↦ rw (if_false stops _ _ goes_on) (
      fill-Counts (s.running + joins s.joiner)
        (get_max_concurrency later_max s.job (dec s.job.active_tasks)) s.job.priority s.job
        (max-le later_max s.job (dec s.job.active_tasks)) c)
]
  where
    stops : Bool
    stops =
        s.job.canceled
        || ltb (get_max_concurrency task_max s.job (dec s.job.active_tasks)) s.job.active_tasks

-- What the joining thread finds, with `others` workers running.
data Found (others : ℕ) (j : JobState) : Opportunity × JobState → Type 0 where
  waits : Found others j (wait, j)
  runs : (n : ℕ) → n ≤ j.num_workers_available → Found others j (run_with n, j)
  done : (j' : JobState) → others ≡ 0 → Counts 0 j' → Found others j (finish, j')

wait-Found :
    (task_max : ℕ → ℕ) (others : ℕ) (j : JobState)
    → Counts (others + 1) j
    → Found others j (wait_for_run_opportunity task_max j)
unfolding wait_for_run_opportunity
wait-Found task_max others j c = elim (Bool-cases blocked) [
  | inl b ↦ rw (if_true blocked _ _ b) waits
  | inr b ↦ rw (if_false blocked _ _ b) (elim (Bool-cases (not (limit == 0))) [
    | inl r ↦
        rw (if_true (not (limit == 0)) _ _ r) (runs limit (max-le task_max j (dec j.active_tasks)))
    | inr r ↦ rw (if_false (not (limit == 0)) _ _ r) (
        done _ (ground arith)
          (record { pending = c.pending; active = refl; bounded = omega (arith, c.bounded) }))
  ])
]
  where
    limit : ℕ
    limit = get_max_concurrency task_max j (dec j.active_tasks)

    blocked : Bool
    blocked = ltb limit j.active_tasks && ltb 1 j.active_tasks

first_try-Inv :
    (s : System) (f : Opportunity × JobState)
    → s.joiner ≡ first_wait
    → Found s.running s.job f
    → Inv s
    → Inv (first_chance s f)
unfolding join_post
first_try-Inv s _ e waits c = c
first_try-Inv s _ e (runs n h) c = fill-Counts (s.running + 1) n s.job.priority s.job h (rw e at c)
first_try-Inv s _ e (done j' none_left k) c = record {
  pending = k.pending;
  active = omega arith;
  bounded = k.bounded;
}

next_try-Inv :
    (s : System) (f : Opportunity × JobState)
    → s.joiner ≡ next_wait
    → Found s.running s.job f
    → Inv s
    → Inv (next_chance s f)
next_try-Inv s _ e waits c = c
next_try-Inv s _ e (runs n h) c = (rw e at c)
next_try-Inv s _ e (done j' none_left k) c = record {
  pending = k.pending;
  active = omega arith;
  bounded = k.bounded;
}

join-Inv : (s : System) → s.joiner ≡ absent → Inv s → Counts (s.running + 1) (join_begin s.job)
unfolding join_begin
join-Inv s e c =
    let c' : Counts (s.running + 0) s.job = rw e at c in
    record {
      pending = c.pending;
      active = omega (arith, c'.active);
      bounded = omega (arith, c.bounded);
    }

update-Inv :
    (s : System) (p : TaskPriority)
    → Inv s
    → Inv (record s { job = cancel s.job }) × Inv (record s { job = update_priority p s.job })
unfolding cancel update_priority
update-Inv s p c = (
  record { pending = c.pending; active = c.active; bounded = c.bounded },
  record { pending = c.pending; active = c.active; bounded = c.bounded },
)

-- Every step of every thread keeps the counters in order.
pub Step-Inv : {s t : System} → Step s t → Inv s → Inv t
Step-Inv {s} (notify task_max) c = notify-Counts task_max _ s.job c
Step-Inv {s} (late_post m p h) c = fill-Counts _ m p s.job h c
Step-Inv {s} (begin task_max before after p e) c = begin-Inv task_max s before after p e c
Step-Inv {s} (return task_max later_max others e) c = return-Inv task_max later_max s others e c
Step-Inv {s} (join e) c = join-Inv s e c
Step-Inv {s} (first_try task_max e) c =
    first_try-Inv s _ e (wait-Found task_max s.running s.job (rw e at c)) c
Step-Inv (join_return e) c = rw e at c
Step-Inv {s} (next_try task_max e) c =
    next_try-Inv s _ e (wait-Found task_max s.running s.job (rw e at c)) c
Step-Inv {s} cancels c = (update-Inv s TaskPriority.best_effort c).0
Step-Inv {s} (sets_priority p) c = (update-Inv s p c).1

pub start-Inv : (p : TaskPriority) (workers : ℕ) → Inv (start p workers)
unfolding start new_job
start-Inv p workers = record { pending = refl; active = omega arith; bounded = omega arith }

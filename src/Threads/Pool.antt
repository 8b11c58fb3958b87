-- ===== src/Threads/Pool.antt =====
-- ThreadPoolQueue (libs/core/include/Threads/ThreadPoolQueue.h, src/Threads/ThreadPoolQueue.cc): its
-- queue, its flag and where each worker stands in `ProcessTasks`. A worker holds `m_QueueLock` from the
-- test of the condition on to the end of the task, except while it waits; `PostTask` and `Terminate` do
-- not take that lock, so their accesses come between any two of a worker's.
pub mod Exclusion
pub mod Fifo
pub mod LostWakeup
pub mod Workers
mod Tests
use v8app.Base.{
  ℕ, zero, suc, ◌+◌, ◌≡◌, Bool, true, false, ◌||◌, Option, none, some, List, [], ◌∷◌, ◌++◌, map,
  arith, if◌then◌else◌,
}
use v8app.Queues.SafeQueue.{SafeQueue, push_item, get_next_item, may_have_items, new_queue}

pub data Place {ℓ} (A : Type ℓ) : Type ℓ where
  -- In front of the lock, at the start of a round or woken from the wait.
  at_lock : Place A
  -- With the lock, in front of the test of the wait's condition.
  testing : Place A
  -- With the lock, after a test that failed, in front of the wait.
  blocking : Place A
  -- Without the lock, until it is notified.
  waiting : Place A
  -- With the lock, after a test that succeeded.
  ready : Place A
  -- With the lock, in the task.
  running : A → Place A
  gone : Place A

pub record Pool {ℓ} (A : Type ℓ) : Type ℓ where
  pub queue : SafeQueue A
  pub exiting : Bool
  pub workers : List (Place A)
  -- The calls of `PostTask` that have pushed and have not notified yet.
  pub owed : ℕ
  -- Whether `Terminate` has set the flag and has not notified yet.
  pub owes_all : Bool
  -- The tasks that were run, in order.
  pub started : List A

module _ {ℓ} {A : Type ℓ} where
  abbrev pub at_start : ℕ → List (Place A)
  at_start zero = []
  at_start (suc n) = at_lock ∷ at_start n

  pub new_pool : ℕ → Pool A
  unfolding new_queue
  new_pool workers = record {
    queue = new_queue;
    exiting = false;
    workers = at_start workers;
    owed = 0;
    owes_all = false;
    started = [];
  }

  abbrev pub pushed : A → Pool A → Pool A
  pushed x s = record s { queue = push_item x s.queue; owed = s.owed + 1 }

  -- `PostTask` up to its notification.
  post_task : A → Pool A → Bool × Pool A
  post_task x s = if s.exiting then (false, s) else (true, pushed x s)

  -- `Terminate` up to its notification; the joins that follow wait for every worker to be gone.
  unfoldable pub terminate : Pool A → Pool A
  terminate s = if s.exiting then s else record s { exiting = true; owes_all = true }

  -- The test of the wait's condition.
  abbrev pub tested : Pool A → Place A
  tested s = if s.exiting || may_have_items s.queue then ready else blocking

  -- What follows the wait: the way out, or the next item, with the lock still held in the task.
  abbrev pub taken : Pool A → List (Place A) → List (Place A) → Option A × SafeQueue A → Pool A
  taken s before after (some x, q) = record s {
    queue = q;
    workers = before ++ (running x ∷ after);
    started = s.started ++ (x ∷ []);
  }
  taken s before after (none, q) = record s { queue = q; workers = before ++ (at_lock ∷ after) }

  pub process : Pool A → List (Place A) → List (Place A) → Pool A
  process s before after =
      if s.exiting
      then record s { workers = before ++ (gone ∷ after) }
      else taken s before after (get_next_item s.queue)

  abbrev wake : Place A → Place A
  wake waiting = at_lock
  wake at_lock = at_lock
  wake testing = testing
  wake blocking = blocking
  wake ready = ready
  wake (running x) = running x
  wake gone = gone

  abbrev pub holds : Place A → ℕ
  holds at_lock = 0
  holds testing = 1
  holds blocking = 1
  holds waiting = 0
  holds ready = 1
  holds (running x) = 1
  holds gone = 0

  -- The workers that hold the lock.
  pub holders : List (Place A) → ℕ
  holders [] = 0
  holders (w ∷ ws) = holds w + holders ws

  pub wake_all : List (Place A) → List (Place A)
  wake_all [] = []
  wake_all (w ∷ ws) = wake w ∷ wake_all ws

  abbrev pub waits : Place A → ℕ
  waits waiting = 1
  waits _ = 0

  pub waiters : List (Place A) → ℕ
  waiters [] = 0
  waiters (w ∷ ws) = waits w + waiters ws

-- The steps that the pool takes by itself: those of a worker, and the notifications that are due.
pub data Step {ℓ} {A : Type ℓ} (s : Pool A) : Pool A → Type ℓ where
  locks :
      (before after : List (Place A))
      → s.workers ≡ before ++ (at_lock ∷ after)
      → holders s.workers ≡ 0
      → Step s (record s { workers = before ++ (testing ∷ after) })
  tests :
      (before after : List (Place A))
      → s.workers ≡ before ++ (testing ∷ after)
      → Step s (record s { workers = before ++ (tested s ∷ after) })
  blocks :
      (before after : List (Place A))
      → s.workers ≡ before ++ (blocking ∷ after)
      → Step s (record s { workers = before ++ (waiting ∷ after) })
  processes :
      (before after : List (Place A))
      → s.workers ≡ before ++ (ready ∷ after)
      → Step s (process s before after)
  returns :
      (before after : List (Place A)) (x : A)
      → s.workers ≡ before ++ (running x ∷ after)
      → Step s (record s { workers = before ++ (at_lock ∷ after) })
  notifies :
      (before after : List (Place A)) (n : ℕ)
      → s.owed ≡ n + 1
      → s.workers ≡ before ++ (waiting ∷ after)
      → Step s (record s { owed = n; workers = before ++ (at_lock ∷ after) })
  notifies_none : (n : ℕ) → s.owed ≡ n + 1 → waiters s.workers ≡ 0 → Step s (record s { owed = n })
  notifies_all :
      s.owes_all ≡ true → Step s (record s { owes_all = false; workers = wake_all s.workers })

-- What others do to it. The push of `PostTask` may come after a `Terminate` that its test did not see.
pub data Outside {ℓ} {A : Type ℓ} (s : Pool A) : Pool A → Type ℓ where
  posts : (x : A) → Outside s (pushed x s)
  terminates : Outside s (terminate s)
  -- A wait may end for no reason.
  wakes :
      (before after : List (Place A))
      → s.workers ≡ before ++ (waiting ∷ after)
      → Outside s (record s { workers = before ++ (at_lock ∷ after) })

pub data Reach {ℓ} {A : Type ℓ} (s : Pool A) : Pool A → Type ℓ where
  here : Reach s s
  step : {t u : Pool A} → Reach s t → Step t u → Reach s u
  outside : {t u : Pool A} → Reach s t → Outside t u → Reach s u

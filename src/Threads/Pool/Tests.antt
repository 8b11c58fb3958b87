-- ===== src/Threads/Pool/Tests.antt =====
-- Runs of a pool, and its theorems at concrete inputs.
use v8app.Base.{ℕ, ◌≡◌, ◌≤◌, refl, false, [], ◌∷◌, ◌++◌}
use v8app.Queues.SafeQueue.{push_item, new_queue, may_have_items, get_next_item, pop_front}
use v8app.Threads.Pool.{
  at_lock, running, Pool, new_pool, holders, process, waiters, Reach, here, step, outside, locks,
  tests, processes, notifies_none, posts,
}
use v8app.Threads.Pool.Exclusion.{runners, one_at_a_time}
use v8app.Threads.Pool.Fifo.{posted, started_in_order}
use v8app.Threads.Pool.LostWakeup.{IsStuck, forgotten, deaf, lost_wakeup, lost_termination}

-- Two workers and two posted tasks, the first of which is run.
abbrev busy : Pool ℕ
busy = record {
  queue = record { terminated = false; items = 9 ∷ [] };
  exiting = false;
  workers = running 8 ∷ at_lock ∷ [];
  owed = 1;
  owes_all = false;
  started = 8 ∷ [];
}

reach_busy : Reach (new_pool 2) busy
unfolding new_pool new_queue push_item may_have_items get_next_item pop_front process holders
    waiters
reach_busy =
    step
      (step
        (step (step (outside (outside here (posts 8)) (posts 9)) (notifies_none 1 refl refl))
          (locks [] (at_lock ∷ []) refl refl))
        (tests [] (at_lock ∷ []) refl))
      (processes [] (at_lock ∷ []) refl)

one_at_a_time_example : (holders busy.workers ≤ 1) × (runners busy.workers ≤ 1)
one_at_a_time_example = one_at_a_time 2 busy reach_busy

started_in_order_example : busy.started ++ busy.queue.items ≡ posted reach_busy
started_in_order_example = started_in_order 2 busy reach_busy

lost_wakeup_example : Reach {A = ℕ} (new_pool 1) (forgotten 8) × IsStuck {A = ℕ} (forgotten 8)
lost_wakeup_example = lost_wakeup 8

lost_termination_example : Reach {A = ℕ} (new_pool 1) deaf × IsStuck (deaf {A = ℕ})
lost_termination_example = lost_termination

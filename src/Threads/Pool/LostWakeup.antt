-- ===== src/Threads/Pool/LostWakeup.antt =====
-- A notification that comes between a worker's test and its wait is lost.
use v8app.Base.{◌≡◌, refl, true, false, List, [], ◌∷◌, ◌++◌, arith, sym, ◌∙◌}
use v8app.Queues.SafeQueue.{push_item, new_queue, may_have_items}
use v8app.Threads.Pool.{
  Place, at_lock, testing, blocking, waiting, ready, running, Pool, new_pool, terminate, holders,
  wake_all, waiters, Step, locks, tests, blocks, processes, returns, notifies, notifies_none,
  notifies_all, posts, terminates, Reach, here, step, outside,
}

module _ {ℓ} {A : Type ℓ} where
  -- The pool can do nothing more by itself.
  pub IsStuck : Pool A → Type ℓ
  IsStuck s = (t : Pool A) → ¬ Step s t

  only_waiting :
      (w : Place A) (before after : List (Place A))
      → waiting ∷ [] ≡ before ++ (w ∷ after)
      → w ≡ waiting
  only_waiting w [] after e = cc
  only_waiting w (b ∷ []) after e = cc
  only_waiting w (b ∷ c ∷ before) after e = cc

  waits-IsStuck :
      (s : Pool A) → s.workers ≡ waiting ∷ [] → s.owed ≡ 0 → s.owes_all ≡ false → IsStuck s
  unfolding IsStuck
  waits-IsStuck s e o a _ (locks b f h g) = let k = only_waiting at_lock b f (sym e ∙ h) in cc
  waits-IsStuck s e o a _ (tests b f h) = let k = only_waiting testing b f (sym e ∙ h) in cc
  waits-IsStuck s e o a _ (blocks b f h) = let k = only_waiting blocking b f (sym e ∙ h) in cc
  waits-IsStuck s e o a _ (processes b f h) = let k = only_waiting ready b f (sym e ∙ h) in cc
  waits-IsStuck s e o a _ (returns b f x h) = let k = only_waiting (running x) b f (sym e ∙ h) in cc
  waits-IsStuck s e o a _ (notifies b f n h i) = omega arith
  waits-IsStuck s e o a _ (notifies_none n h i) = omega arith
  waits-IsStuck s e o a _ (notifies_all h) = cc

  -- The single worker has found no item and is about to wait.
  abbrev about_to_wait : Pool A
  about_to_wait = record {
    queue = new_queue;
    exiting = false;
    workers = blocking ∷ [];
    owed = 0;
    owes_all = false;
    started = [];
  }

  reach_wait : Reach {A = A} (new_pool 1) about_to_wait
  unfolding new_pool new_queue may_have_items holders
  reach_wait = step (step here (locks [] [] refl refl)) (tests [] [] refl)

  -- A task is queued, every notification is over, and the worker waits.
  pub forgotten : A → Pool A
  unfolding push_item new_queue
  forgotten x = record about_to_wait { queue = push_item x new_queue; workers = waiting ∷ [] }

  -- The pool is terminated, every notification is over, and the worker waits.
  pub deaf : Pool A
  deaf = record about_to_wait { exiting = true; workers = waiting ∷ [] }

  -- With one worker a task can be posted so that it is queued, all that is due has been done, and yet
  -- nothing runs it until something else happens.
  pub lost_wakeup : (x : A) → Reach (new_pool 1) (forgotten x) × IsStuck (forgotten x)
  unfolding forgotten waiters
  lost_wakeup x = (
    step (step (outside reach_wait (posts x)) (notifies_none 0 refl refl)) (blocks [] [] refl),
    waits-IsStuck (forgotten x) refl refl refl,
  )

  -- With one worker `Terminate` can set its flag and notify, and the worker that it then joins waits on.
  pub lost_termination : Reach {A = A} (new_pool 1) deaf × IsStuck deaf
  unfolding deaf wake_all terminate
  lost_termination = (
    step (step (outside reach_wait terminates) (notifies_all refl)) (blocks [] [] refl),
    waits-IsStuck deaf refl refl refl,
  )

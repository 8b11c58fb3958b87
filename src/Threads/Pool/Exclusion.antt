-- ===== src/Threads/Pool/Exclusion.antt =====
-- The lock of a pool has one holder, and a task runs under it.
use v8app.Base.{
  ℕ, zero, suc, ◌+◌, ◌≡◌, ◌≤◌, refl, ap, List, [], ◌∷◌, ◌++◌, arith, Bool-cases, inl, inr, if_true,
  if_false, Option, some, none,
}
use v8app.Queues.SafeQueue.{SafeQueue, get_next_item}
use v8app.Threads.Pool.{
  Place, at_lock, testing, blocking, waiting, ready, running, gone, Pool, at_start, new_pool,
  terminate, tested, taken, process, holds, holders, wake_all, Step, locks, tests, blocks,
  processes, returns, notifies, notifies_none, notifies_all, Outside, posts, terminates, wakes,
  Reach, here, step, outside,
}

holders-at_start {ℓ} : (A : Type ℓ) (n : ℕ) → holders (at_start {A = A} n) ≡ 0
unfolding holders
holders-at_start A zero = refl
holders-at_start A (suc n) = omega (arith, holders-at_start A n)

module _ {ℓ} {A : Type ℓ} where
  holders-split :
      (before : List (Place A)) (w : Place A) (after : List (Place A))
      → holders (before ++ (w ∷ after)) ≡ holders before + (holds w + holders after)
  unfolding holders
  holders-split [] w after = omega arith
  holders-split (b ∷ before) w after = omega (arith, holders-split before w after)

  holders-wake_all : (ws : List (Place A)) → holders (wake_all ws) ≡ holders ws
  unfolding holders wake_all
  holders-wake_all [] = refl
  holders-wake_all (at_lock ∷ ws) = omega (arith, holders-wake_all ws)
  holders-wake_all (testing ∷ ws) = omega (arith, holders-wake_all ws)
  holders-wake_all (blocking ∷ ws) = omega (arith, holders-wake_all ws)
  holders-wake_all (waiting ∷ ws) = omega (arith, holders-wake_all ws)
  holders-wake_all (ready ∷ ws) = omega (arith, holders-wake_all ws)
  holders-wake_all (running x ∷ ws) = omega (arith, holders-wake_all ws)
  holders-wake_all (gone ∷ ws) = omega (arith, holders-wake_all ws)

  -- One worker moves to another place.
  moves :
      (before : List (Place A)) (v w : Place A) (after ws : List (Place A))
      → ws ≡ before ++ (v ∷ after)
      → holders (before ++ (w ∷ after)) + holds v ≡ holders ws + holds w
  moves before v w after ws e =
      omega (arith, ap holders e, holders-split before v after, holders-split before w after)

  tested-holds : (s : Pool A) → holds (tested s) ≡ 1
  tested-holds s = ground arith

  process-holders :
      (s : Pool A) (before after : List (Place A))
      → s.workers ≡ before ++ (ready ∷ after)
      → holders (process s before after).workers ≤ holders s.workers
  unfolding process
  process-holders s before after e = elim (Bool-cases s.exiting) [
    | inl exits ↦
        rw (if_true s.exiting _ _ exits) (omega (arith, moves before ready gone after s.workers e))
    | inr stays ↦ rw (if_false s.exiting _ _ stays) (next (get_next_item s.queue))
  ]
    where
      next :
          (t : Option A × SafeQueue A)
          → holders (taken s before after t).workers ≤ holders s.workers
      next (some x, q) = omega (arith, moves before ready (running x) after s.workers e)
      next (none, q) = omega (arith, moves before ready at_lock after s.workers e)

  step-holders : {s t : Pool A} → Step s t → holders s.workers ≤ 1 → holders t.workers ≤ 1
  step-holders {s} (locks b a e free) h = omega (arith, moves b at_lock testing a s.workers e)
  step-holders {s} (tests b a e) h =
      omega (arith, moves b testing (tested s) a s.workers e, tested-holds s)
  step-holders {s} (blocks b a e) h = omega (arith, moves b blocking waiting a s.workers e)
  step-holders {s} (processes b a e) h = omega (arith, process-holders s b a e)
  step-holders {s} (returns b a x e) h = omega (arith, moves b (running x) at_lock a s.workers e)
  step-holders {s} (notifies b a n o e) h = omega (arith, moves b waiting at_lock a s.workers e)
  step-holders (notifies_none n o e) h = h
  step-holders {s} (notifies_all o) h = omega (arith, holders-wake_all s.workers)

  outside-holders : {s t : Pool A} → Outside s t → holders s.workers ≤ 1 → holders t.workers ≤ 1
  unfolding terminate
  outside-holders (posts x) h = h
  outside-holders terminates h = ground arith
  outside-holders {s} (wakes b a e) h = omega (arith, moves b waiting at_lock a s.workers e)

  abbrev runs : Place A → ℕ
  runs (running x) = 1
  runs _ = 0

  -- The workers inside a task.
  pub runners : List (Place A) → ℕ
  runners [] = 0
  runners (w ∷ ws) = runs w + runners ws

  runners-holders : (ws : List (Place A)) → runners ws ≤ holders ws
  unfolding runners holders
  runners-holders [] = omega arith
  runners-holders (at_lock ∷ ws) = omega (arith, runners-holders ws)
  runners-holders (testing ∷ ws) = omega (arith, runners-holders ws)
  runners-holders (blocking ∷ ws) = omega (arith, runners-holders ws)
  runners-holders (waiting ∷ ws) = omega (arith, runners-holders ws)
  runners-holders (ready ∷ ws) = omega (arith, runners-holders ws)
  runners-holders (running x ∷ ws) = omega (arith, runners-holders ws)
  runners-holders (gone ∷ ws) = omega (arith, runners-holders ws)

  reach-holders : (n : ℕ) {s : Pool A} → Reach (new_pool n) s → holders s.workers ≤ 1
  unfolding new_pool
  reach-holders n here = omega (arith, holders-at_start A n)
  reach-holders n (step r st) = step-holders st (reach-holders n r)
  reach-holders n (outside r o) = outside-holders o (reach-holders n r)

  -- Whatever is posted and in whatever order the threads go, one worker at most holds the lock, and
  -- therefore no two tasks of a pool ever run at the same time, however many workers it has.
  pub one_at_a_time :
      (n : ℕ) (s : Pool A)
      → Reach (new_pool n) s
      → (holders s.workers ≤ 1) × (runners s.workers ≤ 1)
  one_at_a_time n s r =
      let h = reach-holders n r in (h, omega (arith, h, runners-holders s.workers))

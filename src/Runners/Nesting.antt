-- ===== src/Runners/Nesting.antt =====
-- Which tasks a foreground runner hands out inside another task.
use v8app.Base.{
  ℕ, ◌+◌, ◌-◌, ◌≡◌, refl, ap, subst, ◌∙◌, ◌⊎◌, inl, inr, false, not, ◌&&◌, Option, none, some, List,
  [], ◌∷◌, ◌++◌, arith, ◌==◌, All, All-append, Bool-cases, if_true, if_false,
}
use v8app.Queues.SafeQueue
use v8app.Queues.SafeQueue.{SafeQueue}
use v8app.Queues.Delayed.{
  process_delayed, push_item_delayed, push_now, may_have, terminate, new_delayed,
}
use v8app.Queues.Nestable.{
  QueueEntry, Nestability, nestable, non_nestable, pick, get_next_item, push_item,
  push_item_delayed_at, push_non_nestable_item, push_non_nestable_item_delayed, is_non_nestable,
}
use v8app.Queues.Delayed.Contents.{Holds, emplace-All, push-All, process-Holds}
use v8app.Runners.{
  Runner, enter, leave, post_task, post_non_nestable_task, post_delayed_task,
  post_non_nestable_delayed_task, get_next_task, maybe_has_task, terminate_runner, new_runner,
}

-- The calls on a runner, with the time at which they come.
pub data Call {ℓ} (A : Type ℓ) : Type ℓ where
  post : A → Call A
  post_non_nestable : A → Call A
  post_delayed : ℕ → A → Call A
  post_non_nestable_delayed : ℕ → A → Call A
  get : Call A
  poll : Call A
  begin_task : Call A
  end_task : Call A
  stop : Call A

module _ {ℓ} {A : Type ℓ} where
  -- A task that was handed out, with the number of the tasks that were running then.
  abbrev handed_out : ℕ → Option A → List (ℕ × A)
  handed_out running none = []
  handed_out running (some x) = (running, x) ∷ []

  -- The tasks that run after a call, by the calls alone. No task ends that did not begin.
  pub running_after : Call A → ℕ → ℕ
  running_after begin_task running = running + 1
  running_after end_task running = running - 1
  running_after _ running = running

  pub call : ℕ → ℕ → Call A → Runner A → List (ℕ × A) × Runner A
  call now running (post x) r = ([], post_task x r)
  call now running (post_non_nestable x) r = ([], post_non_nestable_task x r)
  call now running (post_delayed delay x) r = ([], post_delayed_task now delay x r)
  call now running (post_non_nestable_delayed delay x) r =
      ([], post_non_nestable_delayed_task now delay x r)
  call now running get r = let (x, r') = get_next_task now r in (handed_out running x, r')
  call now running poll r = ([], (maybe_has_task now r).1)
  call now running begin_task r = ([], enter r)
  call now running end_task r = ([], leave r)
  call now running stop r = ([], terminate_runner r)

  pub run : ℕ → Runner A → List (ℕ × Call A) → List (ℕ × A) × Runner A
  unfolding call running_after
  run running r [] = ([], r)
  run running r ((now, c) ∷ cs) =
      let (out, r') = call now running c r in
      let (outs, r'') = run (running_after c running) r' cs in (out ++ outs, r'')

  -- The depth of the runner is the number of the tasks that run.
  call-nesting_depth :
      (now running : ℕ) (c : Call A) (r : Runner A)
      → (call now running c r).1.nesting_depth ≡ running_after c r.nesting_depth
  unfolding call running_after post_task post_non_nestable_task post_delayed_task
      post_non_nestable_delayed_task get_next_task enter leave maybe_has_task terminate_runner
  call-nesting_depth now running (post x) r = refl
  call-nesting_depth now running (post_non_nestable x) r = refl
  call-nesting_depth now running (post_delayed delay x) r = refl
  call-nesting_depth now running (post_non_nestable_delayed delay x) r = refl
  call-nesting_depth now running get r = refl
  call-nesting_depth now running poll r = refl
  call-nesting_depth now running begin_task r = refl
  call-nesting_depth now running end_task r = refl
  call-nesting_depth now running stop r = ground arith

-- `tag` says of each task whether it was posted as one that nests.
module _ {ℓ} {A : Type ℓ} (tag : A → Nestability) where
  abbrev pub AsPosted : Call A → Type 0
  AsPosted (post x) = tag x ≡ nestable
  AsPosted (post_non_nestable x) = tag x ≡ non_nestable
  AsPosted (post_delayed delay x) = tag x ≡ nestable
  AsPosted (post_non_nestable_delayed delay x) = tag x ≡ non_nestable
  AsPosted _ = Unit

  abbrev IsTagged : QueueEntry A → Type 0
  IsTagged e = tag e.task ≡ e.nestability

  -- A task that is handed out while others run nests.
  abbrev pub MayRun : ℕ × A → Type 0
  MayRun (depth, x) = (depth ≡ 0) ⊎ (tag x ≡ nestable)

  free_to_run :
      (depth : ℕ) (x : A) (n : Nestability)
      → (is_non_nestable n && not (depth == 0)) ≡ false
      → tag x ≡ n
      → MayRun (depth, x)
  free_to_run depth x nestable h e = inr e
  free_to_run depth x non_nestable h e = inl (ground arith)

  pick-MayRun :
      (depth : ℕ) (es : List (QueueEntry A))
      → All IsTagged es
      → All MayRun (handed_out depth (pick depth es).0) × All IsTagged (pick depth es).1
  unfolding pick
  pick-MayRun depth [] a = (tt, tt)
  pick-MayRun depth (e ∷ es) a =
      let waits = is_non_nestable e.nestability && not (depth == 0) in
      let k = pick-MayRun depth es a.1 in
      elim (Bool-cases waits) [
        | inl w ↦ rw (if_true waits _ _ w) (k.0, (a.0, k.1))
        | inr w ↦
            rw (if_false waits _ _ w) ((free_to_run depth e.task e.nestability w a.0, tt), a.1)
      ]

  -- What is handed out may run, and everything that is still held is as it was posted.
  abbrev Sound : List (ℕ × A) × Runner A → Type 0
  Sound (out, r) = All MayRun out × Holds IsTagged r.tasks

  get-Sound :
      (now : ℕ) (r : Runner A)
      → Holds IsTagged r.tasks
      → Sound (handed_out r.nesting_depth (get_next_task now r).0, (get_next_task now r).1)
  unfolding get_next_task get_next_item
  get-Sound now r h = elim (Bool-cases r.tasks.queue.terminated) [
    | inl b ↦ rw (if_true r.tasks.queue.terminated _ _ b) (tt, h)
    | inr b ↦
        let q = process-Holds IsTagged now r.tasks h in
        let k = pick-MayRun r.nesting_depth (process_delayed now r.tasks).0.queue.items q.0 in
        rw (if_false r.tasks.queue.terminated _ _ b) (k.0, (k.1, q.1))
  ]

  push-Sound :
      (x : QueueEntry A) (r : Runner A)
      → IsTagged x
      → Holds IsTagged r.tasks
      → Holds IsTagged (push_now x r.tasks)
  unfolding push_now
  push-Sound x r e h = (push-All IsTagged x r.tasks.queue e h.0, h.1)

  delay-Sound :
      (now delay : ℕ) (x : QueueEntry A) (r : Runner A)
      → IsTagged x
      → Holds IsTagged r.tasks
      → Holds IsTagged (push_item_delayed now delay x r.tasks)
  unfolding push_item_delayed
  delay-Sound now delay x r e h = elim (Bool-cases r.tasks.queue.terminated) [
    | inl b ↦ rw (if_true r.tasks.queue.terminated _ _ b) h
    | inr b ↦
        rw (if_false r.tasks.queue.terminated _ _ b)
          (h.0, emplace-All IsTagged (now + delay) x r.tasks.delayed e h.1)
  ]

  stop-Sound : (r : Runner A) → Holds IsTagged r.tasks → Holds IsTagged (terminate_runner r).tasks
  unfolding terminate_runner terminate SafeQueue.terminate
  stop-Sound r h = elim (Bool-cases r.terminated) [
    | inl b ↦ rw (if_true r.terminated _ _ b) h
    | inr b ↦ rw (if_false r.terminated _ _ b) h
  ]

  call-Sound :
      (now running : ℕ) (c : Call A) (r : Runner A)
      → AsPosted c
      → r.nesting_depth ≡ running
      → Holds IsTagged r.tasks
      → Sound (call now running c r)
  unfolding call post_task post_non_nestable_task post_delayed_task post_non_nestable_delayed_task
      enter leave maybe_has_task may_have push_item push_non_nestable_item push_item_delayed_at
      push_non_nestable_item_delayed
  call-Sound now running (post x) r e d h = (tt, push-Sound _ r e h)
  call-Sound now running (post_non_nestable x) r e d h = (tt, push-Sound _ r e h)
  call-Sound now running (post_delayed delay x) r e d h = (tt, delay-Sound now delay _ r e h)
  call-Sound now running (post_non_nestable_delayed delay x) r e d h =
      (tt, delay-Sound now delay _ r e h)
  call-Sound now running get r e d h =
      subst (λ n. Sound (handed_out n (get_next_task now r).0, (get_next_task now r).1)) d
        (get-Sound now r h)
  call-Sound now running poll r e d h = (tt, process-Holds IsTagged now r.tasks h)
  call-Sound now running begin_task r e d h = (tt, h)
  call-Sound now running end_task r e d h = (tt, h)
  call-Sound now running stop r e d h = (tt, stop-Sound r h)

  run-Sound :
      (running : ℕ) (r : Runner A) (cs : List (ℕ × Call A))
      → All (λ (c : ℕ × Call A). AsPosted c.1) cs
      → r.nesting_depth ≡ running
      → Holds IsTagged r.tasks
      → Sound (run running r cs)
  unfolding run
  run-Sound running r [] a d h = (tt, h)
  run-Sound running r ((now, c) ∷ cs) a d h =
      let (out, kept) = call-Sound now running c r a.0 d h in
      let d' = call-nesting_depth now running c r ∙ ap (running_after c) d in
      let (outs, end) =
        run-Sound (running_after c running) (call now running c r).1 cs a.1 d' kept in
      (
        All-append MayRun (call now running c r).0
            (run (running_after c running) (call now running c r).1 cs).0 out outs,
        end,
      )

  -- Over any history of calls on a new runner, a task that was posted as non-nestable is handed out only
  -- when each task that began before, by its TaskRunScope, has ended.
  pub run_nested :
      (cs : List (ℕ × Call A))
      → All (λ (c : ℕ × Call A). AsPosted c.1) cs
      → All MayRun (run 0 new_runner cs).0
  unfolding new_runner new_delayed SafeQueue.new_queue
  run_nested cs a = (run-Sound 0 new_runner cs a refl (tt, tt)).0

-- ===== src/Runners.antt =====
-- ForegroundTaskRunner (libs/jsRuntime/include/ForegroundTaskRunner.h, src/ForegroundTaskRunner.cc): the
-- tasks of one isolate, and how deeply the tasks that run now are nested.
pub mod Nesting
mod Tests
use v8app.Base.{
  ℕ, ◌+◌, ◌-◌, ◌≡◌, Bool, true, false, Option, none, some, List, [], ◌∷◌, arith, if◌then◌else◌,
}
use v8app.Queues.SafeQueue
use v8app.Queues.SafeQueue.{SafeQueue}
use v8app.Queues.Delayed.{DelayedQueue, new_delayed, may_have, terminate}
use v8app.Queues.Nestable.{
  NestableQueue, get_next_item, push_item, push_item_delayed_at, push_non_nestable_item,
  push_non_nestable_item_delayed,
}

pub record Runner {ℓ} (A : Type ℓ) : Type ℓ where
  pub terminated : Bool
  pub tasks : NestableQueue A
  pub idle_tasks : SafeQueue A
  pub nesting_depth : ℕ

module _ {ℓ} {A : Type ℓ} where
  pub new_runner : Runner A
  unfolding new_delayed SafeQueue.new_queue
  new_runner = record {
    terminated = false;
    tasks = new_delayed;
    idle_tasks = SafeQueue.new_queue;
    nesting_depth = 0;
  }

  -- `TaskRunScope`, made around a task that runs. Scopes end in the order in which they were made, so the
  -- depth is positive when one ends.
  pub enter : Runner A → Runner A
  enter r = record r { nesting_depth = r.nesting_depth + 1 }

  pub leave : Runner A → Runner A
  leave r = record r { nesting_depth = r.nesting_depth - 1 }

  pub post_task : A → Runner A → Runner A
  unfolding push_item
  post_task x r = record r { tasks = push_item x r.tasks }

  pub post_non_nestable_task : A → Runner A → Runner A
  unfolding push_non_nestable_item
  post_non_nestable_task x r = record r { tasks = push_non_nestable_item x r.tasks }

  pub post_delayed_task : ℕ → ℕ → A → Runner A → Runner A
  unfolding push_item_delayed_at
  post_delayed_task now delay x r = record r { tasks = push_item_delayed_at now delay x r.tasks }

  pub post_non_nestable_delayed_task : ℕ → ℕ → A → Runner A → Runner A
  unfolding push_non_nestable_item_delayed
  post_non_nestable_delayed_task now delay x r = record r {
    tasks = push_non_nestable_item_delayed now delay x r.tasks;
  }

  unfoldable post_idle_task : A → Runner A → Runner A
  post_idle_task x r = record r { idle_tasks = SafeQueue.push_item x r.idle_tasks }

  -- No task is the null pointer.
  pub get_next_task : ℕ → Runner A → Option A × Runner A
  unfolding get_next_item
  get_next_task now r =
      let (x, q) = get_next_item now (r.nesting_depth) r.tasks in (x, record r { tasks = q })

  unfoldable get_next_idle_task : Runner A → Option A × Runner A
  unfolding SafeQueue.get_next_item
  get_next_idle_task r =
      let (x, q) = SafeQueue.get_next_item r.idle_tasks in (x, record r { idle_tasks = q })

  pub maybe_has_task : ℕ → Runner A → Bool × Runner A
  maybe_has_task now r = let (b, q) = may_have now r.tasks in (b, record r { tasks = q })

  unfoldable pub terminate_runner : Runner A → Runner A
  terminate_runner r = if r.terminated then r else record r {
    tasks = terminate r.tasks;
    idle_tasks = SafeQueue.terminate r.idle_tasks;
    terminated = true;
  }

-- ===== src/Queues/Nestable.antt =====
-- libs/jsRuntime's NestableQueue (include/NestableQueue.h, src/NestableQueue.cc): the delayed queue of
-- entries that may or may not run inside another task.
pub mod Choice
use v8app.Base.{
  ℕ, ◌≡◌, Bool, true, false, not, ◌&&◌, Option, none, some, List, [], ◌∷◌, ◌==◌, if◌then◌else◌,
}
use v8app.Queues.SafeQueue.{SafeQueue}
use v8app.Queues.Delayed.{
  DelayedQueue, push_now, push_item_delayed, process_delayed, may_have, terminate,
}

pub data Nestability : Type 0 where
  nestable non_nestable : Nestability

pub record QueueEntry {ℓ} (A : Type ℓ) : Type ℓ where
  pub nestability : Nestability
  pub task : A

abbrev pub NestableQueue {ℓ} : Type ℓ → Type ℓ
NestableQueue A = DelayedQueue (QueueEntry A)

abbrev pub is_non_nestable : Nestability → Bool
is_non_nestable nestable = false
is_non_nestable non_nestable = true

module _ {ℓ} {A : Type ℓ} where
  unfoldable pub push_item : A → NestableQueue A → NestableQueue A
  push_item x = push_now (record { nestability = nestable; task = x })

  unfoldable pub push_item_delayed_at : ℕ → ℕ → A → NestableQueue A → NestableQueue A
  push_item_delayed_at now delay x =
      push_item_delayed now delay (record { nestability = nestable; task = x })

  unfoldable pub push_non_nestable_item : A → NestableQueue A → NestableQueue A
  push_non_nestable_item x = push_now (record { nestability = non_nestable; task = x })

  unfoldable pub push_non_nestable_item_delayed : ℕ → ℕ → A → NestableQueue A → NestableQueue A
  push_non_nestable_item_delayed now delay x =
      push_item_delayed now delay (record { nestability = non_nestable; task = x })

  -- The loop of `GetNextItem`, which erases the entry that it returns.
  unfoldable pub pick : ℕ → List (QueueEntry A) → Option A × List (QueueEntry A)
  pick depth [] = (none, [])
  pick depth (e ∷ es) =
      let (x, rest) = pick depth es in
      if is_non_nestable e.nestability && not (depth == 0) then (x, e ∷ rest) else (some e.task, es)

  unfoldable pub get_next_item : ℕ → ℕ → NestableQueue A → Option A × NestableQueue A
  unfolding pick process_delayed
  get_next_item now depth q =
      if q.queue.terminated
      then (none, q)
      else let q' = (process_delayed now q).0 in
        let (x, rest) = pick depth q'.queue.items in
        (x, record q' { queue = record (q'.queue) { items = rest } })

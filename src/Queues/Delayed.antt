-- ===== src/Queues/Delayed.antt =====
-- include/Queues/TThreadSafeDelayedQueue.h and .hpp. Times are numbers of clock ticks in place of
-- `double` seconds; a call that reads the clock takes the time as `now`.
pub mod Order
pub mod Contents
pub mod Delivery
pub mod Timing
pub mod Early
use v8app.Base.{
  ℕ, ◌+◌, ◌≤◌, ◌≡◌, Bool, true, false, not, ◌&&◌, ◌||◌, Option, none, some, List, [], ◌∷◌, ◌++◌,
  ltb, leb, if◌then◌else◌,
}
use v8app.Queues.SafeQueue.{SafeQueue, push_item, may_have_items}
use v8app.Queues.SafeQueue

-- `std::multimap<double, QueueType>`: the entries by rising deadline.
abbrev pub Timed {ℓ} : Type ℓ → Type ℓ
Timed A = List (ℕ × A)

pub record DelayedQueue {ℓ} (A : Type ℓ) : Type ℓ where
  pub queue : SafeQueue A
  pub delayed : Timed A
  -- Whether `m_DelayedJobsReady` is set.
  pub has_delegate : Bool

module _ {ℓ} {A : Type ℓ} where
  unfoldable pub new_delayed : DelayedQueue A
  unfolding SafeQueue.new_queue
  new_delayed = record { queue = SafeQueue.new_queue; delayed = []; has_delegate = false }

  unfoldable set_delegate : DelayedQueue A → DelayedQueue A
  set_delegate q = record q { has_delegate = true }

  -- `emplace`: behind the entries of the same deadline.
  unfoldable pub emplace : ℕ → A → Timed A → Timed A
  emplace d x [] = (d, x) ∷ []
  emplace d x ((e, y) ∷ m) =
      let later = emplace d x m in if ltb d e then (d, x) ∷ (e, y) ∷ m else (e, y) ∷ later

  unfoldable pub push_item_delayed : ℕ → ℕ → A → DelayedQueue A → DelayedQueue A
  unfolding emplace
  push_item_delayed now delay x q =
      if q.queue.terminated then q else record q { delayed = emplace (now + delay) x q.delayed }

  -- The loop of `ProcessDelayedQueue`: what is left, the queue, and `jobsReady`.
  unfoldable pub move_ready : ℕ → Timed A → SafeQueue A → Bool → Timed A × SafeQueue A × Bool
  move_ready now [] q ready = ([], q, ready)
  move_ready now ((d, x) ∷ m) q ready =
      let rest = move_ready now m (push_item x q) true in
      if leb d now then rest else ((d, x) ∷ m, q, ready)

  -- The second part says whether the delegate was called.
  unfoldable pub process_delayed : ℕ → DelayedQueue A → DelayedQueue A × Bool
  unfolding move_ready
  process_delayed now q =
      if q.queue.terminated
      then (q, false)
      else let (m, main, ready) = move_ready now q.delayed q.queue false in
        (record q { queue = main; delayed = m }, ready && q.has_delegate)

  unfoldable pub get_next_item : ℕ → DelayedQueue A → Option A × DelayedQueue A
  unfolding process_delayed SafeQueue.get_next_item
  get_next_item now q =
      let q' = (process_delayed now q).0 in
      let (x, main) = SafeQueue.get_next_item q'.queue in (x, record q' { queue = main })

  unfoldable pub may_have : ℕ → DelayedQueue A → Bool × DelayedQueue A
  unfolding process_delayed may_have_items
  may_have now q = let q' = (process_delayed now q).0 in (may_have_items q'.queue, q')

  unfoldable pub push_now : A → DelayedQueue A → DelayedQueue A
  push_now x q = record q { queue = push_item x q.queue }

  unfoldable pub terminate : DelayedQueue A → DelayedQueue A
  terminate q = record q { queue = SafeQueue.terminate q.queue }

-- ===== src/Queues/SafeQueue.antt =====
-- include/Queues/TThreadSafeQueue.h and .hpp.
pub mod History
use v8app.Base.{
  ℕ, ◌≡◌, Bool, true, false, not, Option, none, some, List, [], ◌∷◌, ◌++◌, if◌then◌else◌,
}

pub record SafeQueue {ℓ} (A : Type ℓ) : Type ℓ where
  pub terminated : Bool
  pub items : List A

module _ {ℓ} {A : Type ℓ} where
  unfoldable pub new_queue : SafeQueue A
  new_queue = record { terminated = false; items = [] }

  unfoldable pub push_item : A → SafeQueue A → SafeQueue A
  push_item x q = if q.terminated then q else record q { items = q.items ++ (x ∷ []) }

  -- `front` and `pop_front`, after the test for an empty queue.
  unfoldable pub pop_front : SafeQueue A → List A → Option A × SafeQueue A
  pop_front q [] = (none, q)
  pop_front q (x ∷ rest) = (some x, record q { items = rest })

  unfoldable pub get_next_item : SafeQueue A → Option A × SafeQueue A
  unfolding pop_front
  get_next_item q = if q.terminated then (none, q) else pop_front q q.items

  abbrev is_empty : List A → Bool
  is_empty [] = true
  is_empty (x ∷ xs) = false

  unfoldable pub may_have_items : SafeQueue A → Bool
  may_have_items q = not (is_empty q.items)

  unfoldable pub terminate : SafeQueue A → SafeQueue A
  terminate q = record q { terminated = true }

-- The calls that threads make on one queue, in the order in which they take the lock.
pub data Call {ℓ} (A : Type ℓ) : Type ℓ where
  push : A → Call A
  get : Call A
  stop : Call A

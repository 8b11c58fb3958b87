-- ===== src/Queues/Delayed/Delivery.antt =====
-- What `ProcessDelayedQueue` delivers, and when.
use v8app.Base.{
  ℕ, ◌<◌, ◌≡◌, refl, Bool, true, false, ◌&&◌, ◌||◌, List, [], ◌∷◌, ◌++◌, arith, leb, if◌then◌else◌,
  append-nil, append_assoc,
}
use v8app.Queues.SafeQueue.{SafeQueue, push_item}
use v8app.Queues.Delayed.{Timed, DelayedQueue, move_ready, process_delayed}
use v8app.Queues.Delayed.Order.{SortedFrom}

module _ {ℓ} {A : Type ℓ} where
  -- The items whose deadline has come, and the entries whose deadline has not.
  abbrev pub due : ℕ → Timed A → List A
  due now [] = []
  due now ((d, x) ∷ m) = if leb d now then x ∷ due now m else due now m

  abbrev pub pending : ℕ → Timed A → Timed A
  pending now [] = []
  pending now ((d, x) ∷ m) = if leb d now then pending now m else (d, x) ∷ pending now m

  abbrev is_some_due : ℕ → Timed A → Bool
  is_some_due now [] = false
  is_some_due now ((d, x) ∷ m) = leb d now || is_some_due now m

  none_due :
      (now d : ℕ) (m : Timed A)
      → SortedFrom d m
      → now < d
      → (due now m ≡ []) × (pending now m ≡ m) × (is_some_due now m ≡ false)
  none_due now d [] s h = (refl, refl, refl)
  none_due now d ((e, y) ∷ m) s h = ground (arith, none_due now e m s.1)

  abbrev running : List A → SafeQueue A
  running xs = record { terminated = false; items = xs }

  move_ready_lem :
      (now lo : ℕ) (m : Timed A) (xs : List A) (ready : Bool)
      → SortedFrom lo m
      → move_ready now m (running xs) ready
        ≡ (pending now m, running (xs ++ due now m), ready || is_some_due now m)
  unfolding move_ready push_item
  move_ready_lem now lo [] xs ready s = ground (arith, append-nil xs)
  move_ready_lem now lo ((d, x) ∷ m) xs ready s = ground (
    arith,
    move_ready_lem now d m (xs ++ (x ∷ [])) true s.1,
    append_assoc xs (x ∷ []) (due now m),
    append-nil xs,
    none_due now d m s.1,
  )

  -- On a running queue whose delayed items are sorted, `ProcessDelayedQueue` puts exactly the items
  -- whose deadline has come behind the queued ones, in the order of their deadlines, keeps the others
  -- delayed, and calls the delegate if there is one and an item was moved.
  pub process_delayed_lem :
      (now : ℕ) (q : DelayedQueue A)
      → q.queue.terminated ≡ false
      → SortedFrom 0 q.delayed
      → process_delayed now q ≡ (
        record {
          queue = record { terminated = false; items = q.queue.items ++ due now q.delayed };
          delayed = pending now q.delayed;
          has_delegate = q.has_delegate;
        },
        is_some_due now q.delayed && q.has_delegate,
      )
  unfolding process_delayed
  process_delayed_lem now q h s =
      let e : q.queue ≡ running q.queue.items =
        λ i. record { terminated = h i; items = q.queue.items } in
      ground (arith, e, move_ready_lem now 0 q.delayed q.queue.items false s)

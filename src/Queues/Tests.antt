-- ===== src/Queues/Tests.antt =====
-- Runs of the queues, and their theorems at concrete inputs.
use mathlib.Core.List.{Perm}
use v8app.Base.{ℕ, ◌≡◌, refl, true, false, some, List, [], ◌∷◌, ◌++◌, arith, All}
use v8app.Queues.SafeQueue.{SafeQueue, push_item, new_queue}
use v8app.Queues.SafeQueue
use v8app.Queues.SafeQueue.History.{pushed, run_fifo}
use v8app.Queues.SafeQueue.History
use v8app.Queues.Delayed.{DelayedQueue, push_item_delayed}
use v8app.Queues.Delayed.Delivery.{due, pending}
use v8app.Queues.Delayed.Timing.{
  Call, push, push_delayed, get, poll, run, held, posts, IsRunning, run-perm,
}
use v8app.Queues.Delayed.Order.{values}
use v8app.Queues.Delayed.Early.{StartsBy, run_not_early}
use v8app.Queues.Nestable.{nestable, non_nestable, NestableQueue, get_next_item}
use v8app.Queues.Nestable.Choice.{Picked, get_next_item-Picked}

abbrev two_items : SafeQueue ℕ
two_items = record { terminated = false; items = 1 ∷ 2 ∷ [] }

abbrev calls : List (SafeQueue.Call ℕ)
calls = SafeQueue.get ∷ SafeQueue.push 3 ∷ SafeQueue.get ∷ SafeQueue.stop ∷ SafeQueue.get ∷ []

abbrev later : List (SafeQueue.Call ℕ)
later = SafeQueue.push 9 ∷ SafeQueue.get ∷ []

fifo_test : History.run two_items calls ≡ (1 ∷ 2 ∷ [], record { terminated = true; items = 3 ∷ [] })
unfolding History.run SafeQueue.get_next_item push_item SafeQueue.terminate
fifo_test = refl

run_fifo_example :
    ((History.run two_items calls).0 ++ (History.run two_items calls).1.items
      ≡ 1 ∷ 2 ∷ pushed calls)
    × (History.run two_items (calls ++ (SafeQueue.stop ∷ later))
        ≡ ((History.run two_items calls).0, SafeQueue.terminate (History.run two_items calls).1))
run_fifo_example = run_fifo two_items calls later refl

abbrev timers : DelayedQueue ℕ
timers = record {
  queue = record { terminated = false; items = 7 ∷ [] };
  delayed = (10, 1) ∷ (10, 2) ∷ (30, 3) ∷ [];
  has_delegate = true;
}

push_between : (push_item_delayed 4 6 9 timers).delayed ≡ (10, 1) ∷ (10, 2) ∷ (10, 9) ∷ (30, 3) ∷ []
unfolding push_item_delayed
push_between = refl

timers-IsRunning : IsRunning timers
timers-IsRunning = record { on = refl; sorted = omega arith }

abbrev polls : List (ℕ × Call ℕ)
polls = (5, push 8) ∷ (12, get) ∷ (12, push_delayed 3 4) ∷ (40, poll) ∷ (41, get) ∷ []

run-perm_example :
    Perm (values (run timers polls).0 ++ held (run timers polls).1) (held timers ++ posts polls)
run-perm_example = run-perm timers polls timers-IsRunning

abbrev tagged : DelayedQueue (ℕ × ℕ)
tagged = record {
  queue = record { terminated = false; items = [] };
  delayed = (10, (10, 1)) ∷ [];
  has_delegate = false;
}

abbrev tagged_calls : List (ℕ × Call (ℕ × ℕ))
tagged_calls = (5, get) ∷ (6, push_delayed 2 (8, 2)) ∷ (9, get) ∷ (11, get) ∷ []

run_not_early_example : All (λ (o : ℕ × (ℕ × ℕ)). StartsBy o.0 o.1) (run tagged tagged_calls).0
run_not_early_example =
    run_not_early 3 tagged tagged_calls (record { on = refl; sorted = omega arith })
      (record { queued = tt; kept = omega arith }) (omega arith) (omega arith)

abbrev mixed : NestableQueue ℕ
mixed = record {
  queue = record {
    terminated = false;
    items =
        record { nestability = non_nestable; task = 1 }
        ∷ record { nestability = nestable; task = 2 }
        ∷ [];
  };
  delayed = (3, record { nestability = nestable; task = 3 }) ∷ [];
  has_delegate = false;
}

nested_call : (get_next_item 0 1 mixed).0 ≡ some 2
unfolding get_next_item
nested_call = refl

get_next_item-Picked_example :
    Picked 1
      (mixed.queue.items ++ due 5 mixed.delayed)
      ((get_next_item 5 1 mixed).0, (get_next_item 5 1 mixed).1.queue.items)
    × ((get_next_item 5 1 mixed).1.delayed ≡ pending 5 mixed.delayed)
get_next_item-Picked_example = get_next_item-Picked 5 1 mixed refl (omega arith)

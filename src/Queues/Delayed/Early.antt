-- ===== src/Queues/Delayed/Early.antt =====
-- No item of a delayed queue is handed out before its time. Each item carries the time from which it
-- may run, which only the statements read.
use v8app.Base.{
  ℕ, ◌+◌, ◌≤◌, Option, none, some, List, [], ◌∷◌, ◌++◌, arith, if_false, All, All-append,
}
use v8app.Queues.SafeQueue.{SafeQueue}
use v8app.Queues.SafeQueue
use v8app.Queues.Delayed.{Timed, DelayedQueue, push_now, push_item_delayed, may_have, emplace}
use v8app.Queues.Delayed.Delivery.{due, pending, process_delayed_lem}
use v8app.Queues.Delayed.Timing.{
  Call, push, push_delayed, get, poll, step, run, joined, IsRunning, step-IsRunning, taken,
  processed, get_next_item_lem,
}

module _ {ℓ} {B : Type ℓ} where
  abbrev pub StartsBy : ℕ → ℕ × B → Type 0
  StartsBy now x = x.0 ≤ now

  -- The queued items may run by `now`, and the delayed ones at their deadlines.
  pub record Timely (now : ℕ) (q : DelayedQueue (ℕ × B)) : Type 0 where
    pub queued : All (StartsBy now) q.queue.items
    pub kept : All (λ (e : ℕ × (ℕ × B)). StartsBy e.0 e.1) q.delayed

  -- What a caller asks for: at once, or not before the delay is over.
  abbrev Asks : ℕ × Call (ℕ × B) → Type 0
  Asks (now, push x) = StartsBy now x
  Asks (now, push_delayed delay x) = StartsBy (now + delay) x
  Asks (now, get) = Unit {0}
  Asks (now, poll) = Unit {0}

  -- The clock does not go back.
  abbrev Ordered : ℕ → List (ℕ × Call (ℕ × B)) → Type 0
  Ordered t [] = Unit {0}
  Ordered t ((now, c) ∷ cs) = (t ≤ now) × Ordered now cs

  queued_later :
      (t now : ℕ) (xs : List (ℕ × B)) → t ≤ now → All (StartsBy t) xs → All (StartsBy now) xs
  queued_later t now [] h a = tt
  queued_later t now (x ∷ xs) h a = (omega arith, queued_later t now xs h a.1)

  Timely-later : (t now : ℕ) (q : DelayedQueue (ℕ × B)) → t ≤ now → Timely t q → Timely now q
  Timely-later t now q h v = record {
    queued = queued_later t now q.queue.items h v.queued;
    kept = v.kept;
  }

  due-StartsBy :
      (now : ℕ) (m : Timed (ℕ × B))
      → All (λ (e : ℕ × (ℕ × B)). StartsBy e.0 e.1) m
      → All (StartsBy now) (due now m) × All (λ (e : ℕ × (ℕ × B)). StartsBy e.0 e.1) (pending now m)
  due-StartsBy now [] a = (tt, tt)
  due-StartsBy now ((d, x) ∷ m) a = ground (arith, due-StartsBy now m a.1)

  emplace-StartsBy :
      (d : ℕ) (x : ℕ × B) (m : Timed (ℕ × B))
      → StartsBy d x
      → All (λ (e : ℕ × (ℕ × B)). StartsBy e.0 e.1) m
      → All (λ (e : ℕ × (ℕ × B)). StartsBy e.0 e.1) (emplace d x m)
  unfolding emplace
  emplace-StartsBy d x [] h a = (h, tt)
  emplace-StartsBy d x ((e, y) ∷ m) h a = ground (arith, emplace-StartsBy d x m h a.1)

  processed-Timely :
      (now : ℕ) (q : DelayedQueue (ℕ × B)) → Timely now q → Timely now (processed now q)
  unfolding processed
  processed-Timely now q v =
      let (d, p) = due-StartsBy now q.delayed v.kept in
      record {
        queued = All-append (StartsBy now) q.queue.items (due now q.delayed) v.queued d;
        kept = p;
      }

  -- A call hands out only an item that may run, and keeps the others in order.
  abbrev Prompt : ℕ → Option (ℕ × B) × DelayedQueue (ℕ × B) → Type 0
  Prompt now (none, q) = Timely now q
  Prompt now (some x, q) = StartsBy now x × Timely now q

  step-Prompt :
      (now : ℕ) (q : DelayedQueue (ℕ × B)) (c : Call (ℕ × B))
      → IsRunning q
      → Timely now q
      → Asks (now, c)
      → Prompt now (step now q c)
  unfolding step push_now push_item_delayed may_have SafeQueue.push_item processed
  step-Prompt now q (push x) w v a = rw (if_false q.queue.terminated _ _ w.on) (record {
    queued = All-append (StartsBy now) q.queue.items (x ∷ []) v.queued (a, tt);
    kept = v.kept;
  })
  step-Prompt now q (push_delayed delay x) w v a =
      rw (if_false q.queue.terminated _ _ w.on)
        (record { queued = v.queued; kept = emplace-StartsBy (now + delay) x q.delayed a v.kept })
  step-Prompt now q get w v a =
      rw (get_next_item_lem now q w)
        (by_items (q.queue.items ++ due now q.delayed) (processed-Timely now q v).queued)
    where
      by_items :
          (xs : List (ℕ × B)) → All (StartsBy now) xs → Prompt now (taken (processed now q) xs)
      by_items [] b = record { queued = tt; kept = (processed-Timely now q v).kept }
      by_items (x ∷ xs) b = (b.0, record { queued = b.1; kept = (processed-Timely now q v).kept })
  step-Prompt now q poll w v a =
      rw (process_delayed_lem now q w.on w.sorted) (processed-Timely now q v)

  -- Over any history whose clock does not go back, every item that `GetNextItem` hands out may run by
  -- then: an item posted with a delay is not handed out before the delay is over.
  pub run_not_early :
      (t : ℕ) (q : DelayedQueue (ℕ × B)) (cs : List (ℕ × Call (ℕ × B)))
      → IsRunning q
      → Timely t q
      → Ordered t cs
      → All Asks cs
      → All (λ (o : ℕ × (ℕ × B)). StartsBy o.0 o.1) (run q cs).0
  unfolding run
  run_not_early t q [] w v o a = tt
  run_not_early t q ((now, c) ∷ cs) w v o a =
      out (step now q c).0 (step now q c).1 (step-Prompt now q c w (Timely-later t now q o.0 v) a.0)
        (λ p. run_not_early now (step now q c).1 cs (step-IsRunning now q c w) p o.1 a.1)
    where
      outs : Timed (ℕ × B)
      outs = (run (step now q c).1 cs).0

      out :
          (x : Option (ℕ × B)) (q' : DelayedQueue (ℕ × B))
          → Prompt now (x, q')
          → (Timely now q' → All (λ (e : ℕ × (ℕ × B)). StartsBy e.0 e.1) outs)
          → All (λ (e : ℕ × (ℕ × B)). StartsBy e.0 e.1) (joined now x outs)
      out none q' p k = k p
      out (some x) q' p k = (p.0, k p.1)

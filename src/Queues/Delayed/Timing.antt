-- ===== src/Queues/Delayed/Timing.antt =====
-- Histories of calls on a delayed queue: nothing is lost or made up, and nothing comes early.
use mathlib.Core.List.{Perm, perm_middle}
use mathlib.Core.List.Perm
use v8app.Base.{
  ℕ, ◌+◌, ◌≡◌, refl, sym, subst, false, Option, none, some, List, [], ◌∷◌, ◌++◌, arith, leb,
  if_false, append-nil, append_assoc, Bool-cases, inl, inr,
}
use v8app.Queues.SafeQueue.{SafeQueue}
use v8app.Queues.SafeQueue
use v8app.Queues.Delayed.{Timed, DelayedQueue, get_next_item, push_now, push_item_delayed, may_have}
use v8app.Queues.Delayed.Order.{
  SortedFrom, emplace-SortedFrom, SortedFrom-lower, values, emplace-perm,
}
use v8app.Queues.Delayed.Delivery.{due, pending, process_delayed_lem}

-- The calls on a queue that is not terminated, each at its time.
pub data Call {ℓ} (A : Type ℓ) : Type ℓ where
  push : A → Call A
  push_delayed : ℕ → A → Call A
  get : Call A
  poll : Call A

module _ {ℓ} {A : Type ℓ} where
  unfoldable pub step : ℕ → DelayedQueue A → Call A → Option A × DelayedQueue A
  step now q (push x) = (none, push_now x q)
  step now q (push_delayed delay x) = (none, push_item_delayed now delay x q)
  step now q get = get_next_item now q
  step now q poll = (none, (may_have now q).1)

  abbrev pub joined : ℕ → Option A → Timed A → Timed A
  joined now none xs = xs
  joined now (some x) xs = (now, x) ∷ xs

  -- The items handed out, each with the time of its call, and the queue at the end.
  unfoldable pub run : DelayedQueue A → List (ℕ × Call A) → Timed A × DelayedQueue A
  unfolding step
  run q [] = ([], q)
  run q ((now, c) ∷ cs) =
      let (x, q') = step now q c in let (xs, q'') = run q' cs in (joined now x xs, q'')

  abbrev pub posted : Call A → List A → List A
  posted (push x) xs = x ∷ xs
  posted (push_delayed delay x) xs = x ∷ xs
  posted get xs = xs
  posted poll xs = xs

  pub posts : List (ℕ × Call A) → List A
  posts [] = []
  posts ((now, c) ∷ cs) = posted c (posts cs)

  -- Everything that the queue holds.
  abbrev pub held : DelayedQueue A → List A
  held q = q.queue.items ++ values q.delayed

  -- The queue runs, and its delayed items are sorted.
  pub record IsRunning (q : DelayedQueue A) : Type ℓ where
    pub on : q.queue.terminated ≡ false
    pub sorted : SortedFrom 0 q.delayed

  due-pending-perm : (now : ℕ) (m : Timed A) → Perm (due now m ++ values (pending now m)) (values m)
  due-pending-perm now [] = Perm.refl []
  due-pending-perm now ((d, x) ∷ m) = elim (Bool-cases (leb d now)) [
    | inl e ↦ rw e (Perm.cons x (due-pending-perm now m))
    | inr e ↦ rw e (
        Perm.trans (perm_middle (due now m) (values (pending now m)))
          (Perm.cons x (due-pending-perm now m)))
  ]

  pending-SortedFrom : (now lo : ℕ) (m : Timed A) → SortedFrom lo m → SortedFrom lo (pending now m)
  pending-SortedFrom now lo [] s = tt
  pending-SortedFrom now lo ((d, x) ∷ m) s =
      ground (arith, pending-SortedFrom now d m s.1, SortedFrom-lower lo d (pending now m))

  -- The queue after `ProcessDelayedQueue`.
  unfoldable pub processed : ℕ → DelayedQueue A → DelayedQueue A
  processed now q = record {
    queue = record { terminated = false; items = q.queue.items ++ due now q.delayed };
    delayed = pending now q.delayed;
    has_delegate = q.has_delegate;
  }

  processed-IsRunning : (now : ℕ) (q : DelayedQueue A) → IsRunning q → IsRunning (processed now q)
  unfolding processed
  processed-IsRunning now q v = record {
    on = refl;
    sorted = pending-SortedFrom now 0 q.delayed v.sorted;
  }

  held-processed : (now : ℕ) (q : DelayedQueue A) → Perm (held (processed now q)) (held q)
  unfolding processed
  held-processed now q =
      rw (append_assoc q.queue.items (due now q.delayed))
        (Perm.append_left q.queue.items (due-pending-perm now q.delayed))

  -- The queue after a call of `GetNextItem` that found `xs` in the main queue.
  abbrev pub taken : DelayedQueue A → List A → Option A × DelayedQueue A
  taken q [] = (none, record q { queue = record (q.queue) { items = [] } })
  taken q (x ∷ xs) = (some x, record q { queue = record (q.queue) { items = xs } })

  pub get_next_item_lem :
      (now : ℕ) (q : DelayedQueue A)
      → IsRunning q
      → get_next_item now q ≡ taken (processed now q) (q.queue.items ++ due now q.delayed)
  unfolding get_next_item processed
  get_next_item_lem now q v =
      rw (process_delayed_lem now q v.on v.sorted) (by_items (q.queue.items ++ due now q.delayed))
    where
      by_items :
          (xs : List A)
          → (let (x, main) = SafeQueue.get_next_item (record { terminated = false; items = xs }) in
              (x, record (processed now q) { queue = main }))
            ≡ taken (processed now q) xs
      by_items [] = refl
      by_items (x ∷ xs) = refl

  pub step-IsRunning :
      (now : ℕ) (q : DelayedQueue A) (c : Call A) → IsRunning q → IsRunning (step now q c).1
  unfolding step push_now push_item_delayed may_have SafeQueue.push_item
  step-IsRunning now q (push x) v = record { on = ground (arith, v.on); sorted = v.sorted }
  step-IsRunning now q (push_delayed delay x) v =
      rw (if_false q.queue.terminated _ _ v.on) (record {
        on = v.on;
        sorted = emplace-SortedFrom 0 (now + delay) x q.delayed (omega arith) v.sorted;
      })
  step-IsRunning now q get v =
      rw (get_next_item_lem now q v)
        (after (q.queue.items ++ due now q.delayed) (processed-IsRunning now q v))
    where
      after : (xs : List A) → IsRunning (processed now q) → IsRunning (taken (processed now q) xs).1
      after [] w = record { on = w.on; sorted = w.sorted }
      after (x ∷ xs) w = record { on = w.on; sorted = w.sorted }
  step-IsRunning now q poll v =
      rw (process_delayed_lem now q v.on v.sorted) (unfold processed in processed-IsRunning now q v)

  handed : Option A → List A → List A
  handed none xs = xs
  handed (some x) xs = x ∷ xs

  -- A call keeps the items that it neither hands out nor posts.
  step-perm :
      (now : ℕ) (q : DelayedQueue A) (c : Call A)
      → IsRunning q
      → Perm (handed (step now q c).0 (held (step now q c).1)) (posted c (held q))
  unfolding step push_now push_item_delayed may_have SafeQueue.push_item handed processed
  step-perm now q (push x) v = rw (if_false q.queue.terminated _ _ v.on) (
      subst (λ l. Perm l (x ∷ held q))
        (sym (append_assoc q.queue.items (x ∷ []) (values q.delayed)))
        (perm_middle q.queue.items (values q.delayed)))
  step-perm now q (push_delayed delay x) v = rw (if_false q.queue.terminated _ _ v.on) (
      Perm.trans (Perm.append_left q.queue.items (emplace-perm (now + delay) x q.delayed))
        (perm_middle q.queue.items (values q.delayed)))
  step-perm now q get v =
      rw (get_next_item_lem now q v)
        (Perm.trans (same (q.queue.items ++ due now q.delayed)) (held-processed now q))
    where
      same :
          (xs : List A)
          → Perm
              (handed (taken (processed now q) xs).0 (held (taken (processed now q) xs).1))
              (xs ++ values (pending now q.delayed))
      same [] = Perm.refl _
      same (x ∷ xs) = Perm.refl _
  step-perm now q poll v = rw (process_delayed_lem now q v.on v.sorted) (held-processed now q)

  -- Over any history, what was handed out with what is still held is a permutation of what was held
  -- at first with what was posted: no item is lost, repeated or made up.
  pub run-perm :
      (q : DelayedQueue A) (cs : List (ℕ × Call A))
      → IsRunning q
      → Perm (values (run q cs).0 ++ held (run q cs).1) (held q ++ posts cs)
  unfolding run posts handed
  run-perm q [] v = subst (Perm (held q)) (sym (append-nil (held q))) (Perm.refl (held q))
  run-perm q ((now, c) ∷ cs) v =
      join (step now q c).0 whole (run-perm (step now q c).1 cs (step-IsRunning now q c v))
    where
      outs : Timed A
      outs = (run (step now q c).1 cs).0

      last : List A
      last = held (run (step now q c).1 cs).1

      reassoc : (c' : Call A) → posted c' (held q) ++ posts cs ≡ posted c' (held q ++ posts cs)
      reassoc (push x) = refl
      reassoc (push_delayed delay x) = refl
      reassoc get = refl
      reassoc poll = refl

      to_end :
          (c' : Call A) → Perm (posted c' (held q ++ posts cs)) (held q ++ posted c' (posts cs))
      to_end (push x) = Perm.symm (perm_middle (held q) (posts cs))
      to_end (push_delayed delay x) = Perm.symm (perm_middle (held q) (posts cs))
      to_end get = Perm.refl _
      to_end poll = Perm.refl _

      whole :
          Perm
            (handed (step now q c).0 (held (step now q c).1) ++ posts cs)
            (held q ++ posted c (posts cs))
      whole =
          Perm.trans (Perm.append_right (posts cs) (step-perm now q c v))
            (subst (λ l. Perm l (held q ++ posted c (posts cs))) (sym (reassoc c)) (to_end c))

      join :
          (o : Option A)
          → Perm (handed o (held (step now q c).1) ++ posts cs) (held q ++ posted c (posts cs))
          → Perm (values outs ++ last) (held (step now q c).1 ++ posts cs)
          → Perm (values (joined now o outs) ++ last) (held q ++ posted c (posts cs))
      join none h k = Perm.trans k h
      join (some x) h k = Perm.trans (Perm.cons x k) h

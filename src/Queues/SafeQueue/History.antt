-- ===== src/Queues/SafeQueue/History.antt =====
-- Any history of calls on one queue: what is handed out and what is queued.
use v8app.Base.{
  ◌≡◌, refl, sym, ap, subst, ◌∙◌, true, false, Option, none, some, List, [], ◌∷◌, ◌++◌, arith,
  append-nil, append_assoc,
}
use v8app.Queues.SafeQueue.{SafeQueue, Call, push, get, stop, push_item, get_next_item, terminate}

module _ {ℓ} {A : Type ℓ} where
  -- What a call leaves, and what it hands out.
  pub step : SafeQueue A → Call A → Option A × SafeQueue A
  step q (push x) = (none, push_item x q)
  step q get = get_next_item q
  step q stop = (none, terminate q)

  abbrev pub joined : Option A → List A → List A
  joined none xs = xs
  joined (some x) xs = x ∷ xs

  -- The items handed out by a history, oldest first, and the queue at its end.
  unfoldable pub run : SafeQueue A → List (Call A) → List A × SafeQueue A
  unfolding step
  run q [] = ([], q)
  run q (c ∷ cs) = let (x, q') = step q c in let (xs, q'') = run q' cs in (joined x xs, q'')

  -- The items that a history pushes before its first `Terminate`.
  pub pushed : List (Call A) → List A
  pushed [] = []
  pushed (push x ∷ cs) = x ∷ pushed cs
  pushed (get ∷ cs) = pushed cs
  pushed (stop ∷ cs) = []

  run_terminated : (q : SafeQueue A) (cs : List (Call A)) → q.terminated ≡ true → run q cs ≡ ([], q)
  unfolding run push_item get_next_item terminate
  run_terminated q [] h = refl
  run_terminated q (push x ∷ cs) h = ground (arith, run_terminated q cs h)
  run_terminated q (get ∷ cs) h = ground (arith, run_terminated q cs h)
  run_terminated q (stop ∷ cs) h = ground (arith, run_terminated q cs h)

  abbrev running : List A → SafeQueue A
  running xs = record { terminated = false; items = xs }

  fifo :
      (xs : List A) (cs : List (Call A))
      → (run (running xs) cs).0 ++ (run (running xs) cs).1.items ≡ xs ++ pushed cs
  unfolding run pushed push_item get_next_item terminate
  fifo xs [] = sym (append-nil xs)
  fifo xs (push x ∷ cs) = fifo (xs ++ (x ∷ [])) cs ∙ append_assoc xs (x ∷ []) (pushed cs)
  fifo [] (get ∷ cs) = fifo [] cs
  fifo (x ∷ xs) (get ∷ cs) = ap (λ l. x ∷ l) (fifo xs cs)
  fifo xs (stop ∷ cs) =
      rw (run_terminated (record { terminated = true; items = xs }) cs refl) (sym (append-nil xs))

  -- What a history does before a `Terminate` is all that it does.
  run-stop :
      (q : SafeQueue A) (cs ds : List (Call A))
      → run q (cs ++ (stop ∷ ds)) ≡ ((run q cs).0, terminate (run q cs).1)
  unfolding run terminate
  run-stop q [] ds = rw (run_terminated (record q { terminated = true }) ds refl) refl
  run-stop q (c ∷ cs) ds = rw (run-stop (step q c).1 cs ds) refl

  -- Over any history of calls on a running queue, what was handed out and what is still queued are,
  -- in this order, the items queued at first and those pushed before the first `Terminate`; and any
  -- calls after a `Terminate` hand out nothing and leave the queue as that call left it.
  pub run_fifo :
      (q : SafeQueue A) (cs ds : List (Call A))
      → q.terminated ≡ false
      → ((run q cs).0 ++ (run q cs).1.items ≡ q.items ++ pushed cs)
        × (run q (cs ++ (stop ∷ ds)) ≡ ((run q cs).0, terminate (run q cs).1))
  run_fifo q cs ds h =
      let e : running q.items ≡ q = λ i. record { terminated = sym h i; items = q.items } in
      (
        subst (λ (p : SafeQueue A). (run p cs).0 ++ (run p cs).1.items ≡ q.items ++ pushed cs) e
            (fifo q.items cs),
        run-stop q cs ds,
      )

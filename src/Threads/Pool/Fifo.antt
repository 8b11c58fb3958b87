-- ===== src/Threads/Pool/Fifo.antt =====
-- The tasks of a pool are run in the order in which they were posted.
use v8app.Base.{
  ℕ, ◌≡◌, refl, ap, false, List, [], ◌∷◌, ◌++◌, arith, Bool-cases, inl, inr, if_true, if_false, ◌∙◌,
  append_assoc, append-nil, sym,
}
use v8app.Queues.SafeQueue.{get_next_item, push_item, pop_front, new_queue}
use v8app.Threads.Pool.{
  Place, Pool, new_pool, terminate, taken, process, Step, locks, tests, blocks, processes, returns,
  notifies, notifies_none, notifies_all, Outside, posts, terminates, wakes, Reach, here, step,
  outside,
}

module _ {ℓ} {A : Type ℓ} where
  abbrev posted_by : {s t : Pool A} → Outside s t → List A
  posted_by (posts x) = x ∷ []
  posted_by terminates = []
  posted_by (wakes b a e) = []

  -- What was posted along a run.
  pub posted : {s t : Pool A} → Reach s t → List A
  posted here = []
  posted (step r st) = posted r
  posted (outside r o) = posted r ++ posted_by o

  -- What was run, and then what is still queued.
  abbrev in_order : Pool A → List A
  in_order s = s.started ++ s.queue.items

  -- The pool never terminates its queue.
  record Same (s t : Pool A) (more : List A) : Type ℓ where
    order : in_order t ≡ in_order s ++ more
    open_queue : t.queue.terminated ≡ false

  process-Same :
      (s : Pool A) (before after : List (Place A))
      → s.queue.terminated ≡ false
      → Same s (process s before after) []
  unfolding process get_next_item pop_front
  process-Same s before after on = elim (Bool-cases s.exiting) [
    | inl exits ↦
        rw (if_true s.exiting _ _ exits)
          (record { order = sym (append-nil (in_order s)); open_queue = on })
    | inr stays ↦
        rw (if_false s.exiting _ _ stays)
          (rw (if_false s.queue.terminated _ _ on) (next s.queue.items refl))
  ]
    where
      next :
          (xs : List A)
          → xs ≡ s.queue.items
          → Same s (taken s before after (pop_front s.queue xs)) []
      next [] e = record { order = sym (append-nil (in_order s)); open_queue = on }
      next (x ∷ rest) e = record {
        order =
            append_assoc s.started (x ∷ []) rest
            ∙ ap (λ l. s.started ++ l) e
            ∙ sym (append-nil (in_order s));
        open_queue = on;
      }

  step-Same : {s t : Pool A} → Step s t → s.queue.terminated ≡ false → Same s t []
  step-Same {s} (locks b a e free) h = record {
    order = sym (append-nil (in_order s));
    open_queue = h;
  }
  step-Same {s} (tests b a e) h = record { order = sym (append-nil (in_order s)); open_queue = h }
  step-Same {s} (blocks b a e) h = record { order = sym (append-nil (in_order s)); open_queue = h }
  step-Same {s} (processes b a e) h = process-Same s b a h
  step-Same {s} (returns b a x e) h = record {
    order = sym (append-nil (in_order s));
    open_queue = h;
  }
  step-Same {s} (notifies b a n o e) h = record {
    order = sym (append-nil (in_order s));
    open_queue = h;
  }
  step-Same {s} (notifies_none n o e) h = record {
    order = sym (append-nil (in_order s));
    open_queue = h;
  }
  step-Same {s} (notifies_all o) h = record {
    order = sym (append-nil (in_order s));
    open_queue = h;
  }

  outside-Same :
      {s t : Pool A} (o : Outside s t) → s.queue.terminated ≡ false → Same s t (posted_by o)
  unfolding terminate push_item
  outside-Same {s} (posts x) h = record {
    order =
        rw (if_false s.queue.terminated _ _ h)
          (sym (append_assoc s.started s.queue.items (x ∷ [])));
    open_queue = rw (if_false s.queue.terminated _ _ h) h;
  }
  outside-Same {s} terminates h = ground (arith, append-nil (in_order s), h)
  outside-Same {s} (wakes b a e) h = record {
    order = sym (append-nil (in_order s));
    open_queue = h;
  }

  reach-Same :
      (n : ℕ) {s : Pool A} (r : Reach (new_pool n) s)
      → (in_order s ≡ posted r) × (s.queue.terminated ≡ false)
  unfolding new_pool new_queue posted
  reach-Same n here = (refl, refl)
  reach-Same n (step {t = u} r st) =
      let (e, on) = reach-Same n r in
      let k = step-Same st on in (k.order ∙ append-nil (in_order u) ∙ e, k.open_queue)
  reach-Same n (outside r o) =
      let (e, on) = reach-Same n r in
      let k = outside-Same o on in (k.order ∙ ap (λ l. l ++ posted_by o) e, k.open_queue)

  -- At every moment the tasks that a pool has run, in their order, followed by those that are queued, are
  -- what was posted so far in the order of the pushes.
  pub started_in_order :
      (n : ℕ) (s : Pool A) (r : Reach (new_pool n) s) → s.started ++ s.queue.items ≡ posted r
  started_in_order n s r = (reach-Same n r).0

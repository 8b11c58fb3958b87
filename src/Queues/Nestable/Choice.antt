-- ===== src/Queues/Nestable/Choice.antt =====
-- Which entry a nesting depth may take.
use v8app.Base.{
  ℕ, ◌≡◌, ◌≢◌, refl, ap, ◌⊎◌, inl, inr, true, false, not, ◌&&◌, Option, none, some, List, [], ◌∷◌,
  ◌++◌, arith, ◌==◌, if_false, All, Bool-cases,
}
use v8app.Queues.Delayed.Order.{SortedFrom}
use v8app.Queues.Delayed.Delivery.{due, pending, process_delayed_lem}
use v8app.Queues.Nestable.{
  Nestability, nestable, non_nestable, QueueEntry, NestableQueue, is_non_nestable, pick,
  get_next_item,
}

module _ {ℓ} {A : Type ℓ} where
  -- An entry that has to wait at a depth: it does not nest, and another task is running.
  pub record Waits (depth : ℕ) (e : QueueEntry A) : Type ℓ where
    pub alone : e.nestability ≡ non_nestable
    pub inside : depth ≢ 0

  -- The first entry that need not wait is taken, and the others keep their order.
  pub data Picked (depth : ℕ) (es : List (QueueEntry A))
      : Option A × List (QueueEntry A) → Type ℓ where
    all_wait : All (Waits depth) es → Picked depth es (none, es)
    first :
        (before after : List (QueueEntry A)) (e : QueueEntry A) (rest : List (QueueEntry A))
        → es ≡ before ++ (e ∷ after)
        → All (Waits depth) before
        → (e.nestability ≡ nestable) ⊎ (depth ≡ 0)
        → rest ≡ before ++ after
        → Picked depth es (some e.task, rest)

  wait_cases :
      (depth : ℕ) (e : QueueEntry A)
      → ((is_non_nestable e.nestability && not (depth == 0)) ≡ true) × Waits depth e
        ⊎ ((is_non_nestable e.nestability && not (depth == 0)) ≡ false)
          × ((e.nestability ≡ nestable) ⊎ (depth ≡ 0))
  wait_cases depth e = go e.nestability refl (Bool-cases (depth == 0))
    where
      go :
          (s : Nestability)
          → e.nestability ≡ s
          → ((depth == 0) ≡ true) ⊎ ((depth == 0) ≡ false)
          → ((is_non_nestable e.nestability && not (depth == 0)) ≡ true) × Waits depth e
            ⊎ ((is_non_nestable e.nestability && not (depth == 0)) ≡ false)
              × ((e.nestability ≡ nestable) ⊎ (depth ≡ 0))
      go nestable h d = inr (rw h, inl h)
      go non_nestable h (inl zero_depth) = inr (rw (h, zero_depth), inr (ground arith))
      go non_nestable h (inr deep) =
          inl (rw (h, deep), record { alone = h; inside = λ z. ground arith })

  pick-Picked : (depth : ℕ) (es : List (QueueEntry A)) → Picked depth es (pick depth es)
  unfolding pick
  pick-Picked depth [] = all_wait tt
  pick-Picked depth (e ∷ es) = elim (wait_cases depth e) [
    | inl (t, w) ↦ rw t (under e es (pick depth es) w (pick-Picked depth es))
    | inr (f, ok) ↦ rw f (first [] es e es refl tt ok refl)
  ]
    where
      under :
          (e : QueueEntry A) (es : List (QueueEntry A)) (p : Option A × List (QueueEntry A))
          → Waits depth e
          → Picked depth es p
          → Picked depth (e ∷ es) (p.0, e ∷ p.1)
      under e es _ w (all_wait a) = all_wait (w, a)
      under e es _ w (first before after x rest i a ok j) =
          first (e ∷ before) after x (e ∷ rest) (ap (λ l. e ∷ l) i) (w, a) ok (ap (λ l. e ∷ l) j)

  -- On a running queue whose delayed items are sorted, a call at a nesting depth first lets the items
  -- whose time has come join the queue; it then takes the first entry that need not wait at this
  -- depth, in front of which only waiting entries stand, keeps the order of the others, and returns
  -- nothing only if all must wait.
  pub get_next_item-Picked :
      (now depth : ℕ) (q : NestableQueue A)
      → q.queue.terminated ≡ false
      → SortedFrom 0 q.delayed
      → Picked depth
          (q.queue.items ++ due now q.delayed)
          ((get_next_item now depth q).0, (get_next_item now depth q).1.queue.items)
        × ((get_next_item now depth q).1.delayed ≡ pending now q.delayed)
  unfolding get_next_item
  get_next_item-Picked now depth q h s =
      rw (if_false q.queue.terminated _ _ h, process_delayed_lem now q h s)
        (pick-Picked depth (q.queue.items ++ due now q.delayed), refl)

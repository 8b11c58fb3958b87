-- ===== src/Queues/Delayed/Contents.antt =====
-- A predicate that holds of everything in a delayed queue goes on holding.
use v8app.Base.{
  ℕ, inl, inr, Bool, true, false, [], ◌∷◌, ltb, leb, All, All-append, Bool-cases, if_true, if_false,
}
use v8app.Queues.SafeQueue
use v8app.Queues.SafeQueue.{SafeQueue}
use v8app.Queues.Delayed.{DelayedQueue, Timed, emplace, move_ready, process_delayed}

module _ {ℓ κ} {A : Type ℓ} (P : A → Type κ) where
  pub emplace-All :
      (d : ℕ) (x : A) (m : Timed A)
      → P x
      → All (λ (e : ℕ × A). P e.1) m
      → All (λ (e : ℕ × A). P e.1) (emplace d x m)
  unfolding emplace
  emplace-All d x [] p a = (p, tt)
  emplace-All d x ((e, y) ∷ m) p a = elim (Bool-cases (ltb d e)) [
    | inl b ↦ rw (if_true (ltb d e) _ _ b) (p, a)
    | inr b ↦ rw (if_false (ltb d e) _ _ b) (a.0, emplace-All d x m p a.1)
  ]

  pub push-All :
      (x : A) (q : SafeQueue A) → P x → All P q.items → All P (SafeQueue.push_item x q).items
  unfolding SafeQueue.push_item
  push-All x q p a = elim (Bool-cases q.terminated) [
    | inl b ↦ rw (if_true q.terminated _ _ b) a
    | inr b ↦ rw (if_false q.terminated _ _ b) (All-append P q.items (x ∷ []) a (p, tt))
  ]

  move_ready-All :
      (now : ℕ) (m : Timed A) (q : SafeQueue A) (ready : Bool)
      → All (λ (e : ℕ × A). P e.1) m
      → All P q.items
      → All (λ (e : ℕ × A). P e.1) (move_ready now m q ready).0
        × All P (move_ready now m q ready).1.items
  unfolding move_ready
  move_ready-All now [] q ready a b = (tt, b)
  move_ready-All now ((d, x) ∷ m) q ready a b = elim (Bool-cases (leb d now)) [
    | inl c ↦
        rw (if_true (leb d now) _ _ c)
          (move_ready-All now m (SafeQueue.push_item x q) true a.1 (push-All x q a.0 b))
    | inr c ↦ rw (if_false (leb d now) _ _ c) (a, b)
  ]

  -- Everything that a queue holds.
  abbrev pub Holds : DelayedQueue A → Type κ
  Holds q = All P q.queue.items × All (λ (e : ℕ × A). P e.1) q.delayed

  pub process-Holds : (now : ℕ) (q : DelayedQueue A) → Holds q → Holds (process_delayed now q).0
  unfolding process_delayed
  process-Holds now q h = elim (Bool-cases q.queue.terminated) [
    | inl b ↦ rw (if_true q.queue.terminated _ _ b) h
    | inr b ↦
        let k = move_ready-All now q.delayed q.queue false h.1 h.0 in
        rw (if_false q.queue.terminated _ _ b) (k.1, k.0)
  ]

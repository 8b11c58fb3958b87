-- ===== src/Queues/Delayed/Order.antt =====
-- The multimap of delayed items: sorted by deadline, and first in, first out at one deadline.
use v8app.Base.{
  ℕ, ◌≤◌, ◌<◌, ◌≡◌, refl, List, [], ◌∷◌, ◌++◌, arith, ltb, ◌==◌, if◌then◌else◌, map, Bool-cases,
  inl, inr,
}
use mathlib.Core.List.{Perm}
use mathlib.Core.List.Perm
use v8app.Queues.Delayed.{Timed, emplace}

module _ {ℓ} {A : Type ℓ} where
  -- The deadlines rise from `lo` on.
  abbrev pub SortedFrom : ℕ → Timed A → Type 0
  SortedFrom lo [] = Unit {0}
  SortedFrom lo ((d, x) ∷ m) = (lo ≤ d) × SortedFrom d m

  pub SortedFrom-lower : (lo k : ℕ) (m : Timed A) → lo ≤ k → SortedFrom k m → SortedFrom lo m
  SortedFrom-lower lo k [] h s = tt
  SortedFrom-lower lo k ((d, x) ∷ m) h s = (omega arith, s.1)

  pub emplace-SortedFrom :
      (lo d : ℕ) (x : A) (m : Timed A) → lo ≤ d → SortedFrom lo m → SortedFrom lo (emplace d x m)
  unfolding emplace
  emplace-SortedFrom lo d x [] h s = omega arith
  emplace-SortedFrom lo d x ((e, y) ∷ m) h s =
      ground (arith, emplace-SortedFrom e d x m, SortedFrom-lower d e m)

  -- The items of one deadline, in their order.
  abbrev at_deadline : ℕ → Timed A → List A
  at_deadline t [] = []
  at_deadline t ((d, x) ∷ m) = if d == t then x ∷ at_deadline t m else at_deadline t m

  at_deadline_below : (t d : ℕ) (m : Timed A) → SortedFrom d m → t < d → at_deadline t m ≡ []
  at_deadline_below t d [] s h = refl
  at_deadline_below t d ((e, y) ∷ m) s h = ground (arith, at_deadline_below t e m s.1)

  -- A new item stands behind the items of its deadline, and in no other deadline's way.
  at_deadline-emplace :
      (lo t d : ℕ) (x : A) (m : Timed A)
      → SortedFrom lo m
      → at_deadline t (emplace d x m)
        ≡ (if d == t then at_deadline t m ++ (x ∷ []) else at_deadline t m)
  unfolding emplace
  at_deadline-emplace lo t d x [] s = ground arith
  at_deadline-emplace lo t d x ((e, y) ∷ m) s =
      ground (arith, at_deadline-emplace e t d x m s.1, at_deadline_below t e m s.1)

  abbrev pub values : Timed A → List A
  values = map (λ e. e.1)

  pub emplace-perm : (d : ℕ) (x : A) (m : Timed A) → Perm (values (emplace d x m)) (x ∷ values m)
  unfolding emplace
  emplace-perm d x [] = Perm.refl (x ∷ [])
  emplace-perm d x ((e, y) ∷ m) = elim (Bool-cases (ltb d e)) [
    | inl before ↦ rw before (Perm.refl (x ∷ y ∷ values m))
    | inr after ↦
        rw after (Perm.trans (Perm.cons y (emplace-perm d x m)) (Perm.swap x y (values m)))
  ]

-- ===== src/Runners/Tests.antt =====
-- A run of a foreground runner, and its theorem at concrete inputs.
use v8app.Base.{ℕ, refl, ◌==◌, if◌then◌else◌, List, [], ◌∷◌, All}
use v8app.Queues.Nestable.{Nestability, nestable, non_nestable}
use v8app.Runners.{new_runner}
use v8app.Runners.Nesting.{
  Call, post, post_non_nestable, get, begin_task, end_task, run, MayRun, run_nested,
}

-- Task 1 is the one that must not nest.
abbrev kind : ℕ → Nestability
kind x = if x == 1 then non_nestable else nestable

abbrev calls : List (ℕ × Call ℕ)
calls =
    (0, post_non_nestable 1)
    ∷ (0, post 2)
    ∷ (1, begin_task)
    ∷ (1, get)
    ∷ (2, get)
    ∷ (3, end_task)
    ∷ (4, get)
    ∷ []

run_nested_example : All (MayRun kind) (run 0 new_runner calls).0
run_nested_example = run_nested kind calls (refl, (refl, (tt, (tt, (tt, (tt, (tt, tt)))))))
